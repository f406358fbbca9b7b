-- ===== src/Routing/Table/Match.antt =====
-- Which route a request gets, and what the router reports where there is none.
use golite.Base.{
  ℕ, Bool, true, false, ◌&&◌, ◌||◌, Option, none, some, List, [], ◌∷◌, ◌++◌, ◌≡◌, ◌≢◌, inl, inr,
  refl, ◌∙◌, arith, if◌then◌else◌, get_elem?, is_some, Bool-cases, Option-cases, All, Str, eq_iff,
  Map, has, has-append,
}
use golite.Routing.Route.{has_method}
use golite.Routing.Table.{
  Kernel, hits, responds, methods_of, find_route, add_methods, collect_allowed, match_route,
}

or_false : (b : Bool) → (b || false) ≡ b
or_false b = ground arith

or_has_nil : (b : Bool) (m : Str) → (b || has [] m) ≡ b
unfolding has
or_has_nil b m = ground arith

module _ {H M : Type 0} (k : Kernel H M) (method path : Str) where
  -- A route that responds to the method and whose pattern matches the path.
  abbrev pub Serves : ℕ → Type 0
  Serves r = (responds k method r ≡ true) × (hits k path r ≢ none)

  -- The route is the first one of the table that serves the request.
  pub data IsFirst (r : ℕ) (params : Map Str) : List ℕ → Type 0 where
    here :
        {rest : List ℕ}
        → responds k method r ≡ true
        → hits k path r ≡ some params
        → IsFirst r params (r ∷ rest)
    later :
        {s : ℕ} {rest : List ℕ} → ¬ Serves s → IsFirst r params rest → IsFirst r params (s ∷ rest)

  find_route-IsFirst :
      (routes : List ℕ) (r : ℕ) (params : Map Str)
      → find_route k method path routes ≡ some (r, params)
      → IsFirst r params routes
  unfolding find_route
  find_route-IsFirst [] r params h = cc
  find_route-IsFirst (s ∷ routes) r params h = elim (Bool-cases (responds k method s)) [
    | inl yes_method ↦ elim (Option-cases (hits k path s)) [
      | inl missed ↦
          later (λ p. p.1 missed)
            (find_route-IsFirst routes r params (rw (yes_method, missed) at h))
      | inr (found, hit) ↦
          let e : ◌≡◌ {A = Option (ℕ × Map Str)} (some (s, found)) (some (r, params)) =
            rw (yes_method, hit) at h in
          let same : s ≡ r = cc in
          let same_params : found ≡ params = cc in rw (← same, ← same_params) (here yes_method hit)
    ]
    | inr no_method ↦ later (λ p. cc) (find_route-IsFirst routes r params (rw no_method at h))
  ]

  find_route-none :
      (routes : List ℕ) → find_route k method path routes ≡ none → All (λ s. ¬ Serves s) routes
  unfolding find_route
  find_route-none [] h = tt
  find_route-none (s ∷ routes) h = elim (Bool-cases (responds k method s)) [
    | inl yes_method ↦ elim (Option-cases (hits k path s)) [
      | inl missed ↦ (λ p. p.1 missed, find_route-none routes (rw (yes_method, missed) at h))
      | inr (found, hit) ↦ absurd (ground arith)
    ]
    | inr no_method ↦ (λ p. cc, find_route-none routes (rw no_method at h))
  ]

  -- Whether some route of the list matches the path and responds to a method.
  abbrev pub allows : Str → List ℕ → Bool
  allows m [] = false
  allows m (r ∷ routes) = (is_some (hits k path r) && responds k m r) || allows m routes

  abbrev pub matches : List ℕ → Bool
  matches [] = false
  matches (r ∷ routes) = is_some (hits k path r) || matches routes

  has-add_methods :
      (ms allowed : List Str) (m : Str)
      → has (add_methods ms allowed) m ≡ (has ms m || has allowed m)
  unfolding add_methods has
  has-add_methods [] allowed m = refl
  has-add_methods (x ∷ ms) allowed m = ground (
    arith,
    has-add_methods ms allowed m,
    has-add_methods ms (allowed ++ (x ∷ [])) m,
    has-append m allowed (x ∷ []),
    eq_iff x m,
  )

  methods_of-responds :
      (r : ℕ) (m : Str) → has (methods_of (get_elem? k.store r)) m ≡ responds k m r
  methods_of-responds r m = elim (Option-cases (get_elem? k.store r)) [
    | inl e ↦ rw e (unfold has in refl)
    | inr (rt, e) ↦ rw e (unfold has_method in refl)
  ]

  or_swap : (a b c : Bool) → (b || (a || c)) ≡ ((a || b) || c)
  or_swap a b c = ground arith

  allowed_step :
      (hit rest : Bool) (ms allowed : List Str) (m : Str) {b : Bool}
      → has ms m ≡ b
      → (rest || has (if hit then add_methods ms allowed else allowed) m)
        ≡ (((hit && b) || rest) || has allowed m)
  allowed_step hit rest ms allowed m e = ground (arith, has-add_methods ms allowed m)

  collect_allowed_lem :
      (routes : List ℕ) (matched : Bool) (allowed : List Str) (m : Str)
      → ((collect_allowed k path routes matched allowed).0 ≡ (matches routes || matched))
        × (has (collect_allowed k path routes matched allowed).1 m
            ≡ (allows m routes || has allowed m))
  unfolding collect_allowed
  collect_allowed_lem [] matched allowed m = (refl, refl)
  collect_allowed_lem (r ∷ routes) matched allowed m =
      let hit : Bool = is_some (hits k path r) in
      let ms = methods_of (get_elem? k.store r) in
      let (a, b) =
        collect_allowed_lem routes (hit || matched)
          (if hit then add_methods ms allowed else allowed) m in
      (
        a ∙ or_swap hit (matches routes) matched,
        b ∙ allowed_step hit (allows m routes) ms allowed m (methods_of-responds r m),
      )

  not_allowed : (routes : List ℕ) → All (λ s. ¬ Serves s) routes → allows method routes ≡ false
  not_allowed [] h = refl
  not_allowed (r ∷ routes) h = elim (Bool-cases (responds k method r)) [
    | inr e ↦ rw e (ground (arith, not_allowed routes h.1))
    | inl e ↦ elim (Option-cases (hits k path r)) [
      | inl f ↦ rw (e, f) (not_allowed routes h.1)
      | inr (params, f) ↦ absurd (h.0 (e, λ g. cc))
    ]
  ]

  -- What `match` may return.
  pub data Outcome : Option (ℕ × Map Str) × Bool × List Str → Type 0 where
    found :
        {r : ℕ} {params : Map Str} {allowed : List Str}
        → IsFirst r params k.routes
        → Outcome (some (r, params), true, allowed)
    missed :
        {matched : Bool} {allowed : List Str}
        → All (λ s. ¬ Serves s) k.routes
        → matched ≡ matches k.routes
        → ((m : Str) → has allowed m ≡ allows m k.routes)
        → has allowed method ≡ false
        → Outcome (none, matched, allowed)

  -- A route that `match` finds is the first of the table that responds to the method and whose
  -- pattern matches the path, with the parameters of that match. Where it finds none, no route of
  -- the table does both; the path is reported as matched exactly when some route's pattern matches
  -- it, and the allowed methods are exactly those of the routes whose pattern matches it, among
  -- which the method of the request is not.
  pub match_route-Outcome : Outcome (match_route k method path)
  unfolding match_route
  match_route-Outcome = elim (Option-cases (find_route k method path k.routes)) [
    | inr ((r, params), e) ↦ rw (e, match_route) (found (find_route-IsFirst k.routes r params e))
    | inl e ↦
        let none_serves = find_route-none k.routes e in
        let all_methods = λ (m : Str). collect_allowed_lem k.routes false [] m in
        rw (e, match_route)
          (missed none_serves ((all_methods method).0 ∙ or_false (matches k.routes))
            (λ m. (all_methods m).1 ∙ or_has_nil (allows m k.routes) m)
            ((all_methods method).1
              ∙ or_has_nil (allows method k.routes) method
              ∙ not_allowed k.routes none_serves))
  ]

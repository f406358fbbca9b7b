-- ===== src/Middleware/Resolve/Complete.antt =====
-- app/Http/Kernel.go: which middleware resolveRouteMiddleware gives a route.
use golite.Base.{
  true, false, inl, inr, ◌⊎◌, none, some, List, [], ◌∷◌, ◌++◌, ◌≡◌, refl, arith, Bool-cases,
  Option-cases, All, All-append, All-mono, Str, ◌==◌, eq_refl, has,
}
use golite.Middleware.Spec.{parse_middleware_spec}
use golite.Middleware.Expand.{expand_middleware_names}
use golite.Middleware.Expand.Fuel.{expand_middleware_names_total}
use golite.Middleware.Priority.{Resolved, sort_by_priority, All-sort_ranked}
use golite.Middleware.Priority.Ordered.{IsOrdered, named, sort_by_priority_lem}
use golite.Middleware.Resolve.{Registry, lookup_middleware, resolve_specs, resolve_route_middleware}

module _ {M : Type 0} where
  -- What a spec may contribute.
  abbrev pub IsPermitted : Registry M → List Str → Resolved M → Type 0
  IsPermitted k without r = (has without r.name ≡ false) × (lookup_middleware k r.name ≡ some r.mw)

  abbrev pub Among : Resolved M → List (Resolved M) → Type 0
  Among x [] = ⊥
  Among x (y ∷ ys) = (x ≡ y) ⊎ Among x ys

  -- The spec's name is excluded, or stands for nothing, or its middleware with its parameters is
  -- in the list.
  abbrev pub Serves : Registry M → List Str → List (Resolved M) → Str → Type 0
  Serves k without out spec =
      (has without (parse_middleware_spec spec).0 ≡ true)
      ⊎ (lookup_middleware k (parse_middleware_spec spec).0 ≡ none)
      ⊎ ((m : M) × (lookup_middleware k (parse_middleware_spec spec).0 ≡ some m)
          × Among
              (record {
                name = (parse_middleware_spec spec).0;
                mw = m;
                params = (parse_middleware_spec spec).1;
              })
              out)

  Serves-mono :
      (k : Registry M) (without : List Str) (xs ys : List (Resolved M))
      → ((x : Resolved M) → Among x xs → Among x ys)
      → (spec : Str) → Serves k without xs spec
      → Serves k without ys spec
  Serves-mono k without xs ys more spec (inl h) = inl h
  Serves-mono k without xs ys more spec (inr (inl h)) = inr (inl h)
  Serves-mono k without xs ys more spec (inr (inr (m, e, h))) = inr (inr (m, e, more _ h))

  Among-left : (x : Resolved M) (xs ys : List (Resolved M)) → Among x xs → Among x (xs ++ ys)
  Among-left x [] ys h = absurd h
  Among-left x (y ∷ xs) ys (inl e) = inl e
  Among-left x (y ∷ xs) ys (inr h) = inr (Among-left x xs ys h)

  Among-right : (x : Resolved M) (xs ys : List (Resolved M)) → Among x ys → Among x (xs ++ ys)
  Among-right x [] ys h = h
  Among-right x (y ∷ xs) ys h = inr (Among-right x xs ys h)

  Among-named : (x : Resolved M) (xs : List (Resolved M)) → Among x xs → Among x (named x.name xs)
  Among-named x [] h = absurd h
  Among-named x (y ∷ xs) (inl e) =
      let same : (y.name == x.name) ≡ true = rw e (eq_refl y.name) in rw same (inl e)
  Among-named x (y ∷ xs) (inr h) = elim (Bool-cases (y.name == x.name)) [
    | inl e ↦ rw e (inr (Among-named x xs h))
    | inr e ↦ rw e (Among-named x xs h)
  ]

  named-Among :
      (x : Resolved M) (n : Str) (xs : List (Resolved M)) → Among x (named n xs) → Among x xs
  named-Among x n [] h = h
  named-Among x n (y ∷ xs) h = elim (Bool-cases (y.name == n)) [
    | inl e ↦ elim (rw e at h) [ inl f ↦ inl f | inr f ↦ inr (named-Among x n xs f) ]
    | inr e ↦ inr (named-Among x n xs (rw e at h))
  ]

  Among-sort_by_priority :
      (priority : List Str) (xs : List (Resolved M)) (x : Resolved M)
      → Among x xs
      → Among x (sort_by_priority priority xs)
  Among-sort_by_priority priority xs x h =
      let (_, same, _) = sort_by_priority_lem priority xs x.name in
      named-Among x x.name (sort_by_priority priority xs) (rw same (Among-named x xs h))

  -- One turn of the loop.
  abbrev Turns : Registry M → List Str → Str → List Str → Type 0
  Turns k without spec specs =
      Serves k without (resolve_specs k without (spec ∷ specs)) spec
      × ((x : Resolved M)
          → Among x (resolve_specs k without specs)
          → Among x (resolve_specs k without (spec ∷ specs)))

  resolve_specs-cons :
      (k : Registry M) (without : List Str) (spec : Str) (specs : List Str)
      → Turns k without spec specs
  unfolding resolve_specs
  resolve_specs-cons k without spec specs =
      elim (Bool-cases (has without (parse_middleware_spec spec).0)) [
        | inl e ↦ (inl e, λ x h. rw (resolve_specs, e) h)
        | inr e ↦ elim (Option-cases (lookup_middleware k (parse_middleware_spec spec).0)) [
          | inl f ↦ (inr (inl f), λ x h. rw (resolve_specs, e, f) h)
          | inr (m, f) ↦ (
            inr (inr (m, f, rw (resolve_specs, e, f) (inl refl))),
            λ x h. rw (resolve_specs, e, f) (inr h),
          )
        ]
      ]

  resolve_specs-Serves :
      (k : Registry M) (without specs : List Str)
      → All (Serves k without (resolve_specs k without specs)) specs
  resolve_specs-Serves k without [] = tt
  resolve_specs-Serves k without (spec ∷ specs) =
      let (served, more) = resolve_specs-cons k without spec specs in
      (
        served,
        All-mono _ _ (Serves-mono k without _ _ more) specs (resolve_specs-Serves k without specs),
      )

  resolve_specs-IsPermitted :
      (k : Registry M) (without specs : List Str)
      → All (IsPermitted k without) (resolve_specs k without specs)
  unfolding resolve_specs
  resolve_specs-IsPermitted k without [] = tt
  resolve_specs-IsPermitted k without (spec ∷ specs) =
      ground (arith, resolve_specs-IsPermitted k without specs)

  All-sort_by_priority {κ} :
      (P : Resolved M → Type κ) (priority : List Str) (xs : List (Resolved M))
      → All P xs
      → All P (sort_by_priority priority xs)
  unfolding sort_by_priority
  All-sort_by_priority P [] xs h = h
  All-sort_by_priority P (p ∷ ps) xs h = All-sort_ranked (p ∷ ps) P xs h

  every_Among : (xs : List (Resolved M)) → All (λ x. Among x xs) xs
  every_Among [] = tt
  every_Among (x ∷ xs) = (inl refl, All-mono _ _ (λ y h. inr h) xs (every_Among xs))

  -- The names of a route always expand, and its middleware are always resolved, in an order that
  -- the priority list allows. Each expanded spec contributes its middleware with its parameters,
  -- unless the route excludes its name or the name stands for nothing, and each middleware that was
  -- attached directly is there. Nothing else is: an entry was attached directly, or has a name that
  -- is not excluded and the middleware that it stands for. `Direct` is any property of the direct
  -- entries.
  pub resolve_route_middleware_lem :
      (k : Registry M) (names without : List Str) (direct : List (Resolved M))
      (Direct : Resolved M → Type 0)
      → All Direct direct
      → (out : List (Resolved M)) × (specs : List Str) × (resolve_route_middleware k names without
            direct
          ≡ some out)
        × (expand_middleware_names k.middleware_groups names ≡ some (specs, []))
        × IsOrdered k.middleware_priority out
        × All (Serves k without out) specs
        × All (λ d. Among d out) direct
        × All (λ r. Direct r ⊎ IsPermitted k without r) out
  unfolding resolve_route_middleware
  resolve_route_middleware_lem k names without direct Direct h =
      let (specs, e) = expand_middleware_names_total k.middleware_groups names in
      let chosen = resolve_specs k without specs ++ direct in
      let sorted = Among-sort_by_priority k.middleware_priority chosen in
      (
        sort_by_priority k.middleware_priority chosen,
        specs,
        rw e refl,
        e,
        (sort_by_priority_lem k.middleware_priority chosen []).0,
        All-mono _ _
            (Serves-mono k without _ _
              (λ x m. sorted x (Among-left x (resolve_specs k without specs) direct m)))
            specs (resolve_specs-Serves k without specs),
        All-mono _ _ (λ x m. sorted x (Among-right x (resolve_specs k without specs) direct m))
            direct (every_Among direct),
        All-sort_by_priority _ k.middleware_priority chosen (
            All-append _ (resolve_specs k without specs) direct
              (All-mono _ _ (λ r p. inr p) _ (resolve_specs-IsPermitted k without specs))
              (All-mono _ _ (λ r p. inl p) direct h)),
      )

-- ===== src/Resource/OneRoute.antt =====
-- One turn of the loop of register, on the route table.
use golite.Base.{
  ℕ, Option, some, List, [], ◌∷◌, ◌++◌, map, ◌≡◌, refl, sym, ap, ◌∙◌, inl, inr, Option-cases,
  if◌then◌else◌, ◌>>=◌, >>=-eq-some, length, get_elem?, set, Str, str, is_empty, insert,
}
use golite.Middleware.Spec.{Arg, one, flatten_middleware_names}
use golite.Routing.Uri.{join_uri, normalize_methods}
use golite.Routing.Pattern.{Matcher, compile_pattern}
use golite.Routing.Segments.{parse_segments}
use golite.Routing.Route.{Route, recompile, with_names}
use golite.Routing.Table.{
  Kernel, add_route, add_full_route, blank_route, append_route, update_route, name_route,
}
use golite.Resource.{ResourceAction}
use golite.Resource.Controllers.{Controller}
use golite.Resource.Register.{
  attach_names, finish_action, apply_controller_middleware, register_action,
}

-- What a request and a URL see of a route.
pub record Card (H : Type 0) : Type 0 where
  pub methods : List Str
  pub uri : Str
  pub name : Str
  pub handler : H

abbrev pub full_uri : Str → Str → Str
full_uri prefix uri =
    let full = join_uri (prefix ∷ uri ∷ []) in if is_empty full then str "/" else str "/" ++ full

module _ {A : Type 0} where
  get_elem?-last : (xs : List A) (x : A) → get_elem? (xs ++ (x ∷ [])) (length xs) ≡ some x
  get_elem?-last [] x = refl
  get_elem?-last (y ∷ xs) x = get_elem?-last xs x

  set-last : (xs : List A) (x y : A) → set (xs ++ (x ∷ [])) (length xs) y ≡ xs ++ (y ∷ [])
  set-last [] x y = refl
  set-last (z ∷ xs) x y = ap (λ zs. z ∷ zs) (set-last xs x y)

module _ {H M : Type 0} where
  abbrev pub card : Route H M → Card H
  card r = record { methods = r.methods; uri = r.uri; name = r.name; handler = r.handler }

  -- One more route, at the end of the store and of the table.
  pub record Adds (k k' : Kernel H M) (p : ℕ) (c : Card H) (name_prefix : Str) : Type 0 where
    pub route : Route H M
    pub pointer : p ≡ length k.store
    pub store : k'.store ≡ k.store ++ (route ∷ [])
    pub routes : k'.routes ≡ k.routes ++ (p ∷ [])
    pub card_is : card route ≡ c
    pub prefix_is : route.name_prefix ≡ name_prefix

  module _ (regex : Str → Option Matcher) where
    add_route-Adds :
        (methods : List Str) (uri : Str) (h : H) (prefix name_prefix : Str) (middleware : List Str)
        (k k' : Kernel H M) (p : ℕ)
        → add_route regex methods uri h prefix name_prefix middleware k ≡ some (k', p)
        → Adds k k' p
            (record {
              methods = normalize_methods methods;
              uri = full_uri prefix uri;
              name = [];
              handler = h;
            })
            name_prefix
    unfolding add_route add_full_route recompile
    add_route-Adds methods uri h prefix name_prefix middleware k k' p e =
        let full = join_uri (prefix ∷ uri ∷ []) in
        let blank = blank_route full methods h name_prefix middleware in
        let (route, e1, f1) =
          >>=-eq-some (parse_segments full >>= λ segments. recompile regex (blank segments))
            (λ route. some (append_route route k)) e in
        let (segments, e2, f2) =
          >>=-eq-some (parse_segments full) (λ segments. recompile regex (blank segments)) e1 in
        let (pieces, e3, f3) =
          >>=-eq-some (compile_pattern regex segments [])
            (λ ps. some (record (blank segments) { regex = some ps })) f2 in
        let same : record (blank segments) { regex = some pieces } ≡ route = cc in
        let end : append_route route k ≡ (k', p) = cc in
        record {
          route = route;
          pointer = sym (ap (λ x. x.1) end);
          store = sym (ap (λ x. x.0.store) end);
          routes =
              sym (ap (λ x. x.0.routes) end) ∙ ap (λ q. k.routes ++ (q ∷ [])) (ap (λ x. x.1) end);
          card_is = sym (ap card same);
          prefix_is = sym (ap (λ r. r.name_prefix) same);
        }

    -- A fluent method on the last route.
    update_route-last :
        (f : Route H M → Option (Route H M)) (k k' : Kernel H M) (rs : List (Route H M))
        (r : Route H M)
        → k.store ≡ rs ++ (r ∷ [])
        → update_route (length rs) f k ≡ some k'
        → (r' : Route H M) × (f r ≡ some r') × (k' ≡ record k { store = rs ++ (r' ∷ []) })
    unfolding update_route
    update_route-last f k k' rs r e h =
        let (q, a, b) =
          >>=-eq-some (get_elem? k.store (length rs))
            (λ r. f r >>= λ r'. some (record k { store = set k.store (length rs) r' })) h in
        let (r', c, d) =
          >>=-eq-some (f q) (λ r'. some (record k { store = set k.store (length rs) r' })) b in
        let here : r ≡ q = cc (get_elem?-last rs r, rw e at a) in
        let done : record k { store = set k.store (length rs) r' } ≡ k' = cc in
        (r', rw here c, sym done ∙ ap (λ st. record k { store = st }) (rw e (set-last rs r r')))

    name_route-last :
        (name : Str) (k k' : Kernel H M) (rs : List (Route H M)) (r : Route H M)
        → k.store ≡ rs ++ (r ∷ [])
        → name_route (length rs) name k ≡ some k'
        → (k'.store ≡ rs ++ (record r { name = r.name_prefix ++ name } ∷ []))
          × (k'.routes ≡ k.routes)
    unfolding name_route
    name_route-last name k k' rs r e h =
        let (q, a, b) = >>=-eq-some (get_elem? k.store (length rs)) _ h in
        let here : r ≡ q = cc (get_elem?-last rs r, rw e at a) in
        let renamed = record q { name = q.name_prefix ++ name } in
        let done : record k {
          store = set k.store (length rs) renamed;
          named_routes = insert (q.name_prefix ++ name) (length rs) k.named_routes;
        }
            ≡ k' =
          cc in
        (
          sym (ap (λ x. x.store) done)
              ∙ ap (λ st. set st (length rs) renamed) e
              ∙ set-last rs r renamed
              ∙ ap (λ x. rs ++ (record x { name = x.name_prefix ++ name } ∷ [])) (sym here),
          sym (ap (λ x. x.routes) done),
        )

    with_names-card :
        (names : List Arg) (r r' : Route H M) → with_names names r ≡ some r' → card r' ≡ card r
    unfolding with_names
    with_names-card names r r' h =
        let (flat, a, b) =
          >>=-eq-some (flatten_middleware_names names)
            (λ flat. some (record r { middleware_names = r.middleware_names ++ flat })) h in
        let done : record r { middleware_names = r.middleware_names ++ flat } ≡ r' = cc in
        sym (ap card done)

    -- The last route, with another list of middleware.
    abbrev pub Keeps : Kernel H M → Kernel H M → List (Route H M) → Route H M → Type 0
    Keeps k k' rs r =
        (r' : Route H M) × (k'.store ≡ rs ++ (r' ∷ []))
        × (k'.routes ≡ k.routes)
        × (card r' ≡ card r)

    apply-Keeps :
        (c : Controller H) (name : Str) (k k' : Kernel H M) (rs : List (Route H M)) (r : Route H M)
        → k.store ≡ rs ++ (r ∷ [])
        → apply_controller_middleware regex (length rs) c name k ≡ some k'
        → Keeps k k' rs r
    unfolding apply_controller_middleware
    apply-Keeps c name k k' rs r e h = elim (Option-cases c.declares) [
      | inl f ↦
          let same : k ≡ k' = cc (rw (apply_controller_middleware, f) at h) in
          (r, ap (λ x. x.store) (sym same) ∙ e, ap (λ x. x.routes) (sym same), refl)
      | inr (names_for, f) ↦ attached (names_for name) (rw (apply_controller_middleware, f) at h)
    ]
      where
        attached :
            (names : List Str) → attach_names regex names (length rs) k ≡ some k' → Keeps k k' rs r
        attached [] h =
            let same : k ≡ k' = cc in
            (r, ap (λ x. x.store) (sym same) ∙ e, ap (λ x. x.routes) (sym same), refl)
        attached (n ∷ names) h =
            let (r', a, b) = update_route-last (with_names (map one (n ∷ names))) k k' rs r e h in
            (
              r',
              ap (λ x. x.store) b,
              ap (λ x. x.routes) b,
              with_names-card (map one (n ∷ names)) r r' a,
            )

    pub register_action-Adds :
        (c : Controller H) (prefix name_prefix : Str) (middleware : List Str) (uri full : Str)
        (a : ResourceAction) (h : H) (k k' : Kernel H M) (p : ℕ)
        → register_action regex c prefix name_prefix middleware uri full (a, h) k ≡ some (k', p)
        → (r : Route H M) × (p ≡ length k.store)
          × (k'.store ≡ k.store ++ (r ∷ []))
          × (k'.routes ≡ k.routes ++ (p ∷ []))
          × (card r ≡ record {
            methods = normalize_methods a.methods;
            uri = full_uri prefix uri;
            name = name_prefix ++ full;
            handler = h;
          })
    unfolding register_action
    register_action-Adds c prefix name_prefix middleware uri full a h k k' p e =
        let (made, b, f) =
          >>=-eq-some (add_route regex a.methods uri h prefix name_prefix middleware k)
            (finish_action regex c a.name full) e in
        let x = add_route-Adds a.methods uri h prefix name_prefix middleware k made.0 made.1 b in
        let (k2, b2, f2) =
          >>=-eq-some (name_route made.1 full made.0)
            (λ k2. apply_controller_middleware regex made.1 c a.name k2 >>= λ k3. some (k3, made.1))
            f in
        let (k3, b3, f3) =
          >>=-eq-some (apply_controller_middleware regex made.1 c a.name k2)
            (λ k3. some (k3, made.1)) f2 in
        let (st, rs) =
          name_route-last full made.0 k2 k.store x.route x.store (rw (← x.pointer) b2) in
        let (r, st', rs', same) = apply-Keeps c a.name k2 k3 k.store _ st (rw (← x.pointer) b3) in
        let after : Kernel H M × ℕ = (k3, made.1) in
        let done : after ≡ (k', p) = cc in
        (
          r,
          sym (ap (λ d. d.1) done) ∙ x.pointer,
          sym (ap (λ d. d.0.store) done) ∙ st',
          sym (ap (λ d. d.0.routes) done)
              ∙ rs'
              ∙ rs
              ∙ x.routes
              ∙ ap (λ q. k.routes ++ (q ∷ [])) (ap (λ d. d.1) done),
          same
              ∙ ap {A = Card H} {B = Card H} (λ d. record d { name = x.route.name_prefix ++ full })
                  x.card_is
              ∙ ap {A = Str} {B = Card H}
                  (λ n. record {
                    methods = normalize_methods a.methods;
                    uri = full_uri prefix uri;
                    name = n ++ full;
                    handler = h;
                  })
                  x.prefix_is,
        )

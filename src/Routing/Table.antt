-- ===== src/Routing/Table.antt =====
-- app/Http/Kernel.go: the route table of Kernel, its named routes and its groups; removeRoutes of
-- app/Http/Resource.go. A *RouteDefinition is its index in the store of all routes ever made, so
-- the table, the names and a caller share the route that a fluent method changes.
pub mod Match
pub mod Groups
use golite.Base.{
  ℕ, suc, Bool, true, false, not, ◌&&◌, ◌||◌, Option, none, some, List, [], ◌∷◌, ◌++◌, ◌≡◌,
  if◌then◌else◌, nat_eq, ◌>>=◌, length, get_elem?, set, keep, any, is_some, Str, str, is_empty,
  ◌==◌, Map, lookup, insert, has, add,
}
use golite.Middleware.Spec.{Arg, flatten_middleware_names}
use golite.Middleware.Resolve.{Registry}
use golite.Routing.Uri.{join_uri, normalize_methods}
use golite.Routing.Segments.{Segment, parse_segments}
use golite.Routing.Pattern.{Matcher, match_path}
use golite.Routing.Route.{Route, recompile, has_method}
use golite.Routing.Url.{build_url}

pub record Kernel (H M : Type 0) : Type 0 where
  pub store : List (Route H M)
  pub routes : List ℕ
  pub named_routes : Map ℕ
  pub fallback : Option H
  pub global_middleware : List M
  pub registry : Registry M

abbrev pub all_methods : List Str
all_methods = str "GET" ∷ str "POST" ∷ str "PUT" ∷ str "PATCH" ∷ str "DELETE" ∷ str "OPTIONS" ∷ []

-- The inner loop over a route's methods: the list of allowed methods is the set of those seen.
unfoldable pub add_methods : List Str → List Str → List Str
add_methods [] allowed = allowed
add_methods (m ∷ methods) allowed =
    add_methods methods (if has allowed m then allowed else allowed ++ (m ∷ []))

abbrev pub among : ℕ → List ℕ → Bool
among p ps = any (nat_eq p) ps

-- Dropping the named routes that point to a removed route.
unfoldable pub delete_named : List ℕ → Map ℕ → Map ℕ
delete_named removed [] = []
delete_named removed ((name, p) ∷ m) =
    let rest = delete_named removed m in if among p removed then rest else (name, p) ∷ rest

module _ {H M : Type 0} where
  -- The loop of `match` over the routes that respond to the method.
  abbrev path_params : Option (Route H M) → Str → Option (Map Str)
  path_params none path = none
  path_params (some r) path = match_path r.regex r.defaults path

  abbrev method_of : Option (Route H M) → Str → Bool
  method_of none method = false
  method_of (some r) method = has_method r method

  abbrev methods_of : Option (Route H M) → List Str
  methods_of none = []
  methods_of (some r) = r.methods

  abbrev pub hits : Kernel H M → Str → ℕ → Option (Map Str)
  hits k path r = path_params (get_elem? k.store r) path

  abbrev pub responds : Kernel H M → Str → ℕ → Bool
  responds k method r = method_of (get_elem? k.store r) method

  unfoldable pub find_route : Kernel H M → Str → Str → List ℕ → Option (ℕ × Map Str)
  find_route k method path [] = none
  find_route k method path (r ∷ routes) =
      let rest = find_route k method path routes in
      if responds k method r
      then (elim (hits k path r) [ some params ↦ some (r, params) | none ↦ rest ])
      else rest

  unfoldable pub collect_allowed : Kernel H M → Str → List ℕ → Bool → List Str → Bool × List Str
  unfolding add_methods
  collect_allowed k path [] matched allowed = (matched, allowed)
  collect_allowed k path (r ∷ routes) matched allowed =
      let hit : Bool = is_some (hits k path r) in
      collect_allowed k path routes (hit || matched)
        (if hit then add_methods (methods_of (get_elem? k.store r)) allowed else allowed)

  -- The route with its parameters; whether the path matched; the allowed methods.
  unfoldable pub match_route : Kernel H M → Str → Str → Option (ℕ × Map Str) × Bool × List Str
  match_route k method path = elim (find_route k method path k.routes) [
    | some found ↦ (some found, true, [])
    | none ↦
        let (matched, allowed) = collect_allowed k path k.routes false [] in
        (none, matched, allowed)
  ]

  unfoldable pub update_route :
      ℕ → (Route H M → Option (Route H M)) → Kernel H M → Option (Kernel H M)
  update_route p f k =
      get_elem? k.store p >>= λ r. f r >>= λ r'. some (record k { store = set k.store p r' })

  -- The route that addRoute makes, before its pattern is compiled.
  abbrev pub blank_route : Str → List Str → H → Str → List Str → List Segment → Route H M
  blank_route full methods handler name_prefix group_middleware segments = record {
    methods = normalize_methods methods;
    uri = if is_empty full then str "/" else str "/" ++ full;
    segments = segments;
    handler = handler;
    name_prefix = name_prefix;
    name = [];
    wheres = [];
    defaults = [];
    middleware_names = group_middleware;
    without_names = [];
    direct_middleware = [];
    regex = none;
  }

  abbrev pub append_route : Route H M → Kernel H M → Kernel H M × ℕ
  append_route route k = (
    record k { store = k.store ++ (route ∷ []); routes = k.routes ++ (length k.store ∷ []) },
    length k.store,
  )

  -- The body of addRoute for the joined URI. `none` is a panic; the result is the new route's
  -- pointer.
  unfoldable pub add_full_route :
      (Str → Option Matcher)
      → Str
      → List Str
      → H
      → Str
      → List Str
      → Kernel H M
      → Option (Kernel H M × ℕ)
  add_full_route regex full methods handler name_prefix group_middleware k =
      parse_segments full
      >>= (λ segments.
          recompile regex (blank_route full methods handler name_prefix group_middleware segments))
      >>= λ route. some (append_route route k)

  unfoldable pub add_route :
      (Str → Option Matcher)
      → List Str
      → Str
      → H
      → Str
      → Str
      → List Str
      → Kernel H M
      → Option (Kernel H M × ℕ)
  unfolding add_full_route
  add_route regex methods uri handler prefix name_prefix group_middleware k =
      add_full_route regex (join_uri (prefix ∷ uri ∷ [])) methods handler name_prefix
        group_middleware k

  -- RouteDefinition.Name, with registerNamedRoute.
  unfoldable pub name_route : ℕ → Str → Kernel H M → Option (Kernel H M)
  name_route p name k = get_elem? k.store p >>= λ r.
      let full = r.name_prefix ++ name in
      some (record k {
        store = set k.store p (record r { name = full });
        named_routes = insert full p k.named_routes;
      })

  unfoldable pub register_fallback : H → Kernel H M → Kernel H M
  register_fallback handler k = record k { fallback = some handler }

  -- Kernel.Route: "" for an unknown name.
  abbrev url_of : Option (Route H M) → Map Str → Str
  url_of none params = []
  url_of (some r) params = build_url r.segments r.defaults params

  unfoldable pub route_url : Kernel H M → Str → Map Str → Str
  route_url k name params = elim (lookup name k.named_routes) [
    | none ↦ []
    | some p ↦ url_of (get_elem? k.store p) params
  ]

  unfoldable pub remove_routes : List ℕ → Kernel H M → Kernel H M
  unfolding delete_named
  remove_routes [] k = k
  remove_routes (r ∷ rs) k = record k {
    routes = keep (λ p. not (among p (r ∷ rs))) k.routes;
    named_routes = delete_named (r ∷ rs) k.named_routes;
  }

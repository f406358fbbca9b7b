-- ===== src/Dispatch.antt =====
-- app/Http/Kernel.go: Kernel.dispatch, which is the routing of the pipeline, and the methods of
-- Kernel that register middleware. What a request says and what is done to its response are those
-- of the argument `x`.
pub mod Answer
pub mod Tests
use golite.Base.{
  Bool, true, false, Option, none, some, List, [], ◌∷◌, ◌++◌, map, if◌then◌else◌, nat_eq, ◌>>=◌,
  get_elem?, Str, str, Map, lookup, insert, ℕ,
}
use golite.Middleware.Spec.{Arg, flatten_middleware_names}
use golite.Middleware.Expand.{Groups}
use golite.Middleware.Priority.{Resolved}
use golite.Middleware.Resolve.{Service, resolve_route_middleware}
use golite.Routing.Pattern.{Matcher}
use golite.Routing.Route.{Route}
use golite.Routing.Table.{Kernel, all_methods, match_route, add_route}
use golite.Pipeline.{Prog, done, act, panic, Decision, splice, direct}

pub record Exchange (S : Type 0) : Type 0 where
  pub method : S → Str
  pub path : S → Str
  pub set_params : Map Str → S → S
  -- the Allow header and the 405 response
  pub not_allowed : List Str → S → S
  -- the 404 response
  pub not_found : S → S

module _ {S M : Type 0} (x : Exchange S) where
  abbrev pub entry : Resolved M → M × List Str
  entry r = (r.mw, r.params)

  -- The expansion behind it always ends; `none` does not occur.
  abbrev pub entries : Option (List (Resolved M)) → List (M × List Str)
  entries none = []
  entries (some rs) = map entry rs

  unfoldable pub route_chain : Kernel (Prog S) M → Route (Prog S) M → List (M × List Str)
  route_chain k r =
      entries
        (resolve_route_middleware k.registry r.middleware_names r.without_names r.direct_middleware)

  abbrev pub fallen_back : Option (Prog S) → Decision S M
  fallen_back none = direct (act x.not_found done)
  fallen_back (some handler) = direct handler

  abbrev pub unmatched : Kernel (Prog S) M → Bool → List Str → Decision S M
  unmatched k true (m ∷ ms) = direct (act (x.not_allowed (m ∷ ms)) done)
  unmatched k true [] = fallen_back k.fallback
  unmatched k false allowed = fallen_back k.fallback

  -- A route that is no pointer into the store would be a nil pointer.
  abbrev pub routed : Kernel (Prog S) M → Map Str → Option (Route (Prog S) M) → Decision S M
  routed k params none = direct panic
  routed k params (some r) = splice (x.set_params params) (route_chain k r) r.handler

  abbrev pub decided : Kernel (Prog S) M → Option (ℕ × Map Str) × Bool × List Str → Decision S M
  decided k (some (r, params), matched, allowed) = routed k params (get_elem? k.store r)
  decided k (none, matched, allowed) = unmatched k matched allowed

  unfoldable pub dispatch : Kernel (Prog S) M → S → Decision S M
  dispatch k s = decided k (match_route k (x.method s) (x.path s))

abbrev members_or_nil : Option (List Str) → List Str
members_or_nil none = []
members_or_nil (some members) = members

module _ {H M : Type 0} where
  unfoldable pub new_kernel : Option (Map (Service M)) → Kernel H M
  new_kernel container = record {
    store = [];
    routes = [];
    named_routes = [];
    fallback = none;
    global_middleware = [];
    registry = record {
      route_middleware = [];
      container = container;
      middleware_groups = (str "web", str "session" ∷ str "csrf" ∷ []) ∷ [];
      middleware_priority = [];
    };
  }

  unfoldable pub use_middleware : List M → Kernel H M → Kernel H M
  use_middleware ms k = record k { global_middleware = k.global_middleware ++ ms }

  unfoldable pub alias_middleware : Str → M → Kernel H M → Kernel H M
  alias_middleware name mw k = record k {
    registry = record k.registry { route_middleware = insert name mw k.registry.route_middleware };
  }

  unfoldable pub middleware_group : Str → List Arg → Kernel H M → Option (Kernel H M)
  middleware_group name members k = flatten_middleware_names members >>= λ flat.
      let groups : Groups = k.registry.middleware_groups in
      some (record k {
        registry = record k.registry {
          middleware_groups = insert name (members_or_nil (lookup name groups) ++ flat) groups;
        };
      })

  -- `handler` makes the handler that sends the redirect.
  unfoldable pub redirect :
      (Str → Option Matcher) → (Str → ℕ → H) → Str → Str → ℕ → Kernel H M → Option (Kernel H M × ℕ)
  redirect regex handler from to status k =
      let code : ℕ = if nat_eq status 0 then 302 else status in
      add_route regex all_methods from (handler to code) [] [] [] k

-- ===== src/Middleware/Tests.antt =====
-- Runs of the resolution of middleware on concrete groups, priorities and routes.
use golite.Base.{
  ℕ, none, some, List, [], ◌∷◌, ◌≡◌, ◌≢◌, ◌⊎◌, refl, All, Str, str, ◌==◌, lookup, split, cut, join,
  has, add, remove,
}
use golite.Middleware.Spec.{parse_middleware_spec}
use golite.Middleware.Expand.{Groups, group_of, expand, expand_middleware_names}
use golite.Middleware.Expand.Fuel.{expand_middleware_names_total}
use golite.Middleware.Priority.{
  Resolved, rank_of, rank_from, insert_ranked, sort_ranked, sort_by_priority,
}
use golite.Middleware.Resolve.{Registry, resolve_route_middleware}
use golite.Middleware.Resolve.Complete.{IsPermitted, Serves, Among, resolve_route_middleware_lem}
use golite.Middleware.Priority.Ordered.{IsOrdered, named, unranked, sort_by_priority_lem}

parameters_ne : join (str "editor" ∷ str "admin" ∷ []) (b',' ∷ []) ≢ []
unfolding join
parameters_ne e = cc

-- "web" names "api", which names "web" again.
abbrev groups : Groups
groups =
    (str "web", str "session" ∷ str "api" ∷ [])
    ∷ (str "api", str "throttle:60" ∷ str "web" ∷ [])
    ∷ []

expand_middleware_names_total_example :
    (out : List Str) × (expand_middleware_names groups (str "web" ∷ str "auth" ∷ [])
      ≡ some (out, []))
expand_middleware_names_total_example =
    expand_middleware_names_total groups (str "web" ∷ str "auth" ∷ [])

abbrev expanded : List Str
expanded = str "session" ∷ str "throttle:60" ∷ str "web" ∷ str "auth" ∷ []

expands : expand_middleware_names groups (str "web" ∷ str "auth" ∷ []) ≡ some (expanded, [])
unfolding expand_middleware_names expand group_of parse_middleware_spec cut split lookup has add
    remove ◌==◌
expands = refl

abbrev entry : Str → ℕ → Resolved ℕ
entry name mw = record { name = name; mw = mw; params = [] }

abbrev priority : List Str
priority = str "session" ∷ str "auth" ∷ []

abbrev assigned : List (Resolved ℕ)
assigned =
    entry (str "csrf") 1 ∷ entry (str "auth") 2 ∷ entry (str "session") 3 ∷ entry (str "log") 4 ∷ []

abbrev in_order : List (Resolved ℕ)
in_order =
    entry (str "session") 3 ∷ entry (str "auth") 2 ∷ entry (str "csrf") 1 ∷ entry (str "log") 4 ∷ []

sorts : sort_by_priority priority assigned ≡ in_order
unfolding sort_by_priority sort_ranked insert_ranked rank_of rank_from ◌==◌
sorts = refl

sort_by_priority_example :
    IsOrdered priority (sort_by_priority priority assigned)
    × (named (str "auth") (sort_by_priority priority assigned) ≡ named (str "auth") assigned)
    × (unranked priority (sort_by_priority priority assigned) ≡ unranked priority assigned)
sort_by_priority_example = sort_by_priority_lem priority assigned (str "auth")

abbrev registry : Registry ℕ
registry = record {
  route_middleware = (str "auth", 1) ∷ (str "session", 2) ∷ (str "throttle", 3) ∷ [];
  container = none;
  middleware_groups = groups;
  middleware_priority = priority;
}

abbrev direct : List (Resolved ℕ)
direct = entry (str "block") 9 ∷ []

resolve_route_middleware_example :
    (out : List (Resolved ℕ)) × (specs : List Str) × (resolve_route_middleware registry
        (str "web" ∷ str "auth" ∷ [])
        (str "throttle" ∷ [])
        direct
      ≡ some out)
    × (expand_middleware_names groups (str "web" ∷ str "auth" ∷ []) ≡ some (specs, []))
    × IsOrdered priority out
    × All (Serves registry (str "throttle" ∷ []) out) specs
    × All (λ d. Among d out) direct
    × All (λ r. (r.mw ≡ 9) ⊎ IsPermitted registry (str "throttle" ∷ []) r) out
resolve_route_middleware_example =
    resolve_route_middleware_lem registry (str "web" ∷ str "auth" ∷ []) (str "throttle" ∷ []) direct
      (λ r. r.mw ≡ 9) (refl, tt)

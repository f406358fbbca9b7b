-- ===== src/Middleware/Resolve.antt =====
-- app/Http/Kernel.go: lookupMiddleware and resolveRouteMiddleware, with the registries that they
-- read; container/container.go: Bind and Make.
pub mod Complete
use golite.Base.{
  false, inl, inr, ◌⊎◌, Option, none, some, List, [], ◌∷◌, ◌++◌, ◌≡◌, arith, if◌then◌else◌, ◌>>=◌,
  All, All-append, All-mono, Str, ◌==◌, Map, lookup, insert, lookup-insert, has,
}
use golite.Middleware.Spec.{parse_middleware_spec}
use golite.Middleware.Expand.{Groups, expand_middleware_names}
use golite.Middleware.Expand.Fuel.{expand_middleware_names_total}
use golite.Middleware.Priority.{Resolved, IsSorted, sort_by_priority, All-sort_ranked}
use golite.Middleware.Priority.Unique.{sort_by_priority-IsSorted}

-- A value bound in the container: a Middleware, or a value of another type.
pub data Service (M : Type 0) : Type 0 where
  middleware : M → Service M
  plain : Service M

module _ {S : Type 0} where
  unfoldable pub bind : Str → S → Map S → Map S
  bind name service services = insert name service services

  -- `none` is nil.
  unfoldable pub make : Map S → Str → Option S
  make services name = lookup name services

  -- Make gives what was bound last under the name.
  pub make-bind :
      (name other : Str) (service : S) (services : Map S)
      → make (bind name service services) other
        ≡ (if name == other then some service else make services other)
  unfolding make bind
  make-bind name other service services = lookup-insert name other service services

-- What Kernel keeps for route middleware; the container may be nil.
pub record Registry (M : Type 0) : Type 0 where
  pub route_middleware : Map M
  pub container : Option (Map (Service M))
  pub middleware_groups : Groups
  pub middleware_priority : List Str

abbrev as_middleware : {M : Type 0} → Option (Service M) → Option M
as_middleware none = none
as_middleware (some plain) = none
as_middleware (some (middleware m)) = some m

module _ {M : Type 0} where
  abbrev bound : Option (Map (Service M)) → Str → Option M
  bound none name = none
  bound (some services) name = as_middleware (make services name)

  unfoldable pub lookup_middleware : Registry M → Str → Option M
  lookup_middleware k name = elim (lookup name k.route_middleware) [
    | some m ↦ some m
    | none ↦ bound k.container name
  ]

  -- The loop over the specs: excluded names and names that resolve to nothing are skipped.
  unfoldable pub resolve_specs : Registry M → List Str → List Str → List (Resolved M)
  resolve_specs k excluded [] = []
  resolve_specs k excluded (spec ∷ specs) =
      let (name, params) = parse_middleware_spec spec in
      let rest = resolve_specs k excluded specs in
      if has excluded name then rest else (elim (lookup_middleware k name) [
        | none ↦ rest
        | some m ↦ record { name = name; mw = m; params = params } ∷ rest
      ])

  -- The arguments are the route's middlewareNames, withoutNames and directMiddleware. `none` stands
  -- for an expansion without end, which does not happen.
  unfoldable pub resolve_route_middleware :
      Registry M → List Str → List Str → List (Resolved M) → Option (List (Resolved M))
  resolve_route_middleware k names without direct =
      expand_middleware_names k.middleware_groups names >>= λ r.
      some (sort_by_priority k.middleware_priority (resolve_specs k without r.0 ++ direct))

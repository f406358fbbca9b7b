-- ===== src/Resource/Register.antt =====
-- app/Http/Resource.go: registering the routes of a resource or of a singleton.
use golite.Base.{
  ℕ, Bool, true, false, Option, none, some, List, [], ◌∷◌, ◌++◌, map, ◌>>=◌, Str, str,
}
use golite.Middleware.Spec.{one}
use golite.Routing.Pattern.{Matcher}
use golite.Routing.Route.{with_names}
use golite.Routing.Table.{Kernel, add_route, update_route, name_route, remove_routes}
use golite.Routing.Table.Groups.{Group}
use golite.Resource.{
  ResourceAction, Registrar, allowed_actions, action_uri, resource_action_table,
  api_resource_action_table, singleton_action_table, singleton_creatable_table,
}
use golite.Resource.Controllers.{Controller}

-- The actions that register keeps, each with its handler.
unfoldable pub handled :
    {H : Type 0} → Controller H → List ResourceAction → List (ResourceAction × H)
handled c [] = []
handled c (a ∷ actions) =
    let rest = handled c actions in
    elim (c.handler_of a.controller_method) [ none ↦ rest | some h ↦ (a, h) ∷ rest ]

pub data Refines : Type 0 where
  only_these except_these : List Str → Refines
  shallowly : Refines

module _ {H M : Type 0} (regex : Str → Option Matcher) where
  abbrev pub attach_names : List Str → ℕ → Kernel H M → Option (Kernel H M)
  attach_names [] p k = some k
  attach_names (n ∷ names) p k = update_route p (with_names (map one (n ∷ names))) k

  unfoldable pub apply_controller_middleware :
      ℕ → Controller H → Str → Kernel H M → Option (Kernel H M)
  apply_controller_middleware p c name k = elim c.declares [
    | none ↦ some k
    | some names_for ↦ attach_names (names_for name) p k
  ]

  -- The new route's name and its middleware.
  abbrev pub finish_action : Controller H → Str → Str → Kernel H M × ℕ → Option (Kernel H M × ℕ)
  finish_action c name full (k, p) =
      name_route p full k >>= λ k'. apply_controller_middleware p c name k' >>= λ k''. some (k'', p)

  -- One turn of the loop of register: the route, its name and its middleware.
  unfoldable pub register_action :
      Controller H
      → Str
      → Str
      → List Str
      → Str
      → Str
      → ResourceAction × H
      → Kernel H M
      → Option (Kernel H M × ℕ)
  register_action c prefix name_prefix middleware uri full (a, h) k =
      add_route regex a.methods uri h prefix name_prefix middleware k
      >>= finish_action c a.name full

  -- The loop, over the allowed actions that the controller has a method for.
  unfoldable pub register_all :
      Controller H
      → Str
      → Str
      → List Str
      → (ResourceAction → Str)
      → Str
      → List (ResourceAction × H)
      → Kernel H M
      → Option (Kernel H M × List ℕ)
  unfolding register_action
  register_all c prefix name_prefix middleware uri_of name [] k = some (k, [])
  register_all c prefix name_prefix middleware uri_of name (e ∷ rest) k =
      register_action c prefix name_prefix middleware (uri_of e.0) (name ++ (str "." ++ e.0.name)) e
        k
      >>= λ made. register_all c prefix name_prefix middleware uri_of name rest made.0 >>= λ others.
          some (others.0, made.1 ∷ others.1)

  unfoldable pub register : Registrar H → Kernel H M → Option (Kernel H M × Registrar H)
  unfolding register_all
  register r k =
      register_all r.controller r.prefix r.name_prefix r.middleware (action_uri r) r.name
        (handled r.controller (allowed_actions r)) (remove_routes r.routes k)
      >>= λ made. some (made.0, record r { routes = made.1 })

  -- Only, Except and Shallow.
  unfoldable pub only : List Str → Registrar H → Kernel H M → Option (Kernel H M × Registrar H)
  unfolding register
  only actions r k = register (record r { only = actions; except = [] }) k

  unfoldable pub except : List Str → Registrar H → Kernel H M → Option (Kernel H M × Registrar H)
  unfolding register
  except actions r k = register (record r { except = actions; only = [] }) k

  unfoldable pub shallow : Registrar H → Kernel H M → Option (Kernel H M × Registrar H)
  unfolding register
  shallow r k = register (record r { shallow = true }) k

  -- Only, Except and Shallow as data, and a chain of them.
  abbrev pub refine : Refines → Registrar H → Kernel H M → Option (Kernel H M × Registrar H)
  refine (only_these actions) r k = only actions r k
  refine (except_these actions) r k = except actions r k
  refine shallowly r k = shallow r k

  unfoldable pub refine_all :
      List Refines → Registrar H → Kernel H M → Option (Kernel H M × Registrar H)
  refine_all [] r k = some (k, r)
  refine_all (f ∷ fs) r k = refine f r k >>= λ made. refine_all fs made.1 made.0

  unfoldable pub new_registrar :
      Str
      → Controller H
      → List ResourceAction
      → Str
      → Str
      → List Str
      → Kernel H M
      → Option (Kernel H M × Registrar H)
  unfolding register
  new_registrar name c table prefix name_prefix middleware k =
      register
        (record {
          name = name;
          controller = c;
          prefix = prefix;
          name_prefix = name_prefix;
          middleware = middleware;
          table = table;
          only = [];
          except = [];
          shallow = false;
          routes = [];
        })
        k

  -- The methods Resource and ApiResource of Kernel and of RouteGroup.
  unfoldable pub kernel_resource :
      Str → Controller H → Kernel H M → Option (Kernel H M × Registrar H)
  unfolding new_registrar
  kernel_resource name c k = new_registrar name c resource_action_table [] [] [] k

  unfoldable pub kernel_api_resource :
      Str → Controller H → Kernel H M → Option (Kernel H M × Registrar H)
  unfolding new_registrar
  kernel_api_resource name c k = new_registrar name c api_resource_action_table [] [] [] k

  unfoldable pub group_resource :
      Str → Controller H → Group → Kernel H M → Option (Kernel H M × Registrar H)
  unfolding new_registrar
  group_resource name c g k =
      new_registrar name c resource_action_table g.prefix g.name_prefix g.middleware k

  unfoldable pub group_api_resource :
      Str → Controller H → Group → Kernel H M → Option (Kernel H M × Registrar H)
  unfolding new_registrar
  group_api_resource name c g k =
      new_registrar name c api_resource_action_table g.prefix g.name_prefix g.middleware k

-- SingletonRegistrar
pub record Singleton (H : Type 0) : Type 0 where
  pub name : Str
  pub controller : Controller H
  pub creatable : Bool
  pub routes : List ℕ

abbrev singleton_actions : Bool → List ResourceAction
singleton_actions false = singleton_action_table
singleton_actions true = singleton_creatable_table ++ singleton_action_table

module _ {H M : Type 0} (regex : Str → Option Matcher) where
  unfoldable pub register_singleton : Singleton H → Kernel H M → Option (Kernel H M × Singleton H)
  unfolding register_all
  register_singleton r k =
      register_all regex r.controller [] [] [] (λ a. str "/" ++ (r.name ++ a.uri_suffix)) r.name
        (handled r.controller (singleton_actions r.creatable)) (remove_routes r.routes k)
      >>= λ made. some (made.0, record r { routes = made.1 })

  unfoldable pub creatable : Singleton H → Kernel H M → Option (Kernel H M × Singleton H)
  unfolding register_singleton
  creatable r k = register_singleton (record r { creatable = true }) k

  unfoldable pub kernel_singleton :
      Str → Controller H → Kernel H M → Option (Kernel H M × Singleton H)
  unfolding register_singleton
  kernel_singleton name c k =
      register_singleton (record { name = name; controller = c; creatable = false; routes = [] }) k

-- ===== src/Resource.antt =====
-- app/Http/Resource.go: the actions of a resource, and which of them with which URIs a registrar
-- registers.
pub mod Singular
pub mod Controllers
pub mod Register
pub mod OneRoute
pub mod Registered
pub mod Restricted
pub mod Replaced
pub mod Tests
use golite.Base.{
  ℕ, zero, suc, ◌-◌, Bool, true, false, not, ◌&&◌, ◌||◌, Option, none, some, List, [], ◌∷◌, ◌++◌,
  map, if◌then◌else◌, ◌>>=◌, length, keep, is_some, ltb, Str, str, split, is_empty, cut_prefix,
  cut_suffix, ◌==◌, has,
}
use golite.Middleware.Spec.{Arg, one}
use golite.Routing.Pattern.{Matcher}
use golite.Routing.Route.{Route, with_names}
use golite.Routing.Table.{Kernel, add_route, update_route, name_route, remove_routes}
use golite.Resource.Controllers.{Controller, is_given}
use golite.Resource.Singular.{singularize, replace_param}

pub record ResourceAction : Type 0 where
  pub name : Str
  pub methods : List Str
  pub uri_suffix : Str
  pub controller_method : Str
  pub include_in_api : Bool

abbrev pub action : Str → List Str → Str → Str → Bool → ResourceAction
action name methods suffix method api = record {
  name = name;
  methods = methods;
  uri_suffix = suffix;
  controller_method = method;
  include_in_api = api;
}

abbrev pub resource_action_table : List ResourceAction
resource_action_table =
    action (str "index") (str "GET" ∷ []) [] (str "Index") true
    ∷ action (str "create") (str "GET" ∷ []) (str "/create") (str "Create") false
    ∷ action (str "store") (str "POST" ∷ []) [] (str "Store") true
    ∷ action (str "show") (str "GET" ∷ []) (str "/{param}") (str "Show") true
    ∷ action (str "edit") (str "GET" ∷ []) (str "/{param}/edit") (str "Edit") false
    ∷ action (str "update") (str "PUT" ∷ str "PATCH" ∷ []) (str "/{param}") (str "Update") true
    ∷ action (str "destroy") (str "DELETE" ∷ []) (str "/{param}") (str "Destroy") true
    ∷ []

unfoldable pub api_resource_action_table : List ResourceAction
api_resource_action_table = keep (λ a. a.include_in_api) resource_action_table

abbrev pub member_actions : List Str
member_actions = str "show" ∷ str "edit" ∷ str "update" ∷ str "destroy" ∷ []

abbrev pub singleton_action_table : List ResourceAction
singleton_action_table =
    action (str "show") (str "GET" ∷ []) [] (str "Show") true
    ∷ action (str "edit") (str "GET" ∷ []) (str "/edit") (str "Edit") false
    ∷ action (str "update") (str "PUT" ∷ str "PATCH" ∷ []) [] (str "Update") true
    ∷ []

abbrev pub singleton_creatable_table : List ResourceAction
singleton_creatable_table =
    action (str "create") (str "GET" ∷ []) (str "/create") (str "Create") false
    ∷ action (str "store") (str "POST" ∷ []) [] (str "Store") true
    ∷ []

pub record Registrar (H : Type 0) : Type 0 where
  pub name : Str
  pub controller : Controller H
  pub prefix : Str
  pub name_prefix : Str
  pub middleware : List Str
  pub table : List ResourceAction
  pub only : List Str
  pub except : List Str
  pub shallow : Bool
  pub routes : List ℕ

-- The resource's URI among its parents', and the last segment of its name.
abbrev nested_parts : List Str → Str × Str
nested_parts [] = ([], [])
nested_parts (last ∷ []) = ([], last)
nested_parts (seg ∷ next ∷ segments) =
    let (parents, last) = nested_parts (next ∷ segments) in
    (str "/" ++ (seg ++ (str "/{" ++ (singularize seg ++ (str "}" ++ parents)))), last)

unfoldable pub is_allowed : List Str → List Str → ResourceAction → Bool
is_allowed only except a =
    (not (is_given only) || has only a.name) && not (is_given except && has except a.name)

module _ {H : Type 0} where
  unfoldable pub allowed_actions : Registrar H → List ResourceAction
  unfolding is_allowed
  allowed_actions r = keep (is_allowed r.only r.except) r.table

  unfoldable pub action_uri : Registrar H → ResourceAction → Str
  action_uri r a =
      let (parents, last) = nested_parts (split r.name b'.') in
      (if r.shallow && has member_actions a.name
        then str "/" ++ last
        else parents ++ (str "/" ++ last))
      ++ replace_param (str "{" ++ (singularize last ++ str "}")) a.uri_suffix

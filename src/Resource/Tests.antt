-- ===== src/Resource/Tests.antt =====
-- Runs of the registrars of app/Http/Resource.go.
use golite.Base.{
  ℕ, Option, none, some, List, [], ◌∷◌, ◌≡◌, refl, Str, str, ◌==◌, if◌then◌else◌, get_elem?, ◌>>=◌,
  trim, trim_right, trim_left, join, split, cut_suffix, cut_prefix, has, insert, to_upper,
  trim_space, trim_space_left, trim_space_right, lookup, keep,
}
use golite.Middleware.Spec.{flatten_middleware_names}
use golite.Routing.Uri.{join_uri, trimmed_parts, normalize_methods}
use golite.Routing.Segments.{parse_segments, parse_parts, parse_part, is_param_name}
use golite.Routing.Pattern.{
  Matcher, class_plus, not_slash, compile_pattern, compile_segment, compile_segments,
}
use golite.Routing.Route.{recompile, with_names}
use golite.Routing.Table.{
  Kernel, add_route, add_full_route, name_route, remove_routes, update_route, delete_named,
}
use golite.Resource.{Registrar, resource_action_table, allowed_actions, action_uri, is_allowed}
use golite.Resource.Singular.{singularize, replace_param, replace_from}
use golite.Resource.Controllers.{Controller, MiddlewareRule, middleware_for_action, applies_to}
use golite.Resource.Register.{
  only_these, shallowly, new_registrar, refine_all, handled, apply_controller_middleware, register,
  register_action, register_all, only, shallow, Refines,
}
use golite.Resource.OneRoute.{Card, card}
use golite.Resource.Replaced.{Owns, refine_all-new_registrar}
use golite.Resource.Restricted.{keeps, last_restriction, unrestricted, calls_shallow}

abbrev regex : Str → Option Matcher
regex pattern = if pattern == str "[^/]+" then some (class_plus not_slash) else none

-- A controller with two of the methods, whose middleware is for all actions but one.
abbrev methods : Str → Option ℕ
methods name = if name == str "Show" then some 7 else (if name == str "Store" then some 8 else none)

abbrev rules : List MiddlewareRule
rules = record { name = str "auth"; only_actions = []; except_actions = str "store" ∷ [] } ∷ []

abbrev comments : Controller ℕ
comments = record { handler_of = methods; declares = some (middleware_for_action rules) }

abbrev empty_kernel : Kernel ℕ ℕ
empty_kernel = record {
  store = [];
  routes = [];
  named_routes = [];
  fallback = none;
  global_middleware = [];
  registry = record {
    route_middleware = [];
    middleware_groups = [];
    middleware_priority = [];
    container = none;
  };
}

abbrev Made : Type 0
Made = Kernel ℕ ℕ × Registrar ℕ

registered :
    (made : Made) × (new_registrar regex
        (str "photos.comments")
        comments
        resource_action_table
        []
        []
        []
        empty_kernel
      ≡ some made)
unfolding new_registrar handled allowed_actions ◌==◌ add_route add_full_route parse_segments
    parse_parts parse_part is_param_name trim trim_right trim_left join_uri join trimmed_parts
    action_uri split singularize cut_suffix replace_param replace_from cut_prefix has insert
    flatten_middleware_names apply_controller_middleware register register_action register_all
    is_allowed compile_pattern compile_segment compile_segments recompile with_names name_route
    remove_routes update_route normalize_methods to_upper trim_space trim_space_left
    trim_space_right lookup middleware_for_action applies_to
registered = (_, refl)

-- Then .Shallow().Only("show").
refined :
    (made : Made) × (refine_all regex
        (shallowly ∷ only_these (str "show" ∷ []) ∷ [])
        registered.0.1
        registered.0.0
      ≡ some made)
unfolding registered refine_all only shallow new_registrar delete_named handled allowed_actions ◌==◌
    add_route add_full_route parse_segments parse_parts parse_part is_param_name trim trim_right
    trim_left join_uri join trimmed_parts action_uri split singularize cut_suffix replace_param
    replace_from cut_prefix has insert flatten_middleware_names apply_controller_middleware register
    register_action register_all is_allowed compile_pattern compile_segment compile_segments
    recompile with_names name_route remove_routes update_route normalize_methods to_upper trim_space
    trim_space_left trim_space_right lookup middleware_for_action applies_to
refined = (_, refl)

abbrev chain : List Refines
chain = shallowly ∷ only_these (str "show" ∷ []) ∷ []

refine_all-new_registrar_example :
    Owns regex empty_kernel refined.0.0 refined.0.1
    × (handled refined.0.1.controller (allowed_actions refined.0.1)
        ≡ handled comments
            (keep (λ a. keeps (last_restriction unrestricted chain) a.name) resource_action_table))
    × (refined.0.1.shallow ≡ calls_shallow chain)
    × (refined.0.1.name ≡ str "photos.comments")
    × (refined.0.1.prefix ≡ [])
    × (refined.0.1.name_prefix ≡ [])
refine_all-new_registrar_example =
    refine_all-new_registrar regex (str "photos.comments") comments resource_action_table [] [] []
      chain empty_kernel registered.0.0 refined.0.0 registered.0.1 refined.0.1 tt registered.1
      refined.1

card_at : Kernel ℕ ℕ → ℕ → Option (Card ℕ)
card_at k p = get_elem? k.store p >>= λ r. some (card r)

refined_result :
    (refined.0.0.routes ≡ 4 ∷ [])
    × (card_at refined.0.0 4
        ≡ some (record {
          methods = str "GET" ∷ [];
          uri = str "/comments/{comment}";
          name = str "photos.comments.show";
          handler = 7;
        }))
unfolding card_at refined registered refine_all only shallow new_registrar delete_named handled
    allowed_actions ◌==◌ add_route add_full_route parse_segments parse_parts parse_part
    is_param_name trim trim_right trim_left join_uri join trimmed_parts action_uri split singularize
    cut_suffix replace_param replace_from cut_prefix has insert flatten_middleware_names
    apply_controller_middleware register register_action register_all is_allowed compile_pattern
    compile_segment compile_segments recompile with_names name_route remove_routes update_route
    normalize_methods to_upper trim_space trim_space_left trim_space_right lookup
    middleware_for_action applies_to
refined_result = (refl, refl)

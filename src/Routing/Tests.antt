-- ===== src/Routing/Tests.antt =====
-- Runs of the router on a concrete table.
use golite.Base.{
  ℕ, false, Option, none, some, List, [], ◌∷◌, ◌≡◌, refl, All, Str, str, ◌==◌, if◌then◌else◌, Map,
  lookup, split, trim, IsTrimmed, trim_left, trim_right, cut_prefix, cut_suffix,
}
use golite.Routing.Uri.{join_uri, join_uri-IsTrimmed}
use golite.Routing.Segments.{
  Segment, static, param, parse_segments, parse_parts, parse_part, is_param_name,
}
use golite.Routing.Pattern.{
  Matcher, class_plus, not_slash, Piece, literal, group, compile_pattern, match_path,
}
use golite.Routing.Url.{build_url}
use golite.Routing.Url.RoundTrip.{IsFilled, param_names, match_path-build_url}
use golite.Routing.Route.{Route}
use golite.Routing.Table.{Kernel, match_route}
use golite.Routing.Table.Match.{Outcome, match_route-Outcome}

join_uri-IsTrimmed_example : IsTrimmed b'/' (join_uri (str "/api/" ∷ str "/users/" ∷ []))
join_uri-IsTrimmed_example = join_uri-IsTrimmed (str "/api/" ∷ str "/users/" ∷ [])

abbrev user_segments : List Segment
user_segments = static (str "users") ∷ param (str "id") false ∷ []

parses : parse_segments (str "/users/{id}") ≡ some user_segments
unfolding parse_segments parse_parts parse_part is_param_name trim trim_left trim_right split
    cut_prefix cut_suffix ◌==◌
parses = refl

-- The one expression that the routes here use.
abbrev regex : Str → Option Matcher
regex pattern = if pattern == str "[^/]+" then some (class_plus not_slash) else none

regex-default : regex (str "[^/]+") ≡ some (class_plus not_slash)
unfolding ◌==◌
regex-default = refl

abbrev id_params : Map Str
id_params = (str "id", str "42") ∷ []

id_params-value : lookup (str "id") id_params ≡ some (str "42")
unfolding lookup ◌==◌
id_params-value = refl

user_segments-IsFilled : All (IsFilled [] [] id_params) user_segments
unfolding lookup
user_segments-IsFilled =
    (tt, ((refl, str "42", id_params-value, (λ e. cc), (refl, (refl, tt))), tt))

match_path-build_url_example :
    (ps : List Piece) × (found : Map Str) × (compile_pattern regex user_segments [] ≡ some ps)
    × (match_path (some ps) [] (build_url user_segments [] id_params) ≡ some found)
    × All (λ n. lookup n found ≡ lookup n id_params) (param_names user_segments)
match_path-build_url_example =
    match_path-build_url [] [] id_params regex regex-default user_segments user_segments-IsFilled

abbrev users_route : Str → Route ℕ ℕ
users_route method = record {
  methods = method ∷ [];
  uri = str "/users/{id}";
  segments = user_segments;
  handler = 1;
  name_prefix = [];
  name = [];
  wheres = [];
  defaults = [];
  middleware_names = [];
  without_names = [];
  direct_middleware = [];
  regex =
      some
        (literal (str "/users") ∷ literal (str "/") ∷ group (str "id") (class_plus not_slash) ∷ []);
}

abbrev kernel : Kernel ℕ ℕ
kernel = record {
  store = users_route (str "GET") ∷ users_route (str "PUT") ∷ [];
  routes = 0 ∷ 1 ∷ [];
  named_routes = [];
  fallback = none;
  global_middleware = [];
  registry = record {
    route_middleware = [];
    container = none;
    middleware_groups = [];
    middleware_priority = [];
  };
}

match_route_example :
    Outcome kernel
      (str "POST")
      (str "/users/42")
      (match_route kernel (str "POST") (str "/users/42"))
match_route_example = match_route-Outcome kernel (str "POST") (str "/users/42")

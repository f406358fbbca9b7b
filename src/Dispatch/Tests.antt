-- ===== src/Dispatch/Tests.antt =====
-- A kernel with one route, one global middleware and one of the route.
use golite.Base.{
  ℕ, ◌+◌, ◌≤◌, false, none, some, List, [], ◌∷◌, arith, length, Str, str, ◌==◌, lookup, has, cut,
  split,
}
use golite.Middleware.Spec.{parse_middleware_spec}
use golite.Middleware.Expand.{group_of, expand, expand_middleware_names}
use golite.Middleware.Priority.{sort_by_priority}
use golite.Middleware.Resolve.{lookup_middleware, resolve_specs, resolve_route_middleware}
use golite.Routing.Pattern.{literal, group, class_plus, not_slash}
use golite.Routing.Segments.{static, param}
use golite.Routing.Route.{Route}
use golite.Routing.Table.{Kernel}
use golite.Pipeline.{Prog, done, act, call, next, start_context, without_params}
use golite.Pipeline.Onion.{onion_serve}
use golite.Pipeline.Programs.{Shows}
use golite.Dispatch.{Exchange, route_chain, dispatch}
use golite.Dispatch.Answer.{Decides, handlers_of, dispatch-Decides, dispatch_answers}

-- A request with the status of its response.
record Request : Type 0 where
  method : Str
  path : Str
  status : ℕ

abbrev exchange : Exchange Request
exchange = record {
  method = λ s. s.method;
  path = λ s. s.path;
  set_params = λ params s. s;
  not_allowed = λ allowed s. record s { status = 405 };
  not_found = λ s. record s { status = 404 };
}

abbrev show_user : Prog Request
show_user = act (λ s. record s { status = 200 }) done

abbrev user_route : Route (Prog Request) ℕ
user_route = record {
  methods = str "GET" ∷ [];
  uri = str "/users/{id}";
  segments = static (str "users") ∷ param (str "id") false ∷ [];
  handler = show_user;
  name_prefix = [];
  name = [];
  wheres = [];
  defaults = [];
  middleware_names = str "auth" ∷ [];
  without_names = [];
  direct_middleware = [];
  regex =
      some
        (literal (str "/users") ∷ literal (str "/") ∷ group (str "id") (class_plus not_slash) ∷ []);
}

abbrev kernel : Kernel (Prog Request) ℕ
kernel = record {
  store = user_route ∷ [];
  routes = 0 ∷ [];
  named_routes = [];
  fallback = none;
  global_middleware = 1 ∷ [];
  registry = record {
    route_middleware = (str "auth", 2) ∷ [];
    container = none;
    middleware_groups = [];
    middleware_priority = [];
  };
}

abbrev request : Request
request = record { method = str "GET"; path = str "/users/42"; status = 0 }

abbrev handle : ℕ → List Str → Prog Request
handle m params = call done

dispatch-Decides_example : Decides exchange kernel request (dispatch exchange kernel request)
dispatch-Decides_example = dispatch-Decides exchange kernel request

enough : length kernel.global_middleware + (handlers_of exchange kernel kernel.store + 3) ≤ 5
unfolding handlers_of route_chain resolve_route_middleware expand_middleware_names expand group_of
    parse_middleware_spec cut split lookup has resolve_specs lookup_middleware sort_by_priority ◌==◌
enough = omega arith

dispatch_answers_example :
    Shows
      (onion_serve handle (dispatch exchange kernel) (without_params (1 ∷ [])) request)
      (next handle (dispatch exchange kernel) 5 (start_context (1 ∷ []) request))
dispatch_answers_example =
    dispatch_answers exchange kernel handle 5 request (λ m params. tt) ((tt, tt), tt) enough

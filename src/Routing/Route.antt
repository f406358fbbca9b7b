-- ===== src/Routing/Route.antt =====
-- app/Http/Kernel.go: RouteDefinition and its fluent methods, on the route itself.
use golite.Base.{
  Bool, Option, some, List, [], ◌∷◌, ◌++◌, ◌>>=◌, Str, str, join, Map, insert, has, add_all,
}
use golite.Middleware.Priority.{Resolved}
use golite.Middleware.Spec.{Arg, flatten_middleware_names}
use golite.Routing.Segments.{Segment}
use golite.Routing.Pattern.{Matcher, Piece, compile_pattern}

pub record Route (H M : Type 0) : Type 0 where
  pub methods : List Str
  pub uri : Str
  pub segments : List Segment
  pub handler : H
  pub name_prefix : Str
  pub name : Str
  pub wheres : Map Str
  pub defaults : Map Str
  pub middleware_names : List Str
  pub without_names : List Str
  pub direct_middleware : List (Resolved M)
  pub regex : Option (List Piece)

abbrev pub insert_all : Map Str → Map Str → Map Str
insert_all [] m = m
insert_all ((k, v) ∷ kvs) m = insert_all kvs (insert k v m)

abbrev escape_all : (Str → Str) → List Str → List Str
escape_all quote_meta [] = []
escape_all quote_meta (v ∷ vs) = quote_meta v ∷ escape_all quote_meta vs

module _ {H M : Type 0} where
  -- `none` is the panic about an invalid constraint.
  unfoldable pub recompile : (Str → Option Matcher) → Route H M → Option (Route H M)
  recompile regex r =
      compile_pattern regex r.segments r.wheres >>= λ ps. some (record r { regex = some ps })

  unfoldable pub where_map : (Str → Option Matcher) → Map Str → Route H M → Option (Route H M)
  where_map regex constraints r =
      recompile regex (record r { wheres = insert_all constraints r.wheres })

  unfoldable pub where_param : (Str → Option Matcher) → Str → Str → Route H M → Option (Route H M)
  where_param regex param pattern r =
      recompile regex (record r { wheres = insert param pattern r.wheres })

  unfoldable pub where_number : (Str → Option Matcher) → Str → Route H M → Option (Route H M)
  where_number regex param r = where_param regex param (str "[0-9]+") r

  unfoldable pub where_alpha : (Str → Option Matcher) → Str → Route H M → Option (Route H M)
  where_alpha regex param r = where_param regex param (str "[A-Za-z]+") r

  unfoldable pub where_alpha_numeric : (Str → Option Matcher) → Str → Route H M → Option (Route H M)
  where_alpha_numeric regex param r = where_param regex param (str "[A-Za-z0-9]+") r

  -- regexp.QuoteMeta is an argument.
  unfoldable pub where_in :
      (Str → Option Matcher) → (Str → Str) → Str → List Str → Route H M → Option (Route H M)
  where_in regex quote_meta param values r =
      where_param regex param
        (str "(?:" ++ (join (escape_all quote_meta values) (str "|") ++ str ")")) r

  unfoldable pub with_defaults : Map Str → Route H M → Route H M
  with_defaults defaults r = record r { defaults = insert_all defaults r.defaults }

  -- `none` is the panic about an argument of another type.
  unfoldable pub with_names : List Arg → Route H M → Option (Route H M)
  with_names names r = flatten_middleware_names names >>= λ flat.
      some (record r { middleware_names = r.middleware_names ++ flat })

  unfoldable pub without_middleware : List Arg → Route H M → Option (Route H M)
  without_middleware names r = flatten_middleware_names names >>= λ flat.
      some (record r { without_names = add_all flat r.without_names })

  unfoldable pub with_middleware : Str → M → List Str → Route H M → Route H M
  with_middleware name mw params r = record r {
    direct_middleware =
        r.direct_middleware ++ (record { name = name; mw = mw; params = params } ∷ []);
  }

  unfoldable pub has_method : Route H M → Str → Bool
  has_method r method = has r.methods method

-- ===== src/Routing/Table/Groups.antt =====
-- app/Http/Kernel.go: RouteGroup and the verb helpers.
use golite.Base.{
  ℕ, Option, some, List, [], ◌∷◌, ◌++◌, append-nil, ◌≡◌, refl, ap, ◌∙◌, ◌>>=◌, Str, str, trim,
  trim_left, trim_right,
}
use golite.Middleware.Spec.{Arg, flatten_middleware_names}
use golite.Routing.Uri.{join_uri, join_uri_nested, normalize_methods, trimmed_parts}
use golite.Routing.Pattern.{Matcher}
use golite.Routing.Table.{Kernel, all_methods, add_route}

pub record Group : Type 0 where
  pub prefix : Str
  pub name_prefix : Str
  pub middleware : List Str

unfoldable pub new_group : Group
new_group = record { prefix = []; name_prefix = []; middleware = [] }

unfoldable pub group_prefix : Str → Group → Group
group_prefix prefix g = record g { prefix = join_uri (g.prefix ∷ prefix ∷ []) }

unfoldable pub group_middleware : List Arg → Group → Option Group
group_middleware names g =
    flatten_middleware_names names >>= λ flat. some (record g { middleware = g.middleware ++ flat })

unfoldable pub group_name : Str → Group → Group
group_name prefix g = record g { name_prefix = g.name_prefix ++ prefix }

-- GET, POST, PUT, PATCH, DELETE, OPTIONS, Match and Any.
pub data Verb : Type 0 where
  get post put patch delete options any_method : Verb
  match_methods : List Str → Verb

unfoldable pub methods_of_verb : Verb → List Str
methods_of_verb get = str "GET" ∷ []
methods_of_verb post = str "POST" ∷ []
methods_of_verb put = str "PUT" ∷ []
methods_of_verb patch = str "PATCH" ∷ []
methods_of_verb delete = str "DELETE" ∷ []
methods_of_verb options = str "OPTIONS" ∷ []
methods_of_verb any_method = all_methods
methods_of_verb (match_methods methods) = normalize_methods methods

module _ {H M : Type 0} (regex : Str → Option Matcher) where
  unfoldable pub group_route : Verb → Str → H → Group → Kernel H M → Option (Kernel H M × ℕ)
  group_route verb uri handler g k =
      add_route regex (methods_of_verb verb) uri handler g.prefix g.name_prefix g.middleware k

  unfoldable pub kernel_route : Verb → Str → H → Kernel H M → Option (Kernel H M × ℕ)
  kernel_route verb uri handler k = add_route regex (methods_of_verb verb) uri handler [] [] [] k

-- Groups nested in one another, from the outermost one.
unfoldable pub nest : Group → List Str → Group
nest g [] = g
nest g (p ∷ ps) = nest (group_prefix p g) ps

nest-prefix :
    (ps : List Str) (g : Group) (rest : List Str)
    → (join_uri ((nest g ps).prefix ∷ rest) ≡ join_uri (g.prefix ∷ (ps ++ rest)))
      × ((nest g ps).name_prefix ≡ g.name_prefix)
      × ((nest g ps).middleware ≡ g.middleware)
unfolding nest group_prefix
nest-prefix [] g rest = (refl, refl, refl)
nest-prefix (p ∷ ps) g rest =
    let (a, b, c) = nest-prefix ps (group_prefix p g) rest in
    (a ∙ join_uri_nested (g.prefix ∷ p ∷ []) (ps ++ rest), b, c)

join_uri_root : (ps : List Str) → join_uri ([] ∷ ps) ≡ join_uri ps
unfolding join_uri trimmed_parts trim trim_left trim_right
join_uri_root ps = refl

-- Registering a route within groups whose prefixes are nested in one another is registering it at
-- the kernel under the URI that joins the prefixes and its own.
pub group_route-nest :
    {H M : Type 0} (regex : Str → Option Matcher) (verb : Verb) (ps : List Str) (uri : Str)
    (handler : H) (k : Kernel H M)
    → group_route regex verb uri handler (nest new_group ps) k
      ≡ kernel_route regex verb (join_uri (ps ++ (uri ∷ []))) handler k
unfolding group_route kernel_route add_route new_group
group_route-nest regex verb ps uri handler k =
    let (a, b, c) = nest-prefix ps new_group (uri ∷ []) in
    let outer = join_uri_root (ps ++ (uri ∷ [])) in
    let inner =
      join_uri_root (join_uri (ps ++ (uri ∷ [])) ∷ [])
      ∙ join_uri_nested (ps ++ (uri ∷ [])) []
      ∙ ap join_uri (append-nil (ps ++ (uri ∷ []))) in
    rw (a ∙ outer, b, c, inner)

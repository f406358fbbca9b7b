-- ===== src/Resource/Singular.antt =====
-- app/Http/Resource.go: singularize, and strings.ReplaceAll for "{param}".
use golite.Base.{
  ℕ, zero, suc, Bool, not, ◌&&◌, ◌||◌, Option, none, some, [], ◌∷◌, ◌++◌, ◌≡◌, refl, if◌then◌else◌,
  is_some, length, ltb, Str, str, cut_prefix, cut_suffix, ◌==◌,
}

abbrev pub has_suffix : Str → Str → Bool
has_suffix s suffix = is_some (cut_suffix s suffix)

abbrev stem : Str → Option Str → Str
stem word none = word
stem word (some s) = s

abbrev pub trim_suffix : Str → Str → Str
trim_suffix word suffix = stem word (cut_suffix word suffix)

unfoldable pub singularize : Str → Str
singularize word =
    if has_suffix word (str "ies") && ltb 3 (length word)
    then trim_suffix word (str "ies") ++ str "y"
    else (if has_suffix word (str "sses")
          || has_suffix word (str "xes")
          || has_suffix word (str "ches")
          || has_suffix word (str "shes")
        then trim_suffix word (str "es")
        else (if has_suffix word (str "s") && not (has_suffix word (str "ss"))
            then trim_suffix word (str "s")
            else word))

-- `skip` bytes belong to an occurrence that is replaced already.
unfoldable pub replace_from : Str → ℕ → Str → Str
replace_from new skip [] = []
replace_from new (suc skip) (c ∷ s) = replace_from new skip s
replace_from new zero (c ∷ s) =
    let found = replace_from new 6 s in
    let kept = replace_from new 0 s in
    if is_some (cut_prefix (c ∷ s) (str "{param}")) then new ++ found else c ∷ kept

unfoldable pub replace_param : Str → Str → Str
unfolding replace_from
replace_param new s = replace_from new 0 s

replace_param_result : replace_param (str "{photo}") (str "/{param}/edit") ≡ str "/{photo}/edit"
unfolding replace_param cut_prefix
replace_param_result = refl

singularize_categories : singularize (str "categories") ≡ str "category"
unfolding singularize cut_suffix ◌==◌
singularize_categories = refl

singularize_classes : singularize (str "classes") ≡ str "class"
unfolding singularize cut_suffix ◌==◌
singularize_classes = refl

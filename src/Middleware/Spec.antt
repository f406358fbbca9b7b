-- ===== src/Middleware/Spec.antt =====
-- app/Http/Kernel.go: ParseMiddlewareSpec and flattenMiddlewareNames.
use golite.Base.{
  ℕ, true, false, not, ◌||◌, Option, none, some, List, [], ◌∷◌, ◌++◌, ◌≡◌, ◌≢◌, refl, ◌∙◌, arith,
  if◌then◌else◌, nat_eq, ◌>>=◌, All, Str, is_empty, cut, split, join,
}

unfoldable pub parse_middleware_spec : Str → Str × List Str
parse_middleware_spec spec =
    let (name, rest, has_params) = cut spec b':' in
    if not has_params || is_empty rest then (name, []) else (name, split rest b',')

abbrev pub base_name : Str → Str
base_name spec = (parse_middleware_spec spec).0

-- An argument of Middleware(...): a string, a []string, or a value of another type.
pub data Arg : Type 0 where
  one : Str → Arg
  many : List Str → Arg
  other : Arg

-- `none` is the panic.
unfoldable pub flatten_middleware_names : List Arg → Option (List Str)
flatten_middleware_names [] = some []
flatten_middleware_names (one v ∷ args) = flatten_middleware_names args >>= λ out. some (v ∷ out)
flatten_middleware_names (many vs ∷ args) =
    flatten_middleware_names args >>= λ out. some (vs ++ out)
flatten_middleware_names (other ∷ args) = none

abbrev pub IsFree : ℕ → Str → Type 0
IsFree c s = All (λ d. nat_eq d c ≡ false) s

pub cut-append :
    (name rest : Str) (c : ℕ) → IsFree c name → cut (name ++ (c ∷ rest)) c ≡ (name, rest, true)
unfolding cut
cut-append [] rest c h = ground arith
cut-append (d ∷ name) rest c h = ground (arith, cut-append name rest c h.1)

cut_free : (name : Str) (c : ℕ) → IsFree c name → cut name c ≡ (name, [], false)
unfolding cut
cut_free [] c h = refl
cut_free (d ∷ name) c h = ground (arith, cut_free name c h.1)

split_free : (w : Str) (c : ℕ) → IsFree c w → split w c ≡ w ∷ []
unfolding split
split_free [] c h = refl
split_free (d ∷ w) c h = ground (arith, split_free w c h.1)

split-append : (w s : Str) (c : ℕ) → IsFree c w → split (w ++ (c ∷ s)) c ≡ w ∷ split s c
unfolding split
split-append [] s c h = ground arith
split-append (d ∷ w) s c h = ground (arith, split-append w s c h.1)

pub split-join :
    (w : Str) (ws : List Str) (c : ℕ)
    → IsFree c w
    → All (IsFree c) ws
    → split (join (w ∷ ws) (c ∷ [])) c ≡ w ∷ ws
unfolding join
split-join w [] c h k = split_free w c h
split-join w (v ∷ ws) c h k =
    split-append w (join (v ∷ ws) (c ∷ [])) c h ∙ rw (split-join v ws c k.0 k.1)

is_empty_of_ne : (s : Str) → s ≢ [] → is_empty s ≡ false
is_empty_of_ne [] h = absurd (h refl)
is_empty_of_ne (c ∷ s) h = refl

-- Parsing gives back the name and the parameters that a spec was written with, "name" alone or
-- "name:param1,param2": the name has no colon, no parameter has a comma, and the parameters
-- together are not the empty text.
pub parse_middleware_spec_print :
    (name p : Str) (ps : List Str)
    → IsFree b':' name
    → IsFree b',' p
    → All (IsFree b',') ps
    → join (p ∷ ps) (b',' ∷ []) ≢ []
    → (parse_middleware_spec name ≡ (name, []))
      × (parse_middleware_spec (name ++ (b':' ∷ join (p ∷ ps) (b',' ∷ []))) ≡ (name, p ∷ ps))
unfolding parse_middleware_spec
parse_middleware_spec_print name p ps h k l n =
    let rest = join (p ∷ ps) (b',' ∷ []) in
    (
      rw (cut_free name b':' h),
      rw (cut-append name rest b':' h, is_empty_of_ne rest n) (rw (split-join p ps b',' k l)),
    )

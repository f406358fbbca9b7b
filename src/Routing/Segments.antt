-- ===== src/Routing/Segments.antt =====
-- app/Http/Kernel.go: routeSegment and parseSegments.
use golite.Base.{
  ℕ, Bool, true, false, ◌&&◌, ◌||◌, Option, none, some, List, [], ◌∷◌, ◌++◌, map, ◌≡◌, refl, sym,
  ap, ◌∙◌, arith, if◌then◌else◌, leb, nat_eq, ◌>>=◌, >>=-eq-some, Bool-cases, Option-cases, inl,
  inr, all_of, All, Str, str, is_empty, cut_prefix, cut_prefix_sound, cut_suffix, cut_suffix_sound,
  split, join, join-split, trim,
}

pub data Segment : Type 0 where
  static : Str → Segment
  param : (name : Str) (optional : Bool) → Segment

abbrev is_letter : ℕ → Bool
is_letter c = (leb b'A' c && leb c b'Z') || (leb b'a' c && leb c b'z') || nat_eq c b'_'

-- paramNameRe: a letter or "_", and then letters, digits and "_".
unfoldable pub is_param_name : Str → Bool
is_param_name [] = false
is_param_name (c ∷ s) = is_letter c && all_of (λ d. is_letter d || (leb b'0' d && leb d b'9')) s

-- What stands between the braces of "{...}".
abbrev pub inner_of : Str → Option Str
inner_of part = cut_prefix part (str "{") >>= λ rest. cut_suffix rest (str "}")

abbrev named : Str → Bool → Option Segment
named name optional = if is_param_name name then some (param name optional) else none

abbrev param_of : Str → Option Str → Option Segment
param_of name none = named name false
param_of name (some trimmed) = named trimmed true

-- `none` is the panic about an invalid parameter name.
unfoldable pub parse_part : Str → Option Segment
parse_part part = elim (inner_of part) [
  | none ↦ some (static part)
  | some name ↦ param_of name (cut_suffix name (str "?"))
]

unfoldable pub parse_parts : List Str → Option (List Segment)
parse_parts [] = some []
parse_parts (part ∷ parts) =
    parse_part part >>= λ seg. parse_parts parts >>= λ segs. some (seg ∷ segs)

unfoldable pub parse_segments : Str → Option (List Segment)
parse_segments uri =
    let parts = split (trim uri b'/') b'/' in
    if is_empty (trim uri b'/') then some [] else parse_parts parts

-- A segment as a route's URI writes it.
unfoldable pub print_segment : Segment → Str
print_segment (static s) = s
print_segment (param name false) = str "{" ++ (name ++ str "}")
print_segment (param name true) = str "{" ++ ((name ++ str "?") ++ str "}")

abbrev pub HasValidName : Segment → Type 0
HasValidName (static s) = Unit
HasValidName (param name optional) = is_param_name name ≡ true

named-print :
    (name : Str) (optional : Bool) (seg : Segment)
    → named name optional ≡ some seg
    → (seg ≡ param name optional) × (is_param_name name ≡ true)
named-print name optional seg h = ground arith

parse_part-print :
    (part : Str) (seg : Segment)
    → parse_part part ≡ some seg
    → (print_segment seg ≡ part) × HasValidName seg
unfolding parse_part print_segment
parse_part-print part seg h = elim (Option-cases (inner_of part)) [
  | inl e ↦ let s : seg ≡ static part = ground arith in rw s (refl, tt)
  | inr (name, e) ↦
      let (rest, f, g) = >>=-eq-some (cut_prefix part (str "{")) _ e in
      let whole : part ≡ str "{" ++ (name ++ str "}") =
        cut_prefix_sound part (str "{") rest f
        ∙ ap (λ z. b'{' ∷ z) (cut_suffix_sound rest (str "}") name g) in
      elim (Option-cases (cut_suffix name (str "?"))) [
        | inl e' ↦
            let (s, valid) = named-print name false seg (ground arith) in rw s (sym whole, valid)
        | inr (trimmed, e') ↦
            let (s, valid) = named-print trimmed true seg (ground arith) in
            rw s (rw (← cut_suffix_sound name (str "?") trimmed e') (sym whole), valid)
      ]
]

parse_parts-print :
    (parts : List Str) (segs : List Segment)
    → parse_parts parts ≡ some segs
    → (map print_segment segs ≡ parts) × All HasValidName segs
unfolding parse_parts
parse_parts-print [] segs h = let e : segs ≡ [] = ground arith in rw e (refl, tt)
parse_parts-print (part ∷ parts) segs h =
    let (seg, e, f) = >>=-eq-some (parse_part part) _ h in
    let (rest, e', f') = >>=-eq-some (parse_parts parts) _ f in
    let (p, v) = parse_part-print part seg e in
    let (ps, vs) = parse_parts-print parts rest e' in
    let s : segs ≡ seg ∷ rest = ground arith in rw s (rw (p, ps), (v, vs))

is_empty-true : (s : Str) → is_empty s ≡ true → s ≡ []
is_empty-true [] h = refl
is_empty-true (c ∷ s) h = cc

-- Parsing loses nothing: the segments, printed and joined by slashes, are the URI without its
-- slashes at the ends, and every parameter has a name that a pattern can hold.
pub parse_segments-print :
    (uri : Str) (segs : List Segment)
    → parse_segments uri ≡ some segs
    → (join (map print_segment segs) (str "/") ≡ trim uri b'/') × All HasValidName segs
unfolding parse_segments
parse_segments-print uri segs h = elim (Bool-cases (is_empty (trim uri b'/'))) [
  | inl e ↦
      let s : segs ≡ [] = ground arith in
      rw (s, is_empty-true (trim uri b'/') e) (unfold join in refl, tt)
  | inr e ↦
      let (ps, vs) = parse_parts-print (split (trim uri b'/') b'/') segs (ground arith) in
      (rw ps (join-split (trim uri b'/') b'/'), vs)
]

-- ===== src/Routing/Uri.antt =====
-- app/Http/Kernel.go: joinURI and normalizeMethods.
use golite.Base.{
  List, [], ◌∷◌, ◌++◌, ◌≡◌, refl, sym, ap, ◌∙◌, arith, if◌then◌else◌, All, Str, str, is_empty, join,
  append-nil, append_assoc, trim, trim_left, trim_right, trim_space, to_upper, IsTrimmed, IsPart,
  trim-IsTrimmed, trim_of_IsTrimmed, join-IsPart,
}

unfoldable pub trimmed_parts : List Str → List Str
trimmed_parts [] = []
trimmed_parts (part ∷ parts) =
    let rest = trimmed_parts parts in
    if is_empty (trim part b'/') then rest else trim part b'/' ∷ rest

unfoldable pub join_uri : List Str → Str
join_uri parts = join (trimmed_parts parts) (str "/")

unfoldable pub normalize_methods : List Str → List Str
normalize_methods [] = []
normalize_methods (m ∷ methods) = to_upper (trim_space m) ∷ normalize_methods methods

trimmed_parts-IsPart : (parts : List Str) → All (IsPart b'/') (trimmed_parts parts)
unfolding trimmed_parts
trimmed_parts-IsPart [] = tt
trimmed_parts-IsPart (part ∷ parts) =
    ground (arith, trimmed_parts-IsPart parts, trim-IsTrimmed b'/' part)

trimmed_parts-append :
    (xs ys : List Str) → trimmed_parts (xs ++ ys) ≡ trimmed_parts xs ++ trimmed_parts ys
unfolding trimmed_parts
trimmed_parts-append [] ys = refl
trimmed_parts-append (x ∷ xs) ys = ground (arith, trimmed_parts-append xs ys)

join-append :
    (w : Str) (ws vs : List Str)
    → join (join (w ∷ ws) (str "/") ∷ vs) (str "/") ≡ join (w ∷ (ws ++ vs)) (str "/")
unfolding join
join-append w [] [] = refl
join-append w [] (v ∷ vs) = refl
join-append w (x ∷ ws) [] = ap (λ zs. join (w ∷ x ∷ zs) (str "/")) (sym (append-nil ws))
join-append w (x ∷ ws) (v ∷ vs) =
    append_assoc w (b'/' ∷ join (x ∷ ws) (str "/")) (b'/' ∷ join (v ∷ vs) (str "/"))
    ∙ ap (λ z. w ++ (b'/' ∷ z)) (join-append x ws (v ∷ vs))

trimmed_parts-join :
    (ws vs : List Str)
    → All (IsPart b'/') ws
    → join (trimmed_parts (join ws (str "/") ∷ []) ++ vs) (str "/") ≡ join (ws ++ vs) (str "/")
trimmed_parts-join [] vs h = unfold join trimmed_parts trim trim_left trim_right in refl
trimmed_parts-join (w ∷ ws) vs h =
    let (full, clean) = join-IsPart b'/' (str "/") w ws h in
    let whole = join (w ∷ ws) (str "/") in
    let same = trim_of_IsTrimmed b'/' whole clean in
    let e : trimmed_parts (whole ∷ []) ≡ whole ∷ [] =
      unfold trimmed_parts in ground (arith, same, full) in
    rw e (join-append w ws vs)

-- Joining fragments in two stages gives what joining all of them at once gives: the prefix of a
-- nested group does not depend on how the groups are nested.
pub join_uri_nested : (xs ys : List Str) → join_uri (join_uri xs ∷ ys) ≡ join_uri (xs ++ ys)
unfolding join_uri
join_uri_nested xs ys =
    ap (λ zs. join zs (str "/")) (trimmed_parts-append (join_uri xs ∷ []) ys)
    ∙ trimmed_parts-join (trimmed_parts xs) (trimmed_parts ys) (trimmed_parts-IsPart xs)
    ∙ ap (λ zs. join zs (str "/")) (sym (trimmed_parts-append xs ys))

join-IsTrimmed : (ws : List Str) → All (IsPart b'/') ws → IsTrimmed b'/' (join ws (str "/"))
join-IsTrimmed [] h = unfold join in (refl, refl)
join-IsTrimmed (w ∷ ws) h = (join-IsPart b'/' (str "/") w ws h).1

-- The result has no slash at either end.
pub join_uri-IsTrimmed : (parts : List Str) → IsTrimmed b'/' (join_uri parts)
unfolding join_uri
join_uri-IsTrimmed parts = join-IsTrimmed (trimmed_parts parts) (trimmed_parts-IsPart parts)

-- ===== src/Routing/Url/RoundTrip.antt =====
-- A generated URL leads back to its route: buildURL against compilePattern and matchPath.
use golite.Base.{
  ℕ, true, false, ◌||◌, Option, none, some, List, [], ◌∷◌, ◌++◌, ◌≡◌, ◌≢◌, ◌⊎◌, inl, inr, refl,
  arith, All, Str, str, ◌==◌, eq_iff, eq_refl, cut_prefix, cut_prefix-append, Map, lookup, insert,
  lookup-insert, has,
}
use golite.Routing.Segments.{Segment, static, param}
use golite.Routing.Pattern.{
  Matcher, longer, class_plus, not_slash, Piece, literal, group, Captures, with_capture, follow,
  run, compile_segments, compile_pattern, value_or, fill_params, match_path,
}
use golite.Routing.Url.{segment_url, segments_url, build_url}

-- Nothing, or a text that begins with a slash.
abbrev Continues : Str → Type 0
Continues [] = Unit
Continues (c ∷ s) = not_slash c ≡ false

class_plus_stops : (s : Str) → Continues s → class_plus not_slash s ≡ []
unfolding class_plus
class_plus_stops [] h = refl
class_plus_stops (c ∷ s) h = ground arith

-- The whole of a part comes first among the matches of "[^/]+".
class_plus_first :
    (c : ℕ) (v rest : Str)
    → All (λ d. not_slash d ≡ true) (c ∷ v)
    → Continues rest
    → (more : List (Str × Str)) × (class_plus not_slash ((c ∷ v) ++ rest) ≡ (c ∷ v, rest) ∷ more)
unfolding class_plus
class_plus_first c [] rest h k = ([], rw (h.0, class_plus_stops rest k))
class_plus_first c (d ∷ v) rest h k =
    let (more, e) = class_plus_first d v rest h.1 k in
    (longer c more ++ ((c ∷ [], (d ∷ v) ++ rest) ∷ []), rw (h.0, e))

abbrev pub param_names : List Segment → List Str
param_names [] = []
param_names (static s ∷ segs) = param_names segs
param_names (param name optional ∷ segs) = name ∷ param_names segs

All-has {κ} : (P : Str → Type κ) (xs : List Str) → ((n : Str) → has xs n ≡ true → P n) → All P xs
unfolding has
All-has P [] h = tt
All-has P (x ∷ xs) h = (h x (ground (arith, eq_refl x)), All-has P xs (λ n e. h n (ground arith)))

module _ (wheres defaults params : Map Str) where
  -- The segment is static, or a required parameter without a constraint, given a value that is not
  -- empty and has no slash.
  abbrev pub IsFilled : Segment → Type 0
  IsFilled (static s) = Unit
  IsFilled (param name true) = ⊥
  IsFilled (param name false) =
      (lookup name wheres ≡ none)
      × (v : Str) × (lookup name params ≡ some v)
      × (v ≢ [])
      × All (λ d. not_slash d ≡ true) v

  segments_url-Continues :
      (segs : List Segment) → All IsFilled segs → Continues (segments_url defaults params segs)
  unfolding segments_url segment_url
  segments_url-Continues [] h = tt
  segments_url-Continues (static s ∷ segs) h = refl
  segments_url-Continues (param name true ∷ segs) h = absurd h.0
  segments_url-Continues (param name false ∷ segs) h = let (free, v, e, _, _) = h.0 in rw e refl

  build_url-segments_url :
      (seg : Segment) (segs : List Segment)
      → All IsFilled (seg ∷ segs)
      → build_url (seg ∷ segs) defaults params ≡ segments_url defaults params (seg ∷ segs)
  unfolding build_url
  build_url-segments_url (static s) segs h = refl
  build_url-segments_url (param name true) segs h = absurd h.0
  build_url-segments_url (param name false) segs h = let (free, v, e, _, _) = h.0 in rw e refl

  abbrev or_empty : Option Str → Str
  or_empty none = []
  or_empty (some v) = v

  -- What the parameters of the segments capture.
  abbrev captures_of : List Segment → Captures
  captures_of [] = []
  captures_of (static s ∷ segs) = captures_of segs
  captures_of (param name optional ∷ segs) =
      (name, or_empty (lookup name params)) ∷ captures_of segs

  -- The parameters that a match of the URL yields are the given ones.
  fill_params-lookup :
      (segs : List Segment) (found : Map Str) (n : Str)
      → All IsFilled segs
      → (lookup n found ≡ lookup n params) ⊎ (has (param_names segs) n ≡ true)
      → lookup n (fill_params defaults (captures_of segs) found) ≡ lookup n params
  unfolding fill_params has
  fill_params-lookup [] found n h (inl e) = e
  fill_params-lookup [] found n h (inr e) = cc
  fill_params-lookup (static s ∷ segs) found n h e = fill_params-lookup segs found n h.1 e
  fill_params-lookup (param name true ∷ segs) found n h e = absurd h.0
  fill_params-lookup (param name false ∷ segs) found n h e =
      fill_params-lookup segs _ n h.1 (insert_agrees name n h.0 e)
    where
      insert_agrees :
          (name n : Str)
          → IsFilled (param name false)
          → (lookup n found ≡ lookup n params) ⊎ (((name == n) || has (param_names segs) n) ≡ true)
          → (lookup n (
                insert name (value_or (or_empty (lookup name params)) (lookup name defaults)) found)
              ≡ lookup n params)
            ⊎ (has (param_names segs) n ≡ true)
      insert_agrees name n (free, [], g, full, clean) e = absurd (full refl)
      insert_agrees name n (free, c ∷ v, g, full, clean) e = ground (
        arith,
        lookup-insert name n (value_or (or_empty (lookup name params)) (lookup name defaults))
            found,
        eq_iff name n,
      )

  module _ (regex : Str → Option Matcher)
      (plain : regex (str "[^/]+") ≡ some (class_plus not_slash)) where
    run_segments :
        (segs : List Segment)
        → All IsFilled segs
        → (ps : List Piece) × (more : List Captures) × (compile_segments regex wheres segs
            ≡ some ps)
          × (run ps (segments_url defaults params segs) ≡ captures_of segs ∷ more)
    unfolding compile_segments segments_url segment_url run
    run_segments [] h = ([], [], refl, refl)
    run_segments (static s ∷ segs) h =
        let (qs, more, e, f) = run_segments segs h.1 in
        (
          literal (str "/" ++ s) ∷ qs,
          more,
          rw e,
          rw (cut_prefix-append (str "/" ++ s) (segments_url defaults params segs)) f,
        )
    run_segments (param name true ∷ segs) h = absurd h.0
    run_segments (param name false ∷ segs) h = run_param h.0 (run_segments segs h.1)
      where
        run_param :
            IsFilled (param name false)
            → ((qs : List Piece) × (more : List Captures) × (compile_segments regex wheres segs
                  ≡ some qs)
                × (run qs (segments_url defaults params segs) ≡ captures_of segs ∷ more))
            → (ps : List Piece) × (more : List Captures) × (compile_segments regex wheres
                  (param name false ∷ segs)
                ≡ some ps)
              × (run ps (segments_url defaults params (param name false ∷ segs))
                  ≡ captures_of (param name false ∷ segs) ∷ more)
        run_param (free, [], g, full, clean) ih = absurd (full refl)
        run_param (free, c ∷ v, g, full, clean) (qs, more, e, f) =
            let url = segments_url defaults params segs in
            let (others, k) = class_plus_first c v url clean (segments_url-Continues segs h.1) in
            (
              literal (str "/") ∷ group name (class_plus not_slash) ∷ qs,
              with_capture name (c ∷ v) more ++ follow (run qs) name others,
              rw (free, plain, e),
              rw g (unfold cut_prefix in rw k (rw f)),
            )

    -- The URL that buildURL makes for a route without constraints and optional parameters, from
    -- values that are not empty and have no slash, is matched by the route's pattern, and the match
    -- yields the given value for every parameter, whatever the defaults.
    pub match_path-build_url :
        (segs : List Segment)
        → All IsFilled segs
        → (ps : List Piece) × (found : Map Str) × (compile_pattern regex segs wheres ≡ some ps)
          × (match_path (some ps) defaults (build_url segs defaults params) ≡ some found)
          × All (λ n. lookup n found ≡ lookup n params) (param_names segs)
    match_path-build_url [] h = (
      literal (str "/") ∷ [],
      [],
      unfold compile_pattern in refl,
      unfold match_path build_url run cut_prefix in refl,
      tt,
    )
    match_path-build_url (seg ∷ segs) h =
        let (ps, more, e, f) = run_segments (seg ∷ segs) h in
        (
          ps,
          fill_params defaults (captures_of (seg ∷ segs)) [],
          unfold compile_pattern in e,
          rw (build_url-segments_url seg segs h) (unfold match_path in rw f),
          All-has _ (param_names (seg ∷ segs))
              (λ n p. fill_params-lookup (seg ∷ segs) [] n h (inr p)),
        )

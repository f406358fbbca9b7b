-- ===== src/Routing/Pattern.antt =====
-- app/Http/Kernel.go: compilePattern and matchPath. A compiled pattern is the sequence of its
-- pieces between "^" and "$". A regular expression is what it matches at the start of a text: each
-- match with the rest of the text, in the order in which package regexp prefers them. The argument
-- `regex` gives the expression of a constraint's text, `none` if it does not compile; a constraint
-- is taken to have no named groups and to be an expression of its own.
use golite.Base.{
  ℕ, Bool, true, false, not, Option, none, some, List, [], ◌∷◌, ◌++◌, if◌then◌else◌, nat_eq, ◌>>=◌,
  Str, str, cut_prefix, Map, lookup, insert,
}
use golite.Routing.Segments.{Segment, static, param}

abbrev pub Matcher : Type 0
Matcher = Str → List (Str × Str)

abbrev pub longer : ℕ → List (Str × Str) → List (Str × Str)
longer c [] = []
longer c ((v, rest) ∷ ms) = (c ∷ v, rest) ∷ longer c ms

-- One or more bytes of a class, as many as possible first: "[^/]+" and the like.
unfoldable pub class_plus : (ℕ → Bool) → Matcher
class_plus p [] = []
class_plus p (c ∷ s) = if p c then longer c (class_plus p s) ++ ((c ∷ [], s) ∷ []) else []

abbrev pub not_slash : ℕ → Bool
not_slash c = not (nat_eq c b'/')

pub data Piece : Type 0 where
  literal : Str → Piece
  group : Str → Matcher → Piece
  -- (?:/(?P<name>...))?
  optional_group : Str → Matcher → Piece

abbrev pub Captures : Type 0
Captures = List (Str × Str)

abbrev pub with_capture : Str → Str → List Captures → List Captures
with_capture name v [] = []
with_capture name v (caps ∷ more) = ((name, v) ∷ caps) ∷ with_capture name v more

-- Each match of a group, followed by each match of what stands behind it.
abbrev pub follow : (Str → List Captures) → Str → List (Str × Str) → List Captures
follow next name [] = []
follow next name ((v, rest) ∷ ms) = with_capture name v (next rest) ++ follow next name ms

abbrev after_literal : (Str → List Captures) → Option Str → List Captures
after_literal next none = []
after_literal next (some rest) = next rest

abbrev after_slash : (Str → List Captures) → Str → Matcher → Option Str → List Captures
after_slash next name m none = []
after_slash next name m (some rest) = follow next name (m rest)

-- Every way to match a whole text, in the order of preference. A group that takes no part in the
-- match captures "".
unfoldable pub run : List Piece → Str → List Captures
run [] [] = [] ∷ []
run [] (c ∷ s) = []
run (literal t ∷ ps) s = after_literal (run ps) (cut_prefix s t)
run (group name m ∷ ps) s = follow (run ps) name (m s)
run (optional_group name m ∷ ps) s =
    after_slash (run ps) name m (cut_prefix s (str "/")) ++ with_capture name [] (run ps s)

abbrev pub first {ℓ} : {A : Type ℓ} → List A → Option A
first [] = none
first (x ∷ xs) = some x

unfoldable pub find_submatch : List Piece → Str → Option Captures
unfolding run
find_submatch ps s = first (run ps s)

abbrev pub constraint_of : Option Str → Str
constraint_of none = str "[^/]+"
constraint_of (some []) = str "[^/]+"
constraint_of (some (c ∷ s)) = c ∷ s

module _ (regex : Str → Option Matcher) where
  unfoldable pub compile_segment : Map Str → Segment → Option (List Piece)
  compile_segment wheres (static s) = some (literal (str "/" ++ s) ∷ [])
  compile_segment wheres (param name false) = regex (constraint_of (lookup name wheres)) >>= λ m.
      some (literal (str "/") ∷ group name m ∷ [])
  compile_segment wheres (param name true) =
      regex (constraint_of (lookup name wheres)) >>= λ m. some (optional_group name m ∷ [])

  unfoldable pub compile_segments : Map Str → List Segment → Option (List Piece)
  unfolding compile_segment
  compile_segments wheres [] = some []
  compile_segments wheres (seg ∷ segs) =
      compile_segment wheres seg >>= λ ps. compile_segments wheres segs >>= λ qs. some (ps ++ qs)

  -- `none` is the error of regexp.Compile.
  unfoldable pub compile_pattern : List Segment → Map Str → Option (List Piece)
  unfolding compile_segments
  compile_pattern [] wheres = some (literal (str "/") ∷ [])
  compile_pattern (seg ∷ segs) wheres = compile_segments wheres (seg ∷ segs)

-- The value of a parameter: its capture, or its default where that is "".
abbrev pub value_or : Str → Option Str → Str
value_or [] none = []
value_or [] (some d) = d
value_or (c ∷ v) d = c ∷ v

unfoldable pub fill_params : Map Str → Captures → Map Str → Map Str
fill_params defaults [] params = params
fill_params defaults ((name, v) ∷ caps) params =
    fill_params defaults caps (insert name (value_or v (lookup name defaults)) params)

-- A nil regex matches nothing.
unfoldable pub match_path : Option (List Piece) → Map Str → Str → Option (Map Str)
unfolding find_submatch fill_params
match_path none defaults path = none
match_path (some ps) defaults path =
    find_submatch ps path >>= λ caps. some (fill_params defaults caps [])

-- ===== src/Base/Text.antt =====
-- Go strings as lists of bytes, with the functions of package strings that the code calls.
use Prim.Native.Nat.{ℕ}
use Prim.Native.Char.{code}
use Prim.Native.String.{String}
use mathlib.Core.Path.{◌≡◌, refl}
use mathlib.Core.Logic.{◌↔◌, ◌≢◌}
use mathlib.Core.Bool.{Bool, true, false, ◌&&◌}
use mathlib.Core.List.{List, [], ◌∷◌, ◌++◌}
use mathlib.Core.Option.{Option, none, some}
use native.Mathlib.Omega.{arith}
use golite.Base.Tests.{if◌then◌else◌, nat_eq}

abbrev pub Str : Type 0
Str = List ℕ

-- The bytes of an ASCII literal.
abbrev pub str : String → Str
str String.[] = []
str (String.◌∷◌ c s) = code c ∷ str s

infix 50 ◌==◌
unfoldable pub ◌==◌ : Str → Str → Bool
[] == [] = true
[] == (d ∷ t) = false
(c ∷ s) == [] = false
(c ∷ s) == (d ∷ t) = nat_eq c d && (s == t)

pub eq_refl : (s : Str) → (s == s) ≡ true
unfolding ◌==◌
eq_refl [] = refl
eq_refl (c ∷ s) = ground (arith, eq_refl s)

eq_sound : (s t : Str) → (s == t) ≡ true → s ≡ t
unfolding ◌==◌
eq_sound [] [] h = refl
eq_sound [] (d ∷ t) h = cc
eq_sound (c ∷ s) [] h = cc
eq_sound (c ∷ s) (d ∷ t) h = ground (arith, eq_sound s t)

pub eq_iff : (s t : Str) → ((s == t) ≡ true) ↔ (s ≡ t)
eq_iff s t = (eq_sound s t, λ e. rw e (eq_refl t))

abbrev pub is_empty : Str → Bool
is_empty [] = true
is_empty (c ∷ s) = false

pub is_empty_of_ne : (t : Str) → t ≢ [] → is_empty t ≡ false
is_empty_of_ne [] h = absurd (h refl)
is_empty_of_ne (c ∷ t) h = refl

pub ne_of_is_empty : (t : Str) → is_empty t ≡ false → t ≢ []
ne_of_is_empty [] h = cc
ne_of_is_empty (c ∷ t) h = λ e. cc

-- strings.HasPrefix and strings.CutPrefix.
unfoldable pub cut_prefix : Str → Str → Option Str
cut_prefix s [] = some s
cut_prefix [] (p ∷ ps) = none
cut_prefix (c ∷ s) (p ∷ ps) = if nat_eq c p then cut_prefix s ps else none

pub cut_prefix_sound : (s p r : Str) → cut_prefix s p ≡ some r → s ≡ p ++ r
unfolding cut_prefix
cut_prefix_sound s [] r h = ground arith
cut_prefix_sound [] (p ∷ ps) r h = cc
cut_prefix_sound (c ∷ s) (p ∷ ps) r h = ground (arith, cut_prefix_sound s ps r)

pub cut_prefix-append : (p r : Str) → cut_prefix (p ++ r) p ≡ some r
unfolding cut_prefix
cut_prefix-append [] r = refl
cut_prefix-append (c ∷ p) r = ground (arith, cut_prefix-append p r)

-- strings.Cut at one byte: what stands before it, what stands after it, and whether it was found.
unfoldable pub cut : Str → ℕ → Str × Str × Bool
cut [] sep = ([], [], false)
cut (c ∷ s) sep =
    let (before, after, found) = cut s sep in
    if nat_eq c sep then ([], s, true) else (c ∷ before, after, found)

abbrev pub push_head : ℕ → List Str → List Str
push_head c [] = (c ∷ []) ∷ []
push_head c (w ∷ ws) = (c ∷ w) ∷ ws

-- strings.Split at one byte.
unfoldable pub split : Str → ℕ → List Str
split [] sep = [] ∷ []
split (c ∷ s) sep = let rest = split s sep in if nat_eq c sep then [] ∷ rest else push_head c rest

-- strings.Join.
unfoldable pub join : List Str → Str → Str
join [] sep = []
join (w ∷ []) sep = w
join (w ∷ v ∷ ws) sep = w ++ (sep ++ join (v ∷ ws) sep)

split_step_cases :
    (b : Bool) (c : ℕ) (w : Str) (ws : List Str)
    → (w' : Str) × (ws' : List Str) × ((if b then [] ∷ w ∷ ws else push_head c (w ∷ ws)) ≡ w' ∷ ws')
split_step_cases true c w ws = ([], w ∷ ws, refl)
split_step_cases false c w ws = (c ∷ w, ws, refl)

pub split_cases : (s : Str) (sep : ℕ) → (w : Str) × (ws : List Str) × (split s sep ≡ w ∷ ws)
unfolding split
split_cases [] sep = ([], [], refl)
split_cases (c ∷ s) sep =
    let (w, ws, e) = split_cases s sep in rw e (split_step_cases (nat_eq c sep) c w ws)

pub join-push_head :
    (c : ℕ) (w : Str) (ws : List Str) (sep : Str)
    → join (push_head c (w ∷ ws)) sep ≡ c ∷ join (w ∷ ws) sep
unfolding join
join-push_head c w [] sep = refl
join-push_head c w (v ∷ ws) sep = refl

pub join-split : (s : Str) (sep : ℕ) → join (split s sep) (sep ∷ []) ≡ s
unfolding join split
join-split [] sep = refl
join-split (c ∷ s) sep =
    let (w, ws, e) = split_cases s sep in
    let ih = join-split s sep in rw e (ground (arith, rw e at ih, join-push_head c w ws (sep ∷ [])))

-- strings.Trim with a cutset of one byte.
unfoldable pub trim_left : Str → ℕ → Str
trim_left [] b = []
trim_left (c ∷ s) b = let rest = trim_left s b in if nat_eq c b then rest else c ∷ s

abbrev pub cons_kept : ℕ → ℕ → Str → Str
cons_kept b c [] = if nat_eq c b then [] else c ∷ []
cons_kept b c (d ∷ s) = c ∷ d ∷ s

unfoldable pub trim_right : Str → ℕ → Str
trim_right [] b = []
trim_right (c ∷ s) b = cons_kept b c (trim_right s b)

unfoldable pub trim : Str → ℕ → Str
trim s b = trim_right (trim_left s b) b

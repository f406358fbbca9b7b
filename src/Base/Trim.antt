-- ===== src/Base/Trim.antt =====
-- Trimming one byte at both ends, strings.HasSuffix, and the ASCII part of case and white space.
use Prim.Native.Nat.{ℕ, ◌+◌, ◌-◌}
use mathlib.Core.Path.{◌≡◌, refl, sym, ap, ◌∙◌}
use mathlib.Core.Logic.{inl, inr}
use mathlib.Core.Bool.{Bool, true, false, not, ◌&&◌, ◌||◌}
use mathlib.Core.List.{List, [], ◌∷◌, ◌++◌, append_assoc}
use mathlib.Core.Option.{Option, none, some}
use native.Mathlib.Omega.{arith}
use golite.Base.Tests.{if◌then◌else◌, nat_eq, leb, Bool-cases, Option-cases}
use golite.Base.Lists.{All, length, length-append}
use golite.Base.Text.{
  Str, ◌==◌, eq_iff, is_empty, join, trim_left, trim_right, trim, cons_kept, eq_refl,
}

module _ (b : ℕ) where
  abbrev pub starts_clean : Str → Bool
  starts_clean [] = true
  starts_clean (c ∷ s) = not (nat_eq c b)

  abbrev pub ends_clean : Str → Bool
  ends_clean [] = true
  ends_clean (c ∷ []) = not (nat_eq c b)
  ends_clean (c ∷ d ∷ s) = ends_clean (d ∷ s)

  trim_left-starts_clean : (s : Str) → starts_clean (trim_left s b) ≡ true
  unfolding trim_left
  trim_left-starts_clean [] = refl
  trim_left-starts_clean (c ∷ s) = ground (arith, trim_left-starts_clean s)

  cons_kept-ends_clean :
      (c : ℕ) (s : Str) → ends_clean s ≡ true → ends_clean (cons_kept b c s) ≡ true
  cons_kept-ends_clean c [] h = ground arith
  cons_kept-ends_clean c (d ∷ s) h = h

  trim_right-ends_clean : (s : Str) → ends_clean (trim_right s b) ≡ true
  unfolding trim_right
  trim_right-ends_clean [] = refl
  trim_right-ends_clean (c ∷ s) = cons_kept-ends_clean c (trim_right s b) (trim_right-ends_clean s)

  cons_kept-starts_clean :
      (c : ℕ) (s : Str) → nat_eq c b ≡ false → starts_clean (cons_kept b c s) ≡ true
  cons_kept-starts_clean c [] h = ground arith
  cons_kept-starts_clean c (d ∷ s) h = ground arith

  trim_right-starts_clean : (s : Str) → starts_clean s ≡ true → starts_clean (trim_right s b) ≡ true
  unfolding trim_right
  trim_right-starts_clean [] h = refl
  trim_right-starts_clean (c ∷ s) h = cons_kept-starts_clean c (trim_right s b) (ground arith)

  trim_left_clean : (s : Str) → starts_clean s ≡ true → trim_left s b ≡ s
  unfolding trim_left
  trim_left_clean [] h = refl
  trim_left_clean (c ∷ s) h = ground arith

  trim_right_clean : (s : Str) → ends_clean s ≡ true → trim_right s b ≡ s
  unfolding trim_right
  trim_right_clean [] h = refl
  trim_right_clean (c ∷ []) h = ground arith
  trim_right_clean (c ∷ d ∷ s) h = rw (trim_right_clean (d ∷ s) h)

  -- A text that neither begins nor ends with the byte.
  abbrev pub IsTrimmed : Str → Type 0
  IsTrimmed s = (starts_clean s ≡ true) × (ends_clean s ≡ true)

  pub trim-IsTrimmed : (s : Str) → IsTrimmed (trim s b)
  unfolding trim
  trim-IsTrimmed s = (
    trim_right-starts_clean (trim_left s b) (trim_left-starts_clean s),
    trim_right-ends_clean (trim_left s b),
  )

  pub trim_of_IsTrimmed : (s : Str) → IsTrimmed s → trim s b ≡ s
  unfolding trim
  trim_of_IsTrimmed s h = rw (trim_left_clean s h.0) (trim_right_clean s h.1)

  ends_clean-append : (s t : Str) (c : ℕ) → ends_clean (s ++ (c ∷ t)) ≡ ends_clean (c ∷ t)
  ends_clean-append [] t c = refl
  ends_clean-append (d ∷ []) t c = refl
  ends_clean-append (d ∷ e ∷ s) t c = ends_clean-append (e ∷ s) t c

  abbrev pub IsPart : Str → Type 0
  IsPart s = (is_empty s ≡ false) × IsTrimmed s

  append-IsPart : (w s v : Str) → IsPart w → IsPart v → IsPart (w ++ (s ++ v))
  append-IsPart [] s v h k = absurd (ground arith)
  append-IsPart (c ∷ w) s [] h k = absurd (ground arith)
  append-IsPart (c ∷ w) s (d ∷ v) h k = (
    refl,
    (
      h.1.0,
      ap ends_clean (sym (append_assoc (c ∷ w) s (d ∷ v)))
          ∙ ends_clean-append ((c ∷ w) ++ s) v d
          ∙ k.1.1,
    ),
  )

  pub join-IsPart : (sep w : Str) (ws : List Str) → All IsPart (w ∷ ws) → IsPart (join (w ∷ ws) sep)
  unfolding join
  join-IsPart sep w [] h = h.0
  join-IsPart sep w (v ∷ ws) h =
      append-IsPart w sep (join (v ∷ ws) sep) h.0 (join-IsPart sep v ws h.1)

-- strings.HasSuffix and strings.CutSuffix.
abbrev cons_before : ℕ → Option Str → Option Str
cons_before c none = none
cons_before c (some s) = some (c ∷ s)

unfoldable pub cut_suffix : Str → Str → Option Str
cut_suffix [] suffix = if is_empty suffix then some [] else none
cut_suffix (c ∷ s) suffix =
    let rest = cons_before c (cut_suffix s suffix) in if (c ∷ s) == suffix then some [] else rest

pub cut_suffix_sound : (s suffix r : Str) → cut_suffix s suffix ≡ some r → s ≡ r ++ suffix
unfolding cut_suffix
cut_suffix_sound [] [] r h = ground arith
cut_suffix_sound [] (d ∷ suffix) r h = cc
cut_suffix_sound (c ∷ s) suffix r h = elim (Bool-cases ((c ∷ s) == suffix)) [
  | inl whole ↦ ground (arith, eq_iff (c ∷ s) suffix)
  | inr more ↦ elim (Option-cases (cut_suffix s suffix)) [
    | inl e ↦ absurd (ground arith)
    | inr (q, e) ↦ ground (arith, cut_suffix_sound s suffix q e)
  ]
]

longer_ne : (c : ℕ) (r suffix : Str) → (((c ∷ r) ++ suffix) == suffix) ≡ false
longer_ne c r suffix = elim (Bool-cases (((c ∷ r) ++ suffix) == suffix)) [
  | inr e ↦ e
  | inl e ↦
      let same : length ((c ∷ r) ++ suffix) ≡ length suffix =
        ap length ((eq_iff ((c ∷ r) ++ suffix) suffix).0 e) in
      absurd (omega (arith, same, length-append (c ∷ r) suffix))
]

pub cut_suffix-append : (r suffix : Str) → cut_suffix (r ++ suffix) suffix ≡ some r
unfolding cut_suffix
cut_suffix-append [] [] = refl
cut_suffix-append [] (d ∷ suffix) = rw (eq_refl (d ∷ suffix)) refl
cut_suffix-append (c ∷ r) suffix = rw (longer_ne c r suffix, cut_suffix-append r suffix) refl

-- strings.ToUpper and strings.ToLower, over ASCII.
abbrev upper : ℕ → ℕ
upper c = if leb b'a' c && leb c b'z' then c - 32 else c

abbrev lower : ℕ → ℕ
lower c = if leb b'A' c && leb c b'Z' then c + 32 else c

unfoldable pub to_upper : Str → Str
to_upper [] = []
to_upper (c ∷ s) = upper c ∷ to_upper s

unfoldable pub to_lower : Str → Str
to_lower [] = []
to_lower (c ∷ s) = lower c ∷ to_lower s

-- strings.EqualFold, over ASCII.
unfoldable pub equal_fold : Str → Str → Bool
equal_fold s t = to_lower s == to_lower t

-- strings.TrimSpace, over ASCII.
abbrev is_space : ℕ → Bool
is_space c = nat_eq c 32 || (leb 9 c && leb c 13)

unfoldable pub trim_space_left : Str → Str
trim_space_left [] = []
trim_space_left (c ∷ s) = let rest = trim_space_left s in if is_space c then rest else c ∷ s

abbrev cons_unspaced : ℕ → Str → Str
cons_unspaced c [] = if is_space c then [] else c ∷ []
cons_unspaced c (d ∷ s) = c ∷ d ∷ s

unfoldable pub trim_space_right : Str → Str
trim_space_right [] = []
trim_space_right (c ∷ s) = cons_unspaced c (trim_space_right s)

unfoldable pub trim_space : Str → Str
unfolding trim_space_left trim_space_right
trim_space s = trim_space_right (trim_space_left s)

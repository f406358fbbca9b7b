-- ===== src/Auth/Decimal.antt =====
-- fmt's "%d" and strconv.ParseUint(s, 10, 64), and their round trip.
use golite.Base.{
  ℕ, zero, suc, ◌+◌, ◌-◌, ◌*◌, ◌/◌, ◌%◌, ◌^◌, ◌≤◌, ◌<◌, false, ◌&&◌, Option, none, some, [], ◌∷◌,
  ◌++◌, ◌≡◌, refl, sym, ap, lt→ltb, Bool-cases, inl, inr, ◌∙◌, arith, if◌then◌else◌, ◌>>=◌, ltb,
  leb, All, All-append, Str, is_empty,
}
use native.Mathlib.Decide.{dec_lt}
use native.Mathlib.Nat.{pow-suc}

-- The digits of a number below 10 ^ fuel.
unfoldable pub print_digits : ℕ → ℕ → Str
print_digits zero n = []
print_digits (suc fuel) n =
    let front = print_digits fuel (n / 10) in
    if ltb n 10 then (b'0' + n) ∷ [] else front ++ ((b'0' + n % 10) ∷ [])

-- A uint has at most 20 digits.
unfoldable pub print_uint : ℕ → Str
print_uint n = print_digits 20 n

-- One more digit; `none` is a syntax error or a value out of range.
abbrev pub add_digit : ℕ → ℕ → Option ℕ
add_digit acc c =
    if leb b'0' c && leb c b'9'
    then (if ltb (acc * 10 + (c - b'0')) (2 ^ 64) then some (acc * 10 + (c - b'0')) else none)
    else none

unfoldable pub parse_digits : ℕ → Str → Option ℕ
parse_digits acc [] = some acc
parse_digits acc (c ∷ s) = add_digit acc c >>= λ next. parse_digits next s

unfoldable pub parse_uint : Str → Option ℕ
unfolding parse_digits
parse_uint s = if is_empty s then none else parse_digits 0 s

bind_some : {A : Type 0} (m : Option A) → (m >>= λ a. some a) ≡ m
bind_some none = refl
bind_some (some a) = refl

bind_assoc :
    {A B C : Type 0} (m : Option A) (f : A → Option B) (g : B → Option C)
    → (m >>= f >>= g) ≡ (m >>= λ a. f a >>= g)
bind_assoc none f g = refl
bind_assoc (some a) f g = refl

bind_ext :
    {A B : Type 0} (m : Option A) {f g : A → Option B}
    → ((a : A) → f a ≡ g a)
    → (m >>= f) ≡ (m >>= g)
bind_ext none h = refl
bind_ext (some a) h = h a

parse_digits-append :
    (s : Str) (acc c : ℕ)
    → parse_digits acc (s ++ (c ∷ [])) ≡ (parse_digits acc s >>= λ next. add_digit next c)
unfolding parse_digits
parse_digits-append [] acc c = bind_some (add_digit acc c)
parse_digits-append (d ∷ s) acc c =
    bind_ext (add_digit acc d) (λ next. parse_digits-append s next c)
    ∙ sym (bind_assoc (add_digit acc d) (λ next. parse_digits next s) (λ next. add_digit next c))

add_digit-some :
    (acc d : ℕ) → d < 10 → acc * 10 + d < 2 ^ 64 → add_digit acc (b'0' + d) ≡ some (acc * 10 + d)
add_digit-some acc d h k = ground arith

parse_digits-print_digits :
    (fuel n : ℕ) → n < 2 ^ 64 → n < 10 ^ fuel → parse_digits 0 (print_digits fuel n) ≡ some n
unfolding parse_digits print_digits
parse_digits-print_digits zero n h k = let none_left : 0 ≡ n = omega arith in ap some none_left
parse_digits-print_digits (suc fuel) n h k = elim (dec_lt n 10) [
  | yes small ↦
      rw (lt→ltb n 10 small, add_digit-some 0 n small (omega arith)) (ap some (omega arith))
  | no large ↦
      let test : ltb n 10 ≡ false = ground arith in
      let power : 10 ^ suc fuel ≡ 10 ^ fuel * 10 = pow-suc 10 fuel in
      let whole : n / 10 * 10 + n % 10 ≡ n = omega arith in
      rw
        (
          test,
          parse_digits-append (print_digits fuel (n / 10)) 0 (b'0' + n % 10),
          parse_digits-print_digits fuel (n / 10) (omega arith) (omega arith),
        )
        (add_digit-some (n / 10) (n % 10) (omega arith) (omega arith) ∙ ap some whole)
]

append_ne : (s : Str) (c : ℕ) → is_empty (s ++ (c ∷ [])) ≡ false
append_ne [] c = refl
append_ne (d ∷ s) c = refl

print_digits_ne : (fuel n : ℕ) → is_empty (print_digits (suc fuel) n) ≡ false
unfolding print_digits
print_digits_ne fuel n = elim (Bool-cases (ltb n 10)) [
  | inl e ↦ rw e refl
  | inr e ↦ rw e (append_ne (print_digits fuel (n / 10)) (b'0' + n % 10))
]

-- Parsing a printed uint gives it back.
pub parse_uint-print_uint : (n : ℕ) → n < 2 ^ 64 → parse_uint (print_uint n) ≡ some n
unfolding parse_uint print_uint
parse_uint-print_uint n h =
    rw (print_digits_ne 19 n) (parse_digits-print_digits 20 n h (omega arith))

print_digits_range : (fuel n : ℕ) → All (λ c. (b'0' ≤ c) × (c ≤ b'9')) (print_digits fuel n)
unfolding print_digits
print_digits_range zero n = tt
print_digits_range (suc fuel) n = elim (dec_lt n 10) [
  | yes small ↦ rw (lt→ltb n 10 small) ((omega arith, omega arith), tt)
  | no large ↦
      let test : ltb n 10 ≡ false = ground arith in
      rw test (
        All-append _ (print_digits fuel (n / 10)) _ (print_digits_range fuel (n / 10))
          ((omega arith, omega arith), tt))
]

pub print_uint_range : (n : ℕ) → All (λ c. (b'0' ≤ c) × (c ≤ b'9')) (print_uint n)
unfolding print_uint
print_uint_range n = print_digits_range 20 n

-- ===== src/Validation/Rules.antt =====
-- validation/rules.go: the registry and the rules that do not parse numbers, addresses or URLs.
-- fmt.Sprintf("%v", ...) is the argument `sprint`.
use golite.Base.{
  ℕ, Bool, true, false, ◌&&◌, ◌||◌, ◌^◌, Option, none, some, List, [], ◌∷◌, ◌++◌, if◌then◌else◌,
  leb, nat_eq, all_of, any, Str, str, ◌==◌, to_lower, Map, insert,
}
use golite.Value.{Value, boolean, float64, text}
use golite.Validation.{Rule, is_empty_value, lookup_field}

unfoldable pub extend_rules : Str → Rule → Map Rule → Map Rule
extend_rules name fn registry = insert name fn registry

unfoldable pub humanize : Str → Str
humanize [] = []
humanize (c ∷ s) = (if nat_eq c b'_' then b' ' else c) ∷ humanize s

-- "The <field> field <complaint>"
abbrev message : Str → Str → Str
message name complaint = str "The " ++ (humanize name ++ (str " field " ++ complaint))

abbrev unless : Bool → Str → Str
unless true complaint = []
unless false complaint = complaint

unfoldable pub rule_required : Rule
rule_required name v params input =
    if is_empty_value v then message name (str "is required.") else []

unfoldable pub rule_nullable : Rule
rule_nullable name v params input = []

abbrev is_text : Value → Bool
is_text (text t) = true
is_text _ = false

unfoldable pub rule_string : Rule
rule_string name v params input = unless (is_text v) (message name (str "must be a string."))

abbrev boolean_words : List Str
boolean_words = str "1" ∷ str "0" ∷ str "true" ∷ str "false" ∷ str "yes" ∷ str "no" ∷ []

-- The float64 bits of 0, -0 and 1.
abbrev is_zero_or_one : ℕ → Bool
is_zero_or_one n = nat_eq n 0 || nat_eq n (2 ^ 63) || nat_eq n 4607182418800017408

unfoldable pub is_boolean : Value → Bool
is_boolean (boolean b) = true
is_boolean (text t) = any (λ w. to_lower t == w) boolean_words
is_boolean (float64 n) = is_zero_or_one n
is_boolean _ = false

unfoldable pub rule_boolean : Rule
rule_boolean name v params input =
    unless (is_boolean v) (message name (str "must be true or false."))

abbrev is_alpha : ℕ → Bool
is_alpha c = (leb b'a' c && leb c b'z') || (leb b'A' c && leb c b'Z')

abbrev is_digit : ℕ → Bool
is_digit c = leb b'0' c && leb c b'9'

-- ^[class]+$
abbrev matches_class : (ℕ → Bool) → Value → Bool
matches_class p (text []) = false
matches_class p (text (c ∷ s)) = all_of p (c ∷ s)
matches_class p _ = false

unfoldable pub rule_alpha : Rule
rule_alpha name v params input =
    unless (matches_class is_alpha v) (message name (str "must only contain letters."))

unfoldable pub rule_alpha_num : Rule
rule_alpha_num name v params input =
    unless (matches_class (λ c. is_alpha c || is_digit c) v)
      (message name (str "must only contain letters and numbers."))

module _ (sprint : Value → Str) where
  unfoldable pub rule_in : Rule
  rule_in name v params input =
      unless (any (λ allowed. sprint v == allowed) params)
        (str "The selected " ++ (humanize name ++ str " is invalid."))

  -- The other field is there and prints alike.
  abbrev pub agrees : Option Value → Value → Bool
  agrees none v = false
  agrees (some other) v = sprint other == sprint v

  unfoldable pub rule_confirmed : Rule
  rule_confirmed name v params input =
      unless (agrees (lookup_field input (name ++ str "_confirmation")) v)
        (message name (str "confirmation does not match."))

  unfoldable pub rule_same : Rule
  rule_same name v [] input = []
  rule_same name v (other ∷ params) input =
      unless (agrees (lookup_field input other) v)
        (message name (str "must match " ++ (humanize other ++ str ".")))

  unfoldable pub rule_different : Rule
  rule_different name v [] input = []
  rule_different name v (other ∷ params) input =
      if agrees (lookup_field input other) v
      then message name (str "must be different from " ++ (humanize other ++ str "."))
      else []

  -- The part of init that registers these rules.
  unfoldable pub init_rules : Map Rule → Map Rule
  unfolding extend_rules
  init_rules registry = extend_rules (str "different") rule_different (
      extend_rules (str "same") rule_same (
        extend_rules (str "confirmed") rule_confirmed (
          extend_rules (str "alpha_num") rule_alpha_num (
            extend_rules (str "alpha") rule_alpha (
              extend_rules (str "in") rule_in (
                extend_rules (str "boolean") rule_boolean (
                  extend_rules (str "string") rule_string (
                    extend_rules (str "nullable") rule_nullable
                      (extend_rules (str "required") rule_required registry)))))))))

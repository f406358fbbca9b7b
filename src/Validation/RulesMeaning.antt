-- ===== src/Validation/RulesMeaning.antt =====
-- What passing some rules of validation/rules.go says of the input.
use golite.Base.{
  false, Bool-cases, some, List, [], ◌∷◌, ◌≡◌, ◌≢◌, ◌↔◌, inl, inr, refl, arith, Str, str, eq_iff,
  Map, lookup,
}
use golite.Value.{Value, Fields}
use golite.Validation.{Rule, is_empty_value, lookup_field, value_of, parse_rule_spec}
use golite.Validation.Passing.{Passes}
use golite.Validation.Rules.{rule_required, rule_same, rule_different, agrees}

rule_required_lem :
    (name : Str) (v : Value) (params : List Str) (input : Fields)
    → rule_required name v params input ≡ []
    → is_empty_value v ≡ false
unfolding rule_required
rule_required_lem name v params input h = elim (Bool-cases (is_empty_value v)) [
  | inl e ↦ absurd (ground arith)
  | inr e ↦ e
]

-- A field that passes the rule "required" has a value that is neither missing nor null nor an empty
-- text or list: the rule is not skipped for an empty value, as all others are. The name "required"
-- is registered for it.
pub required-Passes :
    (registry : Map Rule) (input : Fields) (name spec : Str)
    → lookup (str "required") registry ≡ some rule_required
    → (parse_rule_spec spec).0 ≡ str "required"
    → Passes registry input name spec
    → is_empty_value (value_of registry input name) ≡ false
required-Passes registry input name spec known same (inl skipped) =
    absurd (ground (arith, eq_iff (parse_rule_spec spec).0 (str "required")))
required-Passes registry input name spec known same (inr (fn, found, passed)) =
    let it : fn ≡ rule_required = cc in
    rule_required_lem name (value_of registry input name) (parse_rule_spec spec).1 input
      (rw (← it) passed)

-- For one other field the rules "same" and "different" are complements: a value passes one of them
-- exactly when it fails the other.
pub rule_same-rule_different :
    (sprint : Value → Str) (name other : Str) (params : List Str) (v : Value) (input : Fields)
    → (rule_same sprint name v (other ∷ params) input ≡ [])
      ↔ (rule_different sprint name v (other ∷ params) input ≢ [])
unfolding rule_same rule_different
rule_same-rule_different sprint name other params v input =
    elim (Bool-cases (agrees sprint (lookup_field input other) v)) [
      | inl e ↦ rw e ((λ passed failed. cc), λ failed. refl)
      | inr e ↦ rw e ((λ passed. absurd (ground arith)), λ failed. absurd (failed refl))
    ]

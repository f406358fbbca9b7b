-- ===== src/Validation/Tests.antt =====
-- A run of the validator: one field that is required and one that may be missing.
use golite.Base.{
  Option, some, [], ◌∷◌, ◌≡◌, inr, refl, Str, str, ◌==◌, Map, lookup, insert, cut, split,
}
use golite.Value.{Value, text, Fields, end, field}
use golite.Validation.{
  is_empty_value, lookup_field, lookup_path, field_of, Rule, Validator, make, validated, split_all,
  split_rules, parse_rule_spec, keys_of, sort_strings, insert_string, before,
}
use golite.Validation.Passing.{Passes}
use golite.Validation.Rules.{init_rules, extend_rules, rule_required}
use golite.Validation.Validated.{AllRegistered, Result, validated_lem}

abbrev sprint : Value → Str
sprint (text t) = t
sprint _ = []

abbrev registry : Map Rule
registry = init_rules sprint []

abbrev input : Fields
input = field (str "name") (text (str "Ann")) end

abbrev rules : Map Str
rules = (str "name", str "required|alpha") ∷ (str "city", str "string") ∷ []

rules-AllRegistered : AllRegistered registry input (split_all rules) (sort_strings (keys_of rules))
unfolding sort_strings insert_string before split_rules split parse_rule_spec cut lookup init_rules
    extend_rules insert ◌==◌
rules-AllRegistered = (((λ e. cc), tt), (((λ e. cc), ((λ e. cc), tt)), tt))

validated_example :
    (v : Validator) × (result : Option (Map Value)) × (validated registry (make input rules)
      ≡ some (v, result))
    × (validated registry v ≡ some (v, result))
    × Result registry input rules result
validated_example = validated_lem registry input rules rules-AllRegistered

name-Passes : Passes registry input (str "name") (str "required")
unfolding init_rules extend_rules insert lookup parse_rule_spec cut ◌==◌ rule_required
    is_empty_value lookup_field lookup_path field_of split
name-Passes = inr (rule_required, refl, refl)

required_registered : lookup (str "required") registry ≡ some rule_required
unfolding init_rules extend_rules insert lookup ◌==◌
required_registered = refl

required_parses : (parse_rule_spec (str "required")).0 ≡ str "required"
unfolding parse_rule_spec cut
required_parses = refl

-- ===== src/Validation.antt =====
-- validation/validator.go, util.go and errors.go: the validator, over a registry of rules.
pub mod Rules
pub mod Passing
pub mod RulesMeaning
pub mod Validated
pub mod Tests
use golite.Base.{
  ℕ, Bool, true, false, not, ◌&&◌, ◌||◌, Option, none, some, List, [], ◌∷◌, ◌++◌, if◌then◌else◌,
  ltb, ◌>>=◌, keep, Str, str, is_empty, ◌==◌, cut, split, Map, lookup, insert,
}
use golite.Value.{Value, null, text, slice, object, Values, nil, cons, Fields, end, field}

-- m[name] in a map[string]any.
unfoldable pub field_of : Str → Fields → Option Value
field_of name end = none
field_of name (field key v rest) = if key == name then some v else field_of name rest

unfoldable pub lookup_path : List Str → Value → Option Value
lookup_path [] v = some v
lookup_path (segment ∷ path) (object fs) = field_of segment fs >>= λ v. lookup_path path v
lookup_path (segment ∷ path) _ = none

-- lookup of util.go.
unfoldable pub lookup_field : Fields → Str → Option Value
lookup_field input name = lookup_path (split name b'.') (object input)

unfoldable pub is_empty_value : Value → Bool
is_empty_value null = true
is_empty_value (text t) = is_empty t
is_empty_value (slice nil) = true
is_empty_value _ = false

unfoldable pub split_rules : Str → List Str
split_rules spec = keep (λ rule. not (is_empty rule)) (split spec b'|')

unfoldable pub parse_rule_spec : Str → Str × List Str
parse_rule_spec spec =
    let (name, rest, has_params) = cut spec b':' in
    if not has_params || is_empty rest then (name, []) else (name, split rest b',')

-- RuleFunc: the message, "" where the value passes.
abbrev pub Rule : Type 0
Rule = Str → Value → List Str → Fields → Str

abbrev pub Errors : Type 0
Errors = Map (List Str)

abbrev pub messages_of : Option (List Str) → List Str
messages_of none = []
messages_of (some messages) = messages

-- Errors.Add.
unfoldable pub add : Str → Str → Errors → Errors
add name message errors = insert name (messages_of (lookup name errors) ++ (message ∷ [])) errors

abbrev pub add_failure : Str → Str → Errors → Errors
add_failure name [] errors = errors
add_failure name (c ∷ message) errors = add name (c ∷ message) errors

abbrev pub or_null : Option Value → Value
or_null none = null
or_null (some v) = v

module _ (registry : Map Rule) (input : Fields) where
  abbrev pub value_of : Str → Value
  value_of name = or_null (lookup_field input name)

  -- The rule is skipped: the value is missing or empty, and the rule is not "required".
  abbrev pub skips : Str → Str → Bool
  skips name spec =
      is_empty_value (value_of name) && not ((parse_rule_spec spec).0 == str "required")

  -- `none` is the panic about a rule that is not registered.
  unfoldable pub check_rule : Str → Str → Errors → Option Errors
  check_rule name spec errors =
      let (rule, params) = parse_rule_spec spec in
      if skips name spec
      then some errors
      else (lookup rule registry >>= λ fn.
          some (add_failure name (fn name (value_of name) params input) errors))

  unfoldable pub check_rules : Str → List Str → Errors → Option Errors
  check_rules name [] errors = some errors
  check_rules name (spec ∷ specs) errors =
      check_rule name spec errors >>= λ errors'. check_rules name specs errors'

  unfoldable pub run : Map (List Str) → List Str → Errors → Option Errors
  run rules [] errors = some errors
  run rules (name ∷ fields) errors =
      check_rules name (messages_of (lookup name rules)) errors >>= λ errors'.
      run rules fields errors'

-- s < t for Go strings.
unfoldable pub before : Str → Str → Bool
before s [] = false
before [] (d ∷ t) = true
before (c ∷ s) (d ∷ t) = if ltb c d then true else (if ltb d c then false else before s t)

unfoldable pub insert_string : Str → List Str → List Str
insert_string s [] = s ∷ []
insert_string s (t ∷ ts) = if before t s then t ∷ insert_string s ts else s ∷ t ∷ ts

unfoldable pub sort_strings : List Str → List Str
unfolding insert_string
sort_strings [] = []
sort_strings (s ∷ ss) = insert_string s (sort_strings ss)

pub record Validator : Type 0 where
  pub input : Fields
  pub fields : List Str
  pub rules : Map (List Str)
  pub errors : Errors
  pub ran : Bool

abbrev pub keys_of : Map Str → List Str
keys_of [] = []
keys_of ((name, spec) ∷ rules) = name ∷ keys_of rules

abbrev pub split_all : Map Str → Map (List Str)
split_all [] = []
split_all ((name, spec) ∷ rules) = (name, split_rules spec) ∷ split_all rules

unfoldable pub make : Fields → Map Str → Validator
make input rules = record {
  input = input;
  fields = sort_strings (keys_of rules);
  rules = split_all rules;
  errors = [];
  ran = false;
}

abbrev pub is_nil : Errors → Bool
is_nil [] = true
is_nil (e ∷ errors) = false

abbrev pub present_fields : Fields → List Str → Map Value → Map Value
present_fields input [] out = out
present_fields input (name ∷ fields) out =
    present_fields input fields
      (elim (lookup_field input name) [ none ↦ out | some v ↦ insert name v out ])

module _ (registry : Map Rule) where
  unfoldable pub ensure_ran : Validator → Option Validator
  ensure_ran v =
      if v.ran
      then some v
      else (run registry v.input v.rules v.fields v.errors >>= λ errors.
          some (record v { errors = errors; ran = true }))

  unfoldable pub fails : Validator → Option (Validator × Bool)
  unfolding ensure_ran
  fails v = ensure_ran v >>= λ v'. some (v', not (is_nil v'.errors))

  -- The inner `none` is the *Exception that carries the errors.
  unfoldable pub validated : Validator → Option (Validator × Option (Map Value))
  unfolding fails
  validated v = fails v >>= λ r.
      some (r.0, if r.1 then none else some (present_fields r.0.input r.0.fields []))

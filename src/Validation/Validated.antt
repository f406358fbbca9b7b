-- ===== src/Validation/Validated.antt =====
-- Validator.Validated of validation/validator.go.
use golite.Base.{
  true, not, ◌&&◌, ◌||◌, Bool-cases, Option-cases, Option, none, some, List, [], ◌∷◌, ◌≡◌, ◌≢◌, inl,
  inr, refl, arith, if◌then◌else◌, is_some, All, Str, ◌==◌, eq_iff, Map, lookup, insert,
  lookup-insert, has,
}
use golite.Value.{Value, Fields}
use golite.Validation.{
  Rule, Errors, add_failure, value_of, messages_of, skips, parse_rule_spec, check_rule, check_rules,
  run, Validator, make, is_nil, ensure_ran, fails, validated, present_fields, lookup_field,
  split_all, keys_of, sort_strings, insert_string,
}
use golite.Validation.Passing.{AllPass, run-Passes}

has-insert_string :
    (s k : Str) (ts : List Str) → has (insert_string s ts) k ≡ ((s == k) || has ts k)
unfolding insert_string has
has-insert_string s k [] = refl
has-insert_string s k (t ∷ ts) = ground (arith, has-insert_string s k ts)

has-sort_strings : (ss : List Str) (k : Str) → has (sort_strings ss) k ≡ has ss k
unfolding sort_strings has
has-sort_strings [] k = refl
has-sort_strings (s ∷ ss) k =
    ground (arith, has-insert_string s k (sort_strings ss), has-sort_strings ss k)

lookup-present_fields :
    (input : Fields) (fields : List Str) (out : Map Value) (k : Str)
    → lookup k (present_fields input fields out) ≡ (
        if has fields k && is_some (lookup_field input k)
        then lookup_field input k
        else lookup k out)
unfolding has
lookup-present_fields input [] out k = refl
lookup-present_fields input (name ∷ fields) out k = elim (Option-cases (lookup_field input name)) [
  | inl e ↦ rw e (ground (arith, lookup-present_fields input fields out k, eq_iff name k))
  | inr (v, e) ↦ rw e (
      ground (
        arith,
        lookup-present_fields input fields (insert name v out) k,
        lookup-insert name k v out,
        eq_iff name k,
      ))
]

module _ (registry : Map Rule) (input : Fields) where
  abbrev pub IsRegistered : Str → Type 0
  IsRegistered spec = lookup (parse_rule_spec spec).0 registry ≢ none

  check_rule_total :
      (name spec : Str) (errors : Errors)
      → IsRegistered spec
      → (out : Errors) × (check_rule registry input name spec errors ≡ some out)
  unfolding check_rule
  check_rule_total name spec errors h = elim (Bool-cases (skips registry input name spec)) [
    | inl e ↦ (errors, ground arith)
    | inr e ↦ elim (Option-cases (lookup (parse_rule_spec spec).0 registry)) [
      | inl f ↦ absurd (h f)
      | inr (fn, f) ↦ (
        add_failure name (fn name (value_of registry input name) (parse_rule_spec spec).1 input)
            errors,
        rw (e, f) refl,
      )
    ]
  ]

  check_rules_total :
      (name : Str) (specs : List Str) (errors : Errors)
      → All IsRegistered specs
      → (out : Errors) × (check_rules registry input name specs errors ≡ some out)
  unfolding check_rules
  check_rules_total name [] errors h = (errors, refl)
  check_rules_total name (spec ∷ specs) errors h =
      let (next, e) = check_rule_total name spec errors h.0 in
      let (out, f) = check_rules_total name specs next h.1 in (out, rw e f)

  -- Every rule that the fields ask for is registered.
  abbrev pub AllRegistered : Map (List Str) → List Str → Type 0
  AllRegistered rules fields =
      All (λ name. All IsRegistered (messages_of (lookup name rules))) fields

  run_total :
      (rules : Map (List Str)) (fields : List Str) (errors : Errors)
      → AllRegistered rules fields
      → (out : Errors) × (run registry input rules fields errors ≡ some out)
  unfolding run
  run_total rules [] errors h = (errors, refl)
  run_total rules (name ∷ fields) errors h =
      let (next, e) = check_rules_total name (messages_of (lookup name rules)) errors h.0 in
      let (out, f) = run_total rules fields next h.1 in (out, rw e f)

  -- What Validated returns: the values of the fields that have rules, where every rule passes, and
  -- else the exception.
  pub data Result (rules : Map Str) : Option (Map Value) → Type 0 where
    valid :
        {out : Map Value}
        → AllPass registry input (split_all rules) (sort_strings (keys_of rules))
        → ((name : Str)
            → lookup name out
              ≡ (if has (keys_of rules) name then lookup_field input name else none))
        → Result rules (some out)
    invalid :
        ¬ AllPass registry input (split_all rules) (sort_strings (keys_of rules))
        → Result rules none

  errors-Result :
      (rules : Map Str) (errors : Errors)
      → run registry input (split_all rules) (sort_strings (keys_of rules)) [] ≡ some errors
      → Result rules (
          if not (is_nil errors)
          then none
          else some (present_fields input (sort_strings (keys_of rules)) []))
  unfolding lookup
  errors-Result rules [] h =
      let fields = sort_strings (keys_of rules) in
      valid ((run-Passes registry input (split_all rules) fields [] [] h).0 refl).0 (λ name.
        ground (
          arith,
          lookup-present_fields input fields [] name,
          has-sort_strings (keys_of rules) name,
        ))
  errors-Result rules (entry ∷ errors) h =
      let fields = sort_strings (keys_of rules) in
      invalid (λ p. absurd (
        ground (
          arith,
          (run-Passes registry input (split_all rules) fields [] (entry ∷ errors) h).1 (p, refl),
        )))

  -- Where every rule that is asked for is registered, Validated ends without a panic. It returns
  -- exactly the values of the input under the fields that have rules, if every rule of every field
  -- passes, and the exception otherwise. Validating again runs no rule twice: it changes nothing
  -- and has the same result.
  pub validated_lem :
      (rules : Map Str)
      → AllRegistered (split_all rules) (sort_strings (keys_of rules))
      → (v : Validator) × (result : Option (Map Value)) × (validated registry (make input rules)
          ≡ some (v, result))
        × (validated registry v ≡ some (v, result))
        × Result rules result
  unfolding validated fails ensure_ran make
  validated_lem rules h =
      let (errors, e) = run_total (split_all rules) (sort_strings (keys_of rules)) [] h in
      (
        record (make input rules) { errors = errors; ran = true },
        _,
        rw e refl,
        refl,
        errors-Result rules errors e,
      )

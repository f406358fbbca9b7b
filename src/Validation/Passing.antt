-- ===== src/Validation/Passing.antt =====
-- What it means that a validation passes.
use golite.Base.{
  true, false, Bool-cases, Option-cases, some, List, [], ◌∷◌, ◌≡◌, ◌≢◌, ◌⊎◌, ◌↔◌, inl, inr, refl,
  sym, ◌∙◌, arith, >>=-eq-some, All, Str, Map, lookup, insert,
}
use golite.Value.{Fields}
use golite.Validation.{
  Rule, Errors, messages_of, add, add_failure, value_of, skips, parse_rule_spec, check_rule,
  check_rules, run,
}

module _ (registry : Map Rule) (input : Fields) where
  -- The rule is skipped for the field, or it is registered and has no message.
  abbrev pub Passes : Str → Str → Type 0
  Passes name spec =
      (skips registry input name spec ≡ true)
      ⊎ ((fn : Rule) × (lookup (parse_rule_spec spec).0 registry ≡ some fn)
          × (fn name (value_of registry input name) (parse_rule_spec spec).1 input ≡ []))

  insert_ne : (name : Str) (v : List Str) (m : Errors) → insert name v m ≢ []
  unfolding insert
  insert_ne name v [] = λ e. cc
  insert_ne name v (entry ∷ m) = λ e. ground arith

  add_failure_nil :
      (name message : Str) (errors : Errors)
      → (add_failure name message errors ≡ []) ↔ ((message ≡ []) × (errors ≡ []))
  unfolding add
  add_failure_nil name [] errors = (λ e. (refl, e), λ h. h.1)
  add_failure_nil name (c ∷ message) errors =
      (λ e. absurd (insert_ne name _ errors e), λ h. absurd (ground arith))

  passing :
      (name spec : Str) (fn : Rule)
      → skips registry input name spec ≡ false
      → lookup (parse_rule_spec spec).0 registry ≡ some fn
      → Passes name spec
      → fn name (value_of registry input name) (parse_rule_spec spec).1 input ≡ []
  passing name spec fn e f (inl h) = absurd (ground arith)
  passing name spec fn e f (inr (fn', f', g)) = let same : fn' ≡ fn = cc in rw (← same) g

  check_rule-Passes :
      (name spec : Str) (errors out : Errors)
      → check_rule registry input name spec errors ≡ some out
      → (out ≡ []) ↔ (Passes name spec × (errors ≡ []))
  unfolding check_rule
  check_rule-Passes name spec errors out h = elim (Bool-cases (skips registry input name spec)) [
    | inl e ↦
        let same : errors ≡ out = ground arith in (λ p. (inl e, same ∙ p), λ p. sym same ∙ p.1)
    | inr e ↦ elim (Option-cases (lookup (parse_rule_spec spec).0 registry)) [
      | inl f ↦ absurd (ground arith)
      | inr (fn, f) ↦
          let message = fn name (value_of registry input name) (parse_rule_spec spec).1 input in
          let same : add_failure name message errors ≡ out = ground arith in
          let (a, b) = add_failure_nil name message errors in
          (
            λ p. let q = a (same ∙ p) in (inr (fn, f, q.0), q.1),
            λ p. sym same ∙ b (passing name spec fn e f p.0, p.1),
          )
    ]
  ]

  check_rules-Passes :
      (name : Str) (specs : List Str) (errors out : Errors)
      → check_rules registry input name specs errors ≡ some out
      → (out ≡ []) ↔ (All (Passes name) specs × (errors ≡ []))
  unfolding check_rules
  check_rules-Passes name [] errors out h =
      let same : errors ≡ out = ground arith in (λ p. (tt, same ∙ p), λ p. sym same ∙ p.1)
  check_rules-Passes name (spec ∷ specs) errors out h =
      let (next, e, f) = >>=-eq-some (check_rule registry input name spec errors) _ h in
      let (a, b) = check_rules-Passes name specs next out f in
      let (c, d) = check_rule-Passes name spec errors next e in
      (λ p. let (q, r) = a p in let (t, u) = c r in ((t, q), u), λ p. b (p.0.1, d (p.0.0, p.1)))

  -- Every rule of every field passes.
  abbrev pub AllPass : Map (List Str) → List Str → Type 0
  AllPass rules fields = All (λ name. All (Passes name) (messages_of (lookup name rules))) fields

  pub run-Passes :
      (rules : Map (List Str)) (fields : List Str) (errors out : Errors)
      → run registry input rules fields errors ≡ some out
      → (out ≡ []) ↔ (AllPass rules fields × (errors ≡ []))
  unfolding run
  run-Passes rules [] errors out h =
      let same : errors ≡ out = ground arith in (λ p. (tt, same ∙ p), λ p. sym same ∙ p.1)
  run-Passes rules (name ∷ fields) errors out h =
      let specs = messages_of (lookup name rules) in
      let (next, e, f) = >>=-eq-some (check_rules registry input name specs errors) _ h in
      let (a, b) = run-Passes rules fields next out f in
      let (c, d) = check_rules-Passes name specs errors next e in
      (λ p. let (q, r) = a p in let (t, u) = c r in ((t, q), u), λ p. b (p.0.1, d (p.0.0, p.1)))

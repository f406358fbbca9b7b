-- ===== src/Input/Laws.antt =====
-- What the input payload holds under a key.
use golite.Base.{
  true, Option, none, some, List, [], ◌∷◌, ◌≡◌, refl, ◌∙◌, arith, inl, inr, Option-cases,
  Bool-cases, if◌then◌else◌, ◌>>=◌, Str, str, ◌==◌, eq_iff, Map, lookup, lookup-insert, has,
}
use golite.Input.{
  InputValue, Request, InputPayload, flatten_input_values, merge, each_value, body_values,
  resolve_input, all_input, only_input, except_input, merge_if_missing, trim_input_value,
  trim_strings, nullify_empty_input_value, convert_empty_strings_to_null,
}

abbrev pub first_of : {A : Type 0} → Option A → Option A → Option A
first_of none b = b
first_of (some a) b = some a

pub lookup-merge :
    (new input : InputPayload) (k : Str)
    → lookup k (merge new input) ≡ first_of (lookup k new) (lookup k input)
unfolding merge lookup
lookup-merge [] input k = refl
lookup-merge ((j, v) ∷ new) input k =
    lookup-insert j k v (merge new input) ∙ ground (arith, lookup-merge new input k, eq_iff j k)

lookup-each_value :
    {V W : Type 0} (f : V → W) (m : Map V) (k : Str)
    → lookup k (each_value f m) ≡ (lookup k m >>= λ v. some (f v))
unfolding lookup
lookup-each_value f [] k = refl
lookup-each_value f ((j, v) ∷ m) k = ground (arith, lookup-each_value f m k)

lookup-all_input : (input : InputPayload) (k : Str) → lookup k (all_input input) ≡ lookup k input
unfolding all_input lookup
lookup-all_input input k = lookup-merge input [] k ∙ first_of-none (lookup k input)
  where
    first_of-none : (o : Option InputValue) → first_of o none ≡ o
    first_of-none none = refl
    first_of-none (some v) = refl

-- A middleware that replaces each value by another one.
replaced :
    (f : InputValue → InputValue) (input : InputPayload) (k : Str)
    → lookup k (merge (each_value f (all_input input)) input) ≡ (lookup k input >>= λ v. some (f v))
replaced f input k =
    lookup-merge (each_value f (all_input input)) input k
    ∙ rw (lookup-each_value f (all_input input) k, lookup-all_input input k) (kept (lookup k input))
  where
    kept : (o : Option InputValue) → first_of (o >>= λ v. some (f v)) o ≡ (o >>= λ v. some (f v))
    kept none = refl
    kept (some v) = refl

-- TrimStrings and ConvertEmptyStringsToNull, in this order, keep the keys of the input and turn
-- each value into itself without space around it, and into null where nothing is left of a string.
pub convert_empty_strings_to_null-trim_strings :
    (input : InputPayload) (k : Str)
    → lookup k (convert_empty_strings_to_null (trim_strings input))
      ≡ (lookup k input >>= λ v. some (nullify_empty_input_value (trim_input_value v)))
unfolding convert_empty_strings_to_null trim_strings
convert_empty_strings_to_null-trim_strings input k =
    replaced nullify_empty_input_value (trim_strings input) k
    ∙ rw (replaced trim_input_value input k) (both (lookup k input))
  where
    both :
        (o : Option InputValue)
        → (o >>= (λ v. some (trim_input_value v)) >>= λ v. some (nullify_empty_input_value v))
          ≡ (o >>= λ v. some (nullify_empty_input_value (trim_input_value v)))
    both none = refl
    both (some v) = refl

same_key : (j k : Str) (input : InputPayload) → (j == k) ≡ true → lookup k input ≡ lookup j input
same_key j k input h = let same : j ≡ k = (eq_iff j k).0 h in rw same refl

lookup-only_input :
    (keys : List Str) (input : InputPayload) (k : Str)
    → lookup k (only_input keys input) ≡ (if has keys k then lookup k input else none)
unfolding only_input lookup has
lookup-only_input [] input k = refl
lookup-only_input (j ∷ keys) input k = elim (Option-cases (lookup j input)) [
  | inl e ↦
      rw (only_input, e) (lookup-only_input keys input k ∙ ground (arith, e, same_key j k input))
  | inr (v, e) ↦
      rw (only_input, e)
        (lookup-insert j k v (only_input keys input)
          ∙ ground (arith, e, lookup-only_input keys input k, same_key j k input))
]

lookup-except_input :
    (keys : List Str) (input : InputPayload) (k : Str)
    → lookup k (except_input keys input) ≡ (if has keys k then none else lookup k input)
unfolding except_input lookup
lookup-except_input keys [] k = ground arith
lookup-except_input keys ((j, v) ∷ input) k = ground (
  arith,
  lookup-except_input keys input k,
  lookup-insert j k v (except_input keys input),
  eq_iff j k,
)

lookup-merge_if_missing :
    (new input : InputPayload) (k : Str)
    → lookup k (merge_if_missing new input) ≡ first_of (lookup k input) (lookup k new)
unfolding merge_if_missing lookup
lookup-merge_if_missing [] input k = or_none (lookup k input)
  where
    or_none : (o : Option InputValue) → o ≡ first_of o none
    or_none none = refl
    or_none (some v) = refl
lookup-merge_if_missing ((j, v) ∷ new) input k = elim (Option-cases (lookup j input)) [
  | inl e ↦
      rw (merge_if_missing, e)
        (lookup-insert j k v (merge_if_missing new input)
          ∙ ground (arith, e, lookup-merge_if_missing new input k, same_key j k input))
  | inr (w, e) ↦
      rw (merge_if_missing, e)
        (lookup-merge_if_missing new input k ∙ ground (arith, e, same_key j k input))
]

lookup-resolve_input :
    (r : Request) (k : Str)
    → lookup k (resolve_input r)
      ≡ first_of
          (if r.media_type == str "application/json"
            then lookup k (body_values r.json)
            else (lookup k r.form >>= λ values. some (flatten_input_values values)))
          (lookup k r.query >>= λ values. some (flatten_input_values values))
unfolding resolve_input all_input
lookup-resolve_input r k =
    let query = merge (each_value flatten_input_values r.query) [] in
    let from_query : lookup k query
        ≡ (lookup k r.query >>= λ values. some (flatten_input_values values)) =
      lookup-all_input (each_value flatten_input_values r.query) k
      ∙ lookup-each_value flatten_input_values r.query k in
    elim (Bool-cases (r.media_type == str "application/json")) [
      | inl e ↦
          rw (resolve_input, e) (lookup-merge (body_values r.json) query k ∙ rw from_query refl)
      | inr e ↦
          rw (resolve_input, e)
            (lookup-merge (each_value flatten_input_values r.form) query k
              ∙ rw (from_query, lookup-each_value flatten_input_values r.form k) refl)
    ]

-- Under every key: Only keeps what the input has under its keys and nothing else, Except the rest;
-- Merge prefers the new values, MergeIfMissing those of the input; and a request's input prefers
-- the body, read as JSON or as a form by its media type, to the query.
pub input_lem :
    (r : Request) (keys : List Str) (new input : InputPayload) (k : Str)
    → (lookup k (only_input keys input) ≡ (if has keys k then lookup k input else none))
      × (lookup k (except_input keys input) ≡ (if has keys k then none else lookup k input))
      × (lookup k (merge new input) ≡ first_of (lookup k new) (lookup k input))
      × (lookup k (merge_if_missing new input) ≡ first_of (lookup k input) (lookup k new))
      × (lookup k (resolve_input r)
          ≡ first_of
              (if r.media_type == str "application/json"
                then lookup k (body_values r.json)
                else (lookup k r.form >>= λ values. some (flatten_input_values values)))
              (lookup k r.query >>= λ values. some (flatten_input_values values)))
input_lem r keys new input k = (
  lookup-only_input keys input k,
  lookup-except_input keys input k,
  lookup-merge new input k,
  lookup-merge_if_missing new input k,
  lookup-resolve_input r k,
)

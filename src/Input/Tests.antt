-- ===== src/Input/Tests.antt =====
-- A run of the input payload of app/Http/Input.go.
use golite.Base.{
  none, some, [], ◌∷◌, ◌≡◌, refl, if◌then◌else◌, ◌>>=◌, Str, str, ◌==◌, lookup, insert, has,
  trim_space, trim_space_left, trim_space_right,
}
use golite.Value.{text, null}
use golite.Input.{
  plain, Request, InputPayload, flatten_input_values, merge, resolve_input, body_values, only_input,
  except_input, merge_if_missing, trim_input_value, trim_strings, nullify_empty_input_value,
  convert_empty_strings_to_null, all_input,
}
use golite.Input.Laws.{first_of, input_lem}

abbrev posted : Request
posted = record {
  query = (str "page", str "2" ∷ []) ∷ (str "name", str "x" ∷ []) ∷ [];
  media_type = str "application/x-www-form-urlencoded";
  json = none;
  form = (str "name", str " " ∷ []) ∷ [];
}

abbrev name : Str
name = str "name"

abbrev blank : InputPayload
blank = (name, plain (text (str " "))) ∷ []

input_example :
    (lookup name (only_input (name ∷ []) blank)
      ≡ (if has (name ∷ []) name then lookup name blank else none))
    × (lookup name (except_input (name ∷ []) blank)
        ≡ (if has (name ∷ []) name then none else lookup name blank))
    × (lookup name (merge [] blank) ≡ first_of (lookup name []) (lookup name blank))
    × (lookup name (merge_if_missing [] blank) ≡ first_of (lookup name blank) (lookup name []))
    × (lookup name (resolve_input posted)
        ≡ first_of
            (if posted.media_type == str "application/json"
              then lookup name (body_values posted.json)
              else (lookup name posted.form >>= λ values. some (flatten_input_values values)))
            (lookup name posted.query >>= λ values. some (flatten_input_values values)))
input_example = input_lem posted (name ∷ []) [] blank name

-- A field of spaces becomes null.
normalized_result : convert_empty_strings_to_null (trim_strings blank) ≡ (name, plain null) ∷ []
unfolding convert_empty_strings_to_null trim_strings merge all_input insert trim_input_value
    nullify_empty_input_value trim_space trim_space_left trim_space_right ◌==◌
normalized_result = refl

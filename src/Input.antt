-- ===== src/Input.antt =====
-- app/Http/Input.go; app/Http/Middleware/TrimStringsMiddleware.go and
-- ConvertEmptyStringsToNullMiddleware.go. The request arrives parsed: its query, the media type of
-- its body, and the body as JSON or as a form.
pub mod Laws
pub mod Tests
use golite.Base.{
  Bool, true, false, not, ◌&&◌, ◌||◌, Option, none, some, List, [], ◌∷◌, map, if◌then◌else◌,
  is_some, Str, str, is_empty, ◌==◌, trim_space, to_lower, join, Map, lookup, insert, has,
}
use golite.Value.{Value, null, text}

-- A value of the payload: a []string of a query or a form, or any other value.
pub data InputValue : Type 0 where
  plain : Value → InputValue
  strings : List Str → InputValue

pub record Request : Type 0 where
  pub query : Map (List Str)
  pub media_type : Str
  -- the body read as JSON; `none` is an error, or an empty body
  pub json : Option (Map Value)
  -- the values of the body that is a form
  pub form : Map (List Str)

abbrev pub InputPayload : Type 0
InputPayload = Map InputValue

unfoldable pub flatten_input_values : List Str → InputValue
flatten_input_values (v ∷ []) = plain (text v)
flatten_input_values values = strings values

-- for k, v := range data { input[k] = v }
unfoldable pub merge : InputPayload → InputPayload → InputPayload
merge [] input = input
merge ((k, v) ∷ data_values) input = insert k v (merge data_values input)

abbrev pub each_value : {V W : Type 0} → (V → W) → Map V → Map W
each_value f [] = []
each_value f ((k, v) ∷ m) = (k, f v) ∷ each_value f m

abbrev pub body_values : Option (Map Value) → InputPayload
body_values none = []
body_values (some body) = each_value plain body

unfoldable pub resolve_input : Request → InputPayload
unfolding merge flatten_input_values
resolve_input r =
    let query = merge (each_value flatten_input_values r.query) [] in
    if r.media_type == str "application/json"
    then merge (body_values r.json) query
    else merge (each_value flatten_input_values r.form) query

unfoldable pub all_input : InputPayload → InputPayload
unfolding merge
all_input input = merge input []

-- An optional argument, and what stands for it.
abbrev or_default : {A : Type 0} → Option A → A → A
or_default none d = d
or_default (some a) d = a

unfoldable pub input_value : Str → Option InputValue → InputPayload → InputValue
input_value key default_value input = elim (lookup key input) [
  | some v ↦ v
  | none ↦ or_default default_value (plain null)
]

-- URL.Query().Get: the first value, "" where there is none.
abbrev first_value : Option (List Str) → Str
first_value none = []
first_value (some []) = []
first_value (some (v ∷ values)) = v

unfoldable pub query_value : Str → Option Str → Request → Str
query_value key default_value r =
    let v = first_value (lookup key r.query) in
    if not (is_empty v) then v else or_default default_value []

unfoldable pub has_input : List Str → InputPayload → Bool
has_input [] input = true
has_input (key ∷ keys) input =
    let rest = has_input keys input in if is_some (lookup key input) then rest else false

unfoldable pub has_any_input : List Str → InputPayload → Bool
has_any_input [] input = false
has_any_input (key ∷ keys) input =
    let rest = has_any_input keys input in if is_some (lookup key input) then true else rest

unfoldable pub only_input : List Str → InputPayload → InputPayload
only_input [] input = []
only_input (key ∷ keys) input =
    let rest = only_input keys input in
    elim (lookup key input) [ none ↦ rest | some v ↦ insert key v rest ]

unfoldable pub except_input : List Str → InputPayload → InputPayload
except_input keys [] = []
except_input keys ((k, v) ∷ input) =
    let rest = except_input keys input in if has keys k then rest else insert k v rest

unfoldable pub merge_if_missing : InputPayload → InputPayload → InputPayload
merge_if_missing [] input = input
merge_if_missing ((k, v) ∷ data_values) input =
    let rest = merge_if_missing data_values input in
    if is_some (lookup k input) then rest else insert k v rest

-- fmt.Sprint and json.Marshal are arguments.
module _ (sprint : InputValue → Str) where
  abbrev boolean_text : InputValue → Str
  boolean_text (plain (text s)) = s
  boolean_text v = sprint v

  abbrev is_null : InputValue → Bool
  is_null (plain null) = true
  is_null v = false

  unfoldable pub boolean_input : Str → InputPayload → Bool
  unfolding input_value
  boolean_input key input =
      let v = input_value key none input in
      if is_null v
      then false
      else has (str "1" ∷ str "true" ∷ str "on" ∷ str "yes" ∷ [])
          (to_lower (trim_space (boolean_text v)))

  unfoldable pub stringify_input_value : (InputValue → Option Str) → InputValue → Str
  stringify_input_value marshal (plain null) = []
  stringify_input_value marshal (plain (text s)) = s
  stringify_input_value marshal (strings values) = join values (str ", ")
  stringify_input_value marshal v = or_default (marshal v) (sprint v)

-- TrimStrings
unfoldable pub trim_input_value : InputValue → InputValue
trim_input_value (plain (text s)) = plain (text (trim_space s))
trim_input_value (plain v) = plain v
trim_input_value (strings values) = strings (map trim_space values)

unfoldable pub trim_strings : InputPayload → InputPayload
unfolding trim_input_value all_input merge
trim_strings input = merge (each_value trim_input_value (all_input input)) input

-- ConvertEmptyStringsToNull
unfoldable pub nullify_empty_input_value : InputValue → InputValue
nullify_empty_input_value (plain (text s)) = if is_empty s then plain null else plain (text s)
nullify_empty_input_value v = v

unfoldable pub convert_empty_strings_to_null : InputPayload → InputPayload
unfolding nullify_empty_input_value all_input merge
convert_empty_strings_to_null input =
    merge (each_value nullify_empty_input_value (all_input input)) input

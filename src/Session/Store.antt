-- ===== src/Session/Store.antt =====
-- app/Http/Session/Session.go: the session object and its operations.
-- A method that changes the session returns the new one. A freshly generated token, the result of
-- crypto/rand, is an argument.
use golite.Base.{
  ℕ, ◌+◌, ◌-◌, ◌%◌, ◌^◌, Bool, true, false, not, Option, none, some, List, [], ◌∷◌, if◌then◌else◌,
  Str, str, is_empty, Map, lookup, insert, delete, has, add, remove, add_all,
}
use golite.Value.{Value, null, int, int64, float64, text, slice, Values, nil, append_value}

abbrev pub csrf_token_key : Str
csrf_token_key = str "_token"

pub record Session : Type 0 where
  pub id : Str
  pub values : Map Value
  pub old_flash : List Str
  pub new_flash : List Str

unfoldable pub new_session : Str → Session
new_session id = record { id = id; values = []; old_flash = []; new_flash = [] }

-- The optional argument of Get and Pull: absent, a value, or a func() any.
pub data Default : Type 0 where
  absent : Default
  plain : Value → Default
  resolver : (Unit {0} → Value) → Default

unfoldable pub resolve_default : Default → Value
resolve_default absent = null
resolve_default (plain v) = v
resolve_default (resolver f) = f tt

abbrev or_default : Option Value → Default → Value
or_default none d = resolve_default d
or_default (some v) d = v

unfoldable pub get : Session → Str → Default → Value
unfolding resolve_default
get s key d = or_default (lookup key s.values) d

unfoldable pub put : Str → Value → Session → Session
put key v s = record s { values = insert key v s.values }

-- The []any stored at a key, or nil where there is none or another type stands there.
abbrev pub slice_of : Option Value → Values
slice_of none = nil
slice_of (some (slice vs)) = vs
slice_of (some _) = nil

unfoldable pub push : Str → Value → Session → Session
push key v s = record s {
  values = insert key (slice (append_value (slice_of (lookup key s.values)) v)) s.values;
}

unfoldable pub pull : Str → Default → Session → Session × Value
unfolding resolve_default
pull key d s = elim (lookup key s.values) [
  | none ↦ (s, resolve_default d)
  | some v ↦ (record s { values = delete key s.values }, v)
]

unfoldable pub all : Session → Map Value
all s = s.values

abbrev pub is_present : Option Value → Bool
is_present none = false
is_present (some null) = false
is_present (some _) = true

unfoldable pub has_value : Session → Str → Bool
has_value s key = is_present (lookup key s.values)

abbrev pub is_stored : Option Value → Bool
is_stored none = false
is_stored (some v) = true

unfoldable pub exists : Session → Str → Bool
exists s key = is_stored (lookup key s.values)

unfoldable pub missing : Session → Str → Bool
unfolding exists
missing s key = not (exists s key)

unfoldable pub delete_all : List Str → Map Value → Map Value
delete_all [] m = m
delete_all (k ∷ ks) m = delete_all ks (delete k m)

unfoldable pub forget : List Str → Session → Session
forget keys s = record s { values = delete_all keys s.values }

unfoldable pub flush : Session → Session
flush s = record s { values = []; old_flash = []; new_flash = [] }

abbrev pub word : ℕ
word = 2 ^ 64

-- int(n) of a float64 is the argument `float_int`.
module _ (float_int : ℕ → ℕ) where
  unfoldable pub to_int : Option Value → ℕ
  to_int (some (int n)) = n
  to_int (some (int64 n)) = n
  to_int (some (float64 n)) = float_int n
  to_int _ = 0

  unfoldable pub increment : Str → ℕ → Session → Session × ℕ
  increment key step s =
      let next : ℕ = (to_int (lookup key s.values) + step) % word in
      (record s { values = insert key (int next) s.values }, next)

  unfoldable pub decrement : Str → ℕ → Session → Session × ℕ
  decrement key step s = increment key ((word - step) % word) s

unfoldable pub regenerate : Str → Session → Session
regenerate fresh s = record s { id = fresh }

unfoldable pub invalidate : Str → Session → Session
invalidate fresh s = record s { id = fresh; values = []; old_flash = []; new_flash = [] }

abbrev pub non_empty : Option Value → Option Str
non_empty (some (text t)) = if is_empty t then none else some t
non_empty _ = none

-- The first half of Token, under the read lock.
unfoldable pub token_read : Session → Option Str
token_read s = non_empty (lookup csrf_token_key s.values)

-- Its second half, under the write lock: another goroutine may have stored a token in between.
unfoldable pub token_store : Str → Session → Session × Str
unfolding token_read
token_store generated s = elim (token_read s) [
  | some existing ↦ (s, existing)
  | none ↦ (record s { values = insert csrf_token_key (text generated) s.values }, generated)
]

unfoldable pub token : Str → Session → Session × Str
unfolding token_read token_store
token generated s = elim (token_read s) [ some t ↦ (s, t) | none ↦ token_store generated s ]

unfoldable pub flash : Str → Value → Session → Session
flash key v s = record s {
  values = insert key v s.values;
  new_flash = add key s.new_flash;
  old_flash = remove key s.old_flash;
}

unfoldable pub now : Str → Value → Session → Session
now key v s = record s {
  values = insert key v s.values;
  old_flash = add key s.old_flash;
  new_flash = remove key s.new_flash;
}

unfoldable pub reflash : Session → Session
reflash s = record s { new_flash = add_all s.old_flash s.new_flash }

abbrev pub keep_from : List Str → List Str → List Str → List Str
keep_from old [] new = new
keep_from old (k ∷ ks) new = keep_from old ks (if has old k then add k new else new)

unfoldable pub keep_flash : List Str → Session → Session
keep_flash keys s = record s { new_flash = keep_from s.old_flash keys s.new_flash }

unfoldable pub age_flash : Session → Session
age_flash s = record s {
  values = delete_all s.old_flash s.values;
  old_flash = s.new_flash;
  new_flash = [];
}

-- ===== src/Auth.antt =====
-- auth: guard.go, remember.go, password_reset.go and token.go.
-- A query of the database succeeds or not as an argument says. The hasher of package hashing and the
-- SHA-256 hash are arguments, and so are the random values. Times are in seconds.
pub mod Decimal
pub mod Cookie
pub mod Reset
pub mod Remember
pub mod Middleware
pub mod Tests
use golite.Base.{
  ℕ, suc, ◌+◌, Bool, true, false, not, ◌&&◌, ◌||◌, Option, none, some, List, [], ◌∷◌, ◌++◌, map,
  ◌≡◌, if◌then◌else◌, ltb, nat_eq, keep, is_some, Str, str, is_empty, ◌==◌,
}
use golite.Value.{Value, null, int, int64, uint, float64}
use golite.Session.Store.{Session, Default, absent, get, put, forget, has_value}

pub record User : Type 0 where
  pub id : ℕ
  pub name : Str
  pub email : Str
  pub password : Str
  pub remember_token : Str

pub record PasswordResetToken : Type 0 where
  pub email : Str
  pub token_hash : Str
  pub created_at : ℕ

pub record Tables : Type 0 where
  pub users : List User
  pub resets : List PasswordResetToken
  pub next_id : ℕ

pub data Query : Type 0 where
  finds_user creates_user saves_user finds_reset saves_reset deletes_reset : Query

pub data Error : Type 0 where
  email_taken invalid_credentials invalid_remember_token invalid_reset_token user_not_found : Error
  -- any other error, of the database or of the random source
  other_error : Error

pub data Answer (A : Type 0) : Type 0 where
  value : A → Answer A
  error : Error → Answer A
  panicked : Answer A

-- `make` also takes the random salt; `none` is its panic.
pub record Hasher : Type 0 where
  pub make : Str → Str → Option Str
  pub check : Str → Str → Bool

-- What a password hashes to is checked against it.
pub record HasherLaws (h : Hasher) : Type 0 where
  pub check-make :
      (salt password hashed : Str)
      → h.make salt password ≡ some hashed
      → h.check password hashed ≡ true

abbrev pub session_user_key : Str
session_user_key = str "auth_user_id"

abbrev pub password_reset_token_ttl : ℕ
password_reset_token_ttl = 3600

abbrev pub has_email : Str → User → Bool
has_email email u = u.email == email

abbrev pub has_id : ℕ → User → Bool
has_id id u = nat_eq u.id id

abbrev pub is_reset_of : Str → PasswordResetToken → Bool
is_reset_of email r = r.email == email

-- First: the first row that meets the condition.
abbrev pub first {ℓ} : {A : Type ℓ} → (A → Bool) → List A → Option A
first p [] = none
first p (a ∷ rows) = if p a then some a else first p rows

-- Save and Update of the rows that meet a condition.
abbrev pub change {ℓ} : {A : Type ℓ} → (A → Bool) → (A → A) → List A → List A
change p f [] = []
change p f (a ∷ rows) = (if p a then f a else a) ∷ change p f rows

abbrev pub set_remember_token : ℕ → Str → List User → List User
set_remember_token id hash users =
    change (has_id id) (λ u. record u { remember_token = hash }) users

module _ (succeeds : Query → Bool) (hasher : Hasher) (hash_token : Str → Str) where
  abbrev pub find_user : (User → Bool) → Tables → Option User
  find_user p db = if succeeds finds_user then first p db.users else none

  abbrev pub create_user : Str → Str → Option Str → Tables → Tables × Answer User
  create_user name email none db = (db, panicked)
  create_user name email (some hashed) db =
      let user : User = record {
        id = db.next_id;
        name = name;
        email = email;
        password = hashed;
        remember_token = [];
      } in
      if is_some (first (has_email email) db.users)
      then (db, error email_taken)
      else (if succeeds creates_user
          then (record db { users = db.users ++ (user ∷ []); next_id = suc db.next_id }, value user)
          else (db, error other_error))

  -- Register: the column of the email has a unique index.
  unfoldable pub register_user : Str → Str → Str → Str → Tables → Tables × Answer User
  register_user salt name email password db = create_user name email (hasher.make salt password) db

  unfoldable pub attempt : Str → Str → Tables → Answer User
  attempt email password db = elim (find_user (has_email email) db) [
    | none ↦ error invalid_credentials
    | some u ↦ if hasher.check password u.password then value u else error invalid_credentials
  ]

  unfoldable pub login : User → Session → Session
  login u s = put session_user_key (uint u.id) s

  unfoldable pub logout : Session → Session
  logout s = forget (session_user_key ∷ []) s

  unfoldable pub check : Session → Bool
  check s = has_value s session_user_key

  -- The id in the session: uint(v) of a float64 is the argument.
  abbrev pub user_id : (ℕ → ℕ) → Value → Option ℕ
  user_id float_uint (uint n) = some n
  user_id float_uint (int n) = some n
  user_id float_uint (int64 n) = some n
  user_id float_uint (float64 n) = some (float_uint n)
  user_id float_uint _ = none

  unfoldable pub session_user : (ℕ → ℕ) → Session → Tables → Option User
  session_user float_uint s db = elim (user_id float_uint (get s session_user_key absent)) [
    | none ↦ none
    | some id ↦ find_user (has_id id) db
  ]

  -- newRandomToken: `none` is an error of the random source.
  unfoldable pub issue_remember_token : Option Str → User → Tables → Tables × Answer Str
  issue_remember_token none u db = (db, error other_error)
  issue_remember_token (some raw) u db =
      if succeeds saves_user
      then (record db { users = set_remember_token u.id (hash_token raw) db.users }, value raw)
      else (db, error other_error)

  unfoldable pub token_hash_equals : Str → Str → Bool
  token_hash_equals raw stored = hash_token raw == stored

  unfoldable pub user_by_remember_token : ℕ → Str → Tables → Answer User
  unfolding token_hash_equals
  user_by_remember_token id raw db = elim (find_user (has_id id) db) [
    | none ↦ error invalid_remember_token
    | some u ↦
        if is_empty u.remember_token || not (token_hash_equals raw u.remember_token)
        then error invalid_remember_token
        else value u
  ]

  unfoldable pub clear_remember_token : User → Tables → Tables × Answer (Unit {0})
  clear_remember_token u db =
      if succeeds saves_user
      then (record db { users = set_remember_token u.id [] db.users }, value tt)
      else (db, error other_error)

  abbrev pub store_reset : Str → Str → ℕ → Option PasswordResetToken → Tables → Tables × Answer Str
  store_reset email raw now existing db =
      let row : PasswordResetToken = record {
        email = email;
        token_hash = hash_token raw;
        created_at = now;
      } in
      if succeeds saves_reset
      then (elim existing [
        | some old ↦
            (record db { resets = change (is_reset_of email) (λ r. row) db.resets }, value raw)
        | none ↦ (record db { resets = db.resets ++ (row ∷ []) }, value raw)
      ])
      else (db, error other_error)

  unfoldable pub create_password_reset_token : Option Str → Str → ℕ → Tables → Tables × Answer Str
  create_password_reset_token random email now db = elim (find_user (has_email email) db) [
    | none ↦ (db, error user_not_found)
    | some u ↦ elim random [
      | none ↦ (db, error other_error)
      | some raw ↦
          if succeeds finds_reset
          then store_reset email raw now (first (is_reset_of email) db.resets) db
          else (db, error other_error)
    ]
  ]

  -- Deleting a token, whose error the code ignores.
  abbrev pub delete_reset : Str → Tables → Tables
  delete_reset email db =
      if succeeds deletes_reset
      then record db { resets = keep (λ r. not (is_reset_of email r)) db.resets }
      else db

  abbrev pub save_password : User → Option Str → Str → Tables → Tables × Answer (Unit {0})
  save_password u none email db = (db, panicked)
  save_password u (some hashed) email db =
      if succeeds saves_user
      then (
        delete_reset email (record db {
          users = change (has_id u.id) (λ w. record u { password = hashed }) db.users;
        }),
        value tt,
      )
      else (db, error other_error)

  unfoldable pub reset_password : Str → Str → Str → Str → ℕ → Tables → Tables × Answer (Unit {0})
  unfolding token_hash_equals
  reset_password salt email token new_password now db =
      elim (if succeeds finds_reset then first (is_reset_of email) db.resets else none) [
        | none ↦ (db, error invalid_reset_token)
        | some r ↦
            if ltb (r.created_at + password_reset_token_ttl) now
            then (delete_reset email db, error invalid_reset_token)
            else (if not (token_hash_equals token r.token_hash)
                then (db, error invalid_reset_token)
                else (elim (find_user (has_email email) db) [
                  | none ↦ (db, error invalid_reset_token)
                  | some u ↦ save_password u (hasher.make salt new_password) email db
                ]))
      ]

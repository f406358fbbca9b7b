-- ===== src/Actions.antt =====
-- app/Http/Controllers/AuthController.go: its actions over the guard of Auth.
-- Context.Validate's result is an argument, and `none` its panic; the random values, the queries,
-- the hashes and the cipher are arguments as in Auth. The result `none` of an action is a panic.
-- The session cookie that RegenerateSession and InvalidateSession refresh is in Session.Visit.
pub mod SignIn
pub mod Tests
use golite.Base.{ℕ, Bool, true, false, Option, none, some, [], ◌>>=◌, Str, str, Map, lookup}
use golite.Value.{Value, text}
use golite.Session.Store.{Session, regenerate, invalidate}
use golite.Session.Manager.{Cipher}
use golite.Auth.{
  User, Tables, Query, Answer, value, error, panicked, email_taken, Hasher, register_user, attempt,
  login, logout, session_user, issue_remember_token, clear_remember_token,
  create_password_reset_token, reset_password,
}
use golite.Auth.Cookie.{encode_remember_cookie}

-- A request to an action: its session, the tables, the remember-me cookie that the response sets,
-- where the empty one deletes it, the status, and the user or the reset token in the response's body.
pub record Turn : Type 0 where
  pub session : Session
  pub tables : Tables
  pub cookie : Option Str
  pub status : ℕ
  pub user : Option User
  pub reset_token : Option Str

-- validated[key].(string), "" for a value that is no string.
abbrev string_of : Option Value → Str
string_of (some (text s)) = s
string_of _ = []

abbrev pub string_field : Str → Map Value → Str
string_field key validated = string_of (lookup key validated)

module _ (succeeds : Query → Bool) (hasher : Hasher) (hash_token : Str → Str) where
  -- guard.Login, c.RegenerateSession and the answer; `fresh` is the new id.
  abbrev pub signed_in : Str → User → Turn → Turn
  signed_in fresh u t = record t {
    session = regenerate fresh (login succeeds hasher hash_token u t.session);
    user = some u;
  }

  abbrev user_registered : Str → Tables × Answer User → Turn → Option Turn
  user_registered fresh (db, value u) t =
      some (signed_in fresh u (record t { tables = db; status = 201 }))
  user_registered fresh (db, error email_taken) t = some (record t { tables = db; status = 422 })
  user_registered fresh (db, error e) t = none
  user_registered fresh (db, panicked) t = none

  unfoldable pub register_user_action : Str → Str → Option (Map Value) → Turn → Option Turn
  register_user_action salt fresh validated t = validated >>= λ input.
      user_registered fresh
        (register_user succeeds hasher hash_token salt (string_field (str "name") input)
          (string_field (str "email") input) (string_field (str "password") input) t.tables)
        t

  abbrev pub set_remember_cookie : Option Str → Turn → Turn
  set_remember_cookie none t = t
  set_remember_cookie (some cookie) t = record t { cookie = some cookie }

  abbrev remember_issued : Cipher → Str → User → Tables × Answer Str → Turn → Turn
  remember_issued cipher nonce u (db, value token) t =
      set_remember_cookie (encode_remember_cookie cipher nonce u.id token)
        (record t { tables = db })
  remember_issued cipher nonce u (db, error e) t = record t { tables = db }
  remember_issued cipher nonce u (db, panicked) t = record t { tables = db }

  -- if c.Boolean("remember"); `random` is the new token, or `none` for an error of the source.
  abbrev pub remember_user : Cipher → Str → Option Str → Bool → User → Turn → Turn
  remember_user cipher nonce random true u t =
      remember_issued cipher nonce u
        (issue_remember_token succeeds hasher hash_token random u t.tables) t
  remember_user cipher nonce random false u t = t

  abbrev attempted : Cipher → Str → Option Str → Bool → Str → Answer User → Turn → Option Turn
  attempted cipher nonce random remember fresh (value u) t =
      some (
        remember_user cipher nonce random remember u
          (signed_in fresh u (record t { status = 200 })))
  attempted cipher nonce random remember fresh (error e) t = some (record t { status = 401 })
  attempted cipher nonce random remember fresh panicked t = none

  unfoldable pub login_action :
      Cipher → Str → Option Str → Bool → Str → Option (Map Value) → Turn → Option Turn
  login_action cipher nonce random remember fresh validated t = validated >>= λ input.
      attempted cipher nonce random remember fresh
        (attempt succeeds hasher hash_token (string_field (str "email") input)
          (string_field (str "password") input) t.tables)
        t

  -- ClearRememberToken of the user in the session, whose error is ignored.
  abbrev pub forgotten : Option User → Tables → Tables
  forgotten none db = db
  forgotten (some u) db = (clear_remember_token succeeds hasher hash_token u db).0

  unfoldable pub logout_action : (ℕ → ℕ) → Str → Turn → Turn
  logout_action float_uint fresh t = record t {
    session = invalidate fresh (logout succeeds hasher hash_token t.session);
    tables =
        forgotten (session_user succeeds hasher hash_token float_uint t.session t.tables) t.tables;
    cookie = some [];
    status = 200;
  }

  abbrev shown : Option User → Turn → Turn
  shown none t = record t { status = 401 }
  shown (some u) t = record t { status = 200; user = some u }

  unfoldable pub me_action : (ℕ → ℕ) → Turn → Turn
  me_action float_uint t =
      shown (session_user succeeds hasher hash_token float_uint t.session t.tables) t

  abbrev reset_created : Tables × Answer Str → Turn → Option Turn
  reset_created (db, value raw) t =
      some (record t { tables = db; status = 200; reset_token = some raw })
  reset_created (db, error e) t = some (record t { tables = db; status = 404 })
  reset_created (db, panicked) t = none

  unfoldable pub forgot_password_action : Option Str → ℕ → Option (Map Value) → Turn → Option Turn
  forgot_password_action random now validated t = validated >>= λ input.
      reset_created
        (create_password_reset_token succeeds hasher hash_token random
          (string_field (str "email") input) now t.tables)
        t

  abbrev password_reset : Tables × Answer (Unit {0}) → Turn → Option Turn
  password_reset (db, value ok) t = some (record t { tables = db; status = 200 })
  password_reset (db, error e) t = some (record t { tables = db; status = 422 })
  password_reset (db, panicked) t = none

  unfoldable pub reset_password_action : Str → ℕ → Option (Map Value) → Turn → Option Turn
  reset_password_action salt now validated t = validated >>= λ input.
      password_reset
        (reset_password succeeds hasher hash_token salt (string_field (str "email") input)
          (string_field (str "token") input) (string_field (str "password") input) now t.tables)
        t

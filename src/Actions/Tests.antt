-- ===== src/Actions/Tests.antt =====
-- Runs of AuthController's Login.
use golite.Base.{true, none, some, [], ◌∷◌, ◌≡◌, ◌⊎◌, refl, arith, Str, str, ◌==◌, Map, lookup}
use golite.Value.{Value, text}
use golite.Session.Store.{new_session, get, absent}
use golite.Session.Tests.Fixtures.{marking_cipher, marking_cipher-CipherLaws, old_id}
use golite.Auth.{User, value, attempt, user_id, session_user_key}
use golite.Auth.Cookie.{encode_remember_cookie}
use golite.Auth.Decimal.{print_uint, print_digits}
use golite.Auth.Middleware.{remembered}
use golite.Auth.Tests.{always, salting, marked}
use golite.Actions.{Turn, string_field, login_action}
use golite.Actions.SignIn.{login_lem, login_remembers, HasPassword}

abbrev bob : User
bob = record {
  id = 3;
  name = str "bob";
  email = str "b@c";
  password = str "xpw";
  remember_token = [];
}

abbrev turn : Turn
turn = record {
  session = new_session old_id;
  tables = record { users = bob ∷ []; resets = []; next_id = 4 };
  cookie = none;
  status = 200;
  user = none;
  reset_token = none;
}

abbrev credentials : Map Value
credentials = (str "email", text (str "b@c")) ∷ (str "password", text (str "pw")) ∷ []

abbrev fresh : Str
fresh = str "fresh"

abbrev cookie : Str
cookie = 1 ∷ str "3|tok"

right_password :
    attempt always salting marked
      (string_field (str "email") credentials)
      (string_field (str "password") credentials)
      turn.tables
    ≡ value bob
unfolding attempt lookup ◌==◌
right_password = refl

made : encode_remember_cookie marking_cipher [] 3 (str "tok") ≡ some cookie
unfolding encode_remember_cookie print_uint print_digits
made = refl

login_example :
    ((u : User) × (t' : Turn) × HasPassword always salting marked
        (string_field (str "email") credentials)
        (string_field (str "password") credentials)
        turn.tables
        u
      × (login_action always salting marked marking_cipher []
            (some (str "tok"))
            true
            fresh
            (some credentials)
            turn
          ≡ some t')
      × (t'.session.id ≡ fresh)
      × (user_id always salting marked (λ n. n) (get t'.session session_user_key absent)
          ≡ some u.id))
    ⊎ ((¬ (
          (u : User) × HasPassword always salting marked
            (string_field (str "email") credentials)
            (string_field (str "password") credentials)
            turn.tables
            u))
        × (login_action always salting marked marking_cipher []
              (some (str "tok"))
              true
              fresh
              (some credentials)
              turn
            ≡ some (record turn { status = 401 })))
login_example =
    login_lem always salting marked marking_cipher [] (some (str "tok")) true fresh (λ n. n)
      credentials turn

login_remembers_example :
    (t' : Turn) × (login_action always salting marked marking_cipher []
        (some (str "tok"))
        true
        fresh
        (some credentials)
        turn
      ≡ some t')
    × (t'.cookie ≡ some cookie)
    × (remembered always salting marked marking_cipher t'.tables
          (record { session = new_session (str "other"); cookie = t'.cookie; status = 0 })
        ≡ some (record bob { remember_token = marked (str "tok") }))
login_remembers_example =
    login_remembers always salting marked marking_cipher [] (str "tok") cookie fresh credentials
      turn bob bob (new_session (str "other")) 0 marking_cipher-CipherLaws (λ q. refl)
      (λ token. refl) refl (omega arith) refl right_password made

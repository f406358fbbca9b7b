-- ===== src/Auth/Tests.antt =====
-- Runs of package auth and of the Auth middleware.
use golite.Base.{
  ℕ, ◌+◌, ◌≤◌, Bool, true, false, none, some, List, [], ◌∷◌, ◌≡◌, ◌⊎◌, refl, Str, str, ◌==◌,
  eq_refl,
}
use golite.Session.Store.{new_session}
use golite.Pipeline.Onion.{Effect, returns, around}
use golite.Session.Tests.Fixtures.{marking_cipher, old_id}
use golite.Auth.{
  User, PasswordResetToken, Tables, Query, value, error, Error, Hasher, HasherLaws, has_email,
  is_reset_of, first, attempt, login, issue_remember_token, user_by_remember_token,
  clear_remember_token, reset_password, token_hash_equals,
}
use golite.Auth.Cookie.{encode_remember_cookie}
use golite.Auth.Decimal.{print_uint, print_digits}
use golite.Auth.Reset.{reset_password_lem}
use golite.Auth.Remember.{remember_lem}
use golite.Auth.Middleware.{Visitor, auth, auth_lem, HasUserId, Remembers}

abbrev pub always : Query → Bool
always q = true

-- A hasher that puts the salt in front, and a hash that adds a byte.
abbrev same_but_first : Str → Str → Bool
same_but_first password [] = false
same_but_first password (c ∷ hashed) = password == hashed

abbrev pub salting : Hasher
salting = record { make = λ salt password. some (1 ∷ password); check = same_but_first }

salting-HasherLaws : HasherLaws salting
salting-HasherLaws = record {
  check-make = λ salt password hashed h.
      let made : 1 ∷ password ≡ hashed = cc in rw (← made) (eq_refl password);
}

abbrev pub marked : Str → Str
marked t = 7 ∷ t

abbrev email : Str
email = str "a@b"

abbrev ann : User
ann = record { id = 3; name = str "ann"; email = email; password = str "x"; remember_token = [] }

abbrev db : Tables
db = record { users = ann ∷ []; resets = []; next_id = 4 }

ann-email : first (has_email email) db.users ≡ some ann
unfolding ◌==◌
ann-email = refl

abbrev requested : Tables
requested = record db {
  resets = record { email = email; token_hash = marked (str "tok"); created_at = 10 } ∷ [];
}

requested_resets :
    (reset_password always salting marked [] email (str "tok") (str "new") 20 requested).1
    ≡ value tt
unfolding reset_password token_hash_equals ◌==◌
requested_resets = refl

reset_password_example :
    (r : PasswordResetToken) × (u : User) × (hashed : Str) × (first
        (is_reset_of email)
        requested.resets
      ≡ some r)
    × (marked (str "tok") ≡ r.token_hash)
    × (20 ≤ r.created_at + 3600)
    × (attempt always salting marked email
          (str "new")
          (reset_password always salting marked [] email (str "tok") (str "new") 20 requested).0
        ≡ value (record u { password = hashed }))
    × ((salt' token' password' : Str) (now' : ℕ)
        → (reset_password always salting marked salt' email token' password' now'
            (reset_password always salting marked [] email
              (str "tok")
              (str "new")
              20
              requested).0).1
          ≡ error Error.invalid_reset_token)
reset_password_example =
    reset_password_lem always salting marked salting-HasherLaws refl refl [] email (str "tok")
      (str "new") 20 requested requested_resets

remember_example :
    (user_by_remember_token always salting marked 3
        (str "r")
        (issue_remember_token always salting marked (some (str "r")) ann db).0
      ≡ value (record ann { remember_token = marked (str "r") }))
    × (user_by_remember_token always salting marked 3 []
          (issue_remember_token always salting marked (some (str "r")) ann db).0
        ≡ error Error.invalid_remember_token)
    × (user_by_remember_token always salting marked 3 []
          (clear_remember_token always salting marked ann db).0
        ≡ error Error.invalid_remember_token)
remember_example =
    remember_lem always salting marked (λ q. refl) (λ t. refl) (str "r") [] ann ann db refl
      (λ e. cc)

cookie_result : encode_remember_cookie marking_cipher [] 30 (str "r") ≡ some (1 ∷ str "30|r")
unfolding encode_remember_cookie print_uint print_digits
cookie_result = refl

abbrev stranger : Visitor
stranger = record { session = new_session old_id; cookie = none; status = 0 }

abbrev answer : Visitor → List ℕ → Effect Visitor ℕ
answer v ms = returns (record v { status = 200 }) ms

auth_example :
    (HasUserId stranger.session
      × (around answer (auth always salting marked marking_cipher db) stranger []
          ≡ answer stranger []))
    ⊎ ((u : User) × Remembers always salting marked marking_cipher db stranger u
        × (around answer (auth always salting marked marking_cipher db) stranger []
            ≡ answer
                (record stranger { session = login always salting marked u stranger.session })
                []))
    ⊎ ((¬ HasUserId stranger.session)
        × (¬ ((u : User) × Remembers always salting marked marking_cipher db stranger u))
        × (around answer (auth always salting marked marking_cipher db) stranger []
            ≡ returns (record stranger { status = 401 }) []))
auth_example = auth_lem always salting marked marking_cipher db answer stranger []

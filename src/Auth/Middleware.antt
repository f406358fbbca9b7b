-- ===== src/Auth/Middleware.antt =====
-- app/Http/Middleware/AuthMiddleware.go, as a program of the pipeline.
use golite.Base.{
  ℕ, Bool, true, false, Option, none, some, List, ◌≡◌, ◌⊎◌, refl, inl, inr, Bool-cases,
  Option-cases, ◌>>=◌, >>=-eq-some, ap, ◌∙◌, Str, lookup, eq_iff, is_empty, arith, ◌≢◌, [], ◌==◌,
  is_empty_of_ne, ne_of_is_empty,
}
use golite.Session.Store.{Session, is_present, has_value}
use golite.Session.Manager.{Cipher}
use golite.Pipeline.{Prog, done, act, test, call}
use golite.Pipeline.Onion.{Effect, returns, panics, around}
use golite.Auth.{
  User, Tables, Query, Answer, value, error, panicked, Hasher, login, check, user_by_remember_token,
  session_user_key, finds_user, first, has_id, find_user, token_hash_equals,
}
use golite.Auth.Cookie.{decode_remember_cookie}
use golite.Value.{Value, null, boolean, int, int64, uint, float64, text, slice, object}

-- What the middleware reads and writes of a request; the cookie is that named RememberCookieName.
pub record Visitor : Type 0 where
  pub session : Session
  pub cookie : Option Str
  pub status : ℕ

abbrev pub answered : Answer User → Option User
answered (value u) = some u
answered (error e) = none
answered panicked = none

answered-value : (a : Answer User) (u : User) → answered a ≡ some u → a ≡ value u
answered-value (value w) u h = let same : w ≡ u = cc in ap value same
answered-value (error e) u h = cc
answered-value panicked u h = cc

-- A value other than null stands in the session under the key of the user's id.
abbrev pub HasUserId : Session → Type 0
HasUserId s = (w : Value) × (lookup session_user_key s.values ≡ some w) × (w ≢ null)

module _ (succeeds : Query → Bool) (hasher : Hasher) (hash_token : Str → Str) (cipher : Cipher)
    (db : Tables) where
  -- The user that attemptRememberLogin logs in.
  unfoldable pub remembered : Visitor → Option User
  remembered v = v.cookie >>= λ raw. decode_remember_cookie cipher raw >>= λ parts.
      answered (user_by_remember_token succeeds hasher hash_token parts.0 parts.1 db)

  abbrev pub log_in : Option User → Visitor → Visitor
  log_in none v = v
  log_in (some u) v = record v { session = login succeeds hasher hash_token u v.session }

  abbrev pub has_user : Option User → Bool
  has_user none = false
  has_user (some u) = true

  -- Auth.Handle
  unfoldable pub auth : Prog Visitor
  unfolding remembered
  auth =
      test (λ v. check succeeds hasher hash_token v.session) (call done)
        (test (λ v. has_user (remembered v)) (act (λ v. log_in (remembered v) v) (call done))
          (act (λ v. record v { status = 401 }) done))

  effect_eta :
      {M : Type 0} (e : Effect Visitor M)
      → (elim e [ returns t ns ↦ returns t ns | panics t ns ↦ panics t ns ]) ≡ e
  effect_eta (returns t ns) = refl
  effect_eta (panics t ns) = refl

  -- The user with the id has a remember-me token stored, and the hash of this one is it.
  abbrev pub HasToken : ℕ → Str → User → Type 0
  HasToken id token u =
      (succeeds finds_user ≡ true)
      × (first (has_id id) db.users ≡ some u)
      × (u.remember_token ≢ [])
      × (hash_token token ≡ u.remember_token)

  -- The visitor's cookie decodes to the id of the user and a token of that user.
  abbrev pub Remembers : Visitor → User → Type 0
  Remembers v u =
      (raw : Str) × (id : ℕ) × (token : Str) × (v.cookie ≡ some raw)
      × (decode_remember_cookie cipher raw ≡ some (id, token))
      × HasToken id token u

  is_present-ne : (w : Value) → is_present (some w) ≡ true → w ≢ null
  is_present-ne w h e = absurd (ground (arith, rw e at h))

  check-HasUserId : (s : Session) → check succeeds hasher hash_token s ≡ true → HasUserId s
  unfolding check has_value
  check-HasUserId s h = elim (Option-cases (lookup session_user_key s.values)) [
    | inl e ↦ absurd (ground (arith, rw e at h))
    | inr (w, e) ↦ (w, e, is_present-ne w (rw e at h))
  ]

  present_of_ne : (w : Value) → w ≢ null → is_present (some w) ≡ true
  present_of_ne null h = absurd (h refl)
  present_of_ne (boolean b) h = refl
  present_of_ne (int n) h = refl
  present_of_ne (int64 n) h = refl
  present_of_ne (uint n) h = refl
  present_of_ne (float64 n) h = refl
  present_of_ne (text s) h = refl
  present_of_ne (slice vs) h = refl
  present_of_ne (object fs) h = refl

  HasUserId-check : (s : Session) → HasUserId s → check succeeds hasher hash_token s ≡ true
  unfolding check has_value
  HasUserId-check s (w, e, n) = rw e (present_of_ne w n)

  find_user-some :
      (id : ℕ) (u : User)
      → find_user succeeds hasher hash_token (has_id id) db ≡ some u
      → (succeeds finds_user ≡ true) × (first (has_id id) db.users ≡ some u)
  find_user-some id u h = elim (Bool-cases (succeeds finds_user)) [
    | inl e ↦ (e, rw e at h)
    | inr e ↦ absurd (ground (arith, rw e at h))
  ]

  find-HasToken :
      (id : ℕ) (token : Str) (u : User)
      → user_by_remember_token succeeds hasher hash_token id token db ≡ value u
      → HasToken id token u
  unfolding user_by_remember_token token_hash_equals
  find-HasToken id token u h =
      elim (Option-cases (find_user succeeds hasher hash_token (has_id id) db)) [
        | inl e ↦ absurd (let g = rw (user_by_remember_token, e) at h in cc)
        | inr (w, e) ↦
            let g = rw (user_by_remember_token, token_hash_equals, e) at h in
            elim (Bool-cases (is_empty w.remember_token)) [
              | inl f ↦ absurd (let k = rw f at g in cc)
              | inr f ↦ elim (Bool-cases (hash_token token == w.remember_token)) [
                | inr k ↦ absurd (let l = rw (f, k) at g in cc)
                | inl k ↦
                    let l = rw (f, k) at g in
                    let same : w ≡ u = cc in
                    let (q, r) = find_user-some id w e in
                    rw (← same) (
                      q,
                      r,
                      ne_of_is_empty w.remember_token f,
                      (eq_iff (hash_token token) w.remember_token).0 k,
                    )
              ]
            ]
      ]

  HasToken-find :
      (id : ℕ) (token : Str) (u : User)
      → HasToken id token u
      → user_by_remember_token succeeds hasher hash_token id token db ≡ value u
  unfolding user_by_remember_token token_hash_equals
  HasToken-find id token u (q, f, n, e) =
      rw (user_by_remember_token, token_hash_equals, q, f)
        (rw (is_empty_of_ne u.remember_token n, (eq_iff (hash_token token) u.remember_token).1 e)
          refl)

  remembered-Remembers : (v : Visitor) (u : User) → remembered v ≡ some u → Remembers v u
  unfolding remembered
  remembered-Remembers v u h =
      let (raw, cookie, f) = >>=-eq-some v.cookie _ h in
      let (parts, decoded, g) =
        >>=-eq-some (decode_remember_cookie cipher raw)
          (λ parts. answered (user_by_remember_token succeeds hasher hash_token parts.0 parts.1 db))
          f in
      let found =
        answered-value (user_by_remember_token succeeds hasher hash_token parts.0 parts.1 db) u g in
      (raw, parts.0, parts.1, cookie, decoded, find-HasToken parts.0 parts.1 u found)

  Remembers-remembered : (v : Visitor) (u : User) → Remembers v u → remembered v ≡ some u
  unfolding remembered
  Remembers-remembered v u (raw, id, token, cookie, decoded, known) =
      rw (cookie, decoded, HasToken-find id token u known) refl

  -- Which requests get past the middleware: those whose session has a user id, as they are, and
  -- those whose remember-me cookie decodes to the id of a stored user and a token whose hash is the
  -- one stored for this user, with the user logged in to the session. Any other request is answered
  -- with 401, and neither the rest of the chain nor the handler runs.
  pub auth_lem :
      {M : Type 0} (rest : Visitor → List M → Effect Visitor M) (v : Visitor) (ms : List M)
      → (HasUserId v.session × (around rest auth v ms ≡ rest v ms))
        ⊎ ((u : User) × Remembers v u
            × (around rest auth v ms
                ≡ rest (record v { session = login succeeds hasher hash_token u v.session }) ms))
        ⊎ ((¬ HasUserId v.session)
            × (¬ ((u : User) × Remembers v u))
            × (around rest auth v ms ≡ returns (record v { status = 401 }) ms))
  unfolding auth around
  auth_lem rest v ms = elim (Bool-cases (check succeeds hasher hash_token v.session)) [
    | inl e ↦ inl (check-HasUserId v.session e, rw (around, auth, e) (effect_eta (rest v ms)))
    | inr e ↦ elim (Option-cases (remembered v)) [
      | inl f ↦ inr (
          inr (
            λ h. absurd (ground (arith, HasUserId-check v.session h)),
            λ (u, r). absurd (ground (arith, Remembers-remembered v u r)),
            rw (around, auth, e, f) refl,
          ))
      | inr (u, f) ↦ inr (
          inl (
            u,
            remembered-Remembers v u f,
            rw (around, auth, e, f)
                (effect_eta (rest (log_in (remembered v) v) ms) ∙ ap (λ o. rest (log_in o v) ms) f),
          ))
    ]
  ]

-- ===== src/Actions/SignIn.antt =====
-- AuthController's Login and Logout: what they change of the session, the tables and the cookie.
use golite.Base.{
  ℕ, ◌<◌, ◌^◌, Bool, true, false, Option, none, some, ◌≡◌, ◌⊎◌, inl, inr, refl, ap, ◌∙◌,
  Option-cases, Bool-cases, Str, str, is_empty, eq_refl, Map, lookup-insert, arith,
}
use golite.Value.{Value, uint}
use golite.Session.Store.{Session, regenerate, put, get, absent}
use golite.Session.Manager.{Cipher, CipherLaws}
use golite.Auth.{
  User, Tables, Query, saves_user, value, error, invalid_credentials, Hasher, attempt, login,
  user_id, session_user_key, issue_remember_token, first, has_id, find_user, has_email, finds_user,
}
use golite.Auth.Cookie.{encode_remember_cookie, decode_remember_cookie-encode_remember_cookie}
use golite.Auth.Remember.{user_by_remember_token-issue_remember_token}
use golite.Auth.Middleware.{remembered}
use golite.Actions.{Turn, string_field, login_action, signed_in, remember_user, set_remember_cookie}

module _ (succeeds : Query → Bool) (hasher : Hasher) (hash_token : Str → Str) where
  -- The first user with the email, whose stored password the given one is checked against.
  abbrev pub HasPassword : Str → Str → Tables → User → Type 0
  HasPassword email password db u =
      (succeeds finds_user ≡ true)
      × (first (has_email email) db.users ≡ some u)
      × (hasher.check password u.password ≡ true)

  find_user-some :
      (email : Str) (db : Tables) (u : User)
      → find_user succeeds hasher hash_token (has_email email) db ≡ some u
      → (succeeds finds_user ≡ true) × (first (has_email email) db.users ≡ some u)
  find_user-some email db u h = elim (Bool-cases (succeeds finds_user)) [
    | inl e ↦ (e, rw e at h)
    | inr e ↦ absurd (ground (arith, rw e at h))
  ]

  attempt-cases :
      (email password : Str) (db : Tables)
      → ((u : User) × HasPassword email password db u
          × (attempt succeeds hasher hash_token email password db ≡ value u))
        ⊎ ((¬ ((u : User) × HasPassword email password db u))
            × (attempt succeeds hasher hash_token email password db ≡ error invalid_credentials))
  unfolding attempt
  attempt-cases email password db =
      elim (Option-cases (find_user succeeds hasher hash_token (has_email email) db)) [
        | inl e ↦
            inr (λ (u, (q, f, c)). absurd (ground (arith, rw (q, f) at e)), rw (attempt, e) refl)
        | inr (u, e) ↦
            let (q, f) = find_user-some email db u e in
            elim (Bool-cases (hasher.check password u.password)) [
              | inl c ↦ inl (u, (q, f, c), rw (attempt, e, c) refl)
              | inr c ↦ inr (
                λ (w, (_, g, d)). absurd (
                    let same : u ≡ w = ground (arith, rw f at g) in
                    ground (arith, rw (← same) at d)),
                rw (attempt, e, c) refl,
              )
            ]
      ]

  cookie-session :
      (o : Option Str) (t : Turn)
      → (set_remember_cookie succeeds hasher hash_token o t).session ≡ t.session
  cookie-session none t = refl
  cookie-session (some cookie) t = refl

  remember_user-session :
      (cipher : Cipher) (nonce : Str) (random : Option Str) (remember : Bool) (u : User) (t : Turn)
      → (remember_user succeeds hasher hash_token cipher nonce random remember u t).session
        ≡ t.session
  unfolding issue_remember_token
  remember_user-session cipher nonce random false u t = refl
  remember_user-session cipher nonce none true u t = refl
  remember_user-session cipher nonce (some raw) true u t = elim (Bool-cases (succeeds saves_user)) [
    | inl e ↦
        rw (issue_remember_token, e)
          (cookie-session (encode_remember_cookie cipher nonce u.id raw) (record t { tables = _ }))
    | inr e ↦ rw (issue_remember_token, e) refl
  ]

  signed_in-user_id :
      (float_uint : ℕ → ℕ) (fresh : Str) (u : User) (t : Turn)
      → user_id succeeds hasher hash_token float_uint
          (get (signed_in succeeds hasher hash_token fresh u t).session session_user_key absent)
        ≡ some u.id
  unfolding regenerate login put get
  signed_in-user_id float_uint fresh u t =
      rw
        (
          lookup-insert session_user_key session_user_key (uint u.id) t.session.values,
          eq_refl session_user_key,
        )
        refl

  -- Login either signs in the first user with the email, when the query finds one and the hasher
  -- accepts the password for the stored one, under the new session id and not the one of the
  -- request, whether or not the remember-me cookie can be issued; or there is no such user, and it
  -- answers with 401 and changes neither session nor tables nor cookie.
  pub login_lem :
      (cipher : Cipher) (nonce : Str) (random : Option Str) (remember : Bool) (fresh : Str)
      (float_uint : ℕ → ℕ) (input : Map Value) (t : Turn)
      → ((u : User) × (t' : Turn) × HasPassword
            (string_field (str "email") input)
            (string_field (str "password") input)
            t.tables
            u
          × (login_action succeeds hasher hash_token cipher nonce random remember fresh
                (some input)
                t
              ≡ some t')
          × (t'.session.id ≡ fresh)
          × (user_id succeeds hasher hash_token float_uint (get t'.session session_user_key absent)
              ≡ some u.id))
        ⊎ ((¬ (
              (u : User) × HasPassword
                (string_field (str "email") input)
                (string_field (str "password") input)
                t.tables
                u))
            × (login_action succeeds hasher hash_token cipher nonce random remember fresh
                  (some input)
                  t
                ≡ some (record t { status = 401 })))
  unfolding login_action regenerate
  login_lem cipher nonce random remember fresh float_uint input t =
      elim (attempt-cases (string_field (str "email") input) (string_field (str "password") input)
        t.tables) [
          | inl (u, known, e) ↦
              let before =
                signed_in succeeds hasher hash_token fresh u (record t { status = 200 }) in
              let same = remember_user-session cipher nonce random remember u before in
              inl (
                u,
                remember_user succeeds hasher hash_token cipher nonce random remember u before,
                known,
                rw (login_action, e) refl,
                ap (λ s. s.id) same,
                ap
                      (λ s.
                        user_id succeeds hasher hash_token float_uint
                          (get s session_user_key absent))
                      same
                    ∙ signed_in-user_id float_uint fresh u (record t { status = 200 }),
              )
          | inr (unknown, e) ↦ inr (unknown, rw (login_action, e) refl)
        ]

  -- Where every query succeeds, the cipher decrypts what it encrypts and no hash is empty: after a
  -- Login with "remember", the cookie that the response sets logs the user in to any other session.
  pub login_remembers :
      (cipher : Cipher) (nonce raw cookie fresh : Str) (input : Map Value) (t : Turn)
      (u stored : User) (s : Session) (status : ℕ)
      → CipherLaws cipher
      → ((q : Query) → succeeds q ≡ true)
      → ((token : Str) → is_empty (hash_token token) ≡ false)
      → is_empty raw ≡ false
      → u.id < 2 ^ 64
      → first (has_id u.id) t.tables.users ≡ some stored
      → attempt succeeds hasher hash_token
          (string_field (str "email") input)
          (string_field (str "password") input)
          t.tables
        ≡ value u
      → encode_remember_cookie cipher nonce u.id raw ≡ some cookie
      → (t' : Turn) × (login_action succeeds hasher hash_token cipher nonce
            (some raw)
            true
            fresh
            (some input)
            t
          ≡ some t')
        × (t'.cookie ≡ some cookie)
        × (remembered succeeds hasher hash_token cipher t'.tables
              (record { session = s; cookie = t'.cookie; status = status })
            ≡ some (record stored { remember_token = hash_token raw }))
  unfolding login_action issue_remember_token remembered
  login_remembers cipher nonce raw cookie fresh input t u stored s status laws queries hashes filled
        small known e made =
      let before = signed_in succeeds hasher hash_token fresh u (record t { status = 200 }) in
      let found =
        user_by_remember_token-issue_remember_token succeeds hasher hash_token queries hashes raw u
          stored t.tables known in
      let decoded =
        decode_remember_cookie-encode_remember_cookie cipher laws nonce u.id raw cookie small filled
          made in
      (
        remember_user succeeds hasher hash_token cipher nonce (some raw) true u before,
        rw (login_action, e) refl,
        rw (queries saves_user, made) refl,
        rw (queries saves_user, made, remembered, decoded)
            (rw (rw (queries saves_user) at found) refl),
      )

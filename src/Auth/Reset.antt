-- ===== src/Auth/Reset.antt =====
-- auth/password_reset.go: what a password reset needs, and what it leaves.
use golite.Base.{
  ℕ, ◌+◌, ◌≤◌, Bool, true, false, not, Option, none, some, List, [], ◌∷◌, ◌++◌, ◌≡◌, refl, ap, ◌∙◌,
  arith, inl, inr, Bool-cases, Option-cases, if◌then◌else◌, ltb, keep, Str, ◌==◌, eq_iff, eq_refl,
}
use golite.Auth.{
  User, PasswordResetToken, Tables, Query, finds_user, saves_user, finds_reset, saves_reset,
  deletes_reset, invalid_reset_token, value, error, Hasher, HasherLaws, password_reset_token_ttl,
  has_email, has_id, is_reset_of, first, change, find_user, attempt, token_hash_equals,
  delete_reset, create_password_reset_token, reset_password,
}

first-kept :
    (email : Str) (rows : List PasswordResetToken)
    → first (is_reset_of email) (keep (λ r. not (is_reset_of email r)) rows) ≡ none
first-kept email [] = refl
first-kept email (r ∷ rows) = ground (arith, first-kept email rows)

first-appended :
    (email : Str) (rows : List PasswordResetToken) (r : PasswordResetToken)
    → r.email ≡ email
    → first (is_reset_of email) rows ≡ none
    → first (is_reset_of email) (rows ++ (r ∷ [])) ≡ some r
first-appended email [] r e h = rw (e, eq_refl email) refl
first-appended email (q ∷ rows) r e h = ground (arith, first-appended email rows r e)

first-replaced :
    (email : Str) (rows : List PasswordResetToken) (old r : PasswordResetToken)
    → r.email ≡ email
    → first (is_reset_of email) rows ≡ some old
    → first (is_reset_of email) (change (is_reset_of email) (λ q. r) rows) ≡ some r
first-replaced email [] old r e h = cc
first-replaced email (q ∷ rows) old r e h = elim (Bool-cases (is_reset_of email q)) [
  | inl f ↦ rw f (rw (e, eq_refl email) refl)
  | inr f ↦ rw (f, f) (first-replaced email rows old r e (rw f at h))
]

-- A saved user is found by the email, whatever other rows have the id.
first-saved :
    (email : Str) (users : List User) (u v : User)
    → v.email ≡ email
    → first (has_email email) users ≡ some u
    → first (has_email email) (change (has_id u.id) (λ w. v) users) ≡ some v
first-saved email [] u v e h = cc
first-saved email (w ∷ users) u v e h = elim (Bool-cases (has_id u.id w)) [
  | inl f ↦ rw f (rw (e, eq_refl email) refl)
  | inr f ↦ elim (Bool-cases (has_email email w)) [
    | inl g ↦
        let same : w ≡ u = cc (rw g at h) in
        let ids : w.id ≡ u.id = ap (λ x. x.id) same in absurd (ground arith)
    | inr g ↦ rw (f, g) (first-saved email users u v e (rw g at h))
  ]
]

first-email :
    (email : Str) (users : List User) (u : User)
    → first (has_email email) users ≡ some u
    → u.email ≡ email
first-email email [] u h = cc
first-email email (w ∷ users) u h = elim (Bool-cases (has_email email w)) [
  | inl g ↦ let same : w ≡ u = cc (rw g at h) in rw (← same) ((eq_iff w.email email).0 g)
  | inr g ↦ first-email email users u (rw g at h)
]

module _ (succeeds : Query → Bool) (hasher : Hasher) (hash_token : Str → Str) where
  -- What a reset that succeeds has found, and the tables it leaves.
  record Succeeds (salt email token password : Str) (now : ℕ) (db after : Tables) : Type 0 where
    row : PasswordResetToken
    user : User
    hashed : Str
    found : first (is_reset_of email) db.resets ≡ some row
    valid : now ≤ row.created_at + password_reset_token_ttl
    matches : hash_token token ≡ row.token_hash
    of_email : first (has_email email) db.users ≡ some user
    made : hasher.make salt password ≡ some hashed
    tables :
        after
        ≡ delete_reset succeeds hasher hash_token email (record db {
          users = change (has_id user.id) (λ w. record user { password = hashed }) db.users;
        })

  query_some :
      {A : Type 0} (b : Bool) (o : Option A) (a : A)
      → (if b then o else none) ≡ some a
      → (b ≡ true) × (o ≡ some a)
  query_some true o a h = (refl, h)
  query_some false o a h = cc

  reset_password-Succeeds :
      (salt email token password : Str) (now : ℕ) (db : Tables)
      → (reset_password succeeds hasher hash_token salt email token password now db).1 ≡ value tt
      → Succeeds salt email token password now db
          (reset_password succeeds hasher hash_token salt email token password now db).0
  unfolding reset_password token_hash_equals
  reset_password-Succeeds salt email token password now db h =
      elim (Option-cases
        (if succeeds finds_reset then first (is_reset_of email) db.resets else none)) [
          | inl e ↦ absurd (ground (arith, rw (reset_password, e) at h))
          | inr (r, e) ↦ elim (Bool-cases (ltb (r.created_at + password_reset_token_ttl) now)) [
            | inl f ↦ absurd (ground (arith, rw (reset_password, token_hash_equals, e, f) at h))
            | inr f ↦ elim (Bool-cases (hash_token token == r.token_hash)) [
              | inr g ↦
                  absurd (ground (arith, rw (reset_password, token_hash_equals, e, f, g) at h))
              | inl g ↦
                  elim (Option-cases (find_user succeeds hasher hash_token (has_email email) db)) [
                    | inl i ↦
                        absurd
                          (ground (arith, rw (reset_password, token_hash_equals, e, f, g, i) at h))
                    | inr (u, i) ↦ elim (Option-cases (hasher.make salt password)) [
                      | inl j ↦ absurd (
                          ground
                            (arith, rw (reset_password, token_hash_equals, e, f, g, i, j) at h))
                      | inr (hashed, j) ↦ elim (Bool-cases (succeeds saves_user)) [
                        | inr k ↦ absurd (
                            ground (
                              arith,
                              rw (reset_password, token_hash_equals, e, f, g, i, j, k) at h,
                            ))
                        | inl k ↦ record {
                          row = r;
                          user = u;
                          hashed = hashed;
                          found =
                              (query_some (succeeds finds_reset)
                                (first (is_reset_of email) db.resets) r e).1;
                          valid = ground arith;
                          matches = (eq_iff (hash_token token) r.token_hash).0 g;
                          of_email =
                              (query_some (succeeds finds_user) (first (has_email email) db.users) u
                                i).1;
                          made = j;
                          tables = rw (reset_password, token_hash_equals, e, f, g, i, j, k) refl;
                        }
                      ]
                    ]
                  ]
            ]
          ]
        ]

  unknown :
      (salt email token password : Str) (now : ℕ) (db : Tables)
      → first (is_reset_of email) db.resets ≡ none
      → (reset_password succeeds hasher hash_token salt email token password now db).1
        ≡ error invalid_reset_token
  unfolding reset_password
  unknown salt email token password now db h = elim (Bool-cases (succeeds finds_reset)) [
    | inl e ↦ rw (reset_password, e, h) refl
    | inr e ↦ rw (reset_password, e) refl
  ]

  -- A password reset that succeeds was asked for with a token that matches the one stored for the
  -- email, in its hour, and for the email of a user. When the queries that follow succeed and the
  -- hasher meets its law, the user can log in with the new password, and no token whatsoever resets
  -- the password of that email again before a new one is created.
  pub reset_password_lem :
      HasherLaws hasher
      → succeeds finds_user ≡ true
      → succeeds deletes_reset ≡ true
      → (salt email token password : Str) (now : ℕ) (db : Tables)
      → (reset_password succeeds hasher hash_token salt email token password now db).1 ≡ value tt
      → (r : PasswordResetToken) × (u : User) × (hashed : Str) × (first
            (is_reset_of email)
            db.resets
          ≡ some r)
        × (hash_token token ≡ r.token_hash)
        × (now ≤ r.created_at + password_reset_token_ttl)
        × (attempt succeeds hasher hash_token email password
              (reset_password succeeds hasher hash_token salt email token password now db).0
            ≡ value (record u { password = hashed }))
        × ((salt' token' password' : Str) (now' : ℕ)
            → (reset_password succeeds hasher hash_token salt' email token' password' now'
                (reset_password succeeds hasher hash_token salt email token password now db).0).1
              ≡ error invalid_reset_token)
  unfolding attempt
  reset_password_lem laws users deletes salt email token password now db h =
      let s = reset_password-Succeeds salt email token password now db h in
      let same = first-email email db.users s.user s.of_email in
      let saved =
        first-saved email db.users s.user (record s.user { password = s.hashed }) same s.of_email in
      let final : Tables = record db {
        users = change (has_id s.user.id) (λ w. record s.user { password = s.hashed }) db.users;
        resets = keep (λ r. not (is_reset_of email r)) db.resets;
      } in
      let left : (reset_password succeeds hasher hash_token salt email token password now db).0
          ≡ final =
        s.tables ∙ rw deletes refl in
      (
        s.row,
        s.user,
        s.hashed,
        s.found,
        s.matches,
        s.valid,
        rw left (rw (attempt, users, saved, laws.check-make salt password s.hashed s.made) refl),
        λ salt' token' password' now'.
            rw left (unknown salt' email token' password' now' final (first-kept email db.resets)),
      )

  accepts :
      ((q : Query) → succeeds q ≡ true)
      → (salt email raw password hashed : Str) (later : ℕ) (db : Tables) (u : User)
        (r : PasswordResetToken)
      → first (has_email email) db.users ≡ some u
      → first (is_reset_of email) db.resets ≡ some r
      → r.token_hash ≡ hash_token raw
      → later ≤ r.created_at + password_reset_token_ttl
      → hasher.make salt password ≡ some hashed
      → (reset_password succeeds hasher hash_token salt email raw password later db).1 ≡ value tt
  unfolding reset_password token_hash_equals
  accepts queries salt email raw password hashed later db u r found row same fresh made =
      let in_time : ltb (r.created_at + password_reset_token_ttl) later ≡ false = ground arith in
      rw
        (
          reset_password,
          token_hash_equals,
          queries finds_reset,
          row,
          in_time,
          same,
          eq_refl (hash_token raw),
          queries finds_user,
          found,
          made,
          queries saves_user,
        )
        refl

  -- The token that is created for the email of a user resets the user's password in its hour, when
  -- every query succeeds and the password can be hashed, whether or not a token was there before.
  pub reset_password-create_password_reset_token :
      ((q : Query) → succeeds q ≡ true)
      → (salt email raw password hashed : Str) (now later : ℕ) (db : Tables) (u : User)
      → first (has_email email) db.users ≡ some u
      → hasher.make salt password ≡ some hashed
      → later ≤ now + password_reset_token_ttl
      → ((create_password_reset_token succeeds hasher hash_token (some raw) email now db).1
          ≡ value raw)
        × ((reset_password succeeds hasher hash_token salt email raw password later
              (create_password_reset_token succeeds hasher hash_token (some raw) email now db).0).1
            ≡ value tt)
  unfolding create_password_reset_token
  reset_password-create_password_reset_token queries salt email raw password hashed now later db u
        found made fresh =
      let row : PasswordResetToken = record {
        email = email;
        token_hash = hash_token raw;
        created_at = now;
      } in
      elim (Option-cases (first (is_reset_of email) db.resets)) [
        | inl e ↦
            rw
              (
                create_password_reset_token,
                queries finds_user,
                found,
                queries finds_reset,
                e,
                queries saves_reset,
              )
              (
                refl,
                accepts queries salt email raw password hashed later
                    (record db { resets = db.resets ++ (row ∷ []) }) u row found
                    (first-appended email db.resets row refl e) refl fresh made,
              )
        | inr (old, e) ↦
            rw
              (
                create_password_reset_token,
                queries finds_user,
                found,
                queries finds_reset,
                e,
                queries saves_reset,
              )
              (
                refl,
                accepts queries salt email raw password hashed later
                    (record db { resets = change (is_reset_of email) (λ r. row) db.resets }) u row
                    found (first-replaced email db.resets old row refl e) refl fresh made,
              )
      ]

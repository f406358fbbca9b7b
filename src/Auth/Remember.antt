-- ===== src/Auth/Remember.antt =====
-- auth/guard.go and auth/remember.go: who a session and a remember-me token belong to.
use golite.Base.{
  ℕ, Bool, true, false, Option, none, some, List, [], ◌∷◌, ◌≡◌, ◌≢◌, refl, ap, arith, inl, inr,
  Bool-cases, Str, ◌==◌, eq_iff, eq_refl, is_empty,
}
use golite.Auth.{
  User, Tables, Query, finds_user, saves_user, invalid_remember_token, value, error, Hasher, has_id,
  first, set_remember_token, token_hash_equals, issue_remember_token, user_by_remember_token,
  clear_remember_token,
}

first-set :
    (id : ℕ) (hash : Str) (users : List User) (u : User)
    → first (has_id id) users ≡ some u
    → first (has_id id) (set_remember_token id hash users)
      ≡ some (record u { remember_token = hash })
first-set id hash [] u h = cc
first-set id hash (w ∷ users) u h = elim (Bool-cases (has_id id w)) [
  | inl e ↦
      let same : w ≡ u = cc (rw e at h) in
      rw (e, e)
        (ap {A = User} {B = Option User} (λ x. some (record x { remember_token = hash })) same)
  | inr e ↦ rw (e, e) (first-set id hash users u (rw e at h))
]

first-set_none :
    (id : ℕ) (hash : Str) (users : List User)
    → first (has_id id) users ≡ none
    → first (has_id id) (set_remember_token id hash users) ≡ none
first-set_none id hash [] h = refl
first-set_none id hash (w ∷ users) h = ground (arith, first-set_none id hash users)

ne_test : (a b : Str) → a ≢ b → (a == b) ≡ false
ne_test a b h = elim (Bool-cases (a == b)) [ inl e ↦ absurd (h ((eq_iff a b).0 e)) | inr e ↦ e ]

module _ (succeeds : Query → Bool) (hasher : Hasher) (hash_token : Str → Str)
    (queries : (q : Query) → succeeds q ≡ true) where
  pub user_by_remember_token-issue_remember_token :
      ((t : Str) → is_empty (hash_token t) ≡ false)
      → (raw : Str) (u stored : User) (db : Tables) → first (has_id u.id) db.users ≡ some stored
      → user_by_remember_token succeeds hasher hash_token u.id raw
          (issue_remember_token succeeds hasher hash_token (some raw) u db).0
        ≡ value (record stored { remember_token = hash_token raw })
  unfolding issue_remember_token user_by_remember_token token_hash_equals
  user_by_remember_token-issue_remember_token hashes raw u stored db h = rw (queries saves_user) (
      rw
        (
          user_by_remember_token,
          token_hash_equals,
          queries finds_user,
          first-set u.id (hash_token raw) db.users stored h,
        )
        (rw (hashes raw, eq_refl (hash_token raw)) refl))

  pub user_by_remember_token-clear_remember_token :
      (other : Str) (u stored : User) (db : Tables)
      → first (has_id u.id) db.users ≡ some stored
      → user_by_remember_token succeeds hasher hash_token u.id other
          (clear_remember_token succeeds hasher hash_token u db).0
        ≡ error invalid_remember_token
  unfolding clear_remember_token user_by_remember_token
  user_by_remember_token-clear_remember_token other u stored db h =
      rw (queries saves_user)
        (rw (user_by_remember_token, queries finds_user, first-set u.id [] db.users stored h) refl)

  -- Where every query succeeds: the token issued for a user identifies this user, and no other
  -- token does unless it has the same hash; once the token is cleared, no token at all does. No hash
  -- is empty.
  pub remember_lem :
      ((t : Str) → is_empty (hash_token t) ≡ false)
      → (raw other : Str) (u stored : User) (db : Tables)
      → first (has_id u.id) db.users ≡ some stored
      → hash_token other ≢ hash_token raw
      → (user_by_remember_token succeeds hasher hash_token u.id raw
            (issue_remember_token succeeds hasher hash_token (some raw) u db).0
          ≡ value (record stored { remember_token = hash_token raw }))
        × (user_by_remember_token succeeds hasher hash_token u.id other
              (issue_remember_token succeeds hasher hash_token (some raw) u db).0
            ≡ error invalid_remember_token)
        × (user_by_remember_token succeeds hasher hash_token u.id other
              (clear_remember_token succeeds hasher hash_token u db).0
            ≡ error invalid_remember_token)
  unfolding issue_remember_token user_by_remember_token clear_remember_token token_hash_equals
  remember_lem hashes raw other u stored db h differs =
      let issued = first-set u.id (hash_token raw) db.users stored h in
      (
        user_by_remember_token-issue_remember_token hashes raw u stored db h,
        rw (queries saves_user) (
            rw (user_by_remember_token, token_hash_equals, queries finds_user, issued)
              (rw (hashes raw, ne_test (hash_token other) (hash_token raw) differs) refl)),
        user_by_remember_token-clear_remember_token other u stored db h,
      )

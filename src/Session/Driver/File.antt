-- ===== src/Session/Driver/File.antt =====
-- app/Http/Session/FileSessionHandler.go: the directory as a map from paths to contents.
-- filepath.Join with the directory is an argument, and so is which system calls succeed.
use golite.Base.{
  ℕ, Bool, true, false, not, ◌&&◌, Option, none, some, [], ◌∷◌, ◌++◌, ◌≡◌, ◌⊎◌, inl, inr, refl, sym,
  ◌∙◌, arith, if◌then◌else◌, nat_eq, all_of, Bool-cases, Str, str, ◌==◌, eq_iff, eq_refl, Map,
  lookup, insert, delete, lookup-insert, lookup-delete,
}
use mathlib.Core.List.{append_cancel_right}
use golite.Session.Driver.{Driver, DriverLaws, is_valid_session_id, is_id_byte}

-- A system call on a path, which may fail; a missing file is no failure.
pub data FileCall : Type 0 where
  reads writes removes : Str → FileCall

abbrev pub file_content : Option Str → Str
file_content none = []
file_content (some content) = content

-- A name that filepath.Join appends to the directory as it is.
abbrev pub is_plain_name : Str → Bool
is_plain_name name =
    all_of (λ c. not (nat_eq c b'/')) name && not (name == str ".") && not (name == str "..")

module _ (join : Str → Str) (succeeds : FileCall → Bool) where
  unfoldable pub path : Str → Option Str
  path id = if is_valid_session_id id then some (join (id ++ str ".json")) else none

  abbrev file_read : Map Str → Option Str → Option Str
  file_read m none = some []
  file_read m (some p) = if succeeds (reads p) then some (file_content (lookup p m)) else none

  abbrev file_write : Map Str → Str → Option Str → Option (Map Str)
  file_write m content none = none
  file_write m content (some p) = if succeeds (writes p) then some (insert p content m) else none

  abbrev file_destroy : Map Str → Option Str → Option (Map Str)
  file_destroy m none = some m
  file_destroy m (some p) = if succeeds (removes p) then some (delete p m) else none

  unfoldable pub file_driver : Driver (Map Str)
  unfolding path
  file_driver = record {
    read = λ m id. file_read m (path id);
    write = λ m id content. file_write m content (path id);
    destroy = λ m id. file_destroy m (path id);
  }

not_slash : (c : ℕ) → is_id_byte c ≡ true → not (nat_eq c b'/') ≡ true
not_slash c h = ground arith

not_slashes :
    (id : Str)
    → all_of is_id_byte id ≡ true
    → all_of (λ c. not (nat_eq c b'/')) (id ++ str ".json") ≡ true
not_slashes [] h = refl
not_slashes (c ∷ id) h = ground (arith, not_slashes id, not_slash c)

valid-is_plain_name :
    (id : Str) → is_valid_session_id id ≡ true → is_plain_name (id ++ str ".json") ≡ true
unfolding is_valid_session_id ◌==◌
valid-is_plain_name [] h = cc
valid-is_plain_name (c ∷ id) h =
    let dot : nat_eq c b'.' ≡ false = ground arith in
    let slashes = not_slashes (c ∷ id) h in rw (slashes, dot) refl

module _ (join : Str → Str) (succeeds : FileCall → Bool)
    (apart : (a b : Str)
      → is_plain_name a ≡ true
      → is_plain_name b ≡ true
      → join a ≡ join b
      → a ≡ b)
    (readable : (p : Str) → succeeds (reads p) ≡ true) where
  same_path :
      (id j : Str)
      → is_valid_session_id id ≡ true
      → is_valid_session_id j ≡ true
      → (join (id ++ str ".json") == join (j ++ str ".json")) ≡ (id == j)
  same_path id j v w = elim (Bool-cases (id == j)) [
    | inl e ↦ let same : id ≡ j = (eq_iff id j).0 e in rw same (eq_refl _ ∙ sym (eq_refl j))
    | inr e ↦ elim (Bool-cases (join (id ++ str ".json") == join (j ++ str ".json"))) [
      | inr f ↦ f ∙ sym e
      | inl f ↦
          let names =
            apart (id ++ str ".json") (j ++ str ".json") (valid-is_plain_name id v)
              (valid-is_plain_name j w) ((eq_iff _ _).0 f) in
          let same : id ≡ j = append_cancel_right id j (str ".json") names in
          absurd (ground (arith, e, (eq_iff id j).1 same))
    ]
  ]

  file-read-write :
      (x y : Map Str) (id content j : Str)
      → (file_driver join succeeds).write x id content ≡ some y
      → (file_driver join succeeds).read y j
        ≡ (if id == j then some content else (file_driver join succeeds).read x j)
  unfolding file_driver path
  file-read-write x y id content j h = elim (Bool-cases (is_valid_session_id id)) [
    | inr v ↦ absurd (ground (arith, rw (path, v) at h))
    | inl v ↦ elim (Bool-cases (is_valid_session_id j)) [
      | inl w ↦
          rw (path, w)
            (ground (
              arith,
              rw (path, v) at h,
              readable (join (j ++ str ".json")),
              same_path id j v w,
              lookup-insert (join (id ++ str ".json")) (join (j ++ str ".json")) content x,
            ))
      | inr w ↦ rw (path, w) (ground (arith, eq_iff id j, v, w))
    ]
  ]

  file-read-destroy :
      (x y : Map Str) (id j : Str)
      → (file_driver join succeeds).destroy x id ≡ some y
      → (file_driver join succeeds).read y j
        ≡ (if id == j then some [] else (file_driver join succeeds).read x j)
  unfolding file_driver path
  file-read-destroy x y id j h = elim (Bool-cases (is_valid_session_id j)) [
    | inr w ↦ rw (path, w) (ground arith)
    | inl w ↦ elim (Bool-cases (is_valid_session_id id)) [
      | inr v ↦ rw (path, w) (ground (arith, rw (path, v) at h, eq_iff id j, v, w))
      | inl v ↦
          rw (path, w)
            (ground (
              arith,
              rw (path, v) at h,
              readable (join (j ++ str ".json")),
              same_path id j v w,
              lookup-delete (join (id ++ str ".json")) (join (j ++ str ".json")) x,
            ))
    ]
  ]

  file_driver-DriverLaws : DriverLaws (file_driver join succeeds)
  file_driver-DriverLaws = record { read-write = file-read-write; read-destroy = file-read-destroy }

  -- Where filepath.Join keeps plain names apart and no read fails, while writes and removals may
  -- fail: the file driver keeps the contract of a driver. For an id that has not the form of a
  -- generated one it touches no file: it reads "", refuses to write, and destroys nothing. For any
  -- other id it reads what stands at the path of the plain name made of the id and ".json", or "".
  pub file_driver_lem :
      (x : Map Str) (id content : Str)
      → DriverLaws (file_driver join succeeds)
        × (((is_valid_session_id id ≡ false)
              × ((file_driver join succeeds).read x id ≡ some [])
              × ((file_driver join succeeds).write x id content ≡ none)
              × ((file_driver join succeeds).destroy x id ≡ some x))
            ⊎ ((is_valid_session_id id ≡ true)
                × (is_plain_name (id ++ str ".json") ≡ true)
                × ((file_driver join succeeds).read x id
                    ≡ some (file_content (lookup (join (id ++ str ".json")) x)))))
  unfolding file_driver path
  file_driver_lem x id content = (
    file_driver-DriverLaws,
    elim (Bool-cases (is_valid_session_id id)) [
      | inr v ↦ inl (v, rw (path, v) refl, rw (path, v) refl, rw (path, v) refl)
      | inl v ↦
          inr (v, valid-is_plain_name id v, rw (path, v, readable (join (id ++ str ".json"))) refl)
    ],
  )

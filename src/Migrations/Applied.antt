-- ===== src/Migrations/Applied.antt =====
-- What Migrate leaves: the migrations it applied, their rows, and where it stopped.
use golite.Base.{
  ℕ, ◌+◌, ◌≤◌, ◌<◌, Bool, true, false, not, ◌||◌, Option, none, some, List, [], ◌∷◌, ◌++◌,
  append-nil, append_assoc, map, ◌≡◌, refl, sym, ap, ◌∙◌, arith, inl, inr, Bool-cases, Option-cases,
  >>=-eq-some, if◌then◌else◌, ltb, keep, any, All, All-mono, keep-ext, Str, eq_iff, has, add,
  has-add, ◌⊎◌,
}
use golite.Migrations.{
  Migration, Row, Database, Query, prepares, reads, Failure, applying, is_row_of, applied,
  all_migrations, create_row, apply_migration, migrate_all, migrate, creates,
}

abbrev pub names_of : {X : Type 0} → List (Migration X) → List Str
names_of ms = map (λ m. m.name) ms

abbrev pub recorded : List Row → Str → Bool
recorded rows name = any (is_row_of name) rows

abbrev pub pending : {X : Type 0} → List Row → List (Migration X) → List (Migration X)
pending rows ms = keep (λ m. not (recorded rows m.name)) ms

abbrev pub rows_of : ℕ → List Str → List Row
rows_of batch names = map (λ n. record { migration = n; batch = batch }) names

applied-has :
    (rows : List Row) (seen : List Str) (max_batch : ℕ) (name : Str)
    → has (applied rows seen max_batch).0 name ≡ (recorded rows name || has seen name)
unfolding applied
applied-has [] seen max_batch name = refl
applied-has (r ∷ rows) seen max_batch name =
    applied-has rows (add r.migration seen) (if ltb max_batch r.batch then r.batch else max_batch)
      name
    ∙ ground (arith, has-add r.migration name seen, eq_iff r.migration name)

applied-recorded :
    (rows : List Row) (name : Str) → has (applied rows [] 0).0 name ≡ recorded rows name
unfolding has
applied-recorded rows name = applied-has rows [] 0 name ∙ ground arith

applied-max :
    (rows : List Row) (seen : List Str) (max_batch : ℕ)
    → (max_batch ≤ (applied rows seen max_batch).1)
      × All (λ r. r.batch ≤ (applied rows seen max_batch).1) rows
unfolding applied
applied-max [] seen max_batch = (omega arith, tt)
applied-max (r ∷ rows) seen max_batch =
    let (a, b) =
      applied-max rows (add r.migration seen)
        (if ltb max_batch r.batch then r.batch else max_batch) in
    (ground arith, (ground arith, b))

-- The names that are left: none, or that of the migration that failed and those after it.
abbrev pub StoppedAt : Option Failure → List Str → Type 0
StoppedAt none left = left ≡ []
StoppedAt (some f) left = (n : Str) × (rest : List Str) × (left ≡ n ∷ rest) × (f ≡ applying n)

-- The migrations `ms` applied one after the other, up to the first that fails.
pub data Applies {X : Type 0} (succeeds : Query → Bool) (batch : ℕ)
    : List (Migration X) → Database X → List Str → Database X → Option Failure → Type 0 where
  ends : (db : Database X) → Applies succeeds batch [] db [] db none
  stops :
      (m : Migration X) (ms : List (Migration X)) (db : Database X)
      → apply_migration succeeds batch m db ≡ none
      → Applies succeeds batch (m ∷ ms) db [] db (some (applying m.name))
  applies :
      (m : Migration X) (ms : List (Migration X)) (db mid last : Database X) (names : List Str)
      (f : Option Failure)
      → apply_migration succeeds batch m db ≡ some mid
      → Applies succeeds batch ms mid names last f
      → Applies succeeds batch (m ∷ ms) db (m.name ∷ names) last f

-- Up returns an error, or the row cannot be created.
abbrev pub Fails : {X : Type 0} → (Query → Bool) → Migration X → Database X → Type 0
Fails succeeds m db =
    (m.up db.schema ≡ none) ⊎ (succeeds (creates m.name) ≡ false) ⊎ (recorded db.rows m.name ≡ true)

-- Up of one migration after the other, each with its row, up to the first that fails.
pub data Runs {X : Type 0} (succeeds : Query → Bool) (batch : ℕ)
    : List (Migration X) → Database X → List Str → Database X → Option Failure → Type 0 where
  all_run : (db : Database X) → Runs succeeds batch [] db [] db none
  stops_at :
      (m : Migration X) (ms : List (Migration X)) (db : Database X)
      → Fails succeeds m db
      → Runs succeeds batch (m ∷ ms) db [] db (some (applying m.name))
  runs :
      (m : Migration X) (ms : List (Migration X)) (db last : Database X) (x : X) (names : List Str)
      (f : Option Failure)
      → m.up db.schema ≡ some x
      → succeeds (creates m.name) ≡ true
      → recorded db.rows m.name ≡ false
      → Runs succeeds batch ms
          (record {
            schema = x;
            rows = db.rows ++ (record { migration = m.name; batch = batch } ∷ []);
          })
          names
          last
          f
      → Runs succeeds batch (m ∷ ms) db (m.name ∷ names) last f

module _ {X : Type 0} (succeeds : Query → Bool) where
  -- The loop, from the names it has collected.
  migrate_all-Applies :
      (seen : List Str) (batch : ℕ) (ms : List (Migration X)) (db : Database X) (ran : List Str)
      → (names : List Str) × ((migrate_all succeeds seen batch ms db ran).names ≡ ran ++ names)
        × Applies succeeds batch
            (keep (λ m. not (has seen m.name)) ms)
            db
            names
            (migrate_all succeeds seen batch ms db ran).db
            (migrate_all succeeds seen batch ms db ran).failure
  unfolding migrate_all
  migrate_all-Applies seen batch [] db ran = ([], sym (append-nil ran), ends db)
  migrate_all-Applies seen batch (m ∷ ms) db ran = elim (Bool-cases (has seen m.name)) [
    | inl e ↦ rw e (migrate_all-Applies seen batch ms db ran)
    | inr e ↦ elim (Option-cases (apply_migration succeeds batch m db)) [
      | inl f ↦ rw (e, f) ([], sym (append-nil ran), stops m _ db f)
      | inr (mid, f) ↦
          let (names, same, a) = migrate_all-Applies seen batch ms mid (ran ++ (m.name ∷ [])) in
          rw (e, f)
            (
              m.name ∷ names,
              same ∙ append_assoc ran (m.name ∷ []) names,
              applies m _ db mid _ names _ f a,
            )
    ]
  ]

  pub apply_migration-some :
      (batch : ℕ) (m : Migration X) (db mid : Database X)
      → apply_migration succeeds batch m db ≡ some mid
      → (x : X) × (m.up db.schema ≡ some x)
        × (recorded db.rows m.name ≡ false)
        × (mid ≡ record {
          schema = x;
          rows = db.rows ++ (record { migration = m.name; batch = batch } ∷ []);
        })
  unfolding apply_migration create_row
  apply_migration-some batch m db mid h =
      let (x, e, f) = >>=-eq-some (m.up db.schema) _ h in (x, e, ground arith, ground arith)

  pub Applies-rows :
      {batch : ℕ} {ms : List (Migration X)} {db last : Database X} {names : List Str}
      {f : Option Failure}
      → Applies succeeds batch ms db names last f
      → last.rows ≡ db.rows ++ rows_of batch names
  Applies-rows (ends db) = sym (append-nil db.rows)
  Applies-rows (stops m ms db e) = sym (append-nil db.rows)
  Applies-rows {batch} (applies m ms db mid last names f e a) =
      let (x, up, new, is) = apply_migration-some batch m db mid e in
      Applies-rows a
      ∙ rw is (
          append_assoc db.rows (record { migration = m.name; batch = batch } ∷ [])
            (rows_of batch names))

  Applies-names :
      {batch : ℕ} {ms : List (Migration X)} {db last : Database X} {names : List Str}
      {f : Option Failure}
      → Applies succeeds batch ms db names last f
      → (left : List Str) × (names_of ms ≡ names ++ left) × StoppedAt f left
  Applies-names (ends db) = ([], refl, refl)
  Applies-names (stops m ms db e) = (names_of (m ∷ ms), refl, (m.name, names_of ms, refl, refl))
  Applies-names (applies m ms db mid last names f e a) =
      let (left, same, s) = Applies-names a in (left, ap (λ ns. m.name ∷ ns) same, s)

  pub migrate-Applies :
      (registry : List (Migration X)) (db : Database X)
      → succeeds prepares ≡ true
      → succeeds reads ≡ true
      → (batch : ℕ) × All (λ r. r.batch < batch) db.rows
        × Applies succeeds batch
            (pending db.rows (all_migrations registry))
            db
            (migrate succeeds registry db).names
            (migrate succeeds registry db).db
            (migrate succeeds registry db).failure
  unfolding migrate
  migrate-Applies registry db p r =
      let (names, same, a) =
        migrate_all-Applies (applied db.rows [] 0).0 ((applied db.rows [] 0).1 + 1)
          (all_migrations registry) db [] in
      let candidates =
        keep-ext (λ m. ap not (applied-recorded db.rows m.name)) (all_migrations registry) in
      (
        (applied db.rows [] 0).1 + 1,
        All-mono _ _ (λ row below. omega arith) db.rows (applied-max db.rows [] 0).1,
        rw (p, r, same) (rw candidates at a),
      )

  apply_migration-none :
      (batch : ℕ) (m : Migration X) (db : Database X)
      → apply_migration succeeds batch m db ≡ none
      → Fails succeeds m db
  unfolding apply_migration create_row
  apply_migration-none batch m db h = elim (Option-cases (m.up db.schema)) [
    | inl e ↦ inl e
    | inr (x, e) ↦ elim (Bool-cases (succeeds (creates m.name))) [
      | inr f ↦ inr (inl f)
      | inl f ↦ inr (inr (ground (arith, rw (apply_migration, create_row, e, f) at h)))
    ]
  ]

  apply_migration-creates :
      (batch : ℕ) (m : Migration X) (db mid : Database X)
      → apply_migration succeeds batch m db ≡ some mid
      → succeeds (creates m.name) ≡ true
  unfolding apply_migration create_row
  apply_migration-creates batch m db mid h =
      let (x, e, f) = >>=-eq-some (m.up db.schema) _ h in ground arith

  Applies-Runs :
      {batch : ℕ} {ms : List (Migration X)} {db last : Database X} {names : List Str}
      {f : Option Failure}
      → Applies succeeds batch ms db names last f
      → Runs succeeds batch ms db names last f
  Applies-Runs (ends db) = all_run db
  Applies-Runs {batch} (stops m ms db e) = stops_at m ms db (apply_migration-none batch m db e)
  Applies-Runs {batch} (applies m ms db mid last names f e a) =
      let (x, up, new, is) = apply_migration-some batch m db mid e in
      let rest = Applies-Runs a in
      runs m ms db last x names f up (apply_migration-creates batch m db mid e) new (rw is at rest)

  -- Where the queries that prepare and read the migrations table succeed: Migrate runs Up, in the
  -- order of names, of the registered migrations that have no row, each on the schema that the one
  -- before it left, all of them or those before the first whose Up or new row fails, which changes
  -- nothing and which the error names; it returns the names of those it applied, and leaves one new
  -- row for each, after the others, under one batch that is higher than all before.
  pub migrate_lem :
      (registry : List (Migration X)) (db : Database X)
      → succeeds prepares ≡ true
      → succeeds reads ≡ true
      → (batch : ℕ) × (left : List Str) × All (λ r. r.batch < batch) db.rows
        × Runs succeeds batch
            (pending db.rows (all_migrations registry))
            db
            (migrate succeeds registry db).names
            (migrate succeeds registry db).db
            (migrate succeeds registry db).failure
        × ((migrate succeeds registry db).db.rows
            ≡ db.rows ++ rows_of batch (migrate succeeds registry db).names)
        × (names_of (pending db.rows (all_migrations registry))
            ≡ (migrate succeeds registry db).names ++ left)
        × StoppedAt (migrate succeeds registry db).failure left
  migrate_lem registry db p r =
      let (batch, below, a) = migrate-Applies registry db p r in
      let (left, same, s) = Applies-names a in
      (batch, left, below, Applies-Runs a, Applies-rows a, same, s)

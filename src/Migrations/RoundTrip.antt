-- ===== src/Migrations/RoundTrip.antt =====
-- Rollback after Migrate.
use golite.Base.{
  ℕ, ◌<◌, Bool, true, false, not, Option, none, some, List, [], ◌∷◌, ◌++◌, append-nil, append_assoc,
  ◌≡◌, ◌≢◌, refl, ◌∙◌, arith, nat_eq, keep, reverse_onto, reverse_onto-append, reverse_onto_append,
  All-reverse_onto, All-keep, All-zip, All, Str, eq_refl, has, Map, lookup, insert, lookup-insert,
}
use golite.Migrations.{
  Migration, Row, Database, Query, prepares, reads, deletes, Failure, is_row_of, all_migrations,
  create_row, delete_row, apply_migration, revert_migration, migrate, rollback, rollback_all,
  rollback_rows, by_name,
}
use golite.Migrations.Applied.{
  names_of, recorded, rows_of, Applies, ends, stops, applies, apply_migration-some, migrate-Applies,
  Applies-rows,
}

keep_last :
    (name : Str) (batch : ℕ) (rows : List Row)
    → recorded rows name ≡ false
    → keep (λ r. not (is_row_of name r)) (rows ++ (record { migration = name; batch = batch } ∷ []))
      ≡ rows
keep_last name batch [] h = rw (eq_refl name) refl
keep_last name batch (r ∷ rows) h = ground (arith, keep_last name batch rows)

latest_first :
    (batch : ℕ) (names : List Str) (name : Str) (older : List Row)
    → (r : Row) × (rest : List Row) × (r.batch ≡ batch)
      × (reverse_onto (rows_of batch names) (record { migration = name; batch = batch } ∷ older)
          ≡ r ∷ rest)
latest_first batch [] name older = (record { migration = name; batch = batch }, older, refl, refl)
latest_first batch (n ∷ names) name older =
    latest_first batch names n (record { migration = name; batch = batch } ∷ older)

module _ {X : Type 0} (succeeds : Query → Bool) (queries : (q : Query) → succeeds q ≡ true) where
  -- Down undoes Up.
  abbrev pub Reverts : Migration X → Type 0
  Reverts m = (x y : X) → m.up x ≡ some y → m.down y ≡ some x

  revert-apply :
      (batch : ℕ) (m : Migration X) (db mid : Database X)
      → Reverts m
      → apply_migration succeeds batch m db ≡ some mid
      → revert_migration succeeds m mid ≡ some db
  unfolding apply_migration revert_migration create_row delete_row
  revert-apply batch m db mid inv h =
      let (x, up, new, is) = apply_migration-some succeeds batch m db mid h in
      rw (is, inv db.schema x up, queries (deletes m.name), keep_last m.name batch db.rows new) refl

  -- Undoing what was applied, the last first, whatever rows come after these.
  rollback_all-Applies :
      (known : Map (Migration X)) {batch : ℕ} {ms : List (Migration X)} {db last : Database X}
      {names : List Str} {f : Option Failure}
      → All (λ m. Reverts m × (lookup m.name known ≡ some m)) ms
      → Applies succeeds batch ms db names last f
      → (older : List Row) (undone : List Str)
      → rollback_all succeeds known batch (reverse_onto (rows_of batch names) older) last undone
        ≡ rollback_all succeeds known batch older db (undone ++ reverse_onto names [])
  unfolding rollback_all
  rollback_all-Applies known h (ends db) older undone = rw (append-nil undone) refl
  rollback_all-Applies known h (stops m ms db e) older undone = rw (append-nil undone) refl
  rollback_all-Applies known {batch} h (applies m ms db mid last names f e a) older undone =
      rollback_all-Applies known h.1 a (record { migration = m.name; batch = batch } ∷ older) undone
      ∙ rw
          (
            same,
            h.0.1,
            revert-apply batch m db mid h.0.0 e,
            reverse_onto-append names (m.name ∷ []),
            append_assoc undone (reverse_onto names []) (m.name ∷ []),
          )
          refl
    where
      same : nat_eq batch batch ≡ true
      same = ground arith

  rollback_all_older :
      (known : Map (Migration X)) (batch : ℕ) (rows : List Row) (db : Database X)
      (undone : List Str)
      → All (λ r. r.batch < batch) rows
      → rollback_all succeeds known batch rows db undone
        ≡ record { db = db; names = undone; failure = none }
  unfolding rollback_all
  rollback_all_older known batch [] db undone h = refl
  rollback_all_older known batch (r ∷ rows) db undone h =
      let other : nat_eq r.batch batch ≡ false = ground arith in
      rw other (rollback_all_older known batch rows db undone h.1)

  abbrev pub Distinct : List (Migration X) → Type 0
  Distinct [] = Unit
  Distinct (m ∷ ms) = (has (names_of ms) m.name ≡ false) × Distinct ms

  lookup-by_name_absent :
      (ms : List (Migration X)) (known : Map (Migration X)) (name : Str)
      → has (names_of ms) name ≡ false
      → lookup name (by_name succeeds ms known) ≡ lookup name known
  unfolding by_name has
  lookup-by_name_absent [] known name h = refl
  lookup-by_name_absent (m ∷ ms) known name h =
      lookup-by_name_absent ms (insert m.name m known) name (ground arith)
      ∙ lookup-insert m.name name m known
      ∙ ground arith

  lookup-by_name :
      (ms : List (Migration X)) (known : Map (Migration X))
      → Distinct ms
      → All (λ m. lookup m.name (by_name succeeds ms known) ≡ some m) ms
  unfolding by_name
  lookup-by_name [] known h = tt
  lookup-by_name (m ∷ ms) known h = (
    lookup-by_name_absent ms (insert m.name m known) m.name h.0
        ∙ lookup-insert m.name m.name m known
        ∙ rw (eq_refl m.name) refl,
    lookup-by_name ms (insert m.name m known) h.1,
  )

  rollback_rows_latest :
      (registry : List (Migration X)) (batch : ℕ) (names : List Str) (older : List Row)
      (last : Database X)
      → names ≢ []
      → rollback_rows succeeds registry (reverse_onto (rows_of batch names) older) last
        ≡ rollback_all succeeds
            (by_name succeeds (all_migrations registry) [])
            batch
            (reverse_onto (rows_of batch names) older)
            last
            []
  rollback_rows_latest registry batch [] older last h = absurd (h refl)
  rollback_rows_latest registry batch (n ∷ names) older last h =
      let (r, rest, same, e) = latest_first batch names n older in rw (e, same) refl

  -- Rollback undoes Migrate. Where every query succeeds, the names of the registered migrations are
  -- distinct, and Down undoes Up for each: after a Migrate that applied a migration, whether it
  -- failed at a later one or not, Rollback gives the database back as it was, schema and migrations
  -- table, and returns the names of those that were applied, the last first.
  pub rollback-migrate :
      (registry : List (Migration X)) (db : Database X)
      → Distinct (all_migrations registry)
      → All Reverts (all_migrations registry)
      → (migrate succeeds registry db).names ≢ []
      → rollback succeeds registry (migrate succeeds registry db).db ≡ record {
        db = db;
        names = reverse_onto (migrate succeeds registry db).names [];
        failure = none;
      }
  unfolding rollback
  rollback-migrate registry db distinct inv some_applied =
      let known = by_name succeeds (all_migrations registry) [] in
      let (batch, below, a) =
        migrate-Applies succeeds registry db (queries prepares) (queries reads) in
      let after = migrate succeeds registry db in
      let newest : reverse_onto after.db.rows []
          ≡ reverse_onto (rows_of batch after.names) (reverse_onto db.rows []) =
        rw (Applies-rows succeeds a) (reverse_onto_append db.rows (rows_of batch after.names) []) in
      let ready = All-keep _ _ (all_migrations registry) (
        All-zip _ _ (all_migrations registry) inv
          (lookup-by_name (all_migrations registry) [] distinct)) in
      rw (queries prepares, queries reads, newest)
        (rollback_rows_latest registry batch after.names (reverse_onto db.rows []) after.db
            some_applied
          ∙ rollback_all-Applies known ready a (reverse_onto db.rows []) []
          ∙ rollback_all_older known batch (reverse_onto db.rows []) db
              (reverse_onto after.names []) (All-reverse_onto _ db.rows [] below tt))

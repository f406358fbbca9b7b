-- ===== src/Migrations.antt =====
-- database/migrations: migration.go and runner.go.
-- The database is the schema that the migrations change, of any type, beside the rows of the
-- migrations table in the order of their ids.
pub mod Applied
pub mod Again
pub mod RoundTrip
pub mod Tests
use golite.Base.{
  ℕ, ◌+◌, Bool, true, false, not, ◌&&◌, Option, none, some, List, [], ◌∷◌, ◌++◌, if◌then◌else◌,
  ◌>>=◌, ltb, nat_eq, keep, any, reverse_onto, Str, ◌==◌, Map, lookup, insert, has, add,
}
use golite.Validation.{before}

-- Up and Down; `none` is an error. Neither touches the migrations table.
pub record Migration (X : Type 0) : Type 0 where
  pub name : Str
  pub up : X → Option X
  pub down : X → Option X

-- Record: a row, without its id and its time.
pub record Row : Type 0 where
  pub migration : Str
  pub batch : ℕ

pub record Database (X : Type 0) : Type 0 where
  pub schema : X
  pub rows : List Row

-- The queries of the runner, which may fail.
pub data Query : Type 0 where
  prepares reads : Query
  creates deletes : Str → Query

pub data Failure : Type 0 where
  preparing reading : Failure
  applying rolling_back unregistered : Str → Failure

-- What Migrate and Rollback return, with the database they leave.
pub record RunResult (X : Type 0) : Type 0 where
  pub db : Database X
  pub names : List Str
  pub failure : Option Failure

abbrev pub is_row_of : Str → Row → Bool
is_row_of name row = row.migration == name

-- The loop of applied.
unfoldable pub applied : List Row → List Str → ℕ → List Str × ℕ
applied [] seen max_batch = (seen, max_batch)
applied (r ∷ rows) seen max_batch =
    applied rows (add r.migration seen) (if ltb max_batch r.batch then r.batch else max_batch)

module _ {X : Type 0} where
  insert_migration : Migration X → List (Migration X) → List (Migration X)
  insert_migration m [] = m ∷ []
  insert_migration m (n ∷ ms) =
      let rest = insert_migration m ms in if before n.name m.name then n ∷ rest else m ∷ n ∷ ms

  -- All, of the registered migrations.
  unfoldable pub all_migrations : List (Migration X) → List (Migration X)
  unfolding insert_migration
  all_migrations [] = []
  all_migrations (m ∷ ms) = insert_migration m (all_migrations ms)

  module _ (succeeds : Query → Bool) where
    -- tx.Create: the column of the name has a unique index.
    unfoldable pub create_row : Row → Database X → Option (Database X)
    create_row row db =
        if succeeds (creates row.migration) && not (any (is_row_of row.migration) db.rows)
        then some (record db { rows = db.rows ++ (row ∷ []) })
        else none

    unfoldable pub delete_row : Str → Database X → Option (Database X)
    delete_row name db =
        if succeeds (deletes name)
        then some (record db { rows = keep (λ r. not (is_row_of name r)) db.rows })
        else none

    -- The two transactions: `none` leaves the database as it was.
    unfoldable pub apply_migration : ℕ → Migration X → Database X → Option (Database X)
    unfolding create_row
    apply_migration batch m db = m.up db.schema >>= λ x.
        create_row (record { migration = m.name; batch = batch }) (record db { schema = x })

    unfoldable pub revert_migration : Migration X → Database X → Option (Database X)
    unfolding delete_row
    revert_migration m db = m.down db.schema >>= λ x. delete_row m.name (record db { schema = x })

    -- The loop of Migrate.
    unfoldable pub migrate_all :
        List Str → ℕ → List (Migration X) → Database X → List Str → RunResult X
    migrate_all seen batch [] db ran = record { db = db; names = ran; failure = none }
    migrate_all seen batch (m ∷ ms) db ran =
        if has seen m.name
        then migrate_all seen batch ms db ran
        else (elim (apply_migration batch m db) [
          | none ↦ record { db = db; names = ran; failure = some (applying m.name) }
          | some db' ↦ migrate_all seen batch ms db' (ran ++ (m.name ∷ []))
        ])

    unfoldable pub migrate : List (Migration X) → Database X → RunResult X
    unfolding migrate_all applied all_migrations
    migrate registry db =
        if succeeds prepares
        then (if succeeds reads
            then (let (seen, max_batch) = applied db.rows [] 0 in
                migrate_all seen (max_batch + 1) (all_migrations registry) db [])
            else record { db = db; names = []; failure = some reading })
        else record { db = db; names = []; failure = some preparing }

    -- byName: a later migration of the same name replaces an earlier one.
    unfoldable pub by_name : List (Migration X) → Map (Migration X) → Map (Migration X)
    by_name [] known = known
    by_name (m ∷ ms) known = by_name ms (insert m.name m known)

    -- The loop of Rollback.
    unfoldable pub rollback_all :
        Map (Migration X) → ℕ → List Row → Database X → List Str → RunResult X
    rollback_all known latest [] db undone = record { db = db; names = undone; failure = none }
    rollback_all known latest (r ∷ rows) db undone =
        if not (nat_eq r.batch latest)
        then rollback_all known latest rows db undone
        else (elim (lookup r.migration known) [
          | none ↦ record { db = db; names = undone; failure = some (unregistered r.migration) }
          | some m ↦ elim (revert_migration m db) [
            | none ↦ record { db = db; names = undone; failure = some (rolling_back r.migration) }
            | some db' ↦ rollback_all known latest rows db' (undone ++ (r.migration ∷ []))
          ]
        ])

    abbrev pub rollback_rows : List (Migration X) → List Row → Database X → RunResult X
    rollback_rows registry [] db = record { db = db; names = []; failure = none }
    rollback_rows registry (r ∷ rows) db =
        rollback_all (by_name (all_migrations registry) []) r.batch (r ∷ rows) db []

    unfoldable pub rollback : List (Migration X) → Database X → RunResult X
    unfolding rollback_all by_name all_migrations
    rollback registry db =
        if succeeds prepares
        then (if succeeds reads
            then rollback_rows registry (reverse_onto db.rows []) db
            else record { db = db; names = []; failure = some reading })
        else record { db = db; names = []; failure = some preparing }

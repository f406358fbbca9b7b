-- ===== src/Migrations/Tests.antt =====
-- Runs of the migrations of database/migrations.
use golite.Base.{
  ℕ, ◌<◌, Bool, true, Option, none, some, List, [], ◌∷◌, ◌++◌, ◌≡◌, refl, arith, if◌then◌else◌,
  nat_eq, All, reverse_onto, Str, str, ◌==◌, has,
}
use golite.Validation.{before}
use golite.Migrations.{
  Migration, Database, Query, Failure, RunResult, all_migrations, applied, create_row,
  apply_migration, migrate_all, migrate, rollback,
}
use golite.Migrations.Applied.{names_of, pending, rows_of, StoppedAt, migrate_lem, Runs}
use golite.Migrations.Again.{migrate_twice}
use golite.Migrations.RoundTrip.{Reverts, Distinct, rollback-migrate}

-- A schema is a list of tables, by number; a migration adds one, and 9 cannot be added.
abbrev pop : ℕ → List ℕ → Option (List ℕ)
pop t [] = none
pop t (u ∷ s) = if nat_eq t u then some s else none

abbrev push_table : ℕ → List ℕ → Option (List ℕ)
push_table t s = if nat_eq t 9 then none else some (t ∷ s)

abbrev table : ℕ → Str → Migration (List ℕ)
table t name = record { name = name; up = push_table t; down = pop t }

abbrev users : Str
users = str "1_users"

abbrev tokens : Str
tokens = str "2_tokens"

abbrev broken : Str
broken = str "3_broken"

abbrev registry : List (Migration (List ℕ))
registry = table 2 tokens ∷ table 9 broken ∷ table 1 users ∷ []

abbrev sorted : List (Migration (List ℕ))
sorted = table 1 users ∷ table 2 tokens ∷ table 9 broken ∷ []

abbrev empty_db : Database (List ℕ)
empty_db = record { schema = []; rows = [] }

abbrev always : Query → Bool
always q = true

all_migrations_result : all_migrations registry ≡ sorted
unfolding all_migrations before
all_migrations_result = refl

abbrev stopped : RunResult (List ℕ)
stopped = record {
  db = record {
    schema = 2 ∷ 1 ∷ [];
    rows = record { migration = users; batch = 1 } ∷ record { migration = tokens; batch = 1 } ∷ [];
  };
  names = users ∷ tokens ∷ [];
  failure = some (Failure.applying broken);
}

migrate_result : migrate always registry empty_db ≡ stopped
unfolding migrate migrate_all applied all_migrations before apply_migration create_row has ◌==◌
migrate_result = refl

migrate_example :
    (batch : ℕ) × (left : List Str) × All (λ r. r.batch < batch) empty_db.rows
    × Runs always batch
        (pending empty_db.rows (all_migrations registry))
        empty_db
        (migrate always registry empty_db).names
        (migrate always registry empty_db).db
        (migrate always registry empty_db).failure
    × ((migrate always registry empty_db).db.rows
        ≡ empty_db.rows ++ rows_of batch (migrate always registry empty_db).names)
    × (names_of (pending empty_db.rows (all_migrations registry))
        ≡ (migrate always registry empty_db).names ++ left)
    × StoppedAt (migrate always registry empty_db).failure left
migrate_example = migrate_lem always registry empty_db refl refl

reverts : (t : ℕ) (name : Str) → Reverts always (λ q. refl) (table t name)
reverts t name x y e = ground arith

sorted-Distinct : Distinct always (λ q. refl) (all_migrations registry)
unfolding all_migrations before has ◌==◌
sorted-Distinct = (refl, (refl, (refl, tt)))

sorted-Reverts : All (Reverts always (λ q. refl)) (all_migrations registry)
sorted-Reverts =
    rw all_migrations_result (reverts 1 users, (reverts 2 tokens, (reverts 9 broken, tt)))

rollback-migrate_example : rollback always registry (migrate always registry empty_db).db ≡ record {
  db = empty_db;
  names = reverse_onto (migrate always registry empty_db).names [];
  failure = none;
}
rollback-migrate_example =
    rollback-migrate always (λ q. refl) registry empty_db sorted-Distinct sorted-Reverts
      (rw migrate_result (λ e. cc))

abbrev sound : List (Migration (List ℕ))
sound = table 2 tokens ∷ table 1 users ∷ []

sound_result : (migrate always sound empty_db).failure ≡ none
unfolding migrate migrate_all applied all_migrations before apply_migration create_row has ◌==◌
sound_result = refl

migrate_twice_example :
    migrate always sound (migrate always sound empty_db).db
    ≡ record { db = (migrate always sound empty_db).db; names = []; failure = none }
migrate_twice_example = migrate_twice always sound empty_db refl refl sound_result

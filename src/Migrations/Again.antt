-- ===== src/Migrations/Again.antt =====
-- Migrate after Migrate.
use golite.Base.{
  ℕ, Bool, true, not, ◌||◌, Option, none, List, [], ◌∷◌, ◌++◌, append-nil, ◌≡◌, refl, ap, ◌∙◌,
  arith, All, All-mono, keep-none, Str, eq_refl, has,
}
use golite.Migrations.{
  Migration, Row, Database, Query, prepares, reads, Failure, RunResult, all_migrations, migrate,
}
use golite.Migrations.Applied.{
  names_of, recorded, pending, rows_of, Applies, ends, migrate-Applies, migrate_lem,
}

recorded-append :
    (rows : List Row) (batch : ℕ) (names : List Str) (name : Str)
    → recorded (rows ++ rows_of batch names) name ≡ (recorded rows name || has names name)
unfolding has
recorded-append [] batch [] name = refl
recorded-append [] batch (n ∷ names) name = ground (arith, recorded-append [] batch names name)
recorded-append (r ∷ rows) batch names name = ground (arith, recorded-append rows batch names name)

module _ {X : Type 0} (succeeds : Query → Bool) where
  -- A migration has a row, or it is pending.
  every_recorded :
      (rows : List Row) (ms : List (Migration X))
      → All (λ m. (recorded rows m.name || has (names_of (pending rows ms)) m.name) ≡ true) ms
  unfolding has
  every_recorded rows [] = tt
  every_recorded rows (m ∷ ms) = (
    grind (arith, eq_refl m.name),
    All-mono _ _ (λ n h. ground arith) ms (every_recorded rows ms),
  )

  Applies-nil :
      {batch : ℕ} {db last : Database X} {names : List Str} {f : Option Failure}
      → Applies succeeds batch [] db names last f
      → (names ≡ []) × (last ≡ db) × (f ≡ none)
  Applies-nil (ends db) = (refl, refl, refl)

  outcome_of :
      (o : RunResult X) (db : Database X)
      → (o.names ≡ []) × (o.db ≡ db) × (o.failure ≡ none)
      → o ≡ record { db = db; names = []; failure = none }
  outcome_of o db (a, b, c) = rw (← a, ← b, ← c) refl

  -- After a run of Migrate without an error, another run applies nothing and changes nothing.
  pub migrate_twice :
      (registry : List (Migration X)) (db : Database X)
      → succeeds prepares ≡ true
      → succeeds reads ≡ true
      → (migrate succeeds registry db).failure ≡ none
      → migrate succeeds registry (migrate succeeds registry db).db
        ≡ record { db = (migrate succeeds registry db).db; names = []; failure = none }
  migrate_twice registry db p r ok =
      let (batch, left, below, _, rows, same, s) = migrate_lem succeeds registry db p r in
      let after = migrate succeeds registry db in
      let all_run : names_of (pending db.rows (all_migrations registry)) ≡ after.names =
        same ∙ rw (rw ok at s) (append-nil after.names) in
      let none_left : pending after.db.rows (all_migrations registry) ≡ [] =
        keep-none _ (all_migrations registry) (
          All-mono _ _
            (λ m h.
              ap not {y = true}
                (rw rows (recorded-append db.rows batch after.names m.name ∙ rw (← all_run) h)))
            (all_migrations registry) (every_recorded db.rows (all_migrations registry))) in
      let (batch', below', a) = migrate-Applies succeeds registry after.db p r in
      outcome_of (migrate succeeds registry after.db) after.db (Applies-nil (rw none_left at a))

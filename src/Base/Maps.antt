-- ===== src/Base/Maps.antt =====
-- Go maps with string keys as association lists; the order stands for one order of iteration.
use mathlib.Core.Path.{◌≡◌, refl}
use mathlib.Core.List.{List, [], ◌∷◌}
use mathlib.Core.Option.{Option, none, some}
use native.Mathlib.Omega.{arith}
use golite.Base.Tests.{if◌then◌else◌}
use golite.Base.Text.{Str, ◌==◌, eq_iff}

abbrev pub Map : Type 0 → Type 0
Map V = List (Str × V)

module _ {V : Type 0} where
  unfoldable pub lookup : Str → Map V → Option V
  lookup key [] = none
  lookup key (entry ∷ rest) = if entry.0 == key then some entry.1 else lookup key rest

  -- An assignment keeps the place of a key that is there.
  unfoldable pub insert : Str → V → Map V → Map V
  insert key new [] = (key, new) ∷ []
  insert key new ((other, old) ∷ rest) =
      let others = insert key new rest in
      if other == key then (other, new) ∷ rest else (other, old) ∷ others

  -- `delete` drops every entry of the key, so it needs no invariant.
  unfoldable pub delete : Str → Map V → Map V
  delete key [] = []
  delete key (entry ∷ entries) =
      let others = delete key entries in if entry.0 == key then others else entry ∷ others

  pub lookup-insert :
      (key wanted : Str) (new : V) (entries : Map V)
      → lookup wanted (insert key new entries)
        ≡ (if key == wanted then some new else lookup wanted entries)
  unfolding lookup insert
  lookup-insert key wanted new [] = refl
  lookup-insert key wanted new ((other, old) ∷ entries) = ground (
    arith,
    lookup-insert key wanted new entries,
    eq_iff other wanted,
    eq_iff other key,
    eq_iff key wanted,
  )

  pub lookup-delete :
      (key wanted : Str) (entries : Map V)
      → lookup wanted (delete key entries) ≡ (if key == wanted then none else lookup wanted entries)
  unfolding lookup delete
  lookup-delete key wanted [] = ground arith
  lookup-delete key wanted ((other, old) ∷ entries) = ground (
    arith,
    lookup-delete key wanted entries,
    eq_iff other wanted,
    eq_iff other key,
    eq_iff key wanted,
  )

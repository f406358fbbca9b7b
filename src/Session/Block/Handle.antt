-- ===== src/Session/Block/Handle.antt =====
-- Blocked routes: one request by itself, inside StartSession.
use golite.Base.{
  ℕ, Option, ◌≡◌, refl, arith, inl, inr, Bool-cases, Option-cases, Str, is_empty, eq_iff,
}
use golite.Session.Payload.{Codec}
use golite.Session.Driver.{Driver}
use golite.Session.Lock.{Locks, try_lock}
use golite.Session.Manager.{Cipher}
use golite.Session.Visit.{Visit}
use golite.Session.Block.{enter, release, handle}
use golite.Session.Block.Exclusion.{locked, try_lock-locked, locked-unlock}

module _ {D : Type 0} (codec : Codec) (driver : Driver D) (cipher : Cipher) (random : ℕ → Str) where
  -- Whatever the rest of the chain does, a panic included, Handle leaves every mutex as it found
  -- it: the lock it took is released, and one that it could not take is not.
  pub handle-locked :
      (next : Visit D → Option (Visit D)) (nonce j : Str) (locks : Locks) (v : Visit D)
      → locked j (handle codec driver cipher random next nonce locks v).1 ≡ locked j locks
  unfolding handle enter release
  handle-locked next nonce j locks v = elim (Bool-cases (is_empty v.original_id)) [
    | inl e ↦ rw e refl
    | inr e ↦ elim (Option-cases (try_lock v.original_id locks)) [
      | inl f ↦ rw (e, f) refl
      | inr (taken, f) ↦
          let (free, t) = try_lock-locked v.original_id locks taken f in
          rw (e, f)
            (grind (arith, locked-unlock v.original_id j taken, t j, eq_iff v.original_id j))
    ]
  ]

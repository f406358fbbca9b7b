-- ===== src/Session/Block.antt =====
-- app/Http/SessionBlock.go: the middleware of a blocked route, between the two halves of
-- StartSession; and the requests that pass through it at once.
pub mod System
pub mod Exclusion
pub mod Serial
pub mod Progress
pub mod Handle
use golite.Base.{
  ℕ, suc, Bool, true, false, Option, none, some, ◌>>=◌, if◌then◌else◌, Str, is_empty, ◌==◌,
}
use golite.Session.Store.{Session}
use golite.Session.Payload.{Codec}
use golite.Session.Driver.{Driver}
use golite.Session.Lock.{Locks, try_lock, unlock}
use golite.Session.Manager.{Cipher, load, save}
use golite.Session.Visit.{Visit, refresh_session_cookie}

module _ {D : Type 0} (codec : Codec) (driver : Driver D) (cipher : Cipher) (random : ℕ → Str) where
  abbrev with_fresh : Session → Visit D → Visit D
  with_fresh fresh v = record v { session = some fresh; seed = suc v.seed }

  -- Loading the session again, and the cookie where that gives another id.
  unfoldable pub reload : Visit D → Visit D
  reload v =
      let fresh = load codec driver cipher v.handler (random v.seed) v.original_id in
      if fresh.id == v.original_id
      then with_fresh fresh v
      else refresh_session_cookie fresh.id (with_fresh fresh v)

  -- Handle before it calls next, and the lock it holds: the registry is that in which the wait for
  -- the mutex ended, which `try_lock` finds free or, after the timeout, still taken.
  abbrev pub lock_or_not : Option Locks → Locks → Locks × Bool
  lock_or_not none locks = (locks, false)
  lock_or_not (some taken) locks = (taken, true)

  unfoldable pub enter : Locks → Visit D → Visit D × (Locks × Bool)
  unfolding reload
  enter locks v =
      if is_empty v.original_id
      then (v, (locks, false))
      else (reload v, lock_or_not (try_lock v.original_id locks) locks)

  -- And after: the session is saved, and its value for a cookie dropped.
  unfoldable pub leave : Str → Str → Visit D → Visit D
  leave nonce id v = elim v.session [
    | none ↦ v
    | some s ↦
        let (h, value) = save codec driver cipher v.handler nonce s id in
        record v { handler = h; saved = true }
  ]

  -- The deferred unlock.
  unfoldable pub release : Bool → Str → Locks → Locks
  release held id locks = if held then unlock id locks else locks

  -- Handle, where no other request comes in between; `none` is a panic, of next or, on a missing
  -- session, of Context.Session.
  unfoldable pub handle :
      (Visit D → Option (Visit D)) → Str → Locks → Visit D → Option (Visit D) × Locks
  unfolding enter leave release
  handle next nonce locks v =
      let (entered, (taken, held)) = enter locks v in
      (
        entered.session >>= (λ s. next entered) >>= λ w. some (leave nonce v.original_id w),
        release held v.original_id taken,
      )

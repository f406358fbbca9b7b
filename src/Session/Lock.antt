-- ===== src/Session/Lock.antt =====
-- app/Http/Session/Lock.go: the registry of the locks of sessions, one mutex per session id.
-- A mutex is whether it is locked; times are in nanoseconds.
pub mod Waiting
use golite.Base.{
  ℕ, zero, suc, ◌+◌, Bool, true, false, Option, none, some, [], if◌then◌else◌, ltb, Str, Map,
  lookup, insert,
}

-- lockRegistry.locks
abbrev pub Locks : Type 0
Locks = Map Bool

unfoldable pub new_lock_registry : Locks
new_lock_registry = []

-- The state of the mutex that mutexFor gives: a new one is unlocked.
abbrev pub is_locked : Option Bool → Bool
is_locked none = false
is_locked (some b) = b

abbrev with_mutex : Str → Locks → Option Bool → Locks × Bool
with_mutex id locks none = (insert id false locks, false)
with_mutex id locks (some b) = (locks, b)

unfoldable pub mutex_for : Str → Locks → Locks × Bool
mutex_for id locks = with_mutex id locks (lookup id locks)

-- TryLock on the mutex of an id; `none` is its result false.
unfoldable pub try_lock : Str → Locks → Option Locks
unfolding mutex_for
try_lock id locks =
    let mutex = mutex_for id locks in if mutex.1 then none else some (insert id true mutex.0)

unfoldable pub unlock : Str → Locks → Locks
unlock id locks = insert id false locks

abbrev pub poll_interval : ℕ
poll_interval = 10000000

abbrev passed : Option ℕ → ℕ → Bool
passed none time = false
passed (some deadline) time = ltb deadline time

-- The loop of acquire from its poll `i` on: `free i` is whether the mutex is free at that poll,
-- `clock i` the time read after it. The result is `ok`; `none` is that the fuel ran out.
unfoldable pub poll : (ℕ → Bool) → (ℕ → ℕ) → Option ℕ → ℕ → ℕ → Option Bool
poll free clock deadline zero i = none
poll free clock deadline (suc n) i =
    let rest = poll free clock deadline n (suc i) in
    if free i then some true else if passed deadline (clock i) then some false else rest

-- Lock is a loop that has no deadline.
abbrev deadline_of : ℕ → ℕ → Option ℕ
deadline_of start zero = none
deadline_of start (suc timeout) = some (start + suc timeout)

unfoldable pub acquire : (ℕ → Bool) → (ℕ → ℕ) → ℕ → ℕ → ℕ → Option Bool
unfolding poll
acquire free clock start timeout fuel = poll free clock (deadline_of start timeout) fuel 0

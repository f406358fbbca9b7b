-- ===== src/Session/Block/Progress.antt =====
-- Blocked routes: two requests are never inside on the lock of one session, and one can always go on.
use golite.Base.{
  ℕ, ◌<◌, true, false, none, ◌≡◌, ◌≢◌, refl, arith, inl, inr, Bool-cases, Option-cases, update,
  is_empty, Str, lookup, ◌⊎◌,
}
use golite.Session.Payload.{Codec}
use golite.Session.Driver.{Driver}
use golite.Session.Lock.{Locks, try_lock, mutex_for}
use golite.Session.Manager.{Cipher, Handler}
use golite.Session.Block.System.{
  Client, Stage, waiting, left, entered, running, ending, System, Step, has_no_id, acquires,
  reloads, saves, unlocks, leaves, Reach,
}
use golite.Session.Block.Exclusion.{locked, holds, Exclusive, Reach-Exclusive}

module _ {D : Type 0} (codec : Codec) (driver : Driver D) (cipher : Cipher)
    (request : ℕ → Client) where
  -- However the requests are interleaved: two that hold the lock of the same session id at once are
  -- one and the same, also after panics and timeouts of others.
  pub block_excludes :
      {h : Handler D} {s : System D}
      → Reach codec driver cipher request h s
      → (i j : ℕ) → holds (s.phase i) ≡ true
      → holds (s.phase j) ≡ true
      → (request i).id ≡ (request j).id
      → i ≡ j
  block_excludes r = (Reach-Exclusive codec driver cipher request r).unique

abbrev pub rank : Stage → ℕ
rank waiting = 0
rank (entered b) = 1
rank (running b s) = 2
rank (ending b) = 3
rank left = 4

advances :
    (phase : ℕ → Stage) (i : ℕ) {p : Stage} (q : Stage)
    → phase i ≡ p
    → rank p < rank q
    → rank (phase i) < rank (update phase i q i)
advances phase i {p} q e h = let here : rank (phase i) ≡ rank p = rw e refl in ground arith

try_lock-none : (id : Str) (locks : Locks) → try_lock id locks ≡ none → locked id locks ≡ true
unfolding try_lock
try_lock-none id locks h = elim (Option-cases (lookup id locks)) [
  | inl e ↦ absurd (ground (arith, rw (try_lock, mutex_for, e) at h))
  | inr (false, e) ↦ absurd (ground (arith, rw (try_lock, mutex_for, e) at h))
  | inr (true, e) ↦ rw e refl
]

module _ {D : Type 0} (codec : Codec) (driver : Driver D) (cipher : Cipher)
    (request : ℕ → Client) where
  -- A step that takes request `i` further in Handle.
  abbrev pub Moves : System D → ℕ → Type 0
  Moves s i =
      (t : System D) × Step codec driver cipher request s t × (rank (s.phase i) < rank (t.phase i))

  -- A request that waits for no lock can go on.
  inside-Moves :
      (s : System D) (i : ℕ) (p : Stage) → s.phase i ≡ p → p ≢ waiting → p ≢ left → Moves s i
  inside-Moves s i waiting e w l = absurd (w refl)
  inside-Moves s i left e w l = absurd (l refl)
  inside-Moves s i (entered b) e w l =
      (_, reloads i b e, advances s.phase i (running b _) e (omega arith))
  inside-Moves s i (running b own) e w l =
      (_, saves i b own e, advances s.phase i (ending b) e (omega arith))
  inside-Moves s i (ending true) e w l = (_, unlocks i e, advances s.phase i left e (omega arith))
  inside-Moves s i (ending false) e w l = (_, leaves i e, advances s.phase i left e (omega arith))

  holder-Moves : (s : System D) (j : ℕ) → holds (s.phase j) ≡ true → Moves s j
  holder-Moves s j h = inside-Moves s j (s.phase j) refl (λ e. cc) (λ e. cc)

  -- No deadlock: in every state that is reached, a request that has not left can take a step, or
  -- waits for the lock of its session, and then another one that holds this lock can take a step.
  -- Each step brings its request nearer to leaving.
  pub block_progress :
      {h : Handler D} {s : System D}
      → Reach codec driver cipher request h s
      → (i : ℕ) → s.phase i ≢ left
      → Moves s i
        ⊎ (s.phase i ≡ waiting)
          × ((j : ℕ) × ((request j).id ≡ (request i).id) × (holds (s.phase j) ≡ true) × Moves s j)
  block_progress {s = s} r i in_it = go (s.phase i) refl
    where
      x : Exclusive (λ k. (request k).id) s.locks (λ k. holds (s.phase k))
      x = Reach-Exclusive codec driver cipher request r

      go :
          (p : Stage)
          → s.phase i ≡ p
          → Moves s i
            ⊎ (s.phase i ≡ waiting)
              × ((j : ℕ) × ((request j).id ≡ (request i).id)
                  × (holds (s.phase j) ≡ true)
                  × Moves s j)
      go waiting e = elim (Bool-cases (is_empty (request i).id)) [
        | inl f ↦ inl (_, has_no_id i e f, advances s.phase i (running false _) e (omega arith))
        | inr f ↦ elim (Option-cases (try_lock (request i).id s.locks)) [
          | inl g ↦
              let (j, same, own) =
                x.owned (request i).id (try_lock-none (request i).id s.locks g) in
              inr (e, (j, same, own, holder-Moves s j own))
          | inr (taken, g) ↦
              inl (_, acquires i taken e f g, advances s.phase i (entered true) e (omega arith))
        ]
      ]
      go left e = absurd (in_it e)
      go p e = inl (inside-Moves s i p e (λ f. cc) (λ f. cc))

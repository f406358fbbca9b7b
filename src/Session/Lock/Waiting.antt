-- ===== src/Session/Lock/Waiting.antt =====
-- app/Http/Session/Lock.go: how long acquire waits, and with which result.
use golite.Base.{
  ℕ, zero, suc, ◌+◌, ◌*◌, ◌/◌, ◌≤◌, ◌<◌, Bool, true, false, some, ◌≡◌, refl, inl, inr, Bool-cases,
  arith, ltb, ltb→lt, lt→ltb,
}
use native.Mathlib.Decide.{dec_lt}
use golite.Session.Lock.{poll_interval, poll, acquire}

-- time.Sleep sleeps for the interval at least.
abbrev pub Sleeps : (ℕ → ℕ) → Type 0
Sleeps clock = (i : ℕ) → clock i + poll_interval ≤ clock (suc i)

abbrev pub BusyUntil : (ℕ → Bool) → ℕ → ℕ → Type 0
BusyUntil free i n = (j : ℕ) → i ≤ j → j < n → free j ≡ false

-- The poll that ends the loop: the first that finds the mutex free, or, where none before it and
-- not it either does, one after the deadline.
pub data Ends (free : ℕ → Bool) (clock : ℕ → ℕ) (deadline i : ℕ) : Bool → Type 0 where
  enters : (n : ℕ) → i ≤ n → BusyUntil free i n → free n ≡ true → Ends free clock deadline i true
  gives_up :
      (n : ℕ)
      → i ≤ n
      → BusyUntil free i (suc n)
      → deadline < clock n
      → Ends free clock deadline i false

longer :
    (free : ℕ → Bool) {i n : ℕ} → free i ≡ false → BusyUntil free (suc i) n → BusyUntil free i n
longer free {i} busy k j l m = elim (dec_lt i j) [
  | yes after ↦ k j after m
  | no last ↦ let same : i ≡ j = omega arith in rw (← same) busy
]

once : (free : ℕ → Bool) {i : ℕ} → free i ≡ false → BusyUntil free i (suc i)
once free busy = longer free busy (λ j l m. absurd (omega arith))

module _ (free : ℕ → Bool) (clock : ℕ → ℕ) (deadline : ℕ) where
  earlier :
      {i : ℕ} {b : Bool}
      → free i ≡ false
      → Ends free clock deadline (suc i) b
      → Ends free clock deadline i b
  earlier {i} busy (enters n h k f) = enters n (omega arith) (longer free busy k) f
  earlier {i} busy (gives_up n h k f) = gives_up n (omega arith) (longer free busy k) f

  -- The result of the loop, given that of its next turn, which a turn before the deadline needs.
  poll_step :
      (n i : ℕ)
      → (ltb deadline (clock i) ≡ false
          → (b : Bool) × (poll free clock (some deadline) n (suc i) ≡ some b)
            × Ends free clock deadline (suc i) b)
      → (b : Bool) × (poll free clock (some deadline) (suc n) i ≡ some b)
        × Ends free clock deadline i b
  unfolding poll
  poll_step n i next = elim (Bool-cases (free i)) [
    | inl e ↦ (true, rw e refl, enters i (omega arith) (λ j l m. absurd (omega arith)) e)
    | inr e ↦ elim (Bool-cases (ltb deadline (clock i))) [
      | inl f ↦ (
        false,
        rw (e, f) refl,
        gives_up i (omega arith) (once free e) (ltb→lt deadline (clock i) f),
      )
      | inr f ↦ let (b, q, r) = next f in (b, rw (e, f) q, earlier e r)
    ]
  ]

  poll-Ends :
      (n i : ℕ)
      → Sleeps clock
      → deadline < clock i + n * poll_interval
      → (b : Bool) × (poll free clock (some deadline) (suc n) i ≡ some b)
        × Ends free clock deadline i b
  poll-Ends zero i sleeps enough =
      poll_step zero i (λ f. absurd (ground (arith, lt→ltb deadline (clock i))))
  poll-Ends (suc n) i sleeps enough =
      poll_step (suc n) i (λ f. poll-Ends n (suc i) sleeps (omega (arith, sleeps i)))

-- With a positive timeout acquire returns: with the lock at the first poll that finds it free, or
-- without it once a poll finds it taken, as all polls before, after the timeout. It needs no more
-- polls than the intervals that fit the timeout, and two.
pub acquire-Ends :
    (free : ℕ → Bool) (clock : ℕ → ℕ) (start timeout : ℕ)
    → 0 < timeout
    → Sleeps clock
    → start ≤ clock 0
    → (b : Bool) × (acquire free clock start timeout (suc (timeout / poll_interval + 1)) ≡ some b)
      × Ends free clock (start + timeout) 0 b
unfolding acquire
acquire-Ends free clock start zero pos sleeps begun = absurd (omega arith)
acquire-Ends free clock start (suc timeout) pos sleeps begun =
    poll-Ends free clock (start + suc timeout) (suc timeout / poll_interval + 1) 0 sleeps
      (omega arith)

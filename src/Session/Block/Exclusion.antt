-- ===== src/Session/Block/Exclusion.antt =====
-- Who holds which lock, in every state that the requests of Session/Block/System.antt reach.
use golite.Base.{
  ℕ, Bool, true, false, some, ◌≡◌, refl, sym, ◌∙◌, arith, if◌then◌else◌, nat_eq, update, Bool-cases,
  Str, ◌==◌, eq_iff, eq_refl, insert, lookup, lookup-insert, Option-cases, inl, inr,
}
use golite.Session.Payload.{Codec}
use golite.Session.Driver.{Driver}
use golite.Session.Lock.{Locks, is_locked, mutex_for, try_lock, unlock, new_lock_registry}
use golite.Session.Manager.{Cipher, Handler}
use golite.Session.Block.System.{
  Client, Stage, waiting, left, entered, running, ending, System, Step, has_no_id, acquires,
  times_out, reloads, saves, panics, unlocks, leaves, Reach, begins, later,
}

abbrev pub locked : Str → Locks → Bool
locked id locks = is_locked (lookup id locks)

pub try_lock-locked :
    (id : Str) (locks taken : Locks)
    → try_lock id locks ≡ some taken
    → (locked id locks ≡ false)
      × ((j : Str) → locked j taken ≡ (if id == j then true else locked j locks))
unfolding try_lock
try_lock-locked id locks taken h = elim (Option-cases (lookup id locks)) [
  | inl e ↦
      let same : insert id true (insert id false locks) ≡ taken =
        ground (arith, rw (try_lock, mutex_for, e) at h) in
      (
        rw e refl,
        λ j.
            rw
              (
                ← same,
                lookup-insert id j true (insert id false locks),
                lookup-insert id j false locks,
              )
              (ground arith),
      )
  | inr (true, e) ↦ absurd (ground (arith, rw (try_lock, mutex_for, e) at h))
  | inr (false, e) ↦
      let same : insert id true locks ≡ taken = ground (arith, rw (try_lock, mutex_for, e) at h) in
      (rw e refl, λ j. rw (← same, lookup-insert id j true locks) (ground arith))
]

pub locked-unlock :
    (id j : Str) (locks : Locks)
    → locked j (unlock id locks) ≡ (if id == j then false else locked j locks)
unfolding unlock
locked-unlock id j locks = rw (lookup-insert id j false locks) (ground arith)

abbrev pub holds : Stage → Bool
holds (entered b) = b
holds (running b s) = b
holds (ending b) = b
holds waiting = false
holds left = false

-- `held i` is whether request `i`, of the id `id i`, holds a lock.
module _ (id : ℕ → Str) where
  pub record Exclusive (locks : Locks) (held : ℕ → Bool) : Type 0 where
    pub owner : (i : ℕ) → held i ≡ true → locked (id i) locks ≡ true
    pub unique : (i j : ℕ) → held i ≡ true → held j ≡ true → id i ≡ id j → i ≡ j
    pub owned : (x : Str) → locked x locks ≡ true → (i : ℕ) × (id i ≡ x) × (held i ≡ true)

  -- A move of request `i`.
  module _ {locks : Locks} {held now : ℕ → Bool} (e : Exclusive locks held) (i : ℕ) where
    open e use {owner, unique, owned}

    pub stays-Exclusive : ((j : ℕ) → now j ≡ held j) → Exclusive locks now
    stays-Exclusive u = record {
      owner = λ j h. owner j (sym (u j) ∙ h);
      unique = λ j k a b. unique j k (sym (u j) ∙ a) (sym (u k) ∙ b);
      owned = λ x l. let (j, q, h) = owned x l in (j, q, u j ∙ h);
    }

    pub takes-Exclusive :
        {after : Locks}
        → ((j : ℕ) → now j ≡ (if nat_eq i j then true else held j))
        → locked (id i) locks ≡ false
        → ((x : Str) → locked x after ≡ (if id i == x then true else locked x locks))
        → Exclusive after now
    takes-Exclusive u free t = record {
      owner = λ j h. grind (arith, u j, t (id j), owner j, eq_refl (id i));
      unique = λ j k a b q. grind (arith, u j, u k, owner j, owner k, unique j k);
      owned = λ x l. elim (Bool-cases (id i == x)) [
        | inl same ↦ (i, (eq_iff (id i) x).0 same, ground (arith, u i))
        | inr other ↦
            let (j, q, h) = owned x (sym (rw other at (t x)) ∙ l) in (j, q, ground (arith, u j))
      ];
    }

    pub gives-Exclusive :
        {after : Locks}
        → ((j : ℕ) → now j ≡ (if nat_eq i j then false else held j))
        → held i ≡ true
        → ((x : Str) → locked x after ≡ (if id i == x then false else locked x locks))
        → Exclusive after now
    gives-Exclusive u own t = record {
      owner = λ j h. grind (arith, u j, t (id j), owner j, eq_iff (id i) (id j), unique i j);
      unique = λ j k a b q. ground (arith, u j, u k, unique j k);
      owned = λ x l.
          let (j, q, h) = owned x (ground (arith, t x)) in
          (j, q, grind (arith, u j, t x, eq_iff (id i) x));
    }

  begins-Exclusive : Exclusive new_lock_registry (λ i. false)
  unfolding new_lock_registry lookup
  begins-Exclusive = record { owner = λ i h. cc; unique = λ i j h k q. cc; owned = λ x l. cc }

abbrev pub held : (ℕ → Stage) → ℕ → Bool
held phase i = holds (phase i)

-- What a request at `p` that moves to `q` does to the locks held.
moved :
    (phase : ℕ → Stage) (i : ℕ) {p : Stage} (q : Stage) (j : ℕ)
    → phase i ≡ p
    → holds (update phase i q j) ≡ (if nat_eq i j then holds q else holds (phase j))
moved phase i q j e = ground arith

module _ {D : Type 0} (codec : Codec) (driver : Driver D) (cipher : Cipher)
    (request : ℕ → Client) where
  abbrev id : ℕ → Str
  id i = (request i).id

  -- A move that keeps the mover's lock.
  keeps :
      {locks : Locks} (phase : ℕ → Stage) (i : ℕ) (p q : Stage)
      → Exclusive id locks (held phase)
      → phase i ≡ p
      → holds q ≡ holds p
      → Exclusive id locks (held (update phase i q))
  keeps phase i p q x e same = stays-Exclusive id x i (λ j. elim (Bool-cases (nat_eq i j)) [
    | inl here ↦ let at_i : i ≡ j = ground arith in rw (here, same, ← at_i, e) refl
    | inr there ↦ rw there refl
  ])

  Step-Exclusive :
      {s t : System D}
      → Step codec driver cipher request s t
      → Exclusive id s.locks (held s.phase)
      → Exclusive id t.locks (held t.phase)
  Step-Exclusive {s} (has_no_id i w e) x = keeps s.phase i waiting (running false _) x w refl
  Step-Exclusive {s} (acquires i taken w e f) x =
      let (free, t) = try_lock-locked (id i) s.locks taken f in
      takes-Exclusive id x i (λ j. moved s.phase i (entered true) j w) free t
  Step-Exclusive {s} (times_out i w e f g) x = keeps s.phase i waiting (entered false) x w refl
  Step-Exclusive {s} (reloads i b w) x = keeps s.phase i (entered b) (running b _) x w refl
  Step-Exclusive {s} (saves i b own w) x = keeps s.phase i (running b own) (ending b) x w refl
  Step-Exclusive {s} (panics i b own w) x = keeps s.phase i (running b own) (ending b) x w refl
  Step-Exclusive {s} (unlocks i w) x =
      gives-Exclusive id x i (λ j. moved s.phase i left j w) (rw w refl)
        (λ j. locked-unlock (id i) j s.locks)
  Step-Exclusive {s} (leaves i w) x = keeps s.phase i (ending false) left x w refl

  pub Reach-Exclusive :
      {h : Handler D} {s : System D}
      → Reach codec driver cipher request h s
      → Exclusive (λ i. (request i).id) s.locks (held s.phase)
  Reach-Exclusive begins = begins-Exclusive (λ i. (request i).id)
  Reach-Exclusive (later r st) = Step-Exclusive st (Reach-Exclusive r)

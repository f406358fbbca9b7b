-- ===== src/Pipeline/Programs.antt =====
-- A handler program of app/Http/Context.go around the rest of the chain: it runs as its nested form
-- says, when it calls next at most once.
use golite.Base.{ℕ, ◌≤◌, List, ◌≡◌, refl, ap, inl, inr, Bool-cases, length}
use golite.Pipeline.{
  Prog, done, act, test, call, guarded, panic, Decision, splice, direct, Handler, Context, Result,
  finished, panicked, spent, run_prog,
}
use golite.Pipeline.Onion.{Effect, returns, panics, around}

module _ {S : Type 0} where
  -- The program does not call next.
  abbrev pub Never : Prog S → Type 0
  Never done = Unit
  Never (act f p) = Never p
  Never (test b p q) = Never p × Never q
  Never (call p) = ⊥
  Never (guarded h p) = ⊥
  Never panic = Unit

  -- It calls next at most once on every path, as each middleware of the repository does.
  abbrev pub AtMostOnce : Prog S → Type 0
  AtMostOnce done = Unit
  AtMostOnce (act f p) = AtMostOnce p
  AtMostOnce (test b p q) = AtMostOnce p × AtMostOnce q
  AtMostOnce (call p) = Never p
  AtMostOnce (guarded h p) = Never p
  AtMostOnce panic = Unit

module _ {S M : Type 0} where
  -- A run ended as the effect says.
  abbrev pub Shows : Effect S M → Result S M → Type 0
  Shows (returns s ms) (finished c) = (c.state ≡ s) × (c.executed ≡ ms)
  Shows (returns s ms) (panicked c) = ⊥
  Shows (panics s ms) (panicked c) = (c.state ≡ s) × (c.executed ≡ ms)
  Shows (panics s ms) (finished c) = ⊥
  Shows e spent = ⊥

  -- The handlers that routing splices in number at most `bound`, and none calls next twice.
  abbrev pub Behaves : ℕ → Decision S M → Type 0
  Behaves bound (splice set_params chain handler) = (length chain ≤ bound) × AtMostOnce handler
  Behaves bound (direct p) = AtMostOnce p

  run_prog-Never :
      (nxt : Context S M → Result S M) (rest : S → List M → Effect S M) (p : Prog S)
      (c : Context S M)
      → Never p
      → Shows (around rest p c.state c.executed) (run_prog nxt p c)
  unfolding run_prog around
  run_prog-Never nxt rest done c h = (refl, refl)
  run_prog-Never nxt rest (act f p) c h = run_prog-Never nxt rest p _ h
  run_prog-Never nxt rest (test b p q) c h = elim (Bool-cases (b c.state)) [
    | inl e ↦ rw e (run_prog-Never nxt rest p c h.0)
    | inr e ↦ rw e (run_prog-Never nxt rest q c h.1)
  ]
  run_prog-Never nxt rest (call p) c h = absurd h
  run_prog-Never nxt rest (guarded g p) c h = absurd h
  run_prog-Never nxt rest panic c h = (refl, refl)

  -- The rest of a program, once next has returned.
  after_call :
      (nxt : Context S M → Result S M) (rest : S → List M → Effect S M) (p : Prog S)
      (e : Effect S M) (r : Result S M)
      → Never p
      → Shows e r
      → Shows
          (elim e [ returns s ms ↦ around rest p s ms | panics s ms ↦ panics s ms ])
          (elim r [ finished c ↦ run_prog nxt p c | panicked c ↦ panicked c | spent ↦ spent ])
  after_call nxt rest p (returns s ms) (finished c) n (h, k) =
      rw (← h, ← k) (run_prog-Never nxt rest p c n)
  after_call nxt rest p (returns s ms) (panicked c) n h = absurd h
  after_call nxt rest p (returns s ms) spent n h = absurd h
  after_call nxt rest p (panics s ms) (panicked c) n h = h
  after_call nxt rest p (panics s ms) (finished c) n h = absurd h
  after_call nxt rest p (panics s ms) spent n h = absurd h

  after_guarded :
      (nxt : Context S M → Result S M) (rest : S → List M → Effect S M) (g : S → S) (p : Prog S)
      (e : Effect S M) (r : Result S M)
      → Never p
      → Shows e r
      → Shows
          (elim e [ returns s ms ↦ around rest p s ms | panics s ms ↦ returns (g s) ms ])
          (elim r [
            | finished c ↦ run_prog nxt p c
            | panicked c ↦ finished (record c { state = g c.state })
            | spent ↦ spent
          ])
  after_guarded nxt rest g p (returns s ms) (finished c) n (h, k) =
      rw (← h, ← k) (run_prog-Never nxt rest p c n)
  after_guarded nxt rest g p (returns s ms) (panicked c) n h = absurd h
  after_guarded nxt rest g p (returns s ms) spent n h = absurd h
  after_guarded nxt rest g p (panics s ms) (panicked c) n (h, k) = (ap g h, k)
  after_guarded nxt rest g p (panics s ms) (finished c) n h = absurd h
  after_guarded nxt rest g p (panics s ms) spent n h = absurd h

  -- Next, at the place in the chain where the context stands, does what `rest` says.
  abbrev pub Continues :
      (Context S M → Result S M) → (S → List M → Effect S M) → List (Handler S M) → ℕ → Type 0
  Continues nxt rest hs i =
      (c : Context S M) → c.handlers ≡ hs → c.index ≡ i → Shows (rest c.state c.executed) (nxt c)

  pub run_prog-around :
      (nxt : Context S M → Result S M) (rest : S → List M → Effect S M) (p : Prog S)
      (c : Context S M)
      → AtMostOnce p
      → Continues nxt rest c.handlers c.index
      → Shows (around rest p c.state c.executed) (run_prog nxt p c)
  unfolding run_prog around
  run_prog-around nxt rest done c h k = (refl, refl)
  run_prog-around nxt rest (act f p) c h k = run_prog-around nxt rest p _ h k
  run_prog-around nxt rest (test b p q) c h k = elim (Bool-cases (b c.state)) [
    | inl e ↦ rw e (run_prog-around nxt rest p c h.0 k)
    | inr e ↦ rw e (run_prog-around nxt rest q c h.1 k)
  ]
  run_prog-around nxt rest (call p) c h k =
      after_call nxt rest p (rest c.state c.executed) (nxt c) h (k c refl refl)
  run_prog-around nxt rest (guarded g p) c h k =
      after_guarded nxt rest g p (rest c.state c.executed) (nxt c) h (k c refl refl)
  run_prog-around nxt rest panic c h k = (refl, refl)

-- ===== src/Pipeline.antt =====
-- app/Http/Context.go: the handler chain and Next; app/Http/Kernel.go: toHandler, dispatch's place
-- in the chain, ServeHTTP and terminate; app/Http/Middleware/RecoverMiddleware.go.
-- A handler is a program over the state of a request, which includes the response: what it does to
-- the state, what it tests, and where it calls next. The body of a handler, a parameter of the
-- framework, is any such program.
pub mod Tests
pub mod Onion
pub mod Programs
pub mod Refinement
pub mod Recovery
use golite.Base.{
  ℕ, zero, suc, ◌+◌, Bool, true, false, Option, none, some, List, [], ◌∷◌, ◌++◌, map, ◌≡◌, length,
  get_elem?, Str, if◌then◌else◌,
}

pub data Prog (S : Type 0) : Type 0 where
  done : Prog S
  act : (S → S) → Prog S → Prog S
  test : (S → Bool) → Prog S → Prog S → Prog S
  -- next(), and then the rest
  call : Prog S → Prog S
  -- next() with a deferred recover(), which handles a panic and ends the handler
  guarded : (S → S) → Prog S → Prog S
  panic : Prog S

-- What routing decides for a request: the handlers to splice in, after setting the parameters, or
-- a program to run in place (405, the fallback, 404).
pub data Decision (S M : Type 0) : Type 0 where
  splice : (S → S) → List (M × List Str) → Prog S → Decision S M
  direct : Prog S → Decision S M

-- An element of the chain: a wrapped middleware (toHandler), a route's handler, Kernel.dispatch.
pub data Handler (S M : Type 0) : Type 0 where
  wrapped : M → List Str → Handler S M
  plain : Prog S → Handler S M
  dispatch : Handler S M

-- `index` is the number of calls of Next so far: the field of that name, plus one.
pub record Context (S M : Type 0) : Type 0 where
  pub handlers : List (Handler S M)
  pub index : ℕ
  pub executed : List M
  pub state : S

pub data Result (S M : Type 0) : Type 0 where
  finished panicked : Context S M → Result S M
  -- the fuel ran out
  spent : Result S M

-- The global middleware have no parameters.
abbrev pub without_params : {M : Type 0} → List M → List (M × List Str)
without_params [] = []
without_params (m ∷ ms) = (m, []) ∷ without_params ms

module _ {S M : Type 0} where
  -- A handler's body; `next` is Context.Next.
  unfoldable pub run_prog : (Context S M → Result S M) → Prog S → Context S M → Result S M
  run_prog next done c = finished c
  run_prog next (act f p) c = run_prog next p (record c { state = f c.state })
  run_prog next (test b p q) c = elim (b c.state) [
    | true ↦ run_prog next p c
    | false ↦ run_prog next q c
  ]
  run_prog next (call p) c = elim (next c) [
    | finished c' ↦ run_prog next p c'
    | panicked c' ↦ panicked c'
    | spent ↦ spent
  ]
  run_prog next (guarded handle p) c = elim (next c) [
    | finished c' ↦ run_prog next p c'
    | panicked c' ↦ finished (record c' { state = handle c'.state })
    | spent ↦ spent
  ]
  run_prog next panic c = panicked c

  abbrev pub wrap : M × List Str → Handler S M
  wrap (m, params) = wrapped m params

  -- Kernel.terminate: the Terminate methods, where there is one, in the order of execution. The
  -- Boolean says that a method, or the whole loop, ends in a panic.
  unfoldable pub terminate : (M → Option (S → S × Bool)) → List M → S → S × Bool
  terminate terminable [] s = (s, false)
  terminate terminable (m ∷ ms) s = elim (terminable m) [
    | none ↦ terminate terminable ms s
    | some f ↦
        let rest = terminate terminable ms (f s).0 in if (f s).1 then ((f s).0, true) else rest
  ]

  -- What ServeHTTP is left with after terminate.
  abbrev pub ended : Context S M → S × Bool → Result S M
  ended c (s, false) = finished (record c { state = s })
  ended c (s, true) = panicked (record c { state = s })

  unfoldable pub start_context : List M → S → Context S M
  start_context global s = record {
    handlers = map wrap (without_params global) ++ (dispatch ∷ []);
    index = 0;
    executed = [];
    state = s;
  }

  -- `handle` is a middleware's Handle; `route` is what dispatch decides.
  module _ (handle : M → List Str → Prog S) (route : S → Decision S M) where
    unfoldable pub run_decision :
        (Context S M → Result S M) → Decision S M → Context S M → Result S M
    run_decision next (splice set_params chain handler) c = next (record c {
      handlers = c.handlers ++ (map wrap chain ++ (plain handler ∷ []));
      state = set_params c.state;
    })
    run_decision next (direct p) c = run_prog next p c

    unfoldable pub run_handler :
        (Context S M → Result S M) → Option (Handler S M) → Context S M → Result S M
    unfolding run_decision
    run_handler next none c = finished c
    run_handler next (some (wrapped m params)) c =
        run_prog next (handle m params) (record c { executed = c.executed ++ (m ∷ []) })
    run_handler next (some (plain p)) c = run_prog next p c
    run_handler next (some dispatch) c = run_decision next (route c.state) c

    unfoldable pub next : ℕ → Context S M → Result S M
    unfolding run_prog run_handler
    next zero c = spent
    next (suc fuel) c =
        run_handler (next fuel) (get_elem? c.handlers c.index) (record c { index = suc c.index })

    -- A panic that no middleware recovers leaves ServeHTTP before terminate, and a panic of a
    -- Terminate method leaves it too, since no middleware stands around terminate.
    unfoldable pub serve : (M → Option (S → S × Bool)) → ℕ → List M → S → Result S M
    unfolding next terminate start_context
    serve terminable fuel global s = elim (next fuel (start_context global s)) [
      | finished c ↦ ended c (terminate terminable c.executed c.state)
      | panicked c ↦ panicked c
      | spent ↦ spent
    ]

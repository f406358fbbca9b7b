-- ===== src/Pipeline/Tests.antt =====
-- A concrete pipeline: a recovering middleware, one that logs and one that panics.
use golite.Base.{ℕ, Option, none, some, List, [], ◌∷◌, arith, Str, Bool, false}
use golite.Pipeline.{
  Prog, done, act, call, panic, Decision, splice, next, start_context, without_params,
}
use golite.Pipeline.Onion.{onion_serve}
use golite.Pipeline.Programs.{AtMostOnce, Shows, Behaves}
use golite.Pipeline.Refinement.{next-onion_serve}
use golite.Pipeline.Recovery.{recover_middleware}

-- The state is the list of what was done.
abbrev log : ℕ → List ℕ → List ℕ
log n s = n ∷ s

data Mw : Type 0 where
  recovering logging failing : Mw

abbrev handle : Mw → List Str → Prog (List ℕ)
handle recovering params = recover_middleware (log 500)
handle logging params = act (log 1) (call (act (log 2) done))
handle failing params = panic

abbrev route : List ℕ → Decision (List ℕ) Mw
route s = splice (log 7) ((logging, []) ∷ (failing, []) ∷ []) (act (log 200) done)

handle-AtMostOnce : (m : Mw) (params : List Str) → AtMostOnce (handle m params)
unfolding recover_middleware
handle-AtMostOnce recovering params = tt
handle-AtMostOnce logging params = tt
handle-AtMostOnce failing params = tt

route-Behaves : (s : List ℕ) → Behaves {M = Mw} 2 (route s)
route-Behaves s = (omega arith, tt)

next-onion_serve_example :
    Shows
      (onion_serve handle route (without_params (recovering ∷ logging ∷ [])) [])
      (next handle route 7 (start_context (recovering ∷ logging ∷ []) []))
next-onion_serve_example =
    next-onion_serve handle route handle-AtMostOnce 2 7 (recovering ∷ logging ∷ []) [] route-Behaves
      (omega arith)

abbrev terminable : Mw → Option (List ℕ → List ℕ × Bool)
terminable recovering = none
terminable logging = some (λ s. (log 3 s, false))
terminable failing = none

-- ===== src/Pipeline/Onion.antt =====
-- The pipeline as it is meant: each handler wraps the rest of the chain, with no index and no
-- shared list of handlers.
use golite.Base.{true, false, List, [], ◌∷◌, ◌++◌, Str}
use golite.Pipeline.{Prog, done, act, test, call, guarded, panic, Decision, splice, direct}

-- What a part of the pipeline does to the state and to the record of executed middleware.
pub data Effect (S M : Type 0) : Type 0 where
  returns panics : S → List M → Effect S M

module _ {S M : Type 0} where
  -- A program around the rest of the pipeline.
  unfoldable pub around : (S → List M → Effect S M) → Prog S → S → List M → Effect S M
  around rest done s ms = returns s ms
  around rest (act f p) s ms = around rest p (f s) ms
  around rest (test b p q) s ms = elim (b s) [
    | true ↦ around rest p s ms
    | false ↦ around rest q s ms
  ]
  around rest (call p) s ms = elim (rest s ms) [
    | returns s' ms' ↦ around rest p s' ms'
    | panics s' ms' ↦ panics s' ms'
  ]
  around rest (guarded handle p) s ms = elim (rest s ms) [
    | returns s' ms' ↦ around rest p s' ms'
    | panics s' ms' ↦ returns (handle s') ms'
  ]
  around rest panic s ms = panics s ms

  module _ (handle : M → List Str → Prog S) (route : S → Decision S M) where
    unfoldable pub onion : List (M × List Str) → (S → List M → Effect S M) → S → List M → Effect S M
    unfolding around
    onion [] inner = inner
    onion ((m, params) ∷ chain) inner =
        λ s ms. around (onion chain inner) (handle m params) s (ms ++ (m ∷ []))

    abbrev pub core : Decision S M → S → List M → Effect S M
    core (splice set_params chain handler) s ms =
        onion chain (around returns handler) (set_params s) ms
    core (direct p) s ms = around returns p s ms

    -- The whole request: the global middleware around the routed part.
    unfoldable pub onion_serve : List (M × List Str) → S → Effect S M
    unfolding onion
    onion_serve global s = onion global (λ s' ms. core (route s') s' ms) s []

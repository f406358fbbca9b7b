-- ===== src/Pipeline/Recovery.antt =====
-- app/Http/Middleware/RecoverMiddleware.go as the first global middleware, and Kernel.terminate, which
-- runs outside of it.
use golite.Base.{Option, List, [], ◌∷◌, ◌≡◌, ◌⊎◌, Bool, true, false, none, some}
use golite.Pipeline.{Prog, done, guarded, Context, Result, finished, panicked}
use golite.Pipeline.Onion.{Effect, returns, panics}

-- Recover.Handle, whose render of the recovered value is a parameter.
unfoldable pub recover_middleware : {S : Type 0} → (S → S) → Prog S
recover_middleware render = guarded render done

-- A run that ends without a panic, and leaves what `e` says.
abbrev pub Returned : {S M : Type 0} → Effect S M → Type 0
Returned (returns s ms) = Unit
Returned (panics s ms) = ⊥

-- Which Terminate methods run on which states: in the order of the middleware, all of them, or up to
-- the first that panics.
pub data Terminates {S M : Type 0} (terminable : M → Option (S → S × Bool))
    : List M → S → S → Bool → Type 0 where
  all_run : (s : S) → Terminates terminable [] s s false
  passes_by :
      (m : M) (ms : List M) (s t : S) (b : Bool)
      → terminable m ≡ none
      → Terminates terminable ms s t b
      → Terminates terminable (m ∷ ms) s t b
  runs :
      (m : M) (ms : List M) (f : S → S × Bool) (s t : S) (b : Bool)
      → terminable m ≡ some f
      → (f s).1 ≡ false
      → Terminates terminable ms (f s).0 t b
      → Terminates terminable (m ∷ ms) s t b
  breaks :
      (m : M) (ms : List M) (f : S → S × Bool) (s : S)
      → terminable m ≡ some f
      → (f s).1 ≡ true
      → Terminates terminable (m ∷ ms) s (f s).0 true

-- How a request ends after its Terminate methods.
abbrev pub Ends : {S M : Type 0} → (M → Option (S → S × Bool)) → Context S M → Result S M → Type 0
Ends {S} terminable c r =
    (t : S) × ((Terminates terminable c.executed c.state t false
        × (r ≡ finished (record c { state = t })))
      ⊎ (Terminates terminable c.executed c.state t true × (r ≡ panicked (record c { state = t }))))

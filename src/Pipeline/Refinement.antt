-- ===== src/Pipeline/Refinement.antt =====
-- Context.Next, with its index and its growing list of handlers, runs the pipeline as it is meant.
use golite.Base.{
  ℕ, zero, suc, ◌+◌, ◌≤◌, none, some, List, [], ◌∷◌, ◌++◌, map, ◌≡◌, refl, sym, ap, ◌∙◌, arith,
  append_assoc, length, length-append, get_elem?, Str,
}
use golite.Pipeline.{
  Prog, Decision, splice, direct, Handler, wrapped, plain, dispatch, Context, wrap, run_decision,
  run_handler, next, start_context, without_params,
}
use golite.Pipeline.Onion.{Effect, returns, around, onion, core, onion_serve}
use golite.Pipeline.Programs.{AtMostOnce, Shows, Behaves, Continues, run_prog-around}

get_elem?-append {ℓ} :
    {A : Type ℓ} (xs : List A) (y : A) (ys : List A)
    → get_elem? (xs ++ (y ∷ ys)) (length xs) ≡ some y
get_elem?-append [] y ys = refl
get_elem?-append (x ∷ xs) y ys = get_elem?-append xs y ys

get_elem?-length {ℓ} : {A : Type ℓ} (xs : List A) → get_elem? xs (length xs) ≡ none
get_elem?-length [] = refl
get_elem?-length (x ∷ xs) = get_elem?-length xs

length-snoc {ℓ} : {A : Type ℓ} (xs : List A) (x : A) → length (xs ++ (x ∷ [])) ≡ suc (length xs)
length-snoc [] x = refl
length-snoc (y ∷ xs) x = ap suc (length-snoc xs x)

get_elem?-at {ℓ} :
    {A : Type ℓ} (pre : List A) (h : A) (hs : List A) {xs : List A} {i : ℕ}
    → xs ≡ pre ++ (h ∷ hs)
    → i ≡ length pre
    → get_elem? xs i ≡ some h
get_elem?-at pre h hs e f = rw (e, f) (get_elem?-append pre h hs)

length-without_params : {M : Type 0} (ms : List M) → length (without_params ms) ≡ length ms
length-without_params [] = refl
length-without_params (m ∷ ms) = ap suc (length-without_params ms)

length-wrap :
    (S : Type 0) {M : Type 0} (chain : List (M × List Str))
    → length (map (wrap {S = S} {M = M}) chain) ≡ length chain
length-wrap S [] = refl
length-wrap S (m ∷ chain) = ap suc (length-wrap S chain)

length-append_wrap :
    {S M : Type 0} (pre : List (Handler S M)) (chain : List (M × List Str))
    → length (pre ++ map wrap chain) ≡ length pre + length chain
length-append_wrap {S = S} pre chain =
    length-append pre _ ∙ ap (λ n. length pre + n) (length-wrap S chain)

module _ {S M : Type 0} (handle : M → List Str → Prog S) (route : S → Decision S M)
    (behaved : (m : M) (params : List Str) → AtMostOnce (handle m params)) where
  -- At the end of the chain Next does nothing.
  next_end :
      (fuel : ℕ) (hs : List (Handler S M))
      → Continues (next handle route (suc fuel)) returns hs (length hs)
  unfolding next run_handler
  next_end fuel hs c e f = rw (e, f, get_elem?-length hs) (refl, refl)

  -- Next at an element of the chain runs that element, with the index moved on.
  next_step :
      (fuel : ℕ) (pre hs : List (Handler S M)) (h : Handler S M) (c : Context S M)
      → c.handlers ≡ pre ++ (h ∷ hs)
      → c.index ≡ length pre
      → next handle route (suc fuel) c
        ≡ run_handler handle route
            (next handle route fuel)
            (some h)
            (record c { index = suc c.index })
  unfolding next
  next_step fuel pre hs h c e f = rw (get_elem?-at pre h hs e f) refl

  -- The wrapped handlers of a chain run around what the rest of the list does.
  next_chain :
      (bound fuel : ℕ) (pre : List (Handler S M)) (chain : List (M × List Str))
      (tail : List (Handler S M)) (inner : S → List M → Effect S M)
      → ((fuel' : ℕ)
          → bound ≤ fuel'
          → Continues
              (next handle route fuel')
              inner
              (pre ++ (map wrap chain ++ tail))
              (length pre + length chain))
      → length chain + bound ≤ fuel
      → Continues
          (next handle route fuel)
          (onion handle route chain inner)
          (pre ++ (map wrap chain ++ tail))
          (length pre)
  unfolding onion run_handler
  next_chain bound fuel pre [] tail inner rest le c e f =
      rest fuel (omega arith) c e (f ∙ omega arith)
  next_chain bound zero pre ((m, params) ∷ chain) tail inner rest le c e f = absurd (omega arith)
  next_chain bound (suc fuel) pre ((m, params) ∷ chain) tail inner rest le c e f =
      rw (next_step fuel pre (map wrap chain ++ tail) (wrapped m params) c e f) (
        run_prog-around (next handle route fuel) (onion handle route chain inner) (handle m params)
          (record c { index = suc c.index; executed = c.executed ++ (m ∷ []) }) (behaved m params)
          (λ c' e' f'.
            next_chain bound fuel (pre ++ (wrapped m params ∷ [])) chain tail inner
              (λ fuel' b c'' e'' f''.
                rest fuel' b c'' (e'' ∙ append_assoc pre (wrapped m params ∷ []) _)
                  (f'' ∙ rw (length-snoc pre (wrapped m params)) (omega arith)))
              (omega arith) c' (e' ∙ e ∙ sym (append_assoc pre (wrapped m params ∷ []) _))
              (f' ∙ ap suc f ∙ sym (length-snoc pre (wrapped m params)))))

  -- A handler at the end of the list.
  next_last :
      (fuel : ℕ) (pre : List (Handler S M)) (p : Prog S)
      → 2 ≤ fuel
      → AtMostOnce p
      → Continues (next handle route fuel) (around returns p) (pre ++ (plain p ∷ [])) (length pre)
  unfolding run_handler
  next_last zero pre p le once c e f = absurd (omega arith)
  next_last (suc zero) pre p le once c e f = absurd (omega arith)
  next_last (suc (suc fuel)) pre p le once c e f =
      rw (next_step (suc fuel) pre [] (plain p) c e f) (
        run_prog-around (next handle route (suc fuel)) returns p (record c { index = suc c.index })
          once
          (λ c' e' f'.
            next_end fuel (pre ++ (plain p ∷ [])) c' (e' ∙ e)
              (f' ∙ ap suc f ∙ sym (length-snoc pre (plain p)))))

  run_decision-core :
      (bound fuel : ℕ) (d : Decision S M) (c : Context S M)
      → bound + 2 ≤ fuel
      → Behaves bound d
      → c.index ≡ length c.handlers
      → Shows
          (core handle route d c.state c.executed)
          (run_decision handle route (next handle route fuel) d c)
  unfolding run_decision
  run_decision-core bound fuel (splice set_params chain handler) c le (short, once) f =
      next_chain 2 fuel c.handlers chain (plain handler ∷ []) (around returns handler)
        (λ fuel' b c' e' f'.
          next_last fuel' (c.handlers ++ map wrap chain) handler b once c'
            (e' ∙ sym (append_assoc c.handlers (map wrap chain) _))
            (f' ∙ sym (length-append_wrap c.handlers chain)))
        (omega arith) _ refl f
  run_decision-core bound zero (direct p) c le once f = absurd (omega arith)
  run_decision-core bound (suc fuel) (direct p) c le once f =
      run_prog-around (next handle route (suc fuel)) returns p c once
        (λ c' e' f'. next_end fuel c.handlers c' e' (f' ∙ f))

  next-dispatch :
      (bound fuel : ℕ) (pre : List (Handler S M))
      → ((s : S) → Behaves bound (route s))
      → bound + 3 ≤ fuel
      → Continues
          (next handle route fuel)
          (λ s ms. core handle route (route s) s ms)
          (pre ++ (dispatch ∷ []))
          (length pre)
  unfolding run_handler
  next-dispatch bound zero pre bounded le c e f = absurd (omega arith)
  next-dispatch bound (suc fuel) pre bounded le c e f = rw (next_step fuel pre [] dispatch c e f) (
      run_decision-core bound fuel (route c.state) (record c { index = suc c.index }) (omega arith)
        (bounded c.state) (ap suc f ∙ sym (length-snoc pre dispatch) ∙ ap length (sym e)))

  -- From the start of a request, Next with enough fuel ends and leaves the state and the executed
  -- middleware that the nested pipeline gives, when no handler calls next twice.
  pub next-onion_serve :
      (bound fuel : ℕ) (global : List M) (s : S)
      → ((t : S) → Behaves bound (route t))
      → length global + (bound + 3) ≤ fuel
      → Shows
          (onion_serve handle route (without_params global) s)
          (next handle route fuel (start_context global s))
  unfolding onion_serve start_context
  next-onion_serve bound fuel global s bounded le =
      next_chain (bound + 3) fuel [] (without_params global) (dispatch ∷ []) _
        (λ fuel' b c' e' f'.
          next-dispatch bound fuel' (map wrap (without_params global)) bounded b c' e'
            (f' ∙ sym (length-append_wrap [] (without_params global))))
        (rw (length-without_params global) le) (start_context global s) refl refl

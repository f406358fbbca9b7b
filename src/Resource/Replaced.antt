-- ===== src/Resource/Replaced.antt =====
-- Only, Except and Shallow replace the routes of a resource.
use golite.Base.{
  ℕ, suc, ◌<◌, ◌≤◌, true, false, not, Option, some, List, [], ◌∷◌, ◌++◌, append-nil, map, ◌≡◌, refl,
  sym, ap, ◌∙◌, arith, >>=-eq-some, length, length-append, keep, keep-append, keep-none, keep_id,
  nat_eq, All, All-mono, Str,
}
use mathlib.Core.Path.{subst}
use golite.Routing.Pattern.{Matcher}
use golite.Routing.Route.{Route}
use golite.Routing.Table.{Kernel, remove_routes, among}
use golite.Resource.{ResourceAction, Registrar, allowed_actions, action_uri}
use golite.Resource.Controllers.{Controller}
use golite.Resource.Register.{
  handled, register_all, register, only, except, shallow, Refines, only_these, except_these,
  shallowly, refine, refine_all, new_registrar,
}
use golite.Resource.OneRoute.{card}
use golite.Resource.Registered.{count_from, card_of, register_all-Grows}
use golite.Resource.Restricted.{
  keeps, last_restriction, unrestricted, calls_shallow, shallow_after, shallow_after_lem, new_of,
  shaped-shallow, shaped-name, shaped-prefix, shaped-name_prefix, shaped-handled, register-shaped,
  refine_all-shaped,
}

module _ {A : Type 0} where
  count_from-bound : (n m : ℕ) (xs : List A) → n ≤ m → All (λ p. n ≤ p) (count_from m xs)
  count_from-bound n m [] h = tt
  count_from-bound n m (x ∷ xs) h = (h, count_from-bound n (suc m) xs (omega arith))

count_from-map :
    {A B : Type 0} (f : A → B) (n : ℕ) (xs : List A) → count_from n (map f xs) ≡ count_from n xs
count_from-map f n [] = refl
count_from-map f n (x ∷ xs) = ap (λ ps. n ∷ ps) (count_from-map f (suc n) xs)

-- A pointer below a bound that the others reach is not among them.
below-among : (n p : ℕ) (ps : List ℕ) → p < n → All (λ q. n ≤ q) ps → among p ps ≡ false
below-among n p [] h k = refl
below-among n p (q ∷ ps) h k =
    let other : nat_eq p q ≡ false = ground arith in rw other (below-among n p ps h k.1)

among_self :
    (ps rs : List ℕ)
    → ((q : ℕ) → among q ps ≡ true → among q rs ≡ true)
    → All (λ p. not (among p rs) ≡ false) ps
among_self [] rs h = tt
among_self (p ∷ ps) rs h =
    (ap not (h p (ground arith)), among_self ps rs (λ q a. h q (ground arith)))

module _ {H M : Type 0} where
  -- Removing the routes at the end of the table that stand above all others.
  remove_routes-last :
      (n : ℕ) (before ps : List ℕ) (k : Kernel H M)
      → k.routes ≡ before ++ ps
      → All (λ p. p < n) before
      → All (λ p. n ≤ p) ps
      → ((remove_routes ps k).routes ≡ before) × ((remove_routes ps k).store ≡ k.store)
  unfolding remove_routes
  remove_routes-last n before [] k e h l = (e ∙ append-nil before, refl)
  remove_routes-last n before (p ∷ ps) k e h l =
      let gone = λ (q : ℕ). not (among q (p ∷ ps)) in
      (
        ap (keep gone) e
            ∙ keep-append gone before (p ∷ ps)
            ∙ rw
                (
                  keep_id gone before (
                      All-mono _ _ (λ q b. ap not {y = false} (below-among n q (p ∷ ps) b l)) before
                        h),
                  keep-none gone (p ∷ ps) (among_self (p ∷ ps) (p ∷ ps) (λ q a. a)),
                )
                (append-nil before),
        refl,
      )

  module _ (regex : Str → Option Matcher) where
    -- What a registrar has registered: its routes end the table, after those that were there, and
    -- show the allowed actions of its table that the controller has a method for.
    pub record Owns (first k : Kernel H M) (r : Registrar H) : Type 0 where
      pub older : List (Route H M)
      pub new : List (Route H M)
      pub store : k.store ≡ older ++ new
      pub cards_are :
          map card new
          ≡ map
              (card_of r.prefix r.name_prefix (action_uri r) r.name)
              (handled r.controller (allowed_actions r))
      pub pointers : r.routes ≡ count_from (length older) new
      pub routes : k.routes ≡ first.routes ++ r.routes
      pub longer : length first.store ≤ length older

    register-Owns :
        (first k k' : Kernel H M) (r r' : Registrar H)
        → All (λ p. p < length first.store) first.routes
        → k.routes ≡ first.routes ++ r.routes
        → All (λ p. length first.store ≤ p) r.routes
        → length first.store ≤ length k.store
        → register regex r k ≡ some (k', r')
        → Owns first k' r'
    unfolding register action_uri allowed_actions
    register-Owns first k k' r r' below e above longer h =
        let (made, a, b) =
          >>=-eq-some
            (register_all regex r.controller r.prefix r.name_prefix r.middleware (action_uri r)
              r.name (handled r.controller (allowed_actions r)) (remove_routes r.routes k))
            (λ made. some (made.0, record r { routes = made.1 })) h in
        let g =
          register_all-Grows regex r.controller r.prefix r.name_prefix r.middleware (action_uri r)
            r.name (handled r.controller (allowed_actions r)) (remove_routes r.routes k) made.0
            made.1 a in
        let (rs, st) =
          remove_routes-last (length first.store) first.routes r.routes k e below above in
        let after : Kernel H M × Registrar H = (made.0, record r { routes = made.1 }) in
        let done : after ≡ (k', r') = cc in
        subst (λ d. Owns first d.0 d.1) done
          (record {
            older = k.store;
            new = g.new;
            store = g.store ∙ ap (λ s. s ++ g.new) st;
            cards_are = g.cards_are;
            pointers =
                g.pointers ∙ rw (st, ← g.cards_are) (count_from-map card (length k.store) g.new);
            routes = g.routes ∙ ap (λ q. q ++ made.1) rs;
            longer = longer;
          })

    refine-Owns :
        (first k k' : Kernel H M) (r r' : Registrar H) (f : Refines)
        → All (λ p. p < length first.store) first.routes
        → Owns first k r
        → refine regex f r k ≡ some (k', r')
        → Owns first k' r'
    unfolding only except shallow
    refine-Owns first k k' r r' f below o h = go f h
      where
        above : All (λ p. length first.store ≤ p) r.routes
        above =
            rw o.pointers (count_from-bound (length first.store) (length o.older) o.new o.longer)

        larger : length first.store ≤ length k.store
        larger = rw o.store (omega (arith, length-append o.older o.new, o.longer))

        go : (f : Refines) → refine regex f r k ≡ some (k', r') → Owns first k' r'
        go (only_these actions) h =
            register-Owns first k k' (record r { only = actions; except = [] }) r' below o.routes
              above larger h
        go (except_these actions) h =
            register-Owns first k k' (record r { except = actions; only = [] }) r' below o.routes
              above larger h
        go shallowly h =
            register-Owns first k k' (record r { shallow = true }) r' below o.routes above larger h

    refine_all-Owns :
        (fs : List Refines) (first k k' : Kernel H M) (r r' : Registrar H)
        → All (λ p. p < length first.store) first.routes
        → Owns first k r
        → refine_all regex fs r k ≡ some (k', r')
        → Owns first k' r'
    unfolding refine_all
    refine_all-Owns [] first k k' r r' below o h =
        let before : Kernel H M × Registrar H = (k, r) in
        let done : before ≡ (k', r') = cc in subst (λ d. Owns first d.0 d.1) done o
    refine_all-Owns (f ∷ fs) first k k' r r' below o h =
        let (made, a, b) =
          >>=-eq-some (refine regex f r k) (λ made. refine_all regex fs made.1 made.0) h in
        refine_all-Owns fs first made.0 k' made.1 r' below
          (refine-Owns first k made.0 r made.1 f below o a) b

    -- A resource that is registered in a table whose routes are those of its store, and then
    -- restricted by any chain of Only, Except and Shallow: when none of these panics, the table
    -- holds the routes that were there before and after them exactly one route for each action of
    -- the resource's table that the last Only or Except of the chain keeps and the controller has a
    -- method for, with the action's methods, URI, name and handler, where the URI is shallow exactly
    -- if the chain calls Shallow. No route of an earlier call is left.
    pub refine_all-new_registrar :
        (name : Str) (c : Controller H) (table : List ResourceAction) (prefix name_prefix : Str)
        (middleware : List Str) (fs : List Refines) (k k1 k2 : Kernel H M) (r1 r2 : Registrar H)
        → All (λ p. p < length k.store) k.routes
        → new_registrar regex name c table prefix name_prefix middleware k ≡ some (k1, r1)
        → refine_all regex fs r1 k1 ≡ some (k2, r2)
        → Owns k k2 r2
          × (handled r2.controller (allowed_actions r2)
              ≡ handled c (keep (λ a. keeps (last_restriction unrestricted fs) a.name) table))
          × (r2.shallow ≡ calls_shallow fs)
          × (r2.name ≡ name)
          × (r2.prefix ≡ prefix)
          × (r2.name_prefix ≡ name_prefix)
    unfolding new_registrar
    refine_all-new_registrar name c table prefix name_prefix middleware fs k k1 k2 r1 r2 below h g =
        let first = new_of name c table prefix name_prefix middleware in
        let shape =
          refine_all-shaped regex first fs k1 k2 r1 r2 unrestricted false
            (register-shaped regex first unrestricted false k k1 first r1 refl h) g in
        (
          refine_all-Owns fs k k1 k2 r1 r2 below
              (register-Owns k k k1 first r1 below (sym (append-nil k.routes)) tt (omega arith) h)
              g,
          ap (λ r. handled r.controller (allowed_actions r)) shape
              ∙ shaped-handled first (last_restriction unrestricted fs) (shallow_after false fs)
                  r2.routes,
          ap (λ r. r.shallow) shape ∙ shaped-shallow first _ _ _ ∙ shallow_after_lem fs,
          ap (λ r. r.name) shape ∙ shaped-name first _ _ _,
          ap (λ r. r.prefix) shape ∙ shaped-prefix first _ _ _,
          ap (λ r. r.name_prefix) shape ∙ shaped-name_prefix first _ _ _,
        )

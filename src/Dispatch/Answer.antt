-- ===== src/Dispatch/Answer.antt =====
-- What Kernel.dispatch decides, and that a kernel answers every request.
use golite.Base.{
  ℕ, zero, suc, ◌+◌, ◌≤◌, Bool, true, false, Option-cases, Option, none, some, List, [], ◌∷◌, map,
  ◌≡◌, ◌≢◌, inl, inr, refl, sym, arith, length, get_elem?, All, Str, Map, has,
}
use golite.Middleware.Priority.{Resolved}
use golite.Middleware.Resolve.{resolve_route_middleware}
use golite.Middleware.Resolve.Complete.{resolve_route_middleware_lem}
use golite.Routing.Route.{Route}
use golite.Routing.Table.{Kernel}
use golite.Routing.Table.Match.{
  Serves, IsFirst, here, later, allows, matches, Outcome, found, missed, match_route-Outcome,
}
use golite.Pipeline.{Prog, done, act, Decision, splice, direct, next, start_context, without_params}
use golite.Pipeline.Onion.{onion_serve}
use golite.Pipeline.Programs.{AtMostOnce, Behaves, Shows}
use golite.Pipeline.Refinement.{next-onion_serve}
use golite.Dispatch.{
  Exchange, entry, route_chain, fallen_back, unmatched, routed, decided, dispatch,
}

All-Unit {ℓ} : {A : Type ℓ} (xs : List A) → All (λ a. Unit {0}) xs
All-Unit [] = tt
All-Unit (a ∷ xs) = (tt, All-Unit xs)

module _ {S M : Type 0} (x : Exchange S) (k : Kernel (Prog S) M) where
  -- No route serves the request, and no route that matches its path responds to any method.
  abbrev pub Unserved : S → Type 0
  Unserved s =
      All (λ r. ¬ Serves k (x.method s) (x.path s) r) k.routes
      × ((m : Str) → allows k (x.method s) (x.path s) m k.routes ≡ false)

  pub data Decides (s : S) : Decision S M → Type 0 where
    to_route :
        {r : ℕ} {params : Map Str} {rt : Route (Prog S) M} {out : List (Resolved M)}
        → IsFirst k (x.method s) (x.path s) r params k.routes
        → get_elem? k.store r ≡ some rt
        → resolve_route_middleware k.registry rt.middleware_names rt.without_names
            rt.direct_middleware
          ≡ some out
        → Decides s (splice (x.set_params params) (map (entry x) out) rt.handler)
    refused :
        {allowed : List Str}
        → All (λ r. ¬ Serves k (x.method s) (x.path s) r) k.routes
        → allowed ≢ []
        → ((m : Str) → has allowed m ≡ allows k (x.method s) (x.path s) m k.routes)
        → has allowed (x.method s) ≡ false
        → Decides s (direct (act (x.not_allowed allowed) done))
    to_fallback :
        {handler : Prog S} → Unserved s → k.fallback ≡ some handler → Decides s (direct handler)
    to_not_found : Unserved s → k.fallback ≡ none → Decides s (direct (act x.not_found done))

  IsFirst-stored :
      (method path : Str) (r : ℕ) (params : Map Str) (routes : List ℕ)
      → IsFirst k method path r params routes
      → (rt : Route (Prog S) M) × (get_elem? k.store r ≡ some rt)
  IsFirst-stored method path r params routes (here e f) =
      elim (Option-cases (get_elem? k.store r)) [
        | inl g ↦ absurd (ground arith)
        | inr (rt, g) ↦ (rt, g)
      ]
  IsFirst-stored method path r params routes (later n h) = IsFirst-stored method path r params _ h

  routed-Decides :
      (s : S) (r : ℕ) (params : Map Str)
      → IsFirst k (x.method s) (x.path s) r params k.routes
      → Decides s (routed x k params (get_elem? k.store r))
  unfolding route_chain
  routed-Decides s r params first =
      let (rt, e) = IsFirst-stored _ _ r params k.routes first in
      let (out, _, f, _, _, _, _, _) =
        resolve_route_middleware_lem k.registry rt.middleware_names rt.without_names
          rt.direct_middleware (λ d. Unit) (All-Unit rt.direct_middleware) in
      rw (e, f) (to_route first e f)

  fallen_back-Decides :
      (s : S) (fallback : Option (Prog S))
      → k.fallback ≡ fallback
      → Unserved s
      → Decides s (fallen_back x fallback)
  fallen_back-Decides s none e h = to_not_found h e
  fallen_back-Decides s (some handler) e h = to_fallback h e

  allows-matches :
      (method path m : Str) (routes : List ℕ)
      → false ≡ matches k method path routes
      → allows k method path m routes ≡ false
  allows-matches method path m [] h = refl
  allows-matches method path m (r ∷ routes) h = ground (arith, allows-matches method path m routes)

  unmatched-Decides :
      (s : S) (matched : Bool) (allowed : List Str)
      → All (λ r. ¬ Serves k (x.method s) (x.path s) r) k.routes
      → matched ≡ matches k (x.method s) (x.path s) k.routes
      → ((m : Str) → has allowed m ≡ allows k (x.method s) (x.path s) m k.routes)
      → has allowed (x.method s) ≡ false
      → Decides s (unmatched x k matched allowed)
  unfolding has
  unmatched-Decides s true (m ∷ ms) none_serves e f g = refused none_serves (λ p. cc) f g
  unmatched-Decides s true [] none_serves e f g =
      fallen_back-Decides s k.fallback refl (none_serves, λ m. sym (f m))
  unmatched-Decides s false allowed none_serves e f g =
      fallen_back-Decides s k.fallback refl
        (none_serves, λ m. allows-matches (x.method s) (x.path s) m k.routes e)

  decided-Decides :
      (s : S) (o : Option (ℕ × Map Str) × Bool × List Str)
      → Outcome k (x.method s) (x.path s) o
      → Decides s (decided x k o)
  decided-Decides s o (found {r} {params} first) = routed-Decides s _ _ first
  decided-Decides s o (missed n e f g) = unmatched-Decides s _ _ n e f g

  -- dispatch runs the first route of the table that serves the request, behind its middleware,
  -- which are always resolved, and with the parameters of the match. Where no route serves it but
  -- one that responds to other methods matches the path, it answers 405 with exactly the methods of
  -- the routes that match the path, among which the request's is not. Otherwise it runs the
  -- fallback, or answers 404 where there is none.
  pub dispatch-Decides : (s : S) → Decides s (dispatch x k s)
  unfolding dispatch
  dispatch-Decides s = decided-Decides s _ (match_route-Outcome k (x.method s) (x.path s))

  -- The number of handlers that any route of the store can bring.
  unfoldable pub handlers_of : List (Route (Prog S) M) → ℕ
  handlers_of [] = 0
  handlers_of (r ∷ rs) = length (route_chain x k r) + handlers_of rs

  length-route_chain-le :
      (rs : List (Route (Prog S) M)) (i : ℕ) (r : Route (Prog S) M)
      → get_elem? rs i ≡ some r
      → length (route_chain x k r) ≤ handlers_of rs
  unfolding handlers_of
  length-route_chain-le [] i r h = cc
  length-route_chain-le (q ∷ rs) zero r h = ground arith
  length-route_chain-le (q ∷ rs) (suc i) r h = omega (arith, length-route_chain-le rs i r h)

  abbrev OnceIfAny : Option (Prog S) → Type 0
  OnceIfAny none = Unit
  OnceIfAny (some handler) = AtMostOnce handler

  -- The handlers of the routes and the fallback call next at most once.
  abbrev pub IsOnce : Type 0
  IsOnce = All (λ r. AtMostOnce r.handler) k.store × OnceIfAny k.fallback

  All-get_elem? :
      (P : Route (Prog S) M → Type 0) (rs : List (Route (Prog S) M)) (i : ℕ) (r : Route (Prog S) M)
      → All P rs
      → get_elem? rs i ≡ some r
      → P r
  All-get_elem? P [] i r h e = cc
  All-get_elem? P (q ∷ rs) zero r h e = let same : q ≡ r = ground arith in rw (← same) h.0
  All-get_elem? P (q ∷ rs) (suc i) r h e = All-get_elem? P rs i r h.1 e

  Decides-Behaves :
      (s : S) (d : Decision S M) → IsOnce → Decides s d → Behaves (handlers_of k.store) d
  unfolding route_chain
  Decides-Behaves s d once (to_route {r} {params} {rt} {out} first e f) = (
    rw f at (length-route_chain-le k.store _ rt e),
    All-get_elem? (λ q. AtMostOnce q.handler) k.store _ _ once.0 e,
  )
  Decides-Behaves s d once (refused n m f g) = tt
  Decides-Behaves s d once (to_fallback u e) = rw e at once.1
  Decides-Behaves s d once (to_not_found u e) = tt

  -- A kernel answers every request: where no middleware, handler or fallback calls next twice, as
  -- many calls of Next as there are global middleware and handlers of routes, and three more, are
  -- enough for it to end, and it does what the nested pipeline around dispatch does.
  pub dispatch_answers :
      (handle : M → List Str → Prog S) (fuel : ℕ) (s : S)
      → ((m : M) (params : List Str) → AtMostOnce (handle m params))
      → IsOnce
      → length k.global_middleware + (handlers_of k.store + 3) ≤ fuel
      → Shows
          (onion_serve handle (dispatch x k) (without_params k.global_middleware) s)
          (next handle (dispatch x k) fuel (start_context k.global_middleware s))
  dispatch_answers handle fuel s behaved once le =
      next-onion_serve handle (dispatch x k) behaved (handlers_of k.store) fuel k.global_middleware
        s (λ t. Decides-Behaves t (dispatch x k t) once (dispatch-Decides t)) le

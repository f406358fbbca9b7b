-- ===== src/Session/Visit/Cookie.antt =====
-- The cookie that a response carries leads back to the session that the request saved.
use golite.Base.{
  ℕ, suc, Bool, true, false, some, List, [], ◌∷◌, ◌≡◌, inl, inr, refl, ap, arith, Str,
}
use golite.Value.{Value}
use golite.Session.Store.{
  Session, regenerate, invalidate, put, push, pull, forget, increment, decrement, token,
  token_store, flash, now, keep_flash, reflash, flush,
}
use golite.Session.Ops.{
  Op, op_put, op_push, op_flash, op_now, op_pull, op_forget, op_keep, op_increment, op_decrement,
  op_regenerate, op_invalidate, op_token, op_flush, op_reflash, apply,
}
use golite.Session.Payload.{Codec, CodecLaws}
use golite.Session.Driver.{Driver, DriverLaws, is_valid_session_id}
use golite.Session.Manager.{Cipher, Handler, stored, load, save}
use golite.Session.Manager.Fixation.{load-id}
use golite.Session.Manager.Persistence.{Restores, load-save_stored}
use golite.Session.Visit.{
  Visit, Action, operates, regenerates, invalidates, responds, set_cookie, refresh_session_cookie,
  run_action, run_actions, start, finish, start_session,
}

abbrev pub KeepsId : Op → Type 0
KeepsId (op_regenerate t) = ⊥
KeepsId (op_invalidate t) = ⊥
KeepsId _ = Unit

-- The id changes only through RegenerateSession and InvalidateSession, and before the response is
-- written.
abbrev pub IsProper : Bool → List Action → Type 0
IsProper sent [] = Unit
IsProper sent (operates o ∷ rest) = KeepsId o × IsProper sent rest
IsProper true (regenerates ∷ rest) = ⊥
IsProper false (regenerates ∷ rest) = IsProper false rest
IsProper true (invalidates ∷ rest) = ⊥
IsProper false (invalidates ∷ rest) = IsProper false rest
IsProper sent (responds ∷ rest) = IsProper true rest

apply-id : (float_int : ℕ → ℕ) (o : Op) (s : Session) → KeepsId o → (apply float_int o s).id ≡ s.id
unfolding apply put push pull forget increment decrement token token_store flash now keep_flash
    reflash flush
apply-id float_int (op_put k v) s h = refl
apply-id float_int (op_push k v) s h = refl
apply-id float_int (op_flash k v) s h = refl
apply-id float_int (op_now k v) s h = refl
apply-id float_int (op_pull k d) s h = ground arith
apply-id float_int (op_forget ks) s h = refl
apply-id float_int (op_keep ks) s h = refl
apply-id float_int (op_increment k n) s h = refl
apply-id float_int (op_decrement k n) s h = refl
apply-id float_int (op_regenerate t) s h = absurd h
apply-id float_int (op_invalidate t) s h = absurd h
apply-id float_int (op_token t) s h = ground arith
apply-id float_int op_flush s h = refl
apply-id float_int op_reflash s h = refl

module _ {D : Type 0} (random : ℕ → Str)
    (valid : (n : ℕ) → is_valid_session_id (random n) ≡ true) where
  -- The state of a visit between the two halves of the middleware.
  record InStep (d : D) (sent : Bool) (s : Session) (v : Visit D) : Type 0 where
    session : v.session ≡ some s
    cookie : v.cookies ≡ s.id ∷ []
    id_valid : is_valid_session_id s.id ≡ true
    store : v.handler ≡ stored d
    sent_is : v.sent ≡ sent
    unsaved : v.saved ≡ false

  renew :
      (d : D) (s t : Session) (v : Visit D)
      → InStep d false s v
      → t.id ≡ random v.seed
      → InStep d false t (
          refresh_session_cookie (random v.seed) (record v { session = some t; seed = suc v.seed }))
  unfolding refresh_session_cookie
  renew d s t v i e = record {
    session = refl;
    cookie = rw (i.sent_is, i.cookie, e) refl;
    id_valid = rw e (valid v.seed);
    store = i.store;
    sent_is = i.sent_is;
    unsaved = i.unsaved;
  }

  run_actions-InStep :
      (float_int : ℕ → ℕ) (rest : List Action) (d : D) (sent : Bool) (s : Session) (v w : Visit D)
      → IsProper sent rest
      → InStep d sent s v
      → run_actions float_int random rest v ≡ some w
      → (t : Session) × (last : Bool) × InStep d last t w
  unfolding run_actions run_action
  run_actions-InStep float_int [] d sent s v w p i e =
      let same : v ≡ w = ground arith in (s, sent, rw (← same) i)
  run_actions-InStep float_int (operates o ∷ rest) d sent s v w p i e =
      run_actions-InStep float_int rest d sent (apply float_int o s)
        (record v { session = some (apply float_int o s) }) w p.1
        (record {
          session = refl;
          cookie = rw (apply-id float_int o s p.0) i.cookie;
          id_valid = rw (apply-id float_int o s p.0) i.id_valid;
          store = i.store;
          sent_is = i.sent_is;
          unsaved = i.unsaved;
        })
        (rw i.session at e)
  run_actions-InStep float_int (regenerates ∷ rest) d true s v w p i e = absurd p
  run_actions-InStep float_int (regenerates ∷ rest) d false s v w p i e =
      run_actions-InStep float_int rest d false (regenerate (random v.seed) s) _ w p
        (renew d s (regenerate (random v.seed) s) v i (unfold regenerate in refl))
        (rw i.session at e)
  run_actions-InStep float_int (invalidates ∷ rest) d true s v w p i e = absurd p
  run_actions-InStep float_int (invalidates ∷ rest) d false s v w p i e =
      run_actions-InStep float_int rest d false (invalidate (random v.seed) s) _ w p
        (renew d s (invalidate (random v.seed) s) v i (unfold invalidate in refl))
        (rw i.session at e)
  run_actions-InStep float_int (responds ∷ rest) d sent s v w p i e =
      run_actions-InStep float_int rest d true s (record v { sent = true }) w p
        (record {
          session = i.session;
          cookie = i.cookie;
          id_valid = i.id_valid;
          store = i.store;
          sent_is = refl;
          unsaved = i.unsaved;
        })
        e

  module _ (codec : Codec) (driver : Driver D) (cipher : Cipher) where
    load-valid :
        (d : D) (n : ℕ) (cookie : Str)
        → is_valid_session_id (load codec driver cipher (stored d) (random n) cookie).id ≡ true
    load-valid d n cookie = elim (load-id codec driver cipher (stored d) (random n) cookie) [
      | inl e ↦ rw e (valid n)
      | inr (e, f) ↦ rw e f.0
    ]

    start-InStep :
        (d : D) (v : Visit D)
        → v.handler ≡ stored d
        → v.cookies ≡ []
        → v.sent ≡ false
        → v.saved ≡ false
        → InStep d false
            (load codec driver cipher (stored d) (random v.seed) v.request_cookie)
            (start codec driver cipher random v)
    unfolding start set_cookie
    start-InStep d v e f g h = rw e (record {
      session = refl;
      cookie = rw (g, f) refl;
      id_valid = load-valid d v.seed v.request_cookie;
      store = refl;
      sent_is = g;
      unsaved = h;
    })

    finish-saved :
        (d : D) (last : Bool) (h : Handler D) (nonce value : Str) (s : Session) (w : Visit D)
        → InStep d last s w
        → save codec driver cipher (stored d) nonce s w.original_id ≡ (h, some value)
        → finish codec driver cipher random nonce w ≡ record w { handler = h }
    unfolding finish
    finish-saved d last h nonce value s w i e =
        rw (i.unsaved, i.session, i.store, e) (rw (i.unsaved, i.session) refl)

    -- A request behind StartSession, with a driver that keeps records and random tokens of the form
    -- of an id: the handler may do anything with the session but change its id otherwise than by
    -- RegenerateSession and InvalidateSession, or after it wrote the response. When it ends without
    -- a panic and the session can be saved, the response carries one session cookie, and the next
    -- request that sends its value loads a session of the same id that restores the saved one.
    pub visit-Restores :
        (decoded : Value → Value)
        → CodecLaws codec decoded
        → DriverLaws driver
        → (float_int : ℕ → ℕ) (d : D) (h : Handler D) (nonce fresh value : Str)
          (actions : List Action) (v w : Visit D) (s : Session)
        → v.handler ≡ stored d
        → v.cookies ≡ []
        → v.sent ≡ false
        → v.saved ≡ false
        → IsProper false actions
        → run_actions float_int random actions (start codec driver cipher random v) ≡ some w
        → w.session ≡ some s
        → save codec driver cipher (stored d) nonce s w.original_id ≡ (h, some value)
        → (start_session codec driver cipher random (run_actions float_int random actions) nonce v
            ≡ some (record w { handler = h }))
          × (w.cookies ≡ value ∷ [])
          × ((load codec driver cipher h fresh value).id ≡ s.id)
          × Restores decoded s (load codec driver cipher h fresh value)
    unfolding start_session
    visit-Restores decoded codec_laws laws float_int d h nonce fresh value actions v w s e f g k p
          run same saves =
        let (t, last, i) =
          run_actions-InStep float_int actions d false _ _ w p (start-InStep d v e f g k) run in
        let here : t ≡ s = ground (arith, i.session) in
        let j : InStep d last s w = rw (← here) i in
        let (a, b, c) =
          load-save_stored codec driver cipher decoded codec_laws laws d h nonce w.original_id fresh
            value s j.id_valid saves in
        (rw (run) (ap some (finish-saved d last h nonce value s w j saves)), rw a j.cookie, b, c)

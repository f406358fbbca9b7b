-- ===== src/Session/Visit.antt =====
-- One request with a session: app/Http/Middleware/StartSessionMiddleware.go, and of
-- app/Http/Context.go the methods that change the session's id. The middleware and the handler
-- share one session object, since only a blocked route attaches another (Session.Block).
pub mod Cookie
use golite.Base.{
  ℕ, suc, Bool, true, false, Option, none, some, List, [], ◌∷◌, ◌++◌, if◌then◌else◌, ◌>>=◌, Str,
}
use golite.Session.Store.{Session, regenerate, invalidate}
use golite.Session.Ops.{Op, apply}
use golite.Session.Payload.{Codec}
use golite.Session.Driver.{Driver}
use golite.Session.Manager.{Cipher, Handler, load, save, is_stateless}

-- `cookies` are the session cookies of the response's header, which no change reaches once it is
-- `sent`; `saved` is SessionSavedKey. `seed` counts the random tokens drawn so far.
pub record Visit (D : Type 0) : Type 0 where
  pub handler : Handler D
  pub request_cookie : Str
  pub session : Option Session
  pub original_id : Str
  pub cookies : List Str
  pub sent : Bool
  pub saved : Bool
  pub seed : ℕ

-- What a handler does: a method of the session, RegenerateSession, InvalidateSession, or writing
-- the response.
pub data Action : Type 0 where
  operates : Op → Action
  regenerates invalidates responds : Action

abbrev pub replace_first : Str → List Str → List Str
replace_first value [] = value ∷ []
replace_first value (c ∷ cs) = value ∷ cs

module _ {D : Type 0} where
  -- http.SetCookie adds a cookie to the header.
  unfoldable pub set_cookie : Str → Visit D → Visit D
  set_cookie value v = record v {
    cookies = if v.sent then v.cookies else v.cookies ++ (value ∷ []);
  }

  unfoldable pub refresh_session_cookie : Str → Visit D → Visit D
  refresh_session_cookie value v = record v {
    cookies = if v.sent then v.cookies else replace_first value v.cookies;
  }

  module _ (float_int : ℕ → ℕ) (random : ℕ → Str) where
    abbrev on_session : Action → Session → Visit D → Visit D
    on_session (operates o) s v = record v { session = some (apply float_int o s) }
    on_session regenerates s v =
        refresh_session_cookie (random v.seed)
          (record v { session = some (regenerate (random v.seed) s); seed = suc v.seed })
    on_session invalidates s v =
        refresh_session_cookie (random v.seed)
          (record v { session = some (invalidate (random v.seed) s); seed = suc v.seed })
    on_session responds s v = record v { sent = true }

    -- `none` is the panic about a missing session.
    unfoldable pub run_action : Action → Visit D → Option (Visit D)
    run_action responds v = some (record v { sent = true })
    run_action a v = elim v.session [ none ↦ none | some s ↦ some (on_session a s v) ]

    unfoldable pub run_actions : List Action → Visit D → Option (Visit D)
    run_actions [] v = some v
    run_actions (a ∷ rest) v = run_action a v >>= λ v'. run_actions rest v'

  module _ (codec : Codec) (driver : Driver D) (cipher : Cipher) (random : ℕ → Str) where
    abbrev attach : Session → Visit D → Visit D
    attach s v = record v { session = some s; original_id = s.id; seed = suc v.seed }

    -- StartSession.Handle before it calls next.
    unfoldable pub start : Visit D → Visit D
    start v =
        let s = load codec driver cipher v.handler (random v.seed) v.request_cookie in
        if is_stateless v.handler then attach s v else set_cookie s.id (attach s v)

    abbrev cookie_after : Bool → Option Str → Visit D → Visit D
    cookie_after true (some value) v = set_cookie value v
    cookie_after true none v = v
    cookie_after false value v = v

    abbrev save_session : Str → Session → Visit D → Visit D
    save_session nonce s v =
        let (h, value) = save codec driver cipher v.handler nonce s v.original_id in
        cookie_after (is_stateless v.handler) value (record v { handler = h })

    -- And after.
    unfoldable pub finish : Str → Visit D → Visit D
    finish nonce v =
        if v.saved then v else (elim v.session [ none ↦ v | some s ↦ save_session nonce s v ])

    unfoldable pub start_session : (Visit D → Option (Visit D)) → Str → Visit D → Option (Visit D)
    unfolding start finish
    start_session next nonce v = next (start v) >>= λ w. some (finish nonce w)

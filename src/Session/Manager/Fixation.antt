-- ===== src/Session/Manager/Fixation.antt =====
-- Which ids a loaded session can have: Manager.Load of app/Http/Session/SessionManager.go.
use golite.Base.{true, Option, none, some, ◌≡◌, ◌≢◌, ◌⊎◌, inl, refl, arith, ◌>>=◌, Str}
use golite.Session.Store.{new_session, age_flash}
use golite.Session.Payload.{Codec, decode_session, session_of}
use golite.Session.Driver.{Driver, is_valid_session_id}
use golite.Session.Manager.{
  Cipher, Handler, stored, stateless, aged_or_new, present, load, load_stored, load_stateless,
}

module _ {D : Type 0} (codec : Codec) (driver : Driver D) (cipher : Cipher) where
  decode_session-id :
      (id : Str) (p : Option Str) (fresh : Str)
      → ((aged_or_new (p >>= λ t. decode_session codec id t) fresh).id ≡ fresh)
        ⊎ (((aged_or_new (p >>= λ t. decode_session codec id t) fresh).id ≡ id) × (p ≢ none))
  unfolding decode_session session_of new_session age_flash
  decode_session-id id none fresh = inl refl
  decode_session-id id (some t) fresh = ground arith

  load_stateless-id :
      (fresh cookie : Str)
      → (age_flash (load_stateless codec driver cipher fresh cookie)).id ≡ fresh
  unfolding load_stateless decode_session session_of new_session age_flash
  load_stateless-id fresh cookie = ground arith

  -- The handler keeps records, and one that is not empty stands under the cookie's value, which has
  -- the form of a generated id.
  abbrev pub HasRecord : Handler D → Str → Type 0
  HasRecord (stored d) cookie =
      (is_valid_session_id cookie ≡ true) × (present (driver.read d cookie) ≢ none)
  HasRecord stateless cookie = ⊥

  -- A loaded session has the generated id, or the value of the cookie; the latter only if the
  -- active driver keeps records, and one that is not empty is stored under that value, which has
  -- the form of a generated id. So no client chooses the id of a session.
  pub load-id :
      (h : Handler D) (fresh cookie : Str)
      → ((load codec driver cipher h fresh cookie).id ≡ fresh)
        ⊎ (((load codec driver cipher h fresh cookie).id ≡ cookie) × HasRecord h cookie)
  unfolding load load_stored new_session
  load-id (stored d) fresh cookie =
      ground (arith, decode_session-id cookie (present (driver.read d cookie)) fresh)
  load-id stateless fresh cookie = inl (load_stateless-id fresh cookie)

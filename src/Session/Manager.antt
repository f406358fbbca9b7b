-- ===== src/Session/Manager.antt =====
-- app/Http/Session/SessionManager.go: loading and saving a session with the active driver, and
-- CookieSessionHandler.go, whose cipher (AES-256-GCM) is an argument.
pub mod Registry
pub mod Fixation
pub mod Persistence
use golite.Base.{
  ℕ, Bool, true, false, not, ◌&&◌, ◌||◌, Option, none, some, List, [], ◌∷◌, ◌≡◌, ◌≢◌, ◌>>=◌,
  if◌then◌else◌, Str, is_empty, ◌==◌,
}
use golite.Session.Store.{Session, new_session, age_flash}
use golite.Session.Payload.{Codec, encode, decode_session}
use golite.Session.Driver.{Driver, is_valid_session_id}

-- encryptValue, with its nonce, and decryptValue; `none` is an error.
pub record Cipher : Type 0 where
  pub encrypt : Str → Str → Option Str
  pub decrypt : Str → Option Str

pub record CipherLaws (c : Cipher) : Type 0 where
  pub decrypt-encrypt :
      (nonce plaintext t : Str) → c.encrypt nonce plaintext ≡ some t → c.decrypt t ≡ some plaintext
  pub not_empty : (nonce plaintext : Str) → c.encrypt nonce plaintext ≢ some []

-- The active handler: a driver with its store, or the stateless cookie handler.
pub data Handler (D : Type 0) : Type 0 where
  stored : D → Handler D
  stateless : Handler D

-- What a decoding attempt leaves: the session, or a new one with a generated id.
abbrev or_new : Option Session → Str → Session
or_new none fresh = new_session fresh
or_new (some s) fresh = s

abbrev aged_or_new : Option Session → Str → Session
aged_or_new none fresh = new_session fresh
aged_or_new (some s) fresh = age_flash s

-- A payload that is "" counts as none.
abbrev present : Option Str → Option Str
present none = none
present (some []) = none
present (some (c ∷ p)) = some (c ∷ p)

module _ {D : Type 0} (codec : Codec) (driver : Driver D) (cipher : Cipher) where
  unfoldable pub load_stateless : Str → Str → Session
  load_stateless fresh cookie =
      if is_empty cookie
      then new_session fresh
      else or_new (cipher.decrypt cookie >>= λ p. decode_session codec fresh p) fresh

  unfoldable pub load_stored : D → Str → Str → Session
  load_stored d fresh cookie =
      if is_empty cookie || not (is_valid_session_id cookie)
      then new_session fresh
      else aged_or_new (present (driver.read d cookie) >>= λ p. decode_session codec cookie p) fresh

  -- `fresh` is the id that generateRandomToken gives.
  unfoldable pub load : Handler D → Str → Str → Session
  unfolding load_stored load_stateless
  load (stored d) fresh cookie = load_stored d fresh cookie
  load stateless fresh cookie = age_flash (load_stateless fresh cookie)

  -- The error of Destroy is ignored.
  abbrev or_kept : Option D → D → D
  or_kept none d = d
  or_kept (some d') d = d'

  unfoldable pub destroy_stale : D → Str → Str → D
  destroy_stale d id original =
      if not (is_empty original) && not (id == original)
      then or_kept (driver.destroy d original) d
      else d

  -- The write, and what Save returns: the value of the cookie, or an error.
  abbrev written : D → Str → Option D → Handler D × Option Str
  written d id none = (stored d, none)
  written d id (some d') = (stored d', some id)

  abbrev save_payload : D → Str → Str → Option Str → Handler D × Option Str
  save_payload d id original none = (stored d, none)
  save_payload d id original (some payload) =
      let d' = destroy_stale d id original in written d' id (driver.write d' id payload)

  -- The new state of the handler, and the value for the session cookie. The nonce is random.
  unfoldable pub save : Handler D → Str → Session → Str → Handler D × Option Str
  save (stored d) nonce s original = save_payload d s.id original (encode codec s)
  save stateless nonce s original = (stateless, encode codec s >>= λ p. cipher.encrypt nonce p)

abbrev pub is_stateless : {D : Type 0} → Handler D → Bool
is_stateless (stored d) = false
is_stateless stateless = true

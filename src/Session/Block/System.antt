-- ===== src/Session/Block/System.antt =====
-- app/Http/SessionBlock.go and app/Http/Session/Lock.go: requests on blocked routes, interleaved
-- in any order. A step is what one request does between two uses of what they share.
use golite.Base.{ℕ, Bool, true, false, none, some, List, [], ◌∷◌, ◌≡◌, update, Str, is_empty}
use golite.Session.Store.{Session}
use golite.Session.Payload.{Codec}
use golite.Session.Driver.{Driver}
use golite.Session.Lock.{Locks, new_lock_registry, try_lock, unlock}
use golite.Session.Manager.{Cipher, Handler, load, save}

-- A request: its SessionOriginalIDKey, the session that StartSession attached, what the rest of the
-- chain does to the session, and the random values that are drawn for it. With `patient` the
-- timeout is zero or less: it waits for the lock without end.
pub record Client : Type 0 where
  pub id : Str
  pub attached : Session
  pub change : Session → Session
  pub fresh : Str
  pub nonce : Str
  pub patient : Bool

-- Where a request is in Handle, with whether it holds the lock of its id.
pub data Stage : Type 0 where
  waiting left : Stage
  entered : Bool → Stage
  running : Bool → Session → Stage
  ending : Bool → Stage

-- `served` are the requests that saved their session, in this order, and `unlocked` is whether one
-- has gone on without the lock: no code reads either.
pub record System (D : Type 0) : Type 0 where
  pub handler : Handler D
  pub locks : Locks
  pub phase : ℕ → Stage
  pub served : List ℕ
  pub unlocked : Bool

module _ {D : Type 0} (codec : Codec) (driver : Driver D) (cipher : Cipher)
    (request : ℕ → Client) where
  -- The session a request loads, and the store after it saved another one.
  abbrev pub loading : Handler D → ℕ → Session
  loading h i = load codec driver cipher h (request i).fresh (request i).id

  abbrev pub saved : Handler D → ℕ → Session → Handler D
  saved h i s = (save codec driver cipher h (request i).nonce s (request i).id).0

  pub data Step (s : System D) : System D → Type 0 where
    has_no_id :
        (i : ℕ)
        → s.phase i ≡ waiting
        → is_empty (request i).id ≡ true
        → Step s (record s {
          phase = update s.phase i (running false (request i).attached);
          unlocked = true;
        })
    acquires :
        (i : ℕ) (taken : Locks)
        → s.phase i ≡ waiting
        → is_empty (request i).id ≡ false
        → try_lock (request i).id s.locks ≡ some taken
        → Step s (record s { locks = taken; phase = update s.phase i (entered true) })
    times_out :
        (i : ℕ)
        → s.phase i ≡ waiting
        → is_empty (request i).id ≡ false
        → (request i).patient ≡ false
        → try_lock (request i).id s.locks ≡ none
        → Step s (record s { phase = update s.phase i (entered false); unlocked = true })
    reloads :
        (i : ℕ) (held : Bool)
        → s.phase i ≡ entered held
        → Step s (record s { phase = update s.phase i (running held (loading s.handler i)) })
    saves :
        (i : ℕ) (held : Bool) (own : Session)
        → s.phase i ≡ running held own
        → Step s (record s {
          handler = saved s.handler i ((request i).change own);
          phase = update s.phase i (ending held);
          served = i ∷ s.served;
        })
    panics :
        (i : ℕ) (held : Bool) (own : Session)
        → s.phase i ≡ running held own
        → Step s (record s { phase = update s.phase i (ending held) })
    unlocks :
        (i : ℕ)
        → s.phase i ≡ ending true
        → Step s (record s { locks = unlock (request i).id s.locks; phase = update s.phase i left })
    leaves :
        (i : ℕ) → s.phase i ≡ ending false → Step s (record s { phase = update s.phase i left })

  abbrev pub initial : Handler D → System D
  initial h = record {
    handler = h;
    locks = new_lock_registry;
    phase = λ i. waiting;
    served = [];
    unlocked = false;
  }

  pub data Reach (h : Handler D) : System D → Type 0 where
    begins : Reach h (initial h)
    later : {s t : System D} → Reach h s → Step s t → Reach h t

  -- The requests one after the other, the last first: each loads, serves and saves.
  unfoldable pub replay : Handler D → List ℕ → Handler D
  replay h [] = h
  replay h (i ∷ earlier) =
      let before = replay h earlier in saved before i ((request i).change (loading before i))

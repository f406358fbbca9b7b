-- ===== src/Session/Tests/Blocking.antt =====
-- Runs of app/Http/SessionBlock.go and app/Http/Session/Lock.go.
use golite.Base.{
  ℕ, zero, suc, ◌+◌, Bool, true, false, Option, none, some, [], ◌∷◌, ◌++◌, ◌≡◌, ◌≢◌, ◌⊎◌, inl, inr,
  refl, sym, ◌∙◌, arith, Str, str, ◌==◌, Map, lookup, insert, delete,
}
use golite.Value.{Value, text}
use golite.Session.Store.{
  Session, put, get, plain, new_session, age_flash, resolve_default, delete_all,
}
use golite.Session.Payload.{encode, payload_of, decode_session, session_of}
use golite.Session.Driver.{
  is_valid_session_id, MemoryRecord, memory_driver, memory_driver-DriverLaws,
}
use golite.Session.Lock.{poll_interval, acquire, new_lock_registry, try_lock, mutex_for, unlock}
use golite.Session.Lock.Waiting.{Ends, acquire-Ends}
use golite.Session.Manager.{Handler, stored, load, load_stored, save, destroy_stale}
use golite.Session.Visit.{Visit, start, set_cookie}
use golite.Session.Block.{reload, handle}
use golite.Session.Block.System
use golite.Session.Block.Exclusion.{holds, locked}
use golite.Session.Block.Serial.{IsOwn, block_serial}
use golite.Session.Block.Progress.{Moves, block_excludes, block_progress}
use golite.Session.Block.Handle.{handle-locked}
use golite.Session.Tests.Fixtures.{
  text_codec, marking_cipher, user, old_id, new_id, fresh_id, clock, saved_payload,
}

-- The mutex is released before the third poll.
abbrev free_from_two : ℕ → Bool
free_from_two zero = false
free_from_two (suc zero) = false
free_from_two (suc (suc i)) = true

abbrev ticks : ℕ → ℕ
ticks zero = 100
ticks (suc i) = poll_interval + ticks i

acquire_example :
    (b : Bool) × (acquire free_from_two ticks 100 15000000 3 ≡ some b)
    × Ends free_from_two ticks 15000100 0 b
acquire_example =
    acquire-Ends free_from_two ticks 100 15000000 (omega arith) (λ i. omega arith) (omega arith)

-- Two requests of one session, which add a letter each, and others of another session.
abbrev letters : Value → Str
letters (text t) = t
letters _ = []

add_letter : ℕ → Session → Session
add_letter c s = put user (text (letters (get s user (plain (text []))) ++ (c ∷ []))) s

abbrev request_of : Str → ℕ → System.Client
request_of id c = record {
  id = id;
  attached = new_session id;
  change = add_letter c;
  fresh = fresh_id;
  nonce = [];
  patient = false;
}

abbrev requests : ℕ → System.Client
requests zero = request_of old_id b'a'
requests (suc zero) = request_of old_id b'b'
requests (suc (suc i)) = request_of new_id b'c'

abbrev D : Type 0
D = Map MemoryRecord

abbrev ann : Handler D
ann = stored ((old_id, record { content = saved_payload; last_access = 1 }) ∷ [])

abbrev Reached : System.System D → Type 0
Reached = System.Reach text_codec (memory_driver clock) marking_cipher requests ann

abbrev Run : Type 0
Run = (s : System.System D) × Reached s

-- Request 0 holds the lock and works on the session; request 1 waits.
one_inside : Run
unfolding try_lock mutex_for new_lock_registry lookup insert
one_inside = (
  _,
  System.later (System.later System.begins (System.acquires 0 _ refl refl refl))
      (System.reloads 0 true refl),
)

-- Request 0 has left, and request 1 has saved.
both_saved : Run
unfolding try_lock mutex_for new_lock_registry lookup insert unlock ◌==◌ one_inside
both_saved = (
  _,
  System.later
      (System.later
        (System.later
          (System.later (System.later one_inside.1 (System.saves 0 true _ refl))
            (System.unlocks 0 refl))
          (System.acquires 1 _ refl refl refl))
        (System.reloads 1 true refl))
      (System.saves 1 true _ refl),
)

block_excludes_example : ◌≡◌ {A = ℕ} 0 0
unfolding one_inside
block_excludes_example =
    block_excludes text_codec (memory_driver clock) marking_cipher requests one_inside.1 0 0 refl
      refl refl

block_progress_example :
    Moves text_codec (memory_driver clock) marking_cipher requests one_inside.0 1
    ⊎ (one_inside.0.phase 1 ≡ System.waiting)
      × ((j : ℕ) × ((requests j).id ≡ old_id)
          × (holds (one_inside.0.phase j) ≡ true)
          × Moves text_codec (memory_driver clock) marking_cipher requests one_inside.0 j)
unfolding one_inside
block_progress_example =
    block_progress text_codec (memory_driver clock) marking_cipher requests one_inside.1 1 (λ e. cc)

fresh_ne : (j : ℕ) → fresh_id ≢ (requests j).id
fresh_ne zero = λ e. cc
fresh_ne (suc zero) = λ e. cc
fresh_ne (suc (suc j)) = λ e. cc

apart_by :
    (id : Str) (c j : ℕ) (s : Session)
    → (s.id ≡ fresh_id) ⊎ (s.id ≡ id)
    → id ≢ (requests j).id
    → (add_letter c s).id ≢ (requests j).id
unfolding add_letter put
apart_by id c j s (inl own) n e = fresh_ne j (sym own ∙ e)
apart_by id c j s (inr own) n e = n (sym own ∙ e)

apart :
    (i j : ℕ) (s : Session)
    → IsOwn text_codec
        (memory_driver clock)
        marking_cipher
        (memory_driver-DriverLaws clock)
        requests
        i
        s
    → (requests i).id ≢ (requests j).id
    → ((requests i).change s).id ≢ (requests j).id
apart zero j s = apart_by old_id b'a' j s
apart (suc zero) j s = apart_by old_id b'b' j s
apart (suc (suc i)) j s = apart_by new_id b'c' j s

block_serial_example :
    both_saved.0.handler
    ≡ System.replay text_codec (memory_driver clock) marking_cipher requests ann (1 ∷ 0 ∷ [])
unfolding both_saved
block_serial_example =
    block_serial text_codec (memory_driver clock) marking_cipher (memory_driver-DriverLaws clock)
      requests apart both_saved.1 refl

-- What the two requests leave: both letters.
both_letters :
    load text_codec (memory_driver clock) marking_cipher both_saved.0.handler fresh_id old_id
    ≡ record {
      id = old_id;
      values = (user, text (str "annab")) ∷ [];
      old_flash = [];
      new_flash = [];
    }
unfolding both_saved one_inside load load_stored save encode payload_of decode_session session_of
    destroy_stale memory_driver insert delete lookup ◌==◌ add_letter put get resolve_default
    is_valid_session_id new_session age_flash delete_all
both_letters = refl

abbrev arriving : Visit D
arriving = record {
  handler = ann;
  request_cookie = old_id;
  session = none;
  original_id = [];
  cookies = [];
  sent = false;
  saved = false;
  seed = 0;
}

abbrev begun : Visit D
begun = start text_codec (memory_driver clock) marking_cipher (λ n. fresh_id) arriving

abbrev adds : Visit D → Option (Visit D)
adds v = elim v.session [
  | none ↦ none
  | some s ↦ some (record v { session = some (add_letter b'c' s) })
]

abbrev ended : Visit D
ended = record arriving {
  session = some (record {
    id = old_id;
    values = (user, text (str "annc")) ∷ [];
    old_flash = [];
    new_flash = [];
  });
  original_id = old_id;
  cookies = old_id ∷ [];
  seed = 2;
}

adds_ends :
    adds (reload text_codec (memory_driver clock) marking_cipher (λ n. fresh_id) begun) ≡ some ended
unfolding reload start set_cookie load load_stored memory_driver decode_session session_of lookup
    insert ◌==◌ add_letter put get resolve_default is_valid_session_id age_flash delete_all
adds_ends = refl

begun_id : begun.original_id ≡ old_id
unfolding start set_cookie load load_stored memory_driver decode_session session_of lookup ◌==◌
    is_valid_session_id age_flash
begun_id = refl

handle-locked_example :
    locked old_id
      (handle text_codec
        (memory_driver clock)
        marking_cipher
        (λ n. fresh_id)
        (λ v. none)
        []
        []
        begun).1
    ≡ locked old_id []
handle-locked_example =
    handle-locked text_codec (memory_driver clock) marking_cipher (λ n. fresh_id) (λ v. none) []
      old_id [] begun

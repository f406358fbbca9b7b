-- ===== src/Session/Tests/Requests.antt =====
-- Runs of the session and CSRF middleware of app/Http/Middleware on concrete requests.
use golite.Base.{
  ℕ, zero, suc, true, false, none, some, List, [], ◌∷◌, ◌≡◌, refl, Str, str, ◌==◌, Map, insert,
  delete,
}
use golite.Value.{text}
use golite.Session.Store.{Session, new_session, put, regenerate, token}
use golite.Session.Ops.{op_put, apply}
use golite.Session.Payload.{encode, payload_of}
use golite.Session.Driver.{
  is_valid_session_id, MemoryRecord, memory_driver, memory_driver-DriverLaws,
}
use golite.Session.Manager.{Handler, stored, load, load_stored, save, destroy_stale}
use golite.Session.Visit.{
  Visit, Action, operates, regenerates, responds, set_cookie, refresh_session_cookie, run_action,
  run_actions, start, start_session,
}
use golite.Session.Visit.Cookie.{visit-Restores}
use golite.Pipeline.Onion.{Effect, returns}
use golite.Session.Csrf.{Protected}
use golite.Session.Manager.Persistence.{Restores}
use golite.Session.Tests.Fixtures.{
  text_codec, marking_cipher, user, old_id, fresh_id, truncate, clock, saved_payload,
  text_codec-CodecLaws,
}

abbrev random : ℕ → Str
random zero = str "a"
random (suc n) = str "b"

random-valid : (n : ℕ) → is_valid_session_id (random n) ≡ true
unfolding is_valid_session_id
random-valid zero = refl
random-valid (suc n) = refl

-- A first request, which stores a value, gets a new id and writes its response.
abbrev actions : List Action
actions = operates (op_put user (text (str "ann"))) ∷ regenerates ∷ responds ∷ []

abbrev arriving : Visit (Map MemoryRecord)
arriving = record {
  handler = stored [];
  request_cookie = [];
  session = none;
  original_id = [];
  cookies = [];
  sent = false;
  saved = false;
  seed = 0;
}

abbrev visited_session : Session
visited_session = record {
  id = str "b";
  values = (user, text (str "ann")) ∷ [];
  old_flash = [];
  new_flash = [];
}

abbrev visited : Visit (Map MemoryRecord)
visited = record {
  handler = stored [];
  request_cookie = [];
  session = some visited_session;
  original_id = str "a";
  cookies = str "b" ∷ [];
  sent = true;
  saved = false;
  seed = 2;
}

visits :
    run_actions truncate random actions
      (start text_codec (memory_driver clock) marking_cipher random arriving)
    ≡ some visited
unfolding run_actions run_action start set_cookie refresh_session_cookie apply put insert regenerate
    load load_stored new_session
visits = refl

abbrev kept : Handler (Map MemoryRecord)
kept = stored ((str "b", record { content = saved_payload; last_access = clock }) ∷ [])

visit_saves :
    save text_codec (memory_driver clock) marking_cipher (stored []) [] visited_session (str "a")
    ≡ (kept, some (str "b"))
unfolding save encode payload_of destroy_stale memory_driver insert delete ◌==◌
visit_saves = refl

visit_example :
    (start_session text_codec
        (memory_driver clock)
        marking_cipher
        random
        (run_actions truncate random actions)
        []
        arriving
      ≡ some (record visited { handler = kept }))
    × (visited.cookies ≡ str "b" ∷ [])
    × ((load text_codec (memory_driver clock) marking_cipher kept fresh_id (str "b")).id
        ≡ visited_session.id)
    × Restores
        (λ v. v)
        visited_session
        (load text_codec (memory_driver clock) marking_cipher kept fresh_id (str "b"))
visit_example =
    visit-Restores random random-valid text_codec (memory_driver clock) marking_cipher (λ v. v)
      text_codec-CodecLaws (memory_driver-DriverLaws clock) truncate [] kept [] fresh_id (str "b")
      actions arriving visited visited_session refl refl refl refl (tt, tt) visits refl visit_saves

abbrev posted : Protected
posted = record {
  method = str "POST";
  path = str "/profile";
  form_token = str "t1";
  csrf_header = [];
  xsrf_header = [];
  session = (token (str "t1") (new_session old_id)).0;
  generated = str "t2";
  xsrf_cookies = [];
  status = 0;
}

abbrev answer : Protected → List ℕ → Effect Protected ℕ
answer s ms = returns (record s { status = 200 }) ms

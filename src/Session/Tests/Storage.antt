-- ===== src/Session/Tests/Storage.antt =====
-- Runs of the drivers and the manager of app/Http/Session on concrete stores.
use golite.Base.{
  ℕ, true, false, some, List, [], ◌∷◌, ◌≡◌, ◌≢◌, ◌⊎◌, refl, str, ◌==◌, eq_iff, Map, lookup, insert,
  delete, none, Bool, ◌++◌, Str,
}
use golite.Value.{text}
use golite.Session.Store.{Session, new_session}
use golite.Session.Payload.{encode, payload_of}
use golite.Session.Driver.{
  is_valid_session_id, MemoryRecord, memory_driver, memory_gc, memory_driver-DriverLaws, DriverLaws,
}
use golite.Session.Manager.{Handler, stored, stateless, load, save, destroy_stale}
use golite.Session.Manager.Registry.{
  Manager, Config, extends, switches, resolves, new_manager, extend, switch_driver, configure,
  configure_all, resolve_handler,
}
use golite.Session.Manager.Fixation.{HasRecord, load-id}
use golite.Session.Manager.Persistence.{
  Restores, load-save_stored, load-save_retired, load-save_stateless,
}
use golite.Session.Tests.Fixtures.{
  text_codec, marking_cipher, user, old_id, new_id, fresh_id, clock, saved_payload,
  text_codec-CodecLaws, marking_cipher-CipherLaws,
}
use golite.Session.Driver.File.{
  FileCall, reads, writes, removes, is_plain_name, file_content, file_driver, file_driver_lem,
}
use mathlib.Core.List.{append_cancel_left}

-- A session under a new id, saved over the record of the old one.
abbrev saved : Session
saved = record {
  id = new_id;
  values = (user, text (str "ann")) ∷ [];
  old_flash = [];
  new_flash = [];
}

abbrev store_before : Map MemoryRecord
store_before = (old_id, record { content = str "x"; last_access = 1 }) ∷ []

abbrev store_after : Map MemoryRecord
store_after = (new_id, record { content = saved_payload; last_access = clock }) ∷ []

saves :
    save text_codec (memory_driver clock) marking_cipher (stored store_before) [] saved old_id
    ≡ (stored store_after, some new_id)
unfolding save encode payload_of destroy_stale memory_driver insert delete ◌==◌
saves = refl

new_id-valid : is_valid_session_id new_id ≡ true
unfolding is_valid_session_id
new_id-valid = refl

abbrev loaded : Session
loaded = load text_codec (memory_driver clock) marking_cipher (stored store_after) fresh_id new_id

load-save_stored_example :
    (new_id ≡ saved.id) × (loaded.id ≡ saved.id) × Restores (λ v. v) saved loaded
load-save_stored_example =
    load-save_stored text_codec (memory_driver clock) marking_cipher (λ v. v) text_codec-CodecLaws
      (memory_driver-DriverLaws clock) store_before (stored store_after) [] old_id fresh_id new_id
      saved new_id-valid saves

ids_differ : saved.id ≢ old_id
unfolding ◌==◌
ids_differ e = let h : false ≡ true = (eq_iff new_id old_id).1 e in cc

load-save_retired_example :
    ((gone : Map MemoryRecord) × ((memory_driver clock).destroy store_before old_id ≡ some gone)
      × (load text_codec (memory_driver clock) marking_cipher (stored store_after) fresh_id old_id
          ≡ new_session fresh_id))
    ⊎ (((memory_driver clock).destroy store_before old_id ≡ none)
        × (load text_codec (memory_driver clock) marking_cipher (stored store_after) fresh_id old_id
            ≡ load text_codec
                (memory_driver clock)
                marking_cipher
                (stored store_before)
                fresh_id
                old_id))
load-save_retired_example =
    load-save_retired text_codec (memory_driver clock) marking_cipher (λ v. v) text_codec-CodecLaws
      (memory_driver-DriverLaws clock) store_before (stored store_after) [] old_id fresh_id new_id
      saved (λ e. cc) ids_differ saves

abbrev no_store : Handler (Map MemoryRecord)
no_store = stateless

saves_stateless :
    save text_codec (memory_driver clock) marking_cipher no_store [] saved old_id
    ≡ (no_store, some (1 ∷ saved_payload))
unfolding save encode payload_of
saves_stateless = refl

abbrev loaded_stateless : Session
loaded_stateless =
    load text_codec (memory_driver clock) marking_cipher no_store fresh_id (1 ∷ saved_payload)

load-save_stateless_example :
    (loaded_stateless.id ≡ fresh_id) × Restores (λ v. v) saved loaded_stateless
load-save_stateless_example =
    load-save_stateless text_codec (memory_driver clock) marking_cipher (λ v. v)
      text_codec-CodecLaws marking_cipher-CipherLaws no_store [] old_id fresh_id (1 ∷ saved_payload)
      saved saves_stateless

load-id_example :
    (loaded.id ≡ fresh_id)
    ⊎ ((loaded.id ≡ new_id)
        × HasRecord text_codec (memory_driver clock) marking_cipher (stored store_after) new_id)
load-id_example =
    load-id text_codec (memory_driver clock) marking_cipher (stored store_after) fresh_id new_id

abbrev configs : List (Config ℕ)
configs = extends (str "redis") 4 ∷ switches (str "redis") ∷ resolves ∷ []

abbrev configured : Manager ℕ
configured = record {
  handlers = (str "memory", 1) ∷ (str "file", 2) ∷ (str "cookie", 3) ∷ (str "redis", 4) ∷ [];
  driver = str "redis";
  handler = some 4;
  cookie_name = str "golite";
  lifetime = 120;
}

configures : configure_all configs (new_manager (str "golite") 120 1 2 3) ≡ some configured
unfolding configure_all configure new_manager extend switch_driver resolve_handler insert lookup
    ◌==◌
configures = refl

gc_kept :
    lookup new_id (memory_gc 9 10 store_after)
    ≡ some (record { content = saved_payload; last_access = clock })
unfolding memory_gc lookup ◌==◌
gc_kept = refl

abbrev joined : Str → Str
joined name = str "sessions/" ++ name

joined_apart : (a b : Str) → joined a ≡ joined b → a ≡ b
joined_apart a b h = append_cancel_left (str "sessions/") a b h

abbrev removes_fail : FileCall → Bool
removes_fail (removes p) = false
removes_fail (reads p) = true
removes_fail (writes p) = true

file_driver_example :
    DriverLaws (file_driver joined removes_fail)
    × (((is_valid_session_id (str "../etc") ≡ false)
          × ((file_driver joined removes_fail).read [] (str "../etc") ≡ some [])
          × ((file_driver joined removes_fail).write [] (str "../etc") (str "x") ≡ none)
          × ((file_driver joined removes_fail).destroy [] (str "../etc") ≡ some []))
        ⊎ ((is_valid_session_id (str "../etc") ≡ true)
            × (is_plain_name (str "../etc.json") ≡ true)
            × ((file_driver joined removes_fail).read [] (str "../etc")
                ≡ some (file_content (lookup (joined (str "../etc.json")) [])))))
file_driver_example =
    file_driver_lem joined removes_fail (λ a b p q. joined_apart a b) (λ p. refl) [] (str "../etc")
      (str "x")

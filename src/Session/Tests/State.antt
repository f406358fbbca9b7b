-- ===== src/Session/Tests/State.antt =====
-- Runs of the operations of app/Http/Session/Session.go on concrete sessions.
use golite.Base.{
  ◌+◌, ◌*◌, ◌%◌, true, false, none, some, List, [], ◌∷◌, ◌≡◌, refl, arith, All, str, ◌==◌, lookup,
  insert, has, add, ◌<◌,
}
use golite.Value.{int, text}
use golite.Session.Store.{
  Session, new_session, put, word, token_read, flash, now, reflash, keep_flash, age_flash, to_int,
}
use golite.Session.Ops.{Op, op_put, op_flash, op_token, op_regenerate, apply_all}
use golite.Session.Flash.{Leaves, Phase, flash_lifetime, reflash_lost}
use golite.Session.Token.{store_all, token_race}
use golite.Session.Counter.{count_at, increments, increments_lem}
use golite.Session.Tests.Fixtures.{status, user, old_id, new_id, truncate}

-- A request that stores something else, and one that flashes something else.
abbrev first_operations : List Op
first_operations = op_put user (int 7) ∷ op_token (str "t0") ∷ []

abbrev next_operations : List Op
next_operations = op_flash user (int 8) ∷ op_regenerate new_id ∷ []

abbrev first_request : Session
first_request =
    apply_all truncate first_operations (flash status (text (str "saved")) (new_session old_id))

abbrev second_request : Session
second_request = apply_all truncate next_operations (age_flash first_request)

first_operations-Leaves : All (Leaves status) first_operations
unfolding ◌==◌
first_operations-Leaves = (refl, (refl, tt))

next_operations-Leaves : All (Leaves status) next_operations
unfolding ◌==◌
next_operations-Leaves = (refl, (tt, tt))

flash_lifetime_example :
    (lookup status first_request.values ≡ some (text (str "saved")))
    × (lookup status second_request.values ≡ some (text (str "saved")))
    × (lookup status (age_flash second_request).values ≡ none)
flash_lifetime_example =
    flash_lifetime truncate status (text (str "saved")) (new_session old_id) first_operations
      next_operations first_operations-Leaves next_operations-Leaves

abbrev now_request : Session
now_request = apply_all truncate first_operations (now status (int 3) (new_session old_id))

put-Phase : Phase status (some (int 1)) false false (put status (int 1) (new_session old_id))
put-Phase = record {
  value = unfold put new_session insert lookup ◌==◌ in refl;
  in_old = unfold put new_session has in refl;
  in_new = unfold put new_session has in refl;
}

abbrev flashed_before : Session
flashed_before = age_flash (flash status (int 1) (new_session old_id))

flashed_before-old : has flashed_before.old_flash status ≡ true
unfolding age_flash flash new_session has add ◌==◌
flashed_before-old = refl

reflash_lost_example :
    (lookup status (age_flash (reflash flashed_before)).values ≡ none)
    × (lookup status (age_flash (keep_flash (status ∷ []) flashed_before)).values ≡ none)
reflash_lost_example = reflash_lost status (status ∷ []) flashed_before flashed_before-old

no_token : token_read (new_session old_id) ≡ none
unfolding token_read new_session lookup
no_token = refl

token_race_example :
    All (λ u. u ≡ str "t1") (store_all (str "t1" ∷ str "t2" ∷ str "t3" ∷ []) (new_session old_id))
token_race_example =
    token_race (str "t1") (str "t2" ∷ str "t3" ∷ []) (new_session old_id) no_token refl

count_zero : count_at truncate user (new_session old_id) < word
unfolding to_int new_session lookup
count_zero = omega arith

increments_example :
    count_at truncate user (increments truncate 3 user 5 (new_session old_id))
    ≡ (count_at truncate user (new_session old_id) + 3 * 5) % word
increments_example = increments_lem truncate 3 user 5 (new_session old_id) count_zero

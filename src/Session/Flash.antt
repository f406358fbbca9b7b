-- ===== src/Session/Flash.antt =====
-- Flash data across requests: `age_flash` is what Manager.Load does between two of them.
use golite.Base.{
  ℕ, Bool, true, false, Option, none, some, List, [], ◌∷◌, ◌≡◌, refl, arith, if◌then◌else◌, Str,
  ◌==◌, eq_iff, Map, lookup, insert, delete, lookup-insert, lookup-delete, All, has, add, has-add,
  has-remove,
}
use golite.Value.{Value, text}
use golite.Session.Store.{
  Session, csrf_token_key, put, push, pull, delete_all, forget, increment, decrement, regenerate,
  token_store, token, flash, now, reflash, keep_flash, age_flash, keep_from,
}
use golite.Session.Ops.{
  Op, op_put, op_push, op_flash, op_now, op_pull, op_forget, op_keep, op_increment, op_decrement,
  op_regenerate, op_invalidate, op_token, op_flush, op_reflash, apply, apply_all,
}

pub lookup-delete_all :
    (ks : List Str) (k : Str) (m : Map Value)
    → lookup k (delete_all ks m) ≡ (if has ks k then none else lookup k m)
unfolding delete_all has
lookup-delete_all [] k m = refl
lookup-delete_all (j ∷ ks) k m =
    ground (arith, lookup-delete_all ks k (delete j m), lookup-delete j k m)

-- Ageing forgets exactly the values under the old flash keys, and makes the new keys the old ones.
pub age_flash_lem :
    (s : Session) (k : Str)
    → (lookup k (age_flash s).values ≡ (if has s.old_flash k then none else lookup k s.values))
      × (has (age_flash s).old_flash k ≡ has s.new_flash k)
      × (has (age_flash s).new_flash k ≡ false)
unfolding age_flash has
age_flash_lem s k = (lookup-delete_all s.old_flash k s.values, refl, refl)

-- What a request may do without a claim on the key `k`.
abbrev pub Leaves : Str → Op → Type 0
Leaves k (op_put j v) = (j == k) ≡ false
Leaves k (op_push j v) = (j == k) ≡ false
Leaves k (op_flash j v) = (j == k) ≡ false
Leaves k (op_now j v) = (j == k) ≡ false
Leaves k (op_pull j d) = (j == k) ≡ false
Leaves k (op_forget ks) = has ks k ≡ false
Leaves k (op_keep ks) = has ks k ≡ false
Leaves k (op_increment j n) = (j == k) ≡ false
Leaves k (op_decrement j n) = (j == k) ≡ false
Leaves k (op_regenerate t) = Unit
Leaves k (op_invalidate t) = ⊥
Leaves k (op_token t) = (csrf_token_key == k) ≡ false
Leaves k op_flush = ⊥
Leaves k op_reflash = ⊥

-- Where a key stands in its flash life.
pub record Phase (k : Str) (v : Option Value) (old new : Bool) (s : Session) : Type 0 where
  pub value : lookup k s.values ≡ v
  pub in_old : has s.old_flash k ≡ old
  pub in_new : has s.new_flash k ≡ new

has-keep_from :
    (old ks new : List Str) (k : Str) → has ks k ≡ false → has (keep_from old ks new) k ≡ has new k
unfolding has
has-keep_from old [] new k h = refl
has-keep_from old (j ∷ ks) new k h =
    ground (arith, has-keep_from old ks (add j new) k, has-keep_from old ks new k, has-add j k new)

insert-Phase :
    (j k : Str) (w : Value) (v : Option Value) (old new : Bool) (s : Session)
    → (j == k) ≡ false
    → Phase k v old new s
    → Phase k v old new (record s { values = insert j w s.values })
insert-Phase j k w v old new s h p = ground (arith, lookup-insert j k w s.values)

module _ (float_int : ℕ → ℕ) where
  apply-Phase :
      (o : Op) (k : Str) (v : Option Value) (old new : Bool) (s : Session)
      → Leaves k o
      → Phase k v old new s
      → Phase k v old new (apply float_int o s)
  unfolding apply put push pull forget increment decrement regenerate token token_store flash now
      keep_flash
  apply-Phase (op_put j w) k v old new s h p = insert-Phase j k w v old new s h p
  apply-Phase (op_push j w) k v old new s h p = insert-Phase j k _ v old new s h p
  apply-Phase (op_flash j w) k v old new s h p =
      ground
        (arith, lookup-insert j k w s.values, has-add j k s.new_flash, has-remove j k s.old_flash)
  apply-Phase (op_now j w) k v old new s h p =
      ground
        (arith, lookup-insert j k w s.values, has-add j k s.old_flash, has-remove j k s.new_flash)
  apply-Phase (op_pull j d) k v old new s h p = ground (arith, lookup-delete j k s.values)
  apply-Phase (op_forget ks) k v old new s h p = ground (arith, lookup-delete_all ks k s.values)
  apply-Phase (op_keep ks) k v old new s h p =
      ground (arith, has-keep_from s.old_flash ks s.new_flash k)
  apply-Phase (op_increment j n) k v old new s h p = insert-Phase j k _ v old new s h p
  apply-Phase (op_decrement j n) k v old new s h p = insert-Phase j k _ v old new s h p
  apply-Phase (op_regenerate t) k v old new s h p = ground arith
  apply-Phase (op_invalidate t) k v old new s h p = elim h [ ]
  apply-Phase op_flush k v old new s h p = elim h [ ]
  apply-Phase op_reflash k v old new s h p = elim h [ ]
  apply-Phase (op_token t) k v old new s h p =
      ground (arith, insert-Phase csrf_token_key k (text t) v old new s h p)

  apply_all-Phase :
      (os : List Op) (k : Str) (v : Option Value) (old new : Bool) (s : Session)
      → All (Leaves k) os
      → Phase k v old new s
      → Phase k v old new (apply_all float_int os s)
  unfolding apply_all
  apply_all-Phase [] k v old new s h p = p
  apply_all-Phase (o ∷ os) k v old new s h p =
      apply_all-Phase os k v old new (apply float_int o s) h.1 (apply-Phase o k v old new s h.0 p)

  age-Phase :
      (k : Str) (v : Option Value) (old new : Bool) (s : Session)
      → Phase k v old new s
      → Phase k (if old then none else v) new false (age_flash s)
  age-Phase k v old new s p = let (a, b, c) = age_flash_lem s k in ground (arith, a, b, c)

  -- A value flashed under a key can be read in the rest of its request and, after the ageing
  -- between two requests, in all of the next one; after the second ageing it is gone. The
  -- operations of the two requests may be any that leave the key alone.
  pub flash_lifetime :
      (k : Str) (v : Value) (s : Session) (here next : List Op)
      → All (Leaves k) here
      → All (Leaves k) next
      → let first = apply_all float_int here (flash k v s) in
        let second = apply_all float_int next (age_flash first) in
        (lookup k first.values ≡ some v)
        × (lookup k second.values ≡ some v)
        × (lookup k (age_flash second).values ≡ none)
  unfolding flash
  flash_lifetime k v s here next h g =
      let p = apply_all-Phase here k (some v) false true (flash k v s) h (record {
        value = ground (arith, lookup-insert k k v s.values, eq_iff k k);
        in_old = ground (arith, has-remove k k s.old_flash, eq_iff k k);
        in_new = ground (arith, has-add k k s.new_flash, eq_iff k k);
      }) in
      let q =
        apply_all-Phase next k (some v) true false _ g (age-Phase k (some v) false true _ p) in
      let r = age-Phase k (some v) true false _ q in (p.value, q.value, r.value)

  -- A value stored by Now can be read in the rest of its request, and is gone after the ageing
  -- before the next one, whatever operations that leave the key alone stand in between.
  pub now_lifetime :
      (k : Str) (v : Value) (s : Session) (here : List Op)
      → All (Leaves k) here
      → let first = apply_all float_int here (now k v s) in
        (lookup k first.values ≡ some v) × (lookup k (age_flash first).values ≡ none)
  unfolding now
  now_lifetime k v s here h =
      let p = apply_all-Phase here k (some v) true false (now k v s) h (record {
        value = ground (arith, lookup-insert k k v s.values, eq_iff k k);
        in_old = ground (arith, has-add k k s.old_flash, eq_iff k k);
        in_new = ground (arith, has-remove k k s.new_flash, eq_iff k k);
      }) in
      (p.value, (age-Phase k (some v) true false _ p).value)

  -- A value under a key that is no flash key of either generation survives the ageing and any
  -- operations that leave the key alone, and stays no flash key.
  pub plain_lifetime :
      (k : Str) (v : Option Value) (s : Session) (here : List Op)
      → All (Leaves k) here
      → Phase k v false false s
      → Phase k v false false (age_flash (apply_all float_int here s))
  plain_lifetime k v s here h p =
      age-Phase k v false false _ (apply_all-Phase here k v false false s h p)

-- Reflash and Keep mark an old flash key as new but leave it marked as old, so the ageing before
-- the next request drops its value: neither extends the life of any value.
pub reflash_lost :
    (k : Str) (ks : List Str) (s : Session)
    → has s.old_flash k ≡ true
    → (lookup k (age_flash (reflash s)).values ≡ none)
      × (lookup k (age_flash (keep_flash ks s)).values ≡ none)
unfolding reflash keep_flash
reflash_lost k ks s h =
    let (a, _, _) = age_flash_lem (reflash s) k in
    let (b, _, _) = age_flash_lem (keep_flash ks s) k in ground (arith, a, b)

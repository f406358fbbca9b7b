-- ===== src/Session/Ops.antt =====
-- The operations of app/Http/Session/Session.go as data, to speak of a handler's whole request.
use golite.Base.{ℕ, List, [], ◌∷◌, Str}
use golite.Value.{Value}
use golite.Session.Store.{
  Session, Default, put, push, pull, forget, flush, increment, decrement, regenerate, invalidate,
  token, flash, now, reflash, keep_flash,
}

pub data Op : Type 0 where
  op_put op_push op_flash op_now : Str → Value → Op
  op_pull : Str → Default → Op
  op_forget op_keep : List Str → Op
  op_increment op_decrement : Str → ℕ → Op
  op_regenerate op_invalidate op_token : Str → Op
  op_flush op_reflash : Op

module _ (float_int : ℕ → ℕ) where
  unfoldable pub apply : Op → Session → Session
  apply (op_put k v) s = put k v s
  apply (op_push k v) s = push k v s
  apply (op_flash k v) s = flash k v s
  apply (op_now k v) s = now k v s
  apply (op_pull k d) s = (pull k d s).0
  apply (op_forget ks) s = forget ks s
  apply (op_keep ks) s = keep_flash ks s
  apply (op_increment k n) s = (increment float_int k n s).0
  apply (op_decrement k n) s = (decrement float_int k n s).0
  apply (op_regenerate t) s = regenerate t s
  apply (op_invalidate t) s = invalidate t s
  apply (op_token t) s = (token t s).0
  apply op_flush s = flush s
  apply op_reflash s = reflash s

  unfoldable pub apply_all : List Op → Session → Session
  apply_all [] s = s
  apply_all (o ∷ os) s = apply_all os (apply o s)

-- ===== src/Session/Counter.antt =====
-- Increment and Decrement of app/Http/Session/Session.go, over 64-bit words.
use golite.Base.{
  ℕ, zero, suc, ◌+◌, ◌-◌, ◌*◌, ◌%◌, ◌<◌, ◌≡◌, refl, arith, Str, eq_refl, lookup, lookup-insert,
}
use golite.Value.{int}
use golite.Session.Store.{Session, word, to_int, increment, decrement}

module _ (float_int : ℕ → ℕ) where
  -- The number that a session holds under a key.
  abbrev pub count_at : Str → Session → ℕ
  count_at k s = to_int float_int (lookup k s.values)

  pub count_at-increment :
      (k : Str) (step : ℕ) (s : Session)
      → count_at k (increment float_int k step s).0 ≡ (count_at k s + step) % word
  unfolding increment to_int
  count_at-increment k step s =
      ground (arith, lookup-insert k k (int ((count_at k s + step) % word)) s.values, eq_refl k)

  result-decrement :
      (k : Str) (step : ℕ) (s : Session)
      → (decrement float_int k step s).1 ≡ (count_at k s + (word - step) % word) % word
  unfolding decrement increment
  result-decrement k step s = refl

  -- A Decrement by the same step undoes an Increment, also where the sum wraps around. The number
  -- and the step are 64-bit patterns.
  pub decrement-increment :
      (k : Str) (step : ℕ) (s : Session)
      → count_at k s < word
      → step < word
      → (decrement float_int k step (increment float_int k step s).0).1 ≡ count_at k s
  decrement-increment k step s h g = rw (result-decrement, count_at-increment) (omega arith)

  unfoldable pub increments : ℕ → Str → ℕ → Session → Session
  increments zero k step s = s
  increments (suc n) k step s = increments n k step (increment float_int k step s).0

  -- n Increments by one step add n times the step, modulo 2^64. The number held before is a 64-bit
  -- pattern.
  pub increments_lem :
      (n : ℕ) (k : Str) (step : ℕ) (s : Session)
      → count_at k s < word
      → count_at k (increments n k step s) ≡ (count_at k s + n * step) % word
  unfolding increments
  increments_lem zero k step s h = omega arith
  increments_lem (suc n) k step s h = omega (
    arith,
    increments_lem n k step (increment float_int k step s).0
        (omega (arith, count_at-increment k step s)),
    count_at-increment k step s,
  )

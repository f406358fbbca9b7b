-- ===== src/Session/Driver.antt =====
-- app/Http/Session/SessionHandler.go, the contract of a driver, with the laws that the manager
-- relies on; MemorySessionHandler.go, which meets them.
pub mod File
use golite.Base.{
  ℕ, ◌+◌, Bool, false, ◌&&◌, ◌||◌, Option, none, some, [], ◌∷◌, ◌++◌, ◌≡◌, arith, if◌then◌else◌,
  ltb, leb, nat_eq, all_of, Str, str, ◌==◌, eq_iff, Map, lookup, insert, delete, lookup-insert,
  lookup-delete,
}
use mathlib.Core.List.{append_cancel_right}

-- Handler: `none` is an error, which leaves the store as it was; a missing record reads as "".
pub record Driver (D : Type 0) : Type 0 where
  pub read : D → Str → Option Str
  pub write : D → Str → Str → Option D
  pub destroy : D → Str → Option D

pub record DriverLaws {D : Type 0} (d : Driver D) : Type 0 where
  pub read-write :
      (x y : D) (id content j : Str)
      → d.write x id content ≡ some y
      → d.read y j ≡ (if id == j then some content else d.read x j)
  pub read-destroy :
      (x y : D) (id j : Str)
      → d.destroy x id ≡ some y
      → d.read y j ≡ (if id == j then some [] else d.read x j)

-- isValidSessionID
abbrev pub in_range : ℕ → ℕ → ℕ → Bool
in_range lo hi r = leb lo r && leb r hi

abbrev pub is_id_byte : ℕ → Bool
is_id_byte r =
    in_range b'a' b'z' r
    || in_range b'A' b'Z' r
    || in_range b'0' b'9' r
    || nat_eq r b'-'
    || nat_eq r b'_'

unfoldable pub is_valid_session_id : Str → Bool
is_valid_session_id [] = false
is_valid_session_id (c ∷ id) = all_of is_id_byte (c ∷ id)

-- MemorySessionHandler
pub record MemoryRecord : Type 0 where
  pub content : Str
  pub last_access : ℕ

abbrev content_of : Option MemoryRecord → Str
content_of none = []
content_of (some r) = r.content

unfoldable pub memory_driver : ℕ → Driver (Map MemoryRecord)
memory_driver clock = record {
  read = λ m id. some (content_of (lookup id m));
  write = λ m id content. some (insert id (record { content = content; last_access = clock }) m);
  destroy = λ m id. some (delete id m);
}

unfoldable pub memory_gc : ℕ → ℕ → Map MemoryRecord → Map MemoryRecord
memory_gc clock lifetime [] = []
memory_gc clock lifetime ((id, r) ∷ m) =
    let rest = memory_gc clock lifetime m in
    if ltb (r.last_access + lifetime) clock then rest else (id, r) ∷ rest

memory-read-write :
    (clock : ℕ) (x y : Map MemoryRecord) (id content j : Str)
    → (memory_driver clock).write x id content ≡ some y
    → (memory_driver clock).read y j
      ≡ (if id == j then some content else (memory_driver clock).read x j)
unfolding memory_driver
memory-read-write clock x y id content j h =
    ground (arith, lookup-insert id j (record { content = content; last_access = clock }) x)

memory-read-destroy :
    (clock : ℕ) (x y : Map MemoryRecord) (id j : Str)
    → (memory_driver clock).destroy x id ≡ some y
    → (memory_driver clock).read y j ≡ (if id == j then some [] else (memory_driver clock).read x j)
unfolding memory_driver
memory-read-destroy clock x y id j h = ground (arith, lookup-delete id j x)

-- The memory driver keeps the contract: a record reads back as it was last written, "" after it
-- was destroyed, and no operation on one id touches another.
pub memory_driver-DriverLaws : (clock : ℕ) → DriverLaws (memory_driver clock)
memory_driver-DriverLaws clock = record {
  read-write = memory-read-write clock;
  read-destroy = memory-read-destroy clock;
}

-- Gc drops exactly the records whose last write lies more than the lifetime back.
pub lookup-memory_gc :
    (clock lifetime : ℕ) (id : Str) (m : Map MemoryRecord) (r : MemoryRecord)
    → lookup id (memory_gc clock lifetime m) ≡ some r
    → ltb (r.last_access + lifetime) clock ≡ false
unfolding memory_gc lookup
lookup-memory_gc clock lifetime id [] r h = cc
lookup-memory_gc clock lifetime id ((j, q) ∷ m) r h =
    ground (arith, lookup-memory_gc clock lifetime id m r)

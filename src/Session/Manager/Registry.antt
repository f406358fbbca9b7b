-- ===== src/Session/Manager/Registry.antt =====
-- The driver registry of app/Http/Session/SessionManager.go: Extend, Driver and resolveHandler.
-- A factory is the handler that it makes; `none` is a panic.
use golite.Base.{
  ℕ, Option, none, some, List, [], ◌∷◌, ◌≡◌, ◌≢◌, arith, if◌then◌else◌, ◌>>=◌, >>=-eq-some, inl,
  inr, Option-cases, Str, str, ◌==◌, Map, lookup, insert, lookup-insert,
}

pub record Manager (H : Type 0) : Type 0 where
  pub handlers : Map H
  pub driver : Str
  pub handler : Option H
  pub cookie_name : Str
  pub lifetime : ℕ

-- What the application does to the manager.
pub data Config (H : Type 0) : Type 0 where
  extends : Str → H → Config H
  switches : Str → Config H
  resolves : Config H

module _ {H : Type 0} where
  unfoldable pub extend : Str → H → Manager H → Manager H
  extend name factory m = record m {
    handlers = insert name factory m.handlers;
    handler = if name == m.driver then none else m.handler;
  }

  unfoldable pub switch_driver : Str → Manager H → Option (Manager H)
  switch_driver name m = elim (lookup name m.handlers) [
    | none ↦ none
    | some factory ↦ some (record m { driver = name; handler = none })
  ]

  unfoldable pub resolve_handler : Manager H → Option (Manager H × H)
  resolve_handler m = elim m.handler [
    | some h ↦ some (m, h)
    | none ↦ elim (lookup m.driver m.handlers) [
      | none ↦ none
      | some factory ↦ some (record m { handler = some factory }, factory)
    ]
  ]

  unfoldable pub new_manager : Str → ℕ → H → H → H → Manager H
  unfolding extend
  new_manager cookie_name lifetime memory file cookie = extend (str "cookie") cookie (
      extend (str "file") file (
        extend (str "memory") memory (record {
          handlers = [];
          driver = str "memory";
          handler = none;
          cookie_name = cookie_name;
          lifetime = lifetime;
        })))

  -- A panic ends it.
  unfoldable pub configure : Config H → Manager H → Option (Manager H)
  configure (extends name factory) m = some (extend name factory m)
  configure (switches name) m = switch_driver name m
  configure resolves m = elim (resolve_handler m) [ none ↦ none | some (m', h) ↦ some m' ]

  -- The active driver is registered.
  abbrev pub IsResolvable : Manager H → Type 0
  IsResolvable m = lookup m.driver m.handlers ≢ none

  configure-IsResolvable :
      (c : Config H) (m m' : Manager H) → IsResolvable m → configure c m ≡ some m' → IsResolvable m'
  unfolding configure extend switch_driver resolve_handler
  configure-IsResolvable (extends name factory) m m' v h =
      ground (arith, lookup-insert name m.driver factory m.handlers)
  configure-IsResolvable (switches name) m m' v h = ground arith
  configure-IsResolvable resolves m m' v h = ground arith

  unfoldable pub configure_all : List (Config H) → Manager H → Option (Manager H)
  configure_all [] m = some m
  configure_all (c ∷ cs) m = configure c m >>= λ m'. configure_all cs m'

  configure_all-IsResolvable :
      (cs : List (Config H)) (m m' : Manager H)
      → IsResolvable m
      → configure_all cs m ≡ some m'
      → IsResolvable m'
  unfolding configure_all
  configure_all-IsResolvable [] m m' v h = ground arith
  configure_all-IsResolvable (c ∷ cs) m m' v h =
      let (next, e, f) = >>=-eq-some (configure c m) _ h in
      configure_all-IsResolvable cs next m' (configure-IsResolvable c m next v e) f

  resolve_handler_lem :
      (m : Manager H)
      → IsResolvable m
      → (m' : Manager H) × (h : H) × (resolve_handler m ≡ some (m', h))
        × (resolve_handler m' ≡ some (m', h))
  unfolding resolve_handler
  resolve_handler_lem m v = elim (Option-cases m.handler) [
    | inr (h, e) ↦ (m, h, ground arith, ground arith)
    | inl e ↦ elim (Option-cases (lookup m.driver m.handlers)) [
      | inl f ↦ absurd (v f)
      | inr (h, f) ↦ (record m { handler = some h }, h, ground arith, ground arith)
    ]
  ]

  new_manager-IsResolvable :
      (cookie_name : Str) (lifetime : ℕ) (memory file cookie : H)
      → IsResolvable (new_manager cookie_name lifetime memory file cookie)
  unfolding new_manager extend insert lookup ◌==◌
  new_manager-IsResolvable cookie_name lifetime memory file cookie = λ e. cc

  -- A manager made by NewManager, whatever Extend, Driver and resolutions it has been through
  -- without a panic, resolves a handler without a panic, and keeps it: the next resolution gives
  -- the same handler and changes nothing.
  pub resolve_handler_total :
      (cookie_name : Str) (lifetime : ℕ) (memory file cookie : H) (cs : List (Config H))
      (m : Manager H)
      → configure_all cs (new_manager cookie_name lifetime memory file cookie) ≡ some m
      → (m' : Manager H) × (h : H) × (resolve_handler m ≡ some (m', h))
        × (resolve_handler m' ≡ some (m', h))
  resolve_handler_total cookie_name lifetime memory file cookie cs m e = resolve_handler_lem m (
      configure_all-IsResolvable cs _ m
        (new_manager-IsResolvable cookie_name lifetime memory file cookie) e)

-- ===== src/Session/Block/Serial.antt =====
-- Blocked routes: no update of a session is lost.
use golite.Base.{
  ℕ, Bool, true, false, ◌∷◌, ◌≡◌, ◌≢◌, refl, sym, ◌∙◌, arith, inl, inr, Bool-cases, Option-cases,
  ◌⊎◌, nat_eq, nat_eq_iff, update, Str, eq_iff,
}
use golite.Session.Store.{Session}
use golite.Session.Payload.{Codec, encode}
use golite.Session.Driver.{Driver, DriverLaws}
use golite.Session.Lock.{Locks}
use golite.Session.Manager.{
  Cipher, Handler, stored, stateless, load, load_stored, save, destroy_stale,
}
use golite.Session.Manager.Fixation.{load-id}
use golite.Session.Block.System.{
  Client, Stage, left, entered, running, ending, System, loading, saved, Step, has_no_id, acquires,
  times_out, reloads, saves, panics, unlocks, leaves, Reach, begins, later, replay,
}
use golite.Session.Block.Exclusion.{holds, Reach-Exclusive}

running_inj : {b c : Bool} {s t : Session} → running b s ≡ running c t → (b ≡ c) × (s ≡ t)
running_inj e = (cc, cc)

ending-running : (b c : Bool) (s : Session) → ending b ≢ running c s
ending-running b c s = λ e. cc

ending-entered : (b c : Bool) → ending b ≢ entered c
ending-entered b c = λ e. cc

module _ {D : Type 0} (codec : Codec) (driver : Driver D) (cipher : Cipher) where
  -- What one id reads before and after a request with another id saves.
  abbrev SameRead : Str → Handler D → Handler D → Type 0
  SameRead id (stored d) (stored d') = driver.read d' id ≡ driver.read d id
  SameRead id stateless stateless = Unit
  SameRead id h h' = ⊥

  load-SameRead :
      (h h' : Handler D) (fresh id : Str)
      → SameRead id h h'
      → load codec driver cipher h' fresh id ≡ load codec driver cipher h fresh id
  unfolding load load_stored
  load-SameRead (stored d) (stored d') fresh id e = rw e refl
  load-SameRead (stored d) stateless fresh id e = absurd e
  load-SameRead stateless (stored d) fresh id e = absurd e
  load-SameRead stateless stateless fresh id e = refl

  module _ (laws : DriverLaws driver) where
    destroy_stale-read :
        (d : D) (id original other : Str)
        → original ≢ other
        → driver.read (destroy_stale codec driver cipher d id original) other ≡ driver.read d other
    unfolding destroy_stale
    destroy_stale-read d id original other h = elim (Option-cases (driver.destroy d original)) [
      | inl e ↦ ground (arith, e)
      | inr (d', e) ↦
          grind (arith, e, laws.read-destroy d d' original other e, eq_iff original other)
    ]

    save-SameRead :
        (h : Handler D) (nonce original other : Str) (s : Session)
        → s.id ≢ other
        → original ≢ other
        → SameRead other h (save codec driver cipher h nonce s original).0
    unfolding save
    save-SameRead (stored d) nonce original other s n m = elim (Option-cases (encode codec s)) [
      | inl e ↦ rw e refl
      | inr (payload, e) ↦
          let d' = destroy_stale codec driver cipher d s.id original in
          elim (Option-cases (driver.write d' s.id payload)) [
            | inl f ↦ rw (e, f) (destroy_stale-read d s.id original other m)
            | inr (d'', f) ↦
                rw (e, f, laws.read-write d' d'' s.id payload other f)
                  (grind (arith, eq_iff s.id other, destroy_stale-read d s.id original other m))
          ]
    ]
    save-SameRead stateless nonce original other s n m = tt

    -- Invariant: the store is what the requests that saved leave when they run one after the other,
    -- and a request inside works on what it would load.
    module _ (request : ℕ → Client) where
      -- The id of a session that a request loads: its own, or the random one.
      abbrev pub IsOwn : ℕ → Session → Type 0
      IsOwn i s = (s.id ≡ (request i).fresh) ⊎ (s.id ≡ (request i).id)

      -- No request gives its session the id that another one came with: the ids are random.
      abbrev pub Apart : Type 0
      Apart =
          (i j : ℕ) (s : Session)
          → IsOwn i s
          → (request i).id ≢ (request j).id
          → ((request i).change s).id ≢ (request j).id

      loading-IsOwn : (g : Handler D) (i : ℕ) → IsOwn i (loading codec driver cipher request g i)
      loading-IsOwn g i = elim (load-id codec driver cipher g (request i).fresh (request i).id) [
        | inl e ↦ inl e
        | inr (e, f) ↦ inr e
      ]

      record Serial (h : Handler D) (s : System D) : Type 0 where
        store : s.handler ≡ replay codec driver cipher request h s.served
        current :
            (i : ℕ) (b : Bool) (own : Session)
            → s.phase i ≡ running b own
            → (b ≡ true) × (own ≡ loading codec driver cipher request s.handler i)
        locked_in : (i : ℕ) (b : Bool) → s.phase i ≡ entered b → b ≡ true

      -- A request that only moves itself.
      moves-Serial :
          {h : Handler D} (s : System D) (i : ℕ) (p : Stage) (locks : Locks) (u : Bool)
          → Serial h s
          → ((b : Bool) (own : Session)
              → p ≡ running b own
              → (b ≡ true) × (own ≡ loading codec driver cipher request s.handler i))
          → ((b : Bool) → p ≡ entered b → b ≡ true)
          → Serial h (record s { phase = update s.phase i p; locks = locks; unlocked = u })
      moves-Serial s i p locks u x a c = record {
        store = x.store;
        current = λ j b own e. elim (Bool-cases (nat_eq i j)) [
          | inl f ↦ rw (← (nat_eq_iff i j).0 f) (a b own (rw f at e))
          | inr f ↦ x.current j b own (rw f at e)
        ];
        locked_in = λ j b e. elim (Bool-cases (nat_eq i j)) [
          | inl f ↦ c b (rw f at e)
          | inr f ↦ x.locked_in j b (rw f at e)
        ];
      }

      module _ (apart : Apart) where
        loading-saved :
            (g : Handler D) (i j : ℕ) (own : Session)
            → IsOwn i own
            → (request i).id ≢ (request j).id
            → loading codec driver cipher request
                (saved codec driver cipher request g i ((request i).change own))
                j
              ≡ loading codec driver cipher request g j
        loading-saved g i j own o n =
            load-SameRead g (saved codec driver cipher request g i ((request i).change own))
              (request j).fresh (request j).id
              (save-SameRead g (request i).nonce (request i).id (request j).id
                ((request i).change own) (apart i j own o n) n)

        -- A request that holds its lock saves what it loading and served.
        saves-Serial :
            {h : Handler D} (s : System D) (i : ℕ) (b : Bool) (own : Session)
            → Serial h s
            → ((j : ℕ)
                → holds (s.phase i) ≡ true
                → holds (s.phase j) ≡ true
                → (request i).id ≡ (request j).id
                → i ≡ j)
            → s.phase i ≡ running b own
            → Serial h (record s {
              handler = saved codec driver cipher request s.handler i ((request i).change own);
              phase = update s.phase i (ending b);
              served = i ∷ s.served;
            })
        unfolding replay
        saves-Serial s i b own x unique e =
            let (own_lock, fresh) = x.current i b own e in
            let own_id : IsOwn i own = rw fresh (loading-IsOwn s.handler i) in
            record {
              store = rw (← x.store, ← fresh) refl;
              current = λ j c other f. elim (Bool-cases (nat_eq i j)) [
                | inl g ↦ absurd (ending-running b c other (rw g at f))
                | inr g ↦
                    let (lock, now) = x.current j c other (rw g at f) in
                    let apart_ids : (request i).id ≢ (request j).id = λ q.
                      let same : i ≡ j =
                        unique j (rw (e, own_lock) refl) (rw (rw g at f, lock) refl) q in
                      ground arith in
                    (lock, now ∙ sym (loading-saved s.handler i j own own_id apart_ids))
              ];
              locked_in = λ j c f. elim (Bool-cases (nat_eq i j)) [
                | inl g ↦ absurd (ending-entered b c (rw g at f))
                | inr g ↦ x.locked_in j c (rw g at f)
              ];
            }

        -- No step of a state in which all requests waited for their locks loses the invariant.
        Step-Serial :
            {h : Handler D} {s t : System D}
            → Step codec driver cipher request s t
            → ((i j : ℕ)
                → holds (s.phase i) ≡ true
                → holds (s.phase j) ≡ true
                → (request i).id ≡ (request j).id
                → i ≡ j)
            → (s.unlocked ≡ false → Serial h s)
            → t.unlocked ≡ false
            → Serial h t
        Step-Serial (has_no_id i w e) unique x u = absurd (ground arith)
        Step-Serial (times_out i w e f g) unique x u = absurd (ground arith)
        Step-Serial {s = s} (acquires i taken w e f) unique x u =
            moves-Serial s i (entered true) taken s.unlocked (x u) (λ b own q. cc)
              (λ b q. ground arith)
        Step-Serial {s = s} (reloads i b w) unique x u =
            moves-Serial s i (running b _) s.locks s.unlocked (x u)
              (λ c own q.
                let (same, fresh) = running_inj q in (sym same ∙ (x u).locked_in i b w, sym fresh))
              (λ c q. cc)
        Step-Serial {s = s} (saves i b own w) unique x u = saves-Serial s i b own (x u) (unique i) w
        Step-Serial {s = s} (panics i b own w) unique x u =
            moves-Serial s i (ending b) s.locks s.unlocked (x u) (λ c other q. cc) (λ c q. cc)
        Step-Serial {s = s} (unlocks i w) unique x u =
            moves-Serial s i left _ s.unlocked (x u) (λ c other q. cc) (λ c q. cc)
        Step-Serial {s = s} (leaves i w) unique x u =
            moves-Serial s i left s.locks s.unlocked (x u) (λ c other q. cc) (λ c q. cc)

        Reach-Serial :
            {h : Handler D} {s : System D}
            → Reach codec driver cipher request h s
            → s.unlocked ≡ false
            → Serial h s
        unfolding replay
        Reach-Serial begins u = record {
          store = refl;
          current = λ i b own e. cc;
          locked_in = λ i b e. cc;
        }
        Reach-Serial (later r st) u =
            Step-Serial st (Reach-Exclusive codec driver cipher request r).unique (Reach-Serial r) u

        -- No update is lost. While no request has gone on without its lock, the store that
        -- concurrent requests leave is the one that the requests which saved their session leave
        -- when they run one after the other, in the order of their saves: each loads, serves and
        -- saves before the next one loads. The driver meets its contract, and no request gives its
        -- session the id that another one came with.
        pub block_serial :
            {h : Handler D} {s : System D}
            → Reach codec driver cipher request h s
            → s.unlocked ≡ false
            → s.handler ≡ replay codec driver cipher request h s.served
        block_serial r u = (Reach-Serial r u).store

-- ===== src/Session/Manager/Persistence.antt =====
-- What one request saves, the next one loads: Manager.Save and Manager.Load of
-- app/Http/Session/SessionManager.go.
use golite.Base.{
  true, false, ◌||◌, none, some, List, [], ◌∷◌, ◌≡◌, ◌≢◌, inl, inr, refl, sym, ap, ◌∙◌, arith,
  if◌then◌else◌, ◌>>=◌, >>=-eq-some, Option-cases, Str, is_empty, eq_iff, eq_refl, lookup, has, add,
  add_all, has-add, ◌⊎◌, is_empty_of_ne,
}
use golite.Value.{Value}
use golite.Session.Store.{Session, new_session, age_flash}
use golite.Session.Flash.{age_flash_lem}
use golite.Session.Payload.{Codec, CodecLaws, payload_of, session_of, encode, decode_session}
use golite.Session.Driver.{Driver, DriverLaws, is_valid_session_id}
use golite.Session.Manager.{
  Cipher, CipherLaws, Handler, stored, stateless, present, load, load_stored, load_stateless, save,
  destroy_stale,
}

-- The session that the next request sees: the values but the old flash data, as the codec decodes
-- them, and the new flash keys turned old.
pub record Restores (decoded : Value → Value) (s t : Session) : Type 0 where
  pub value :
      (k : Str)
      → lookup k t.values
        ≡ (if has s.old_flash k then none else (lookup k s.values >>= λ v. some (decoded v)))
  pub old : (k : Str) → has t.old_flash k ≡ has s.new_flash k
  pub new : (k : Str) → has t.new_flash k ≡ false

has-add_all : (ks s : List Str) (k : Str) → has (add_all ks s) k ≡ (has ks k || has s k)
unfolding has
has-add_all [] s k = refl
has-add_all (j ∷ ks) s k = ground (arith, has-add_all ks (add j s) k, has-add j k s)

has-add_all_nil : (ks : List Str) (k : Str) → has (add_all ks []) k ≡ has ks k
unfolding has
has-add_all_nil ks k = ground (arith, has-add_all ks [] k)

is_empty_of_valid : (id : Str) → is_valid_session_id id ≡ true → is_empty id ≡ false
unfolding is_valid_session_id
is_empty_of_valid [] h = sym h
is_empty_of_valid (c ∷ id) h = refl

module _ {D : Type 0} (codec : Codec) (driver : Driver D) (cipher : Cipher)
    (decoded : Value → Value) (codec_laws : CodecLaws codec decoded) where
  -- Decoding an encoded session and ageing it.
  decode-encode :
      (s : Session) (id payload : Str)
      → encode codec s ≡ some payload
      → (t : Session) × (decode_session codec id payload ≡ some t)
        × (t.id ≡ id)
        × Restores decoded s (age_flash t)
  unfolding encode decode_session payload_of session_of
  decode-encode s id payload e =
      let (q, read, vals, olds, news) = codec_laws.round_trip (payload_of s) payload e in
      (
        session_of id q,
        rw read,
        refl,
        record {
          value = λ k.
              let (a, _, _) = age_flash_lem (session_of id q) k in
              ground (arith, a, vals k, olds, has-add_all_nil q.flash_old k);
          old = λ k.
              let (_, b, _) = age_flash_lem (session_of id q) k in
              ground (arith, b, news, has-add_all_nil q.flash_new k);
          new = λ k. (age_flash_lem (session_of id q) k).2;
        },
      )

  encode-ne : (s : Session) → encode codec s ≢ some []
  unfolding encode
  encode-ne s = codec_laws.not_empty (payload_of s)

  present-some : (t : Str) → t ≢ [] → present (some t) ≡ some t
  present-some [] h = absurd (h refl)
  present-some (c ∷ t) h = refl

  load_stored-eq :
      (d : D) (id fresh payload : Str) (t : Session)
      → is_valid_session_id id ≡ true
      → driver.read d id ≡ some payload
      → payload ≢ []
      → decode_session codec id payload ≡ some t
      → load_stored codec driver cipher d fresh id ≡ age_flash t
  unfolding load_stored
  load_stored-eq d id fresh payload t v r n e =
      rw (v, is_empty_of_valid id v, r, present-some payload n) (rw e)

  save_stored_cases :
      (d : D) (h : Handler D) (nonce original value : Str) (s : Session)
      → save codec driver cipher (stored d) nonce s original ≡ (h, some value)
      → (payload : Str) × (d' : D) × (encode codec s ≡ some payload)
        × (driver.write (destroy_stale codec driver cipher d s.id original) s.id payload ≡ some d')
        × (h ≡ stored d')
        × (value ≡ s.id)
  unfolding save
  save_stored_cases d h nonce original value s e = elim (Option-cases (encode codec s)) [
    | inl f ↦ absurd (ground arith)
    | inr (payload, f) ↦
        elim (Option-cases
          (driver.write (destroy_stale codec driver cipher d s.id original) s.id payload)) [
            | inl g ↦ absurd (ground arith)
            | inr (d', g) ↦ (payload, d', f, g, ground arith, ground arith)
          ]
  ]

  module _ (laws : DriverLaws driver) where
    -- With a driver that keeps records: when Save succeeds, the cookie value that it returns is the
    -- session's id, and the next request that sends it loads a session of that id which restores
    -- the saved one. The id has the form of a generated one.
    pub load-save_stored :
        (d : D) (h : Handler D) (nonce original fresh value : Str) (s : Session)
        → is_valid_session_id s.id ≡ true
        → save codec driver cipher (stored d) nonce s original ≡ (h, some value)
        → (value ≡ s.id)
          × ((load codec driver cipher h fresh value).id ≡ s.id)
          × Restores decoded s (load codec driver cipher h fresh value)
    unfolding load age_flash
    load-save_stored d h nonce original fresh value s v e =
        let (payload, d', enc, wrote, same_h, same) =
          save_stored_cases d h nonce original value s e in
        let (t, dec, tid, restores) = decode-encode s s.id payload enc in
        let n : payload ≢ [] = λ p. encode-ne s (enc ∙ ap some p) in
        let r : driver.read d' s.id ≡ some payload =
          laws.read-write _ d' s.id payload s.id wrote ∙ ground (arith, eq_refl s.id) in
        let loaded = load_stored-eq d' s.id fresh payload t v r n dec in
        rw (same_h, same) (refl, rw loaded tid, rw loaded restores)

    destroyed :
        (d gone : D) (id original : Str)
        → original ≢ []
        → id ≢ original
        → driver.destroy d original ≡ some gone
        → driver.read (destroy_stale codec driver cipher d id original) original ≡ some []
    unfolding destroy_stale
    destroyed d gone id original n differs e = ground (
      arith,
      e,
      is_empty_of_ne original n,
      eq_iff id original,
      eq_refl original,
      laws.read-destroy d gone original original e,
    )

    kept :
        (d : D) (id original : Str)
        → driver.destroy d original ≡ none
        → destroy_stale codec driver cipher d id original ≡ d
    unfolding destroy_stale
    kept d id original e = ground (arith, e)

    -- After a Regenerate or Invalidate, when Save succeeds: where the Destroy of the old id succeeds,
    -- a request that sends this id again gets a new, empty session under a generated id; where it
    -- fails, Save has ignored its error, and that request gets the session it got before the save.
    pub load-save_retired :
        (d : D) (h : Handler D) (nonce original fresh value : Str) (s : Session)
        → original ≢ []
        → s.id ≢ original
        → save codec driver cipher (stored d) nonce s original ≡ (h, some value)
        → ((gone : D) × (driver.destroy d original ≡ some gone)
            × (load codec driver cipher h fresh original ≡ new_session fresh))
          ⊎ ((driver.destroy d original ≡ none)
              × (load codec driver cipher h fresh original
                  ≡ load codec driver cipher (stored d) fresh original))
    unfolding load load_stored
    load-save_retired d h nonce original fresh value s n differs e =
        let (payload, d', enc, wrote, same_h, same) =
          save_stored_cases d h nonce original value s e in
        let r = laws.read-write _ d' s.id payload original wrote in
        elim (Option-cases (driver.destroy d original)) [
          | inr (gone, f) ↦
              let empty = destroyed d gone s.id original n differs f in
              let now : driver.read d' original ≡ some [] =
                r ∙ ground (arith, eq_iff s.id original, empty) in
              inl (gone, f, rw same_h (ground (arith, now)))
          | inl f ↦
              let now : driver.read d' original ≡ driver.read d original =
                r ∙ rw (kept d s.id original f) (ground (arith, eq_iff s.id original)) in
              inr (f, rw same_h (rw (load_stored, now) refl))
        ]

  -- With the stateless cookie driver: when Save succeeds, the next request that sends the cookie
  -- value loads a session, under a generated id, which restores the saved one.
  pub load-save_stateless :
      CipherLaws cipher
      → (h : Handler D) (nonce original fresh value : Str) (s : Session)
      → save codec driver cipher stateless nonce s original ≡ (h, some value)
      → ((load codec driver cipher h fresh value).id ≡ fresh)
        × Restores decoded s (load codec driver cipher h fresh value)
  unfolding save load load_stateless age_flash
  load-save_stateless laws h nonce original fresh value s e =
      let (payload, enc, sealed) = >>=-eq-some (encode codec s) _ (ap (λ r. r.1) e) in
      let (t, dec, tid, restores) = decode-encode s fresh payload enc in
      let n = is_empty_of_ne value (λ p. laws.not_empty nonce payload (sealed ∙ ap some p)) in
      let opened = laws.decrypt-encrypt nonce payload value sealed in
      let same : h ≡ stateless = sym (ap (λ r. r.0) e) in
      rw (same, n, opened) (rw dec (tid, restores))

-- ===== src/Session/Tests/Fixtures.antt =====
-- A codec and a cipher that meet their laws, and what the runs of app/Http/Session share.
use golite.Base.{
  ℕ, zero, suc, Option, none, some, List, [], ◌∷◌, ◌≡◌, ◌≢◌, refl, sym, arith, ◌>>=◌, >>=-eq-some,
  Str, str, Map, lookup,
}
use golite.Value.{Value, null, boolean, int, int64, uint, float64, text, slice, object}
use golite.Session.Payload.{Payload, Codec, CodecLaws, map_of}
use golite.Session.Manager.{Cipher, CipherLaws}

-- A codec for a single text value: each byte of its key plus one, a zero, and the value.
abbrev pub text_of : Value → Option Str
text_of (text t) = some t
text_of _ = none

abbrev pub entry_of : Map Value → Option (Str × Str)
entry_of [] = none
entry_of ((k, v) ∷ []) = text_of v >>= λ t. some (k, t)
entry_of (a ∷ b ∷ m) = none

abbrev pub frame : Str → Str → Str
frame [] t = 0 ∷ t
frame (c ∷ k) t = suc c ∷ frame k t

abbrev pub unframe : Str → Str × Str
unframe [] = ([], [])
unframe (zero ∷ t) = ([], t)
unframe (suc c ∷ s) = let r = unframe s in (c ∷ r.0, r.1)

abbrev pub when_empty : List Str → Option Str → Option Str
when_empty [] o = o
when_empty (k ∷ ks) o = none

abbrev pub payload_of_entry : Str × Str → Payload
payload_of_entry (k, t) = record {
  values = some ((k, text t) ∷ []);
  flash_old = [];
  flash_new = [];
}

abbrev pub text_codec : Codec
text_codec = record {
  marshal = λ p.
      when_empty p.flash_old
        (when_empty p.flash_new (entry_of (map_of p.values) >>= λ e. some (frame e.0 e.1)));
  unmarshal = λ s. some (payload_of_entry (unframe s));
}

unframe-frame : (k t : Str) → unframe (frame k t) ≡ (k, t)
unframe-frame [] t = refl
unframe-frame (c ∷ k) t = rw (unframe-frame k t) refl

frame_ne : (k t : Str) → frame k t ≢ []
frame_ne [] t = λ e. cc
frame_ne (c ∷ k) t = λ e. cc

text_of_sound : (v : Value) (t : Str) → text_of v ≡ some t → v ≡ text t
text_of_sound (text u) t h = ground arith
text_of_sound null t h = cc
text_of_sound (boolean b) t h = cc
text_of_sound (int n) t h = cc
text_of_sound (int64 n) t h = cc
text_of_sound (uint n) t h = cc
text_of_sound (float64 n) t h = cc
text_of_sound (slice vs) t h = cc
text_of_sound (object fs) t h = cc

entry_of_sound : (m : Map Value) (k t : Str) → entry_of m ≡ some (k, t) → m ≡ (k, text t) ∷ []
entry_of_sound [] k t h = cc
entry_of_sound ((j, v) ∷ []) k t h =
    let (u, e, f) = >>=-eq-some (text_of v) _ h in let value = text_of_sound v u e in ground arith
entry_of_sound (a ∷ b ∷ m) k t h = cc

when_empty_sound :
    (ks : List Str) (o : Option Str) (t : Str) → when_empty ks o ≡ some t → (ks ≡ []) × (o ≡ some t)
when_empty_sound [] o t h = (refl, h)
when_empty_sound (k ∷ ks) o t h = cc

pub text_codec-CodecLaws : CodecLaws text_codec (λ v. v)
text_codec-CodecLaws = record {
  round_trip = λ p t h.
      let (a, h1) = when_empty_sound p.flash_old _ t h in
      let (b, h2) = when_empty_sound p.flash_new _ t h1 in
      let ((k, v), e, f) = >>=-eq-some (entry_of (map_of p.values)) _ h2 in
      let m = entry_of_sound (map_of p.values) k v e in
      let framed : frame k v ≡ t = ground arith in
      (
        payload_of_entry (k, v),
        rw (← framed, unframe-frame k v) refl,
        λ j. rw m (unfold lookup in ground arith),
        sym a,
        sym b,
      );
  not_empty = λ p h.
      let (a, h1) = when_empty_sound p.flash_old _ [] h in
      let (b, h2) = when_empty_sound p.flash_new _ [] h1 in
      let ((k, v), e, f) = >>=-eq-some (entry_of (map_of p.values)) _ h2 in
      frame_ne k v (ground arith);
}

-- A cipher that marks its ciphertexts; the nonce is ignored.
abbrev pub unmark : Str → Option Str
unmark [] = none
unmark (c ∷ s) = some s

abbrev pub marking_cipher : Cipher
marking_cipher = record { encrypt = λ nonce p. some (1 ∷ p); decrypt = unmark }

pub marking_cipher-CipherLaws : CipherLaws marking_cipher
marking_cipher-CipherLaws = record {
  decrypt-encrypt = λ nonce p t h. let e : 1 ∷ p ≡ t = ground arith in rw (← e) refl;
  not_empty = λ nonce p h. cc;
}

abbrev pub status : Str
status = str "status"

abbrev pub user : Str
user = str "user"

abbrev pub old_id : Str
old_id = str "old"

abbrev pub new_id : Str
new_id = str "new"

abbrev pub fresh_id : Str
fresh_id = str "fresh"

abbrev pub truncate : ℕ → ℕ
truncate n = 0

abbrev pub clock : ℕ
clock = 5

abbrev pub saved_payload : Str
saved_payload = frame user (str "ann")

-- ===== src/Session/Payload.antt =====
-- app/Http/Session/Session.go: encode and decodeSession. encoding/json is an argument.
use golite.Base.{Option, none, some, List, [], ◌≡◌, ◌≢◌, ◌>>=◌, Str, Map, lookup, add_all}
use golite.Value.{Value}
use golite.Session.Store.{Session}

-- sessionPayload; `values` may be a nil map.
pub record Payload : Type 0 where
  pub values : Option (Map Value)
  pub flash_old : List Str
  pub flash_new : List Str

-- json.Marshal and json.Unmarshal at sessionPayload; `none` is an error.
pub record Codec : Type 0 where
  pub marshal : Payload → Option Str
  pub unmarshal : Str → Option Payload

abbrev pub map_of : Option (Map Value) → Map Value
map_of none = []
map_of (some m) = m

-- What encoding/json documents of a round trip: the keys and the lists come back, and each value
-- as `decoded` makes it (a number comes back as a float64). The text is not empty.
pub record CodecLaws (c : Codec) (decoded : Value → Value) : Type 0 where
  pub round_trip :
      (p : Payload) (t : Str)
      → c.marshal p ≡ some t
      → (q : Payload) × (c.unmarshal t ≡ some q)
        × ((k : Str)
            → lookup k (map_of q.values) ≡ (lookup k (map_of p.values) >>= λ v. some (decoded v)))
        × (q.flash_old ≡ p.flash_old)
        × (q.flash_new ≡ p.flash_new)
  pub not_empty : (p : Payload) → c.marshal p ≢ some []

unfoldable pub payload_of : Session → Payload
payload_of s = record { values = some s.values; flash_old = s.old_flash; flash_new = s.new_flash }

unfoldable pub session_of : Str → Payload → Session
session_of id p = record {
  id = id;
  values = map_of p.values;
  old_flash = add_all p.flash_old [];
  new_flash = add_all p.flash_new [];
}

module _ (c : Codec) where
  unfoldable pub encode : Session → Option Str
  unfolding payload_of
  encode s = c.marshal (payload_of s)

  unfoldable pub decode_session : Str → Str → Option Session
  unfolding session_of
  decode_session id raw = c.unmarshal raw >>= λ p. some (session_of id p)

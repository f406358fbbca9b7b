-- ===== src/Session/Token.antt =====
-- The CSRF token of app/Http/Session/Session.go.
use golite.Base.{
  false, none, some, List, [], ◌∷◌, ◌≡◌, refl, ap, ◌∙◌, arith, All, Str, is_empty, eq_refl,
  lookup-insert,
}
use golite.Value.{text}
use golite.Session.Store.{Session, csrf_token_key, token_read, token_store, token, regenerate}

token_read-token_store :
    (a : Str) (s : Session)
    → is_empty a ≡ false
    → token_read (token_store a s).0 ≡ some (token_store a s).1
unfolding token_store token_read
token_read-token_store a s h =
    ground
      (arith, lookup-insert csrf_token_key csrf_token_key (text a) s.values, eq_refl csrf_token_key)

token_read-token :
    (a : Str) (s : Session) → is_empty a ≡ false → token_read (token a s).0 ≡ some (token a s).1
unfolding token
token_read-token a s h = ground (arith, token_read-token_store a s)

token_of_read : (b t : Str) (s : Session) → token_read s ≡ some t → token b s ≡ (s, t)
unfolding token
token_of_read b t s h = ground arith

token_store_of_read : (b t : Str) (s : Session) → token_read s ≡ some t → token_store b s ≡ (s, t)
unfolding token_store
token_store_of_read b t s h = ground arith

token_read-regenerate : (fresh : Str) (s : Session) → token_read (regenerate fresh s) ≡ token_read s
unfolding token_read regenerate
token_read-regenerate fresh s = refl

-- Once Token has returned a token, every later call returns the same one and changes nothing,
-- and it is still returned after the session was given a new id. The generated token is not empty.
pub token_stable :
    (a b fresh : Str) (s : Session)
    → is_empty a ≡ false
    → (token b (token a s).0 ≡ ((token a s).0, (token a s).1))
      × ((token b (regenerate fresh (token a s).0)).1 ≡ (token a s).1)
token_stable a b fresh s h =
    let kept = token_read-token a s h in
    (
      token_of_read b _ _ kept,
      ap (λ r. r.1) (token_of_read b _ _ (token_read-regenerate fresh _ ∙ kept)),
    )

-- Goroutines that all found no token and generated one each, in the order in which they get the
-- write lock: the tokens that they return.
unfoldable pub store_all : List Str → Session → List Str
store_all [] s = []
store_all (a ∷ others) s = let (s', t) = token_store a s in t ∷ store_all others s'

store_all_after :
    (others : List Str) (t : Str) (s : Session)
    → token_read s ≡ some t
    → All (λ u. u ≡ t) (store_all others s)
unfolding store_all
store_all_after [] t s h = tt
store_all_after (a ∷ others) t s h =
    rw (token_store_of_read a t s h) (refl, store_all_after others t s h)

token_store_result : (a : Str) (s : Session) → token_read s ≡ none → (token_store a s).1 ≡ a
unfolding token_store
token_store_result a s h = ground arith

-- Where no token is stored yet, goroutines that race to create one all return the token of the
-- first that gets the lock, in whatever order they get it. That token is not empty.
pub token_race :
    (a : Str) (others : List Str) (s : Session)
    → token_read s ≡ none
    → is_empty a ≡ false
    → All (λ u. u ≡ a) (store_all (a ∷ others) s)
unfolding store_all
token_race a others s h k =
    let first = token_store_result a s h in
    (
      first,
      store_all_after others a (token_store a s).0 (token_read-token_store a s k ∙ ap some first),
    )

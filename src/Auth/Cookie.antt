-- ===== src/Auth/Cookie.antt =====
-- auth/remember.go: the remember-me cookie.
use golite.Base.{
  ℕ, ◌^◌, ◌<◌, Bool, false, not, ◌||◌, Option, none, some, ◌∷◌, ◌++◌, ◌≡◌, refl, arith,
  if◌then◌else◌, ◌>>=◌, All-mono, Str, is_empty, cut,
}
use golite.Middleware.Spec.{cut-append}
use golite.Session.Manager.{Cipher, CipherLaws}
use golite.Auth.Decimal.{print_uint, parse_uint, parse_uint-print_uint, print_uint_range}

-- EncodeRememberCookie, with the nonce of the cipher; `none` is an error.
unfoldable pub encode_remember_cookie : Cipher → Str → ℕ → Str → Option Str
encode_remember_cookie c nonce id token = c.encrypt nonce (print_uint id ++ (b'|' ∷ token))

abbrev cookie_parts : Str × Str × Bool → Option (ℕ × Str)
cookie_parts (id, token, found) =
    if not found || is_empty token then none else (parse_uint id >>= λ n. some (n, token))

unfoldable pub decode_remember_cookie : Cipher → Str → Option (ℕ × Str)
decode_remember_cookie c value = c.decrypt value >>= λ plaintext. cookie_parts (cut plaintext b'|')

-- A remember-me cookie that was made for a user's id and a token decodes to them, for any 64-bit id
-- and any token that is not empty.
pub decode_remember_cookie-encode_remember_cookie :
    (c : Cipher)
    → CipherLaws c
    → (nonce : Str) (id : ℕ) (token cookie : Str) → id < 2 ^ 64
    → is_empty token ≡ false
    → encode_remember_cookie c nonce id token ≡ some cookie
    → decode_remember_cookie c cookie ≡ some (id, token)
unfolding encode_remember_cookie decode_remember_cookie
decode_remember_cookie-encode_remember_cookie c laws nonce id token cookie small some_token e =
    let plain = laws.decrypt-encrypt nonce (print_uint id ++ (b'|' ∷ token)) cookie e in
    let parts =
      cut-append (print_uint id) token b'|'
        (All-mono _ _ (λ d r. ground arith) (print_uint id) (print_uint_range id)) in
    rw (plain, parts, some_token, parse_uint-print_uint id small) refl

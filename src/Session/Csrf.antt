-- ===== src/Session/Csrf.antt =====
-- app/Http/Middleware/VerifyCsrfToken.go, on a request whose session is attached.
use golite.Base.{
  ℕ, Bool, true, false, not, ◌&&◌, ◌||◌, Option, none, some, List, [], ◌∷◌, ◌++◌, ◌≡◌, ◌≢◌, ◌⊎◌,
  if◌then◌else◌, is_some, Str, str, is_empty, ◌==◌, cut_prefix, cut_suffix, has,
}
use golite.Session.Store.{Session, token}
use golite.Pipeline.{Prog, done, act, test, call}

-- What the middleware reads and writes. `generated` is the token that generateRandomToken would
-- give.
pub record Protected : Type 0 where
  pub method : Str
  pub path : Str
  pub form_token : Str
  pub csrf_header : Str
  pub xsrf_header : Str
  pub session : Session
  pub generated : Str
  pub xsrf_cookies : List Str
  pub status : ℕ

abbrev pub safe_methods : List Str
safe_methods = str "GET" ∷ str "HEAD" ∷ str "OPTIONS" ∷ []

abbrev is_prefix : Option Str → Str → Bool
is_prefix none path = false
is_prefix (some prefix) path = is_some (cut_prefix path prefix)

unfoldable pub matches_except_pattern : Str → Str → Bool
matches_except_pattern pattern path =
    if pattern == path then true else is_prefix (cut_suffix pattern (str "*")) path

unfoldable pub is_excluded : List Str → Str → Bool
is_excluded [] path = false
is_excluded (pattern ∷ except) path =
    let rest = is_excluded except path in if matches_except_pattern pattern path then true else rest

unfoldable pub token_from_request : Protected → Str
token_from_request s =
    if not (is_empty s.form_token)
    then s.form_token
    else (if not (is_empty s.csrf_header) then s.csrf_header else s.xsrf_header)

-- c.Session().Token(), which stores a token where there is none.
unfoldable pub with_token : Protected → Protected
with_token s = record s { session = (token s.generated s.session).0 }

abbrev pub expected : Protected → Str
expected s = (token s.generated s.session).1

unfoldable pub tokens_equal : Protected → Bool
tokens_equal s =
    not (is_empty (expected s))
    && not (is_empty (token_from_request s))
    && (expected s == token_from_request s)

unfoldable pub sync_cookie : Protected → Protected
sync_cookie s = record s {
  session = (token s.generated s.session).0;
  xsrf_cookies = s.xsrf_cookies ++ (expected s ∷ []);
}

abbrev pub mismatch : Protected → Protected
mismatch s = record s { status = 419 }

abbrev pub is_exempt : List Str → Protected → Bool
is_exempt except s = has safe_methods s.method || is_excluded except s.path

abbrev admit : Prog Protected
admit = act sync_cookie (call done)

-- VerifyCsrfToken.Handle. The test of the tokens comes last, and leaves a token in the session.
unfoldable pub verify : List Str → Prog Protected
verify except =
    test (is_exempt except) admit
      (test tokens_equal (act with_token admit) (act with_token (act mismatch done)))

-- An entry of the list is the path, or is a beginning of the path followed by "*".
abbrev pub Excluded : List Str → Str → Type 0
Excluded [] path = ⊥
Excluded (pattern ∷ except) path =
    (pattern ≡ path)
    ⊎ ((prefix more : Str) × (pattern ≡ prefix ++ str "*") × (path ≡ prefix ++ more))
    ⊎ Excluded except path

-- The request carries the token of the session.
abbrev pub Presents : Protected → Type 0
Presents s = (expected s ≢ []) × (expected s ≡ token_from_request s)

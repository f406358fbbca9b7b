-- ===== src/Guards.antt =====
-- app/Http/Middleware: MethodSpoofingMiddleware.go, RoleMiddleware.go, TrustHosts.go and
-- TrustProxiesMiddleware.go, as programs of the pipeline. net.SplitHostPort, net.ParseIP and the
-- test of a CIDR range are arguments.
pub mod Hosts
pub mod Proxies
pub mod Tests
use golite.Base.{
  ℕ, Bool, true, false, not, ◌&&◌, ◌||◌, Option, none, some, List, [], ◌∷◌, ◌++◌, if◌then◌else◌,
  is_some, any, ltb, nat_eq, length, Str, str, is_empty, ◌==◌, has, to_upper, trim_space,
  equal_fold, cut_prefix, cut_suffix, split,
}
use golite.Pipeline.{Prog, done, act, test, call}

-- What these middleware read and write of a request.
pub record Inbound : Type 0 where
  pub method : Str
  pub override_header : Str
  pub form_method : Str
  pub user_role : Str
  pub host : Str
  pub remote_addr : Str
  pub forwarded : Str
  pub status : ℕ

abbrev pub spoofable_methods : List Str
spoofable_methods = str "PUT" ∷ str "PATCH" ∷ str "DELETE" ∷ []

unfoldable pub resolve_override : Inbound → Str
resolve_override r =
    if not (is_empty r.override_header)
    then to_upper (trim_space r.override_header)
    else to_upper (trim_space r.form_method)

abbrev pub spoofs : Inbound → Bool
spoofs r = (r.method == str "POST") && has spoofable_methods (resolve_override r)

unfoldable pub method_spoofing : Prog Inbound
method_spoofing =
    test spoofs (act (λ r. record r { method = resolve_override r }) (call done)) (call done)

abbrev pub has_role : List Str → Inbound → Bool
has_role params r = any (λ allowed. equal_fold (trim_space allowed) r.user_role) params

-- Role.Handle
unfoldable pub role : List Str → Prog Inbound
role params = test (has_role params) (call done) (act (λ r. record r { status = 403 }) done)

abbrev ends_host : Option Str → Str → Bool
ends_host none host = false
ends_host (some suffix) host = is_some (cut_suffix host suffix) && ltb (length suffix) (length host)

unfoldable pub matches_host_pattern : Str → Str → Bool
matches_host_pattern pattern host =
    if pattern == host then true else ends_host (cut_prefix pattern (str "*")) host

abbrev pub no_patterns : List Str → Bool
no_patterns [] = true
no_patterns (p ∷ patterns) = false

abbrev has_slash : Str → Bool
has_slash s = any (λ c. nat_eq c b'/') s

abbrev first_part : List Str → Str
first_part [] = []
first_part (part ∷ parts) = trim_space part

unfoldable pub first_forwarded_address : Str → Str
first_forwarded_address forwarded = first_part (split forwarded b',')

module _ (split_host_port : Str → Option (Str × Str)) where
  abbrev host_part : Str → Option (Str × Str) → Str
  host_part addr none = addr
  host_part addr (some (host, port)) = host

  abbrev pub host_of : Str → Str
  host_of addr = host_part addr (split_host_port addr)

  abbrev pub is_trusted_host : List Str → Inbound → Bool
  is_trusted_host patterns r = any (λ p. matches_host_pattern p (host_of r.host)) patterns

  -- TrustHosts.Handle
  unfoldable pub trust_hosts : List Str → Prog Inbound
  trust_hosts patterns =
      test (λ r. no_patterns patterns) (call done)
        (test (is_trusted_host patterns) (call done) (act (λ r. record r { status = 400 }) done))

  module _ (is_ip : Str → Bool) (in_range : Str → Str → Bool)
      (join_host_port : Str → Str → Str) where
    abbrev pub trusts : Str → Str → Bool
    trusts host trusted =
        if trusted == str "*"
        then true
        else (if has_slash trusted then in_range trusted host else trusted == host)

    -- trustedPeerHost, "" for a peer that is not trusted.
    unfoldable pub trusted_peer_host : List Str → Str → Str
    trusted_peer_host proxies addr =
        if not (is_ip (host_of addr))
        then []
        else (if any (trusts (host_of addr)) proxies then host_of addr else [])

    abbrev port_part : Option (Str × Str) → Str
    port_part none = str "0"
    port_part (some (host, port)) = port

    abbrev pub peer_port : Str → Str
    peer_port addr = port_part (split_host_port addr)

    abbrev pub forwards : List Str → Inbound → Bool
    forwards proxies r =
        not (is_empty (trusted_peer_host proxies r.remote_addr))
        && not (is_empty r.forwarded)
        && not (is_empty (first_forwarded_address r.forwarded))

    -- TrustProxies.Handle
    unfoldable pub trust_proxies : List Str → Prog Inbound
    unfolding trusted_peer_host
    trust_proxies proxies =
        test (forwards proxies)
          (act
            (λ r. record r {
              remote_addr =
                  join_host_port (first_forwarded_address r.forwarded) (peer_port r.remote_addr);
            })
            (call done))
          (call done)

-- ===== src/Guards/Proxies.antt =====
-- app/Http/Middleware/TrustProxiesMiddleware.go: when the address of the client is replaced.
use golite.Base.{Bool, true, Option, List, ◌≡◌, any, Str, ◌≢◌, []}
use golite.Pipeline.Onion.{Effect}
use golite.Guards.{Inbound, host_of, trusts, first_forwarded_address}

module _ {M : Type 0} (rest : Inbound → List M → Effect Inbound M)
    (split_host_port : Str → Option (Str × Str)) (is_ip : Str → Bool) (in_range : Str → Str → Bool)
    (join_host_port : Str → Str → Str) where
  -- The peer's host is an IP address that an entry of the list trusts, and X-Forwarded-For names a
  -- first address.
  abbrev pub Forwards : List Str → Inbound → Type 0
  Forwards proxies r =
      (is_ip (host_of split_host_port r.remote_addr) ≡ true)
      × (any
            (trusts split_host_port is_ip in_range join_host_port
              (host_of split_host_port r.remote_addr))
            proxies
          ≡ true)
      × (host_of split_host_port r.remote_addr ≢ [])
      × (first_forwarded_address r.forwarded ≢ [])

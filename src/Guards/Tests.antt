-- ===== src/Guards/Tests.antt =====
-- Runs of TrustHosts and TrustProxies at concrete requests.
use golite.Base.{
  Bool, true, false, Option, none, some, List, [], ◌∷◌, ◌++◌, ◌≡◌, ◌≢◌, ◌⊎◌, if◌then◌else◌, Str,
  str, ◌==◌,
}
use golite.Pipeline.Onion.{Effect, returns, around}
use golite.Guards.{Inbound, host_of, trust_hosts}
use golite.Guards.Hosts.{MatchesOne, trust_hosts_lem}

abbrev inbound : Inbound
inbound = record {
  method = str "POST";
  override_header = [];
  form_method = [];
  user_role = [];
  host = str "api.example.com:80";
  remote_addr = str "10.0.0.1:1";
  forwarded = str "1.2.3.4, 10.0.0.7";
  status = 200;
}

-- The split of the two addresses of `inbound`; any other one has no port.
abbrev split_addr : Str → Option (Str × Str)
split_addr s =
    if s == str "api.example.com:80"
    then some (str "api.example.com", str "80")
    else (if s == str "10.0.0.1:1" then some (str "10.0.0.1", str "1") else none)

abbrev any_ip : Str → Bool
any_ip s = true

abbrev no_range : Str → Str → Bool
no_range range host = false

abbrev join_addr : Str → Str → Str
join_addr host port = host ++ str ":" ++ port

abbrev handler : Inbound → List Str → Effect Inbound Str
handler r ms = returns r (r.remote_addr ∷ ms)

abbrev patterns : List Str
patterns = str "*.example.com" ∷ []

trust_hosts_example :
    (((patterns ≡ []) ⊎ MatchesOne patterns (host_of split_addr inbound.host))
      × (around handler (trust_hosts split_addr patterns) inbound [] ≡ handler inbound []))
    ⊎ ((patterns ≢ [])
        × (¬ MatchesOne patterns (host_of split_addr inbound.host))
        × (around handler (trust_hosts split_addr patterns) inbound []
            ≡ returns (record inbound { status = 400 }) []))
trust_hosts_example = trust_hosts_lem handler split_addr patterns inbound []

abbrev proxies : List Str
proxies = str "10.0.0.1" ∷ []

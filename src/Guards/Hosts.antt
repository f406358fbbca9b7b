-- ===== src/Guards/Hosts.antt =====
-- app/Http/Middleware: which requests TrustHosts, Role and MethodSpoofing let through, and as what.
use golite.Base.{
  ◌<◌, true, Option, List, [], ◌∷◌, ◌++◌, ◌≡◌, ◌≢◌, ◌⊎◌, inl, inr, refl, ap, arith, Bool-cases,
  Option-cases, any, ltb, ltb→lt, lt→ltb, eq_refl, cut_prefix-append, cut_suffix-append, length,
  Str, str, ◌==◌, eq_iff, has, cut_prefix, cut_prefix_sound, cut_suffix, cut_suffix_sound,
  length-append, some,
}
use golite.Pipeline.Onion.{Effect, returns, panics, around}
use golite.Guards.{
  Inbound, spoofs, spoofable_methods, resolve_override, method_spoofing, matches_host_pattern,
  host_of, is_trusted_host, trust_hosts,
}

-- The pattern is the host, or "*" in front of an end of the host that is not all of it.
abbrev pub Matches : Str → Str → Type 0
Matches pattern host =
    (pattern ≡ host)
    ⊎ ((suffix label : Str) × (pattern ≡ str "*" ++ suffix)
        × (host ≡ label ++ suffix)
        × (label ≢ []))

abbrev pub MatchesOne : List Str → Str → Type 0
MatchesOne [] host = ⊥
MatchesOne (p ∷ patterns) host = Matches p host ⊎ MatchesOne patterns host

longer_label :
    (host label suffix : Str) → host ≡ label ++ suffix → length suffix < length host → label ≢ []
longer_label host [] suffix e h =
    absurd (let same : length host ≡ length suffix = ap length e in omega arith)
longer_label host (c ∷ label) suffix e h = λ f. cc

matches_host_pattern-Matches :
    (pattern host : Str) → matches_host_pattern pattern host ≡ true → Matches pattern host
unfolding matches_host_pattern
matches_host_pattern-Matches pattern host h = elim (Bool-cases (pattern == host)) [
  | inl e ↦ inl ((eq_iff pattern host).0 e)
  | inr e ↦ elim (Option-cases (cut_prefix pattern (str "*"))) [
    | inl f ↦ absurd (ground (arith, rw (matches_host_pattern, e, f) at h))
    | inr (suffix, f) ↦ elim (Option-cases (cut_suffix host suffix)) [
      | inl g ↦ absurd (ground (arith, rw (matches_host_pattern, e, f, g) at h))
      | inr (label, g) ↦
          let whole = cut_suffix_sound host suffix label g in
          let long : ltb (length suffix) (length host) ≡ true =
            rw (matches_host_pattern, e, f, g) at h in
          inr (
            suffix,
            label,
            cut_prefix_sound pattern (str "*") suffix f,
            whole,
            longer_label host label suffix whole (ltb→lt (length suffix) (length host) long),
          )
    ]
  ]
]

any-MatchesOne :
    (patterns : List Str) (host : Str)
    → any (λ p. matches_host_pattern p host) patterns ≡ true
    → MatchesOne patterns host
any-MatchesOne [] host h = cc
any-MatchesOne (p ∷ patterns) host h = elim (Bool-cases (matches_host_pattern p host)) [
  | inl e ↦ inl (matches_host_pattern-Matches p host e)
  | inr e ↦ inr (any-MatchesOne patterns host (rw e at h))
]

shorter_suffix :
    (label suffix : Str) → label ≢ [] → ltb (length suffix) (length (label ++ suffix)) ≡ true
shorter_suffix [] suffix h = absurd (h refl)
shorter_suffix (c ∷ label) suffix h = lt→ltb _ _ (omega (arith, length-append (c ∷ label) suffix))

Matches-matches_host_pattern :
    (pattern host : Str) → Matches pattern host → matches_host_pattern pattern host ≡ true
unfolding matches_host_pattern
Matches-matches_host_pattern pattern host (inl e) = rw (e, eq_refl host) refl
Matches-matches_host_pattern pattern host (inr (suffix, label, e, f, n)) =
    elim (Bool-cases (pattern == host)) [
      | inl g ↦ rw g refl
      | inr g ↦
          let cut_is : cut_prefix pattern (str "*") ≡ some suffix =
            rw e (cut_prefix-append (str "*") suffix) in
          let rest_is : cut_suffix host suffix ≡ some label =
            rw f (cut_suffix-append label suffix) in
          let long : ltb (length suffix) (length host) ≡ true =
            rw f (shorter_suffix label suffix n) in
          rw (g, cut_is, rest_is, long) refl
    ]

MatchesOne-any :
    (patterns : List Str) (host : Str)
    → MatchesOne patterns host
    → any (λ p. matches_host_pattern p host) patterns ≡ true
MatchesOne-any [] host h = absurd h
MatchesOne-any (p ∷ patterns) host (inl h) = rw (Matches-matches_host_pattern p host h) refl
MatchesOne-any (p ∷ patterns) host (inr h) = ground (arith, MatchesOne-any patterns host h)

pub effect_eta :
    {M : Type 0} (e : Effect Inbound M)
    → (elim e [ returns t ns ↦ returns t ns | panics t ns ↦ panics t ns ]) ≡ e
effect_eta (returns t ns) = refl
effect_eta (panics t ns) = refl

module _ {M : Type 0} (rest : Inbound → List M → Effect Inbound M) where
  -- TrustHosts lets a request through, as it is, only without patterns or when its host, less the port,
  -- is one of them or ends as a pattern says after its "*", with something in front; any other
  -- request is answered with 400, and neither the rest of the chain nor the handler runs.
  pub trust_hosts_lem :
      (split_host_port : Str → Option (Str × Str)) (patterns : List Str) (r : Inbound) (ms : List M)
      → (((patterns ≡ []) ⊎ MatchesOne patterns (host_of split_host_port r.host))
          × (around rest (trust_hosts split_host_port patterns) r ms ≡ rest r ms))
        ⊎ ((patterns ≢ [])
            × (¬ MatchesOne patterns (host_of split_host_port r.host))
            × (around rest (trust_hosts split_host_port patterns) r ms
                ≡ returns (record r { status = 400 }) ms))
  unfolding trust_hosts around
  trust_hosts_lem split_host_port [] r ms = inl (inl refl, effect_eta (rest r ms))
  trust_hosts_lem split_host_port (p ∷ patterns) r ms =
      elim (Bool-cases (is_trusted_host split_host_port (p ∷ patterns) r)) [
        | inl e ↦ inl (
          inr (any-MatchesOne (p ∷ patterns) (host_of split_host_port r.host) e),
          rw (around, trust_hosts, e) (effect_eta (rest r ms)),
        )
        | inr e ↦ inr (
          λ f. cc,
          λ m.
              absurd
                (ground (arith, MatchesOne-any (p ∷ patterns) (host_of split_host_port r.host) m)),
          rw (around, trust_hosts, e) refl,
        )
      ]

  -- MethodSpoofing changes at most the method, and that only of a POST to PUT, PATCH or DELETE.
  method_spoofing_lem :
      (r : Inbound) (ms : List M)
      → (around rest method_spoofing r ms ≡ rest r ms)
        ⊎ ((r.method ≡ str "POST")
            × (has spoofable_methods (resolve_override r) ≡ true)
            × (around rest method_spoofing r ms
                ≡ rest (record r { method = resolve_override r }) ms))
  unfolding method_spoofing around
  method_spoofing_lem r ms = elim (Bool-cases (spoofs r)) [
    | inl e ↦ inr (
      (eq_iff r.method (str "POST")).0 (ground arith),
      ground arith,
      rw (around, method_spoofing, e)
          (effect_eta (rest (record r { method = resolve_override r }) ms)),
    )
    | inr e ↦ inl (rw (around, method_spoofing, e) (effect_eta (rest r ms)))
  ]

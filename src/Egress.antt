-- ===== src/Egress.antt =====
-- crates/z8run-core/src/egress.rs: where the nodes of a flow may connect, and how much they may
-- read back.
pub mod Policy
pub mod Body
use z8run.Base.{
  ℕ, zero, suc, ◌+◌, ◌*◌, ◌<◌, ◌≤◌, String, Bool, true, false, not, ◌||◌, Option, none, some, List,
  [], ◌∷◌, ◌++◌, length, ltb, leb, ◌==◌, if◌then◌else◌, str_eq,
}
use z8run.Error.{Z8Result}
use z8run.Net.{IpAddr, to_canonical, NetLib, any_contains}

pub data EgressError : Type 0 where
  invalid_url : String → EgressError
  scheme_refused : String → EgressError
  blocked : (destination : String) → EgressError
  resolve_failed : (host reason : String) → EgressError
  too_large : (limit : ℕ) → EgressError
  http_failed : String → EgressError
  json_failed : String → EgressError

pub data EgressResult {ℓ} (A : Type ℓ) : Type ℓ where
  allowed : A → EgressResult A
  refused : EgressError → EgressResult A

pub data EgressMode : Type 0 where
  strict : EgressMode
  permissive : EgressMode

abbrev pub is_permissive : EgressMode → Bool
is_permissive strict = false
is_permissive permissive = true

-- `url::Host`
pub data Host : Type 0 where
  literal : IpAddr → Host
  domain : String → Host

pub record Url : Type 0 where
  pub scheme : String
  pub host : Option Host

abbrev pub blocked_ranges : List String
blocked_ranges =
    "0.0.0.0/8" ∷ "10.0.0.0/8" ∷ "100.64.0.0/10" ∷ "127.0.0.0/8" ∷ "169.254.0.0/16"
    ∷ "172.16.0.0/12" ∷ "192.0.0.0/24" ∷ "192.0.2.0/24" ∷ "192.168.0.0/16" ∷ "198.18.0.0/15"
    ∷ "198.51.100.0/24" ∷ "203.0.113.0/24" ∷ "224.0.0.0/4" ∷ "240.0.0.0/4" ∷ "::/128" ∷ "::1/128"
    ∷ "64:ff9b::/96" ∷ "64:ff9b:1::/48" ∷ "100::/64" ∷ "2001::/32" ∷ "2001:db8::/32" ∷ "2002::/16"
    ∷ "fc00::/7" ∷ "fe80::/10" ∷ "ff00::/8" ∷ []

-- The texts that the code makes by trimming, splitting and formatting.
pub record TextLib : Type 0 where
  -- `allow.split(',').map(str::trim).filter(|s| !s.is_empty())`
  pub entries : String → List String
  -- `trim`, without trailing dots, in lower case
  pub normalize_host : String → String
  -- `trim_start_matches('[')`, then `trim_end_matches(']')`
  pub unbracket : String → String
  -- `"{host} ({ip})"`
  pub host_with : (host ip : String) → String

module _ (lib : NetLib) (texts : TextLib) where
  -- `BLOCKED`: `none` is the panic at a range that does not parse.
  unfoldable pub parse_ranges : List String → Option (List lib.IpNet)
  parse_ranges [] = some []
  parse_ranges (r ∷ rs) = elim (lib.parse_net r) [
    | none ↦ none
    | some n ↦ elim (parse_ranges rs) [ none ↦ none | some ns ↦ some (n ∷ ns) ]
  ]

  pub record EgressPolicy : Type 0 where
    pub mode : EgressMode
    pub allow_nets : List lib.IpNet
    pub allow_hosts : List String
    pub max_response_bytes : ℕ

  -- One entry of the allow list: a network, an address, else a host name.
  abbrev pub add_address : Option IpAddr → String → EgressPolicy → EgressPolicy
  add_address (some ip) entry p = record p {
    allow_nets = p.allow_nets ++ lib.net_from (to_canonical ip) ∷ [];
  }
  add_address none entry p = record p {
    allow_hosts = p.allow_hosts ++ texts.normalize_host entry ∷ [];
  }

  abbrev pub add_network : Option lib.IpNet → String → EgressPolicy → EgressPolicy
  add_network (some net) entry p = record p { allow_nets = p.allow_nets ++ net ∷ [] }
  add_network none entry p = add_address (lib.parse_ip entry) entry p

  unfoldable pub add_entries : List String → EgressPolicy → EgressPolicy
  add_entries [] p = p
  add_entries (e ∷ es) p = add_entries es (add_network (lib.parse_net e) e p)

  unfoldable pub strict_policy : (allow : String) → EgressPolicy
  strict_policy allow = add_entries (texts.entries allow) (record {
    mode = strict;
    allow_nets = [];
    allow_hosts = [];
    max_response_bytes = 10 * 1024 * 1024;
  })

  unfoldable pub permissive_policy : EgressPolicy
  unfolding strict_policy
  permissive_policy = record (strict_policy "") { mode = permissive }

  abbrev pub with_max_response_bytes : EgressPolicy → ℕ → EgressPolicy
  with_max_response_bytes p max = record p { max_response_bytes = max }

  -- `from_env`: the mode, trimmed and in lower case, the allow list, and the number that the
  -- variable of the cap holds, if it holds one.
  abbrev pub with_cap : Option ℕ → EgressPolicy → EgressPolicy
  with_cap none p = p
  with_cap (some zero) p = p
  with_cap (some (suc n)) p = with_max_response_bytes p (suc n)

  unfoldable pub policy_from_env : (mode allow : String) → (cap : Option ℕ) → EgressPolicy
  unfolding permissive_policy strict_policy
  policy_from_env mode allow cap =
      with_cap cap (if str_eq mode "permissive" then permissive_policy else strict_policy allow)

  unfoldable pub any_host : List String → String → Bool
  any_host [] host = false
  any_host (h ∷ hs) host = str_eq h host || any_host hs host

  unfoldable pub host_allowed : EgressPolicy → String → Bool
  unfolding any_host
  host_allowed p host = is_permissive p.mode || any_host p.allow_hosts (texts.normalize_host host)

  module _ (ranges : List lib.IpNet) where
    abbrev pub passes : EgressPolicy → IpAddr → Bool
    passes p ip =
        is_permissive p.mode || any_contains lib p.allow_nets ip || not (any_contains lib ranges ip)

    unfoldable pub check_ip : EgressPolicy → IpAddr → EgressResult (Unit {0})
    check_ip p ip =
        if passes p (to_canonical ip)
        then allowed tt
        else refused (blocked (lib.ip_text (to_canonical ip)))

    abbrev pub check_host_part : EgressPolicy → Option Host → EgressResult (Unit {0})
    check_host_part p none = refused (invalid_url "missing host")
    check_host_part p (some (domain d)) = allowed tt
    check_host_part p (some (literal ip)) = check_ip p ip

    unfoldable pub check_url : EgressPolicy → Url → EgressResult (Unit {0})
    check_url p url =
        if str_eq url.scheme "http" || str_eq url.scheme "https"
        then check_host_part p url.host
        else refused (scheme_refused url.scheme)

    -- The loop of `filter_resolved`: the addresses that are kept and the first refusal.
    unfoldable pub keep_allowed : EgressPolicy → List IpAddr → List IpAddr × Option EgressError
    keep_allowed p [] = ([], none)
    keep_allowed p (a ∷ addrs) =
        let (kept, e) = keep_allowed p addrs in
        elim (check_ip p a) [ allowed u ↦ (a ∷ kept, e) | refused first ↦ (kept, some first) ]

    abbrev pub no_address : String → Option EgressError → EgressError
    no_address host (some (blocked ip)) = blocked (texts.host_with host ip)
    no_address host _ = resolve_failed host "no addresses"

    abbrev pub kept_or_error :
        String → List IpAddr × Option EgressError → EgressResult (List IpAddr)
    kept_or_error host ([], e) = refused (no_address host e)
    kept_or_error host ((a ∷ kept), e) = allowed (a ∷ kept)

    unfoldable pub filter_resolved :
        EgressPolicy → String → List IpAddr → EgressResult (List IpAddr)
    filter_resolved p host addrs =
        if host_allowed p host then allowed addrs else kept_or_error host (keep_allowed p addrs)

    -- `lookup` is what the system resolver answers for the host.
    unfoldable pub resolve :
        EgressPolicy
        → String
        → (lookup : String → EgressResult (List IpAddr)) → EgressResult (List IpAddr)
    resolve p name lookup =
        let host = texts.unbracket name in
        elim (lib.parse_ip host) [
          | some ip ↦ elim (check_ip p ip) [ refused e ↦ refused e | allowed u ↦ allowed (ip ∷ []) ]
          | none ↦ elim (lookup host) [
            | refused e ↦ refused e
            | allowed addrs ↦ filter_resolved p host addrs
          ]
        ]

    -- The decision at a redirect, after `previous` requests.
    unfoldable pub follow_redirect : EgressPolicy → (previous : ℕ) → Url → EgressResult (Unit {0})
    follow_redirect p previous url =
        if leb 10 previous then refused (http_failed "too many redirects") else check_url p url

-- A body arrives in chunks, and the transport can fail at each.
unfoldable pub read_chunks :
    (max : ℕ) → List (EgressResult (List ℕ)) → (body : List ℕ) → EgressResult (List ℕ)
read_chunks max [] body = allowed body
read_chunks max (refused e ∷ chunks) body = refused e
read_chunks max (allowed chunk ∷ chunks) body =
    let rest = read_chunks max chunks (body ++ chunk) in
    if ltb max (length body + length chunk) then refused (too_large max) else rest

abbrev pub declared_too_large : (max : ℕ) → (content_length : Option ℕ) → Bool
declared_too_large max none = false
declared_too_large max (some len) = ltb max len

unfoldable pub read_bytes :
    (max : ℕ) → (content_length : Option ℕ) → List (EgressResult (List ℕ)) → EgressResult (List ℕ)
unfolding read_chunks
read_bytes max content_length chunks =
    if declared_too_large max content_length
    then refused (too_large max)
    else read_chunks max chunks []

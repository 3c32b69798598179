-- ===== src/ClientIp.antt =====
-- crates/z8run-api/src/rate_limit.rs: the address that a request is charged to.
pub mod Walk
use z8run.Base.{
  ℕ, String, Bool, true, false, Option, none, some, List, [], ◌∷◌, ◌++◌, if◌then◌else◌,
}
use z8run.Net.{IpAddr, to_canonical, NetLib, any_contains}

abbrev pub default_trusted_proxies : List String
default_trusted_proxies =
    "127.0.0.0/8" ∷ "::1/128" ∷ "10.0.0.0/8" ∷ "172.16.0.0/12" ∷ "192.168.0.0/16" ∷ "fc00::/7" ∷ []

-- The headers of a request that matter: the entries of every X-Forwarded-For header, split at
-- commas, trimmed and not empty, in order; and the trimmed X-Real-IP header.
pub record Headers : Type 0 where
  pub forwarded : List String
  pub real_ip : Option String

module _ (lib : NetLib) where
  pub record ProxyTrust : Type 0 where
    pub trusted : List lib.IpNet

  -- `parse`, after the split: entries that are no network and no address are skipped.
  abbrev pub entry_address : Option IpAddr → List lib.IpNet
  entry_address (some ip) = lib.net_from ip ∷ []
  entry_address none = []

  abbrev pub entry_net : Option lib.IpNet → String → List lib.IpNet
  entry_net (some net) entry = net ∷ []
  entry_net none entry = entry_address (lib.parse_ip entry)

  unfoldable pub parse_entries : List String → List lib.IpNet
  parse_entries [] = []
  parse_entries (e ∷ es) = entry_net (lib.parse_net e) e ++ parse_entries es

  unfoldable pub parse : (entries : List String) → ProxyTrust
  unfolding parse_entries
  parse entries = record { trusted = parse_entries entries }

  -- `from_env`; `configured` are the entries of a variable that is set and not blank.
  unfoldable pub from_env : (enabled : Bool) → (configured : Option (List String)) → ProxyTrust
  unfolding parse
  from_env false configured = record { trusted = [] }
  from_env true none = parse default_trusted_proxies
  from_env true (some entries) = parse entries

  abbrev pub is_trusted : ProxyTrust → IpAddr → Bool
  is_trusted trust ip = any_contains lib trust.trusted ip

  -- The loop over the forwarded entries, nearest hop first.
  unfoldable pub walk : ProxyTrust → (entries : List String) → (client : IpAddr) → IpAddr
  walk trust [] client = client
  walk trust (entry ∷ entries) client = elim (lib.parse_ip entry) [
    | none ↦ client
    | some ip ↦
        let rest = walk trust entries (to_canonical ip) in
        if is_trusted trust (to_canonical ip) then rest else to_canonical ip
  ]

  abbrev pub canonical_or : IpAddr → Option IpAddr → IpAddr
  canonical_or peer none = peer
  canonical_or peer (some ip) = to_canonical ip

  abbrev pub real_ip_or : IpAddr → Option String → IpAddr
  real_ip_or peer none = peer
  real_ip_or peer (some s) = canonical_or peer (lib.parse_ip s)

  unfoldable pub reverse_onto : List String → List String → List String
  reverse_onto [] acc = acc
  reverse_onto (x ∷ xs) acc = reverse_onto xs (x ∷ acc)

  abbrev pub forwarded_client : ProxyTrust → IpAddr → Headers → List String → IpAddr
  forwarded_client trust peer headers [] = real_ip_or peer headers.real_ip
  forwarded_client trust peer headers (e ∷ es) = walk trust (reverse_onto (e ∷ es) []) peer

  abbrev pub client_of : ProxyTrust → IpAddr → Headers → IpAddr
  client_of trust peer headers =
      if is_trusted trust peer then forwarded_client trust peer headers headers.forwarded else peer

  -- `none` is the bucket "unknown".
  unfoldable pub extract_client_ip : Headers → (peer : Option IpAddr) → ProxyTrust → Option IpAddr
  unfolding walk reverse_onto
  extract_client_ip headers none trust = none
  extract_client_ip headers (some peer) trust = some (client_of trust (to_canonical peer) headers)

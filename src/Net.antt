-- ===== src/Net.antt =====
-- Addresses and the networks that hold them, as `std::net` and the crate ipnet give them to
-- egress.rs of z8run-core and rate_limit.rs of z8run-api.
use z8run.Base.{
  ℕ, ◌+◌, ◌*◌, ◌/◌, ◌%◌, ◌<◌, ◌≡◌, String, Bool, false, Option, List, [], ◌∷◌, ◌||◌, ◌==◌,
  if◌then◌else◌, arith,
}

-- An address is the number that its bytes make.
pub data IpAddr : Type 0 where
  v4 : ℕ → IpAddr
  v6 : ℕ → IpAddr

-- `IpAddr::to_canonical`: an IPv4-mapped address, ::ffff:a.b.c.d, becomes the IPv4 address.
unfoldable pub to_canonical : IpAddr → IpAddr
to_canonical (v4 n) = v4 n
to_canonical (v6 n) = if n / 4294967296 == 0xffff then v4 (n % 4294967296) else v6 n

-- The crate ipnet and the parser of `std::net`.
pub record NetLib : Type 1 where
  pub IpNet : Type 0
  pub net_from : IpAddr → IpNet
  pub net_contains : IpNet → IpAddr → Bool
  pub parse_net : String → Option IpNet
  pub parse_ip : String → Option IpAddr
  pub ip_text : IpAddr → String

module _ (lib : NetLib) where
  -- `nets.iter().any(|n| n.contains(&ip))`
  unfoldable pub any_contains : List lib.IpNet → IpAddr → Bool
  any_contains [] ip = false
  any_contains (n ∷ ns) ip = lib.net_contains n ip || any_contains ns ip

pub to_canonical_mapped :
    (n : ℕ) → n < 4294967296 → to_canonical (v6 (0xffff * 4294967296 + n)) ≡ v4 n
unfolding to_canonical
to_canonical_mapped n h = ground arith

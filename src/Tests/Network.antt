-- ===== src/Tests/Network.antt =====
-- The egress policy and the client address, with a small library of addresses.
use z8run.Base.{
  ℕ, ◌+◌, ◌*◌, ◌/◌, ◌≡◌, refl, String, Bool, true, false, Option, some, none, List, [], ◌∷◌, ◌==◌,
  All, str_eq, if◌then◌else◌,
}
use z8run.Net.{IpAddr, v4, v6, to_canonical, NetLib, any_contains}
use z8run.Egress.{
  EgressResult, allowed, TextLib, EgressPolicy, strict, strict_policy, check_ip, filter_resolved,
  resolve, host_allowed, any_host, keep_allowed, read_chunks, read_bytes,
}
use z8run.Egress.Policy.{accepts, resolve_safe}
use z8run.Egress.Body.{arrived}
use z8run.ClientIp.{ProxyTrust, extract_client_ip}
use z8run.ClientIp.Walk.{IsProxy, extract_client_ip_lem}

-- 10.0.0.0/8 is the only network, written as any number.
abbrev in_ten : ℕ → IpAddr → Bool
in_ten n (v4 a) = a / 16777216 == 10
in_ten n (v6 a) = false

abbrev pub ten_one : ℕ
ten_one = 10 * 16777216 + 1

abbrev parse_ip : String → Option IpAddr
parse_ip s =
    if str_eq s "10.0.0.1"
    then some (v4 ten_one)
    else (if str_eq s "8.8.8.8" then some (v4 0x08080808) else none)

abbrev pub lib : NetLib
lib = record {
  IpNet = ℕ;
  net_from = λ ip. 0;
  net_contains = in_ten;
  parse_net = λ s. none;
  parse_ip = parse_ip;
  ip_text = λ ip. "ip";
}

abbrev texts : TextLib
texts = record {
  entries = λ s. [];
  normalize_host = λ s. s;
  unbracket = λ s. s;
  host_with = λ h ip. h;
}

abbrev ranges : List ℕ
ranges = 10 ∷ []

abbrev closed : EgressPolicy lib texts
closed = record { mode = strict; allow_nets = []; allow_hosts = []; max_response_bytes = 3 }

computes : Unit {0}
unfolding check_ip to_canonical any_contains keep_allowed filter_resolved resolve host_allowed
    any_host read_bytes read_chunks strict_policy arrived extract_client_ip
computes = tt

resolve_safe_example : All (λ a. accepts lib texts ranges closed a ≡ true) (v4 7 ∷ [])
unfolding computes
resolve_safe_example =
    resolve_safe lib texts ranges closed "internal" (λ h. allowed (v4 ten_one ∷ v4 7 ∷ []))
      (v4 7 ∷ []) refl refl

abbrev whole : List ℕ
whole = 1 ∷ 2 ∷ 3 ∷ []

abbrev chunks : List (EgressResult (List ℕ))
chunks = allowed (1 ∷ 2 ∷ []) ∷ allowed (3 ∷ []) ∷ []

abbrev pub trust : ProxyTrust lib
trust = record { trusted = ranges }

ten_one-IsProxy : IsProxy lib trust "10.0.0.1"
unfolding computes
ten_one-IsProxy = record { ip = v4 ten_one; parses = refl; trusted = refl }

-- The entry "1.2.3.4" is written by the client.
extract_client_ip_lem_example :
    extract_client_ip lib
      (record { forwarded = "1.2.3.4" ∷ "8.8.8.8" ∷ "10.0.0.1" ∷ []; real_ip = none })
      (some (v4 ten_one))
      trust
    ≡ some (to_canonical (v4 0x08080808))
unfolding computes
extract_client_ip_lem_example =
    extract_client_ip_lem lib trust ("1.2.3.4" ∷ []) "8.8.8.8" ("10.0.0.1" ∷ []) none
      (v4 0x08080808) (v4 ten_one) refl refl refl (ten_one-IsProxy, tt)

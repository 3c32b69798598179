-- ===== src/Egress/Policy.antt =====
-- What the policy of egress.rs lets through: addresses, resolved names and mapped addresses.
use mathlib.Core.Bool.{false≢true}
use z8run.Base.{
  ℕ, ◌+◌, ◌*◌, ◌<◌, ◌≡◌, ◌≢◌, refl, sym, ap, ◌∙◌, subst, ◌↔◌, ◌⊎◌, inl, inr, String, Bool, true,
  false, Option, none, some, List, [], ◌∷◌, filter, All, Bool-cases,
}
use z8run.Net.{IpAddr, v4, v6, to_canonical, NetLib, any_contains, to_canonical_mapped}
use z8run.Egress.{
  EgressError, EgressResult, allowed, refused, TextLib, EgressPolicy, strict_policy, add_entries,
  host_allowed, passes, check_ip, keep_allowed, kept_or_error, filter_resolved, resolve,
}

module _ (lib : NetLib) (texts : TextLib) (ranges : List lib.IpNet) where
  -- Whether the policy lets a connection to an address through.
  abbrev pub accepts : EgressPolicy lib texts → IpAddr → Bool
  accepts p ip = passes lib texts ranges p (to_canonical ip)

  -- An IPv4 address written as an IPv4-mapped IPv6 address gets the verdict of the IPv4 address.
  pub check_ip-mapped :
      (p : EgressPolicy lib texts) (n : ℕ)
      → n < 4294967296
      → check_ip lib texts ranges p (v6 (0xffff * 4294967296 + n))
        ≡ check_ip lib texts ranges p (v4 n)
  unfolding check_ip to_canonical
  check_ip-mapped p n h = rw (to_canonical_mapped n h) refl

  -- If an empty allow list has no entries, the strict policy with it lets an address through just
  -- when no blocked range holds its canonical form.
  pub strict_policy_lem :
      (ip : IpAddr)
      → texts.entries "" ≡ []
      → (check_ip lib texts ranges (strict_policy lib texts "") ip ≡ allowed tt)
        ↔ (any_contains lib ranges (to_canonical ip) ≡ false)
  unfolding check_ip strict_policy add_entries any_contains
  strict_policy_lem ip e = rw e (elim (Bool-cases (any_contains lib ranges (to_canonical ip))) [
    | inl hit ↦ rw hit ((λ h. cc), (λ h. cc))
    | inr free ↦ rw free ((λ h. refl), (λ h. refl))
  ])

  keep_allowed_lem :
      (p : EgressPolicy lib texts) (addrs : List IpAddr)
      → (keep_allowed lib texts ranges p addrs).0 ≡ filter (accepts p) addrs
  unfolding keep_allowed filter check_ip
  keep_allowed_lem p [] = refl
  keep_allowed_lem p (a ∷ addrs) =
      let rest = keep_allowed_lem p addrs in
      elim (Bool-cases (accepts p a)) [
        | inl on ↦ rw (keep_allowed, on) (ap (λ l. a ∷ l) rest)
        | inr off ↦ rw (keep_allowed, off) rest
      ]

  filter-none :
      (q : IpAddr → Bool) (addrs : List IpAddr) → filter q addrs ≡ [] → All (λ a. q a ≡ false) addrs
  unfolding filter
  filter-none q [] = λ h. tt
  filter-none q (a ∷ addrs) = elim (Bool-cases (q a)) [
    | inl on ↦ rw on (λ h. cc)
    | inr off ↦ rw off (λ h. (refl, filter-none q addrs h))
  ]

  -- What `filter_resolved` promises of its result.
  pub Filtered : EgressPolicy lib texts → String → List IpAddr → EgressResult (List IpAddr) → Type 0
  Filtered p host addrs (allowed kept) =
      (host_allowed lib texts p host ≡ true × kept ≡ addrs)
      ⊎ (kept ≢ [] × kept ≡ filter (accepts p) addrs)
  Filtered p host addrs (refused e) =
      host_allowed lib texts p host ≡ false × All (λ a. accepts p a ≡ false) addrs

  -- The addresses of a host on the allow list are all kept. Of another host exactly the addresses
  -- that the policy accepts are kept, in order; it is refused just when it has none.
  pub filter_resolved_lem :
      (p : EgressPolicy lib texts) (host : String) (addrs : List IpAddr)
      → Filtered p host addrs (filter_resolved lib texts ranges p host addrs)
  unfolding filter_resolved Filtered
  filter_resolved_lem p host addrs = elim (Bool-cases (host_allowed lib texts p host)) [
    | inl on ↦ rw on (inl (on, refl))
    | inr off ↦
        rw (filter_resolved, off)
          (go (keep_allowed lib texts ranges p addrs) (keep_allowed_lem p addrs) off)
  ]
    where
      go :
          (r : List IpAddr × Option EgressError)
          → r.0 ≡ filter (accepts p) addrs
          → host_allowed lib texts p host ≡ false
          → Filtered p host addrs (kept_or_error lib texts ranges host r)
      go ([], e) h off = (off, filter-none (accepts p) addrs (sym h))
      go ((a ∷ kept), e) h off = inr ((λ q. cc), h)

  filter-All : (q : IpAddr → Bool) (addrs : List IpAddr) → All (λ a. q a ≡ true) (filter q addrs)
  unfolding filter
  filter-All q [] = tt
  filter-All q (a ∷ addrs) = elim (Bool-cases (q a)) [
    | inl on ↦ rw on (on, filter-All q addrs)
    | inr off ↦ rw off (filter-All q addrs)
  ]

  allowed_inv : {a b : List IpAddr} → allowed a ≡ allowed b → a ≡ b
  allowed_inv {a} e = ap (λ r. elim r [ allowed x ↦ x | refused x ↦ a ]) e

  -- Every address that `resolve` returns, for a host that is not on the allow list of a strict
  -- policy, is one that the policy accepts, whatever the lookup answers.
  pub resolve_safe :
      (p : EgressPolicy lib texts) (name : String) (lookup : String → EgressResult (List IpAddr))
      (addrs : List IpAddr)
      → host_allowed lib texts p (texts.unbracket name) ≡ false
      → resolve lib texts ranges p name lookup ≡ allowed addrs
      → All (λ a. accepts p a ≡ true) addrs
  unfolding resolve check_ip Filtered
  resolve_safe p name lookup addrs off =
      go (lib.parse_ip (texts.unbracket name)) refl (lookup (texts.unbracket name)) refl
    where
      filtered :
          (found : List IpAddr) (r : EgressResult (List IpAddr))
          → Filtered p (texts.unbracket name) found r
          → r ≡ allowed addrs
          → All (λ a. accepts p a ≡ true) addrs
      filtered found (refused e) h r = cc
      filtered found (allowed kept) (inl h) r = absurd (false≢true (sym off ∙ h.0))
      filtered found (allowed kept) (inr h) r =
          subst (All (λ a. accepts p a ≡ true)) (sym h.1 ∙ allowed_inv r)
            (filter-All (accepts p) found)

      go :
          (o : Option IpAddr)
          → lib.parse_ip (texts.unbracket name) ≡ o
          → (found : EgressResult (List IpAddr)) → lookup (texts.unbracket name) ≡ found
          → resolve lib texts ranges p name lookup ≡ allowed addrs
          → All (λ a. accepts p a ≡ true) addrs
      go (some ip) e found f = elim (Bool-cases (accepts p ip)) [
        | inl on ↦
            rw (resolve, e, on)
              (λ h. subst (All (λ a. accepts p a ≡ true)) (allowed_inv h) (on, tt))
        | inr out ↦ rw (resolve, e, out) (λ h. cc)
      ]
      go none e (refused x) f = rw (resolve, e, f) (λ h. cc)
      go none e (allowed found) f =
          rw (resolve, e, f)
            (filtered found (filter_resolved lib texts ranges p (texts.unbracket name) found)
              (filter_resolved_lem p (texts.unbracket name) found))

-- ===== src/ClientIp/Walk.antt =====
-- Which entries of the forwarded headers can decide the client of rate_limit.rs.
use mathlib.Core.List.{append_assoc}
use z8run.Base.{
  ◌≡◌, refl, sym, ap, ◌∙◌, String, true, false, Option, some, List, [], ◌∷◌, ◌++◌, All,
}
use z8run.Net.{IpAddr, to_canonical, NetLib}
use z8run.ClientIp.{ProxyTrust, is_trusted, walk, reverse_onto, forwarded_client, extract_client_ip}

module _ (lib : NetLib) (trust : ProxyTrust lib) where
  -- An entry that names a trusted proxy.
  pub record IsProxy (entry : String) : Type 0 where
    pub ip : IpAddr
    pub parses : lib.parse_ip entry ≡ some ip
    pub trusted : is_trusted lib trust (to_canonical ip) ≡ true

  walk-proxies :
      (hops : List String) (entry : String) (left : List String) (ip client : IpAddr)
      → All IsProxy hops
      → lib.parse_ip entry ≡ some ip
      → is_trusted lib trust (to_canonical ip) ≡ false
      → walk lib trust (hops ++ entry ∷ left) client ≡ to_canonical ip
  unfolding walk
  walk-proxies [] entry left ip client h e u = rw (e, u) refl
  walk-proxies (hop ∷ hops) entry left ip client h e u =
      rw (h.0.parses, h.0.trusted) (walk-proxies hops entry left ip (to_canonical h.0.ip) h.1 e u)

  reverse_onto-append :
      (xs ys acc : List String)
      → reverse_onto lib (xs ++ ys) acc ≡ reverse_onto lib ys (reverse_onto lib xs acc)
  unfolding reverse_onto
  reverse_onto-append [] ys acc = refl
  reverse_onto-append (x ∷ xs) ys acc = reverse_onto-append xs ys (x ∷ acc)

  reverse_onto-All :
      (xs acc : List String)
      → All IsProxy xs
      → All IsProxy acc
      → All IsProxy (reverse_onto lib xs acc)
  unfolding reverse_onto
  reverse_onto-All [] acc h k = k
  reverse_onto-All (x ∷ xs) acc h k = reverse_onto-All xs (x ∷ acc) h.1 (h.0, k)

  reverse_onto_acc :
      (xs acc : List String) → reverse_onto lib xs acc ≡ reverse_onto lib xs [] ++ acc
  unfolding reverse_onto
  reverse_onto_acc [] acc = refl
  reverse_onto_acc (x ∷ xs) acc =
      reverse_onto_acc xs (x ∷ acc)
      ∙ sym (append_assoc (reverse_onto lib xs []) (x ∷ []) acc)
      ∙ ap (λ l. l ++ acc) (sym (reverse_onto_acc xs (x ∷ [])))

  -- Behind a trusted peer the client is the last forwarded address that is not a trusted proxy:
  -- what stands left of it in the header, which the client may have written, has no influence.
  pub extract_client_ip_lem :
      (spoofed : List String) (entry : String) (hops : List String) (real_ip : Option String)
      (ip peer : IpAddr)
      → is_trusted lib trust (to_canonical peer) ≡ true
      → lib.parse_ip entry ≡ some ip
      → is_trusted lib trust (to_canonical ip) ≡ false
      → All IsProxy hops
      → extract_client_ip lib
          (record { forwarded = spoofed ++ entry ∷ hops; real_ip = real_ip })
          (some peer)
          trust
        ≡ some (to_canonical ip)
  unfolding extract_client_ip reverse_onto
  extract_client_ip_lem spoofed entry hops real_ip ip peer t e u h =
      rw t (ap some (nonempty spoofed ∙ reversed))
    where
      nonempty :
          (s : List String)
          → forwarded_client lib trust
              (to_canonical peer)
              (record { forwarded = spoofed ++ entry ∷ hops; real_ip = real_ip })
              (s ++ entry ∷ hops)
            ≡ walk lib trust (reverse_onto lib (s ++ entry ∷ hops) []) (to_canonical peer)
      nonempty [] = refl
      nonempty (x ∷ s) = refl

      reversed :
          walk lib trust (reverse_onto lib (spoofed ++ entry ∷ hops) []) (to_canonical peer)
          ≡ to_canonical ip
      reversed =
          ap (λ l. walk lib trust l (to_canonical peer))
            (reverse_onto-append spoofed (entry ∷ hops) []
              ∙ reverse_onto_acc hops (entry ∷ reverse_onto lib spoofed []))
          ∙ walk-proxies (reverse_onto lib hops []) entry (reverse_onto lib spoofed []) ip
              (to_canonical peer) (reverse_onto-All hops [] h tt) e u

-- ===== src/RateLimit/Clients.antt =====
-- What the requests of one client do to another.
use z8run.Base.{
  ℕ, String, false, Option, List, [], ◌∷◌, filter, str_eq, ◌≡◌, refl, sym, ◌∙◌, Bool-cases, inl,
  inr, subst, eq_iff,
}
use z8run.Net.{IpAddr, NetLib}
use z8run.StringMap.{StringMap, get}
use z8run.StringMap.Laws.{get-put}
use z8run.ClientIp.{Headers, ProxyTrust, extract_client_ip}
use z8run.RateLimit.{TokenBucket, RateLimiter, check}
use z8run.RateLimit.Middleware.{Response, bucket_of, rate_limit_inner}

abbrev over : RateLimiter → StringMap TokenBucket → RateLimiter
over l m = record l { buckets = m }

-- A check leaves the buckets of the others, and what it answers and leaves in its own depends on
-- that one only.
check_other :
    (key other : String) (now : ℕ) (l : RateLimiter)
    → str_eq key other ≡ false
    → (m : StringMap TokenBucket) × ((check key now l).1 ≡ over l m)
      × (get other m ≡ get other l.buckets)
unfolding check
check_other key other now l apart = elim (Bool-cases l.disabled) [
  | inl e ↦ rw e (l.buckets, refl, refl)
  | inr e ↦ rw e (_, refl, get-put key other _ l.buckets ∙ rw apart refl)
]

check_own :
    (key : String) (now : ℕ) (l : RateLimiter) (m m' : StringMap TokenBucket)
    → get key m ≡ get key m'
    → ((check key now (over l m)).0 ≡ (check key now (over l m')).0)
      × (n : StringMap TokenBucket) × (n' : StringMap TokenBucket) × ((check key now (over l m)).1
          ≡ over l n)
      × ((check key now (over l m')).1 ≡ over l n')
      × (get key n ≡ get key n')
unfolding check
check_own key now l m m' same = elim (Bool-cases l.disabled) [
  | inl e ↦ rw e (refl, m, m', refl, refl, same)
  | inr e ↦
      rw (e, same)
        (
          refl,
          _,
          _,
          refl,
          refl,
          get-put key key _ m
              ∙ rw ((eq_iff key key).1 refl)
                  (sym (get-put key key _ m' ∙ rw ((eq_iff key key).1 refl) refl)),
        )
]

-- A request, the time it comes at and what the handler would answer.
pub record Call {ℓ} (R : Type ℓ) : Type ℓ where
  pub headers : Headers
  pub peer : Option IpAddr
  pub now : ℕ
  pub next : R

module _ {ℓ} {R : Type ℓ} (lib : NetLib) (trust : ProxyTrust lib) where
  abbrev pub client : Call R → String
  client c = bucket_of lib (extract_client_ip lib c.headers c.peer trust)

  -- The responses, in order, each with its client.
  unfoldable pub serve_calls : List (Call R) → RateLimiter → List (String × Response R)
  unfolding rate_limit_inner
  serve_calls [] l = []
  serve_calls (c ∷ cs) l =
      let (r, l') = rate_limit_inner lib trust c.headers c.peer c.now c.next l in
      (client c, r) ∷ serve_calls cs l'

  abbrev pub calls_of : (key : String) → List (Call R) → List (Call R)
  calls_of key cs = filter (λ c. str_eq (client c) key) cs

  abbrev pub responses_to : (key : String) → List (String × Response R) → List (String × Response R)
  responses_to key rs = filter (λ r. str_eq r.0 key) rs

  serve_over :
      (key : String) (l : RateLimiter) (cs : List (Call R)) (m m' : StringMap TokenBucket)
      → get key m ≡ get key m'
      → responses_to key (serve_calls cs (over l m)) ≡ serve_calls (calls_of key cs) (over l m')
  unfolding serve_calls filter rate_limit_inner
  serve_over key l [] m m' same = refl
  serve_over key l (c ∷ cs) m m' same = elim (Bool-cases (str_eq (client c) key)) [
    | inl e ↦
        let is_key = (eq_iff (client c) key).0 e in
        let own = subst (λ k. get k m ≡ get k m') (sym is_key) same in
        let (answer, n, n', after, after', kept) = check_own (client c) c.now l m m' own in
        let rest = serve_over key l cs n n' (subst (λ k. get k n ≡ get k n') is_key kept) in
        rw (e, after, after', answer, rest) refl
    | inr e ↦
        let (n, after, kept) = check_other (client c) key c.now (over l m) e in
        rw (e, after) (serve_over key l cs n m' (kept ∙ same))
  ]

-- What a client is answered does not depend on the requests of other clients: the responses to it
-- are those to its own requests alone, with the same headers, whatever else the limiter is asked in
-- between.
pub serve_calls-alone {ℓ} :
    {R : Type ℓ} (lib : NetLib) (trust : ProxyTrust lib) (key : String) (cs : List (Call R))
    (l : RateLimiter)
    → responses_to lib trust key (serve_calls lib trust cs l)
      ≡ serve_calls lib trust (calls_of lib trust key cs) l
serve_calls-alone lib trust key cs l = serve_over lib trust key l cs l.buckets l.buckets refl

-- ===== src/RateLimit/Window.antt =====
-- How many requests a token bucket lets through, and when it lets the next one through.
use native.Mathlib.Nat.{add-mul, mul_assoc, lt-div-mul-add}
use z8run.Base.{
  ℕ, zero, suc, ◌+◌, ◌-◌, ◌*◌, ◌/◌, ◌≤◌, ◌<◌, leb, Bool, true, false, List, [], ◌∷◌, if◌then◌else◌,
  ◌≡◌, refl, sym, ap, ◌∙◌, arith, Bool-cases, inl, inr,
}
use z8run.RateLimit.{TokenBucket, second, token, refilled, seconds_for, consume, try_consume}

abbrev granted : Bool → ℕ
granted allowed = if allowed then 1 else 0

-- The requests of one client at a sequence of times: how many are allowed, and the bucket.
unfoldable pub serve : (max window : ℕ) → List ℕ → TokenBucket → ℕ × TokenBucket
unfolding try_consume
serve max window [] b = (0, b)
serve max window (now ∷ times) b =
    let (a, b') = try_consume max window now b in
    let (n, last) = serve max window times b' in (granted a.0 + n, last)

abbrev pub Ascending : ℕ → List ℕ → Type 0
Ascending since [] = Unit
Ascending since (t ∷ ts) = (since ≤ t) × Ascending t ts

abbrev pub end_of : ℕ → List ℕ → ℕ
end_of since [] = since
end_of since (t ∷ ts) = end_of t ts

-- What a request takes, and what it finds.
consumed :
    (max window now tokens : ℕ)
    → let (a, b) = consume max window now tokens in
      (granted a.0 * token window + b.tokens ≡ tokens) × (b.last_refill ≡ now)
consumed max window now tokens = elim (Bool-cases (leb (token window) tokens)) [
  | inl e ↦ rw e (ground (arith, e), refl)
  | inr e ↦ rw e (omega arith, refl)
]

try_consumed :
    (max window now : ℕ) (b : TokenBucket)
    → let (a, b') = try_consume max window now b in
      (granted a.0 * token window + b'.tokens ≤ b.tokens + (now - b.last_refill) * max)
      × (b'.last_refill ≡ now)
unfolding try_consume refilled
try_consumed max window now b =
    let (same, last) = consumed max window now (refilled max window now b) in (omega arith, last)

end_later : (since : ℕ) (ts : List ℕ) → Ascending since ts → since ≤ end_of since ts
end_later since [] h = omega arith
end_later since (t ∷ ts) h = omega (arith, h.0, end_later t ts h.1)

serve_bound :
    (max window since : ℕ) (ts : List ℕ) (b : TokenBucket)
    → b.last_refill ≡ since
    → Ascending since ts
    → let (n, last) = serve max window ts b in
      n * token window + last.tokens ≤ b.tokens + (end_of since ts - since) * max
unfolding serve
serve_bound max window since [] b e h = omega arith
serve_bound max window since (t ∷ ts) b e h =
    let (a, b') = try_consume max window t b in
    let (taken, last) = try_consumed max window t b in
    let rest = serve_bound max window t ts b' last h.1 in
    let n = (serve max window ts b').0 in
    let last_time = end_of t ts in
    let later = end_later t ts h.1 in
    let sum : last_time - since ≡ t - since + (last_time - t) = omega (arith, h.0, later) in
    let here : t - b.last_refill ≡ t - since = ap (λ s. t - s) e in
    omega (
      arith,
      rest,
      taken,
      ap (λ d. d * max) sum,
      ap (λ d. d * max) here,
      add-mul (t - since) (last_time - t) max,
      add-mul (granted a.0) n (token window),
    )

-- The first request of a period finds at most a full bucket, however long nothing was asked.
first_bound :
    (max window now : ℕ) (b : TokenBucket)
    → let (a, b') = try_consume max window now b in
      (granted a.0 * token window + b'.tokens ≤ max * token window) × (b'.last_refill ≡ now)
unfolding try_consume refilled
first_bound max window now b =
    let (same, last) = consumed max window now (refilled max window now b) in (omega arith, last)

-- In any period that begins with a request, the requests of a client that are allowed are at most
-- as many as its bucket holds tokens when full, and those that are refilled in the period: whatever
-- the bucket is before the period and whatever the times of the requests are, none before the one
-- it follows, a token for each request that is allowed does not exceed max_tokens tokens and the
-- refill from the first time to the last one.
pub serve_limit :
    (max window start : ℕ) (ts : List ℕ) (b : TokenBucket)
    → Ascending start ts
    → (serve max window (start ∷ ts) b).0 * token window
      ≤ max * token window + (end_of start ts - start) * max
unfolding serve
serve_limit max window start ts b h =
    let (a, b') = try_consume max window start b in
    let (full, last) = first_bound max window start b in
    omega (
      arith,
      full,
      serve_bound max window start ts b' last h,
      add-mul (granted a.0) (serve max window ts b').0 (token window),
    )

-- The seconds that are announced are enough to refill the parts that are missing.
seconds_enough : (max parts : ℕ) → 1 ≤ max → parts ≤ seconds_for max parts * second * max
unfolding seconds_for
seconds_enough max parts h =
    let part = second * max in
    let k = (parts + (part - 1)) / part in
    let some_part : 0 < part = omega arith in
    omega
      (arith, lt-div-mul-add {a = parts + (part - 1)} {b = part} some_part, mul_assoc k second max)

one_token : (max window : ℕ) → 1 ≤ max → token window ≤ max * token window
one_token zero window h = absurd (omega arith)
one_token (suc m) window h = omega (arith, add-mul m 1 (token window))

allowed-consume :
    (max window now tokens : ℕ) → (consume max window now tokens).0.0 ≡ leb (token window) tokens
allowed-consume max window now tokens = elim (Bool-cases (leb (token window) tokens)) [
  | inl e ↦ rw e refl
  | inr e ↦ rw e refl
]

waited :
    (max window now tokens : ℕ)
    → 1 ≤ max
    → leb (token window) tokens ≡ false
    → let k = seconds_for max (token window - tokens) in
      leb
        (token window)
        (refilled max window (now + k * second) (record { tokens = tokens; last_refill = now }))
      ≡ true
unfolding refilled
waited max window now tokens h e =
    let k = seconds_for max (token window - tokens) in
    let gone : now + k * second - now ≡ k * second = omega arith in
    let enough = seconds_enough max (token window - tokens) h in
    let one = one_token max window h in
    let refill = ap (λ d. d * max) gone in ground (arith, enough, one, refill)

-- A client that is refused gets through with its next request, if it waits the seconds that the
-- answer announces.
pub try_consume-retry :
    (max window now : ℕ) (b : TokenBucket)
    → 1 ≤ max
    → let (a, b') = try_consume max window now b in
      a.0 ≡ false → (try_consume max window (now + a.2 * second) b').0.0 ≡ true
unfolding try_consume
try_consume-retry max window now b h r =
    let full = refilled max window now b in
    let short : leb (token window) full ≡ false = sym (allowed-consume max window now full) ∙ r in
    let k = seconds_for max (token window - full) in
    rw short (
      allowed-consume max window (now + k * second)
        (refilled max window (now + k * second) (record { tokens = full; last_refill = now }))
      ∙ waited max window now full h short)

-- ===== src/RateLimit/Cleanup.antt =====
-- The cleanup of idle buckets cannot be observed.
use native.Mathlib.Nat.{add-mul, mul_comm}
use z8run.Base.{
  ℕ, ◌+◌, ◌-◌, ◌*◌, ◌≤◌, ltb, String, Bool, true, false, Option, none, some, if◌then◌else◌, ◌≡◌,
  refl, sym, ap, ◌∙◌, arith, Bool-cases, inl, inr,
}
use z8run.StringMap.{get, HasDistinctKeys}
use z8run.StringMap.Laws.{get-put_self, get-filter, kept}
use z8run.RateLimit.{
  TokenBucket, Answer, RateLimiter, second, token, new_bucket, refilled, consume, try_consume,
  or_new, stored, check, cleanup,
}

mul_le : (a b c : ℕ) → a ≤ b → a * c ≤ b * c
mul_le a b c h =
    let sum : b ≡ a + (b - a) = omega arith in
    omega (arith, ap (λ x. x * c) sum, add-mul a (b - a) c)

-- A bucket that has been idle for two windows is full, like a new one.
idle_full :
    (max window now now' : ℕ) (b : TokenBucket)
    → now ≤ now'
    → ltb (now - b.last_refill) (window * 2 * second) ≡ false
    → refilled max window now' (new_bucket max window now') ≡ refilled max window now' b
unfolding refilled new_bucket
idle_full max window now now' b h e =
    let idle : token window ≤ now' - b.last_refill = ground arith in
    let enough = mul_le (token window) (now' - b.last_refill) max idle in
    let cap = mul_comm max (token window) in ground (arith, enough, cap)

same_bucket :
    (l : RateLimiter) (now now' : ℕ) (o : Option TokenBucket)
    → now ≤ now'
    → try_consume l.max_requests l.window_secs now'
        (or_new l now' (kept (λ b. ltb (now - b.last_refill) (l.window_secs * 2 * second)) o))
      ≡ try_consume l.max_requests l.window_secs now' (or_new l now' o)
unfolding try_consume
same_bucket l now now' none h = refl
same_bucket l now now' (some b) h =
    elim (Bool-cases (ltb (now - b.last_refill) (l.window_secs * 2 * second))) [
      | inl e ↦ rw e refl
      | inr e ↦ rw e (
          ap (consume l.max_requests l.window_secs now')
            (idle_full l.max_requests l.window_secs now now' b h e))
    ]

skip_disabled {ℓ} : {A : Type ℓ} → (d : Bool) (x y : A) → d ≡ false → (if d then x else y) ≡ y
skip_disabled d x y e = rw e refl

check_lem :
    (key : String) (now : ℕ) (l : RateLimiter)
    → l.disabled ≡ false
    → check key now l
      ≡ stored l key
          (try_consume l.max_requests l.window_secs now (or_new l now (get key l.buckets)))
unfolding check
check_lem key now l e = skip_disabled l.disabled ((true, 0, 0), l) _ e

-- A client gets the same answer after a cleanup as without it, at any later time, and its bucket
-- is the same from then on.
pub check-cleanup :
    (key : String) (now now' : ℕ) (l : RateLimiter)
    → HasDistinctKeys l.buckets
    → now ≤ now'
    → l.disabled ≡ false
    → ((check key now' (cleanup now l)).0 ≡ (check key now' l).0)
      × (get key (check key now' (cleanup now l)).1.buckets ≡ get key (check key now' l).1.buckets)
unfolding cleanup
check-cleanup key now now' l d h e =
    let fresh : TokenBucket → Bool = λ b. ltb (now - b.last_refill) (l.window_secs * 2 * second) in
    let used : Option TokenBucket → Answer × TokenBucket =
      λ o. try_consume l.max_requests l.window_secs now' (or_new l now' o) in
    let left : get key (cleanup now l).buckets ≡ kept fresh (get key l.buckets) =
      get-filter fresh key l.buckets d in
    let same : used (get key (cleanup now l).buckets) ≡ used (get key l.buckets) =
      ap used left ∙ same_bucket l now now' (get key l.buckets) h in
    let after = check_lem key now' (cleanup now l) e in
    let plain = check_lem key now' l e in
    (
      ap (λ r. r.0) after ∙ ap (λ r. r.0) same ∙ sym (ap (λ r. r.0) plain),
      ap (λ r. get key r.1.buckets) after
          ∙ get-put_self key (used (get key (cleanup now l).buckets)).1 (cleanup now l).buckets
          ∙ ap (λ r. some r.1) same
          ∙ sym (get-put_self key (used (get key l.buckets)).1 l.buckets)
          ∙ sym (ap (λ r. get key r.1.buckets) plain),
    )

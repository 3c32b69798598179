-- ===== src/RateLimit.antt =====
-- The token buckets of crates/z8run-api/src/rate_limit.rs. A time is in nanoseconds. The f64
-- arithmetic is taken to be exact: tokens are counted in parts of which one token has as many as
-- the window has nanoseconds, so a nanosecond refills `max_tokens` parts.
pub mod Window
pub mod Cleanup
pub mod Middleware
pub mod Clients
use Prim.Native.Nat.{min}
use z8run.Base.{
  ℕ, ◌+◌, ◌-◌, ◌*◌, ◌/◌, ltb, leb, String, Bool, true, false, Option, none, some, List, [], ◌∷◌,
  filter, if◌then◌else◌, ◌==◌,
}
use z8run.StringMap.{StringMap, get, put}

pub record TokenBucket : Type 0 where
  pub tokens : ℕ
  pub last_refill : ℕ

-- The parts of a token.
abbrev pub second : ℕ
second = 1000000000

abbrev pub token : (window_secs : ℕ) → ℕ
token window_secs = window_secs * second

unfoldable pub new_bucket : (max_tokens window_secs now : ℕ) → TokenBucket
new_bucket max_tokens window_secs now = record {
  tokens = max_tokens * token window_secs;
  last_refill = now;
}

unfoldable pub refilled : (max_tokens window_secs now : ℕ) → TokenBucket → ℕ
refilled max_tokens window_secs now b =
    min (b.tokens + (now - b.last_refill) * max_tokens) (max_tokens * token window_secs)

-- `(parts / refill_rate).ceil()`, the seconds in which that many parts are refilled.
unfoldable pub seconds_for : (max_tokens parts : ℕ) → ℕ
seconds_for max_tokens parts = (parts + (second * max_tokens - 1)) / (second * max_tokens)

-- Whether the request is allowed, the requests that remain, and the seconds.
abbrev pub Answer : Type 0
Answer = Bool × ℕ × ℕ

abbrev pub consume : (max_tokens window_secs now tokens : ℕ) → Answer × TokenBucket
consume max_tokens window_secs now tokens =
    if leb (token window_secs) tokens
    then (
      (
        true,
        (tokens - token window_secs) / token window_secs,
        if ltb tokens (max_tokens * token window_secs)
            then seconds_for max_tokens (max_tokens * token window_secs - tokens)
            else 0,
      ),
      record { tokens = tokens - token window_secs; last_refill = now },
    )
    else (
      (false, 0, seconds_for max_tokens (token window_secs - tokens)),
      record { tokens = tokens; last_refill = now },
    )

unfoldable pub try_consume : (max_tokens window_secs now : ℕ) → TokenBucket → Answer × TokenBucket
unfolding refilled seconds_for
try_consume max_tokens window_secs now b =
    consume max_tokens window_secs now (refilled max_tokens window_secs now b)

pub record RateLimiter : Type 0 where
  pub buckets : StringMap TokenBucket
  pub max_requests : ℕ
  pub window_secs : ℕ
  pub disabled : Bool

unfoldable pub new_limiter : (max_requests window_secs : ℕ) → RateLimiter
new_limiter max_requests window_secs = record {
  buckets = [];
  max_requests = max_requests;
  window_secs = window_secs;
  disabled = max_requests == 0;
}

-- `entry(key).or_insert_with(|| TokenBucket::new(max))`
abbrev pub or_new : RateLimiter → (now : ℕ) → Option TokenBucket → TokenBucket
or_new l now none = new_bucket l.max_requests l.window_secs now
or_new l now (some b) = b

abbrev pub stored : RateLimiter → (key : String) → Answer × TokenBucket → Answer × RateLimiter
stored l key (a, b) = (a, record l { buckets = put key b l.buckets })

unfoldable pub check : (key : String) (now : ℕ) → RateLimiter → Answer × RateLimiter
unfolding get put try_consume new_bucket
check key now l =
    if l.disabled
    then ((true, 0, 0), l)
    else stored l key
        (try_consume l.max_requests l.window_secs now (or_new l now (get key l.buckets)))

-- A round of the cleanup task.
unfoldable pub cleanup : (now : ℕ) → RateLimiter → RateLimiter
cleanup now l = record l {
  buckets = filter (λ e. ltb (now - e.1.last_refill) (l.window_secs * 2 * second)) l.buckets;
}

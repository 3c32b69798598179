-- ===== src/RateLimit/Middleware.antt =====
-- The middleware of crates/z8run-api/src/rate_limit.rs, and the limiters that it is set up with.
use z8run.Base.{ℕ, String, Option, none, some, if◌then◌else◌}
use z8run.Net.{IpAddr, NetLib}
use z8run.ClientIp.{Headers, ProxyTrust, extract_client_ip}
use z8run.RateLimit.{RateLimiter, Answer, new_limiter, check}

pub record Limiters : Type 0 where
  pub api : RateLimiter
  pub auth : RateLimiter
  pub hook : RateLimiter

abbrev pub number_or : ℕ → Option ℕ → ℕ
number_or default none = default
number_or default (some n) = n

-- The numbers that the environment variables hold.
unfoldable pub init_rate_limiters : (api auth hook window : Option ℕ) → Limiters
unfolding new_limiter
init_rate_limiters api auth hook window =
    let window = number_or 60 window in
    record {
      api = new_limiter (number_or 100 api) window;
      auth = new_limiter (number_or 20 auth) window;
      hook = new_limiter (number_or 200 hook) window;
    }

-- The headers x-ratelimit-limit, -remaining and -reset, and retry-after.
pub record RateHeaders : Type 0 where
  pub limit : ℕ
  pub remaining : ℕ
  pub reset : ℕ
  pub retry_after : Option ℕ

-- An answer with the status 429, or the answer of the handler behind the middleware.
pub data Response {ℓ} (R : Type ℓ) : Type ℓ where
  refused : RateHeaders → Response R
  passed : R → RateHeaders → Response R

abbrev pub too_many_requests {ℓ} : {R : Type ℓ} → (limit reset_secs : ℕ) → Response R
too_many_requests limit reset_secs =
    refused
      (record { limit = limit; remaining = 0; reset = reset_secs; retry_after = some reset_secs })

abbrev pub append_rate_headers {ℓ} :
    {R : Type ℓ} → R → (limit remaining reset_secs : ℕ) → Response R
append_rate_headers response limit remaining reset_secs =
    passed response
      (record { limit = limit; remaining = remaining; reset = reset_secs; retry_after = none })

-- `None` is the bucket "unknown".
abbrev pub bucket_of : NetLib → Option IpAddr → String
bucket_of lib none = "unknown"
bucket_of lib (some ip) = lib.ip_text ip

abbrev pub response_to {ℓ} : {R : Type ℓ} → (next : R) → (limit : ℕ) → Answer → Response R
response_to next limit (allowed, remaining, reset_secs) =
    if allowed
    then append_rate_headers next limit remaining reset_secs
    else too_many_requests limit reset_secs

-- What the handler answers is an argument, of which a refused request makes no use.
unfoldable pub rate_limit_inner {ℓ} :
    {R : Type ℓ} (lib : NetLib)
    → ProxyTrust lib
    → Headers
    → (peer : Option IpAddr) (now : ℕ) → (next : R) → RateLimiter
    → Response R × RateLimiter
unfolding extract_client_ip check
rate_limit_inner lib trust headers peer now next l =
    let (answer, l') = check (bucket_of lib (extract_client_ip lib headers peer trust)) now l in
    (response_to next l.max_requests answer, l')

-- ===== src/Tests/RateLimit.antt =====
-- A client with two requests per ten seconds.
use z8run.Base.{
  ℕ, ◌*◌, ◌+◌, ◌-◌, ◌≤◌, true, false, String, none, some, List, [], ◌∷◌, map, filter, ◌≡◌, refl,
  arith,
}
use z8run.StringMap.{get, put}
use z8run.Net.{v4, to_canonical, any_contains}
use z8run.ClientIp.{extract_client_ip, walk, reverse_onto}
use z8run.RateLimit.{
  TokenBucket, RateLimiter, second, token, new_bucket, try_consume, refilled, seconds_for, check,
}
use z8run.RateLimit.Middleware.{refused, passed, rate_limit_inner}
use z8run.RateLimit.Clients.{Call, serve_calls, calls_of, responses_to, serve_calls-alone}
use z8run.Tests.Network.{lib, ten_one, trust}
use z8run.RateLimit.Window.{end_of, serve, serve_limit, try_consume-retry}

abbrev two_left : TokenBucket
two_left = record { tokens = 2 * token 10; last_refill = 0 }

abbrev times : List ℕ
times = 1 ∷ second ∷ 2 * second ∷ 6 * second ∷ []

starts_full : new_bucket 2 10 0 ≡ two_left
unfolding new_bucket
starts_full = refl

third_refused : (serve 2 10 times two_left).0 ≡ 3
unfolding serve try_consume
third_refused = refl

serve_limit_example :
    (serve 2 10 times two_left).0 * token 10 ≤ 2 * token 10 + (end_of 1 times - 1) * 2
serve_limit_example =
    serve_limit 2 10 1 (second ∷ 2 * second ∷ 6 * second ∷ []) two_left
      (omega arith, (omega arith, (omega arith, tt)))

abbrev empty_bucket : TokenBucket
empty_bucket = record { tokens = 7; last_refill = 0 }

try_consume-retry_example :
    (try_consume 2 10
      (second + (try_consume 2 10 second empty_bucket).0.2 * second)
      (try_consume 2 10 second empty_bucket).1).0.0
    ≡ true
unfolding try_consume
try_consume-retry_example = try_consume-retry 2 10 second empty_bucket (omega arith) refl

abbrev limiter : RateLimiter
limiter = record { buckets = []; max_requests = 1; window_secs = 10; disabled = false }

-- A client behind the proxy, and one that is not known.
abbrev proxied : ℕ → Call String
proxied now = record {
  headers = record { forwarded = "8.8.8.8" ∷ []; real_ip = none };
  peer = some (v4 ten_one);
  now = now;
  next = "flows";
}

abbrev nameless : ℕ → Call String
nameless now = record {
  headers = record { forwarded = []; real_ip = none };
  peer = none;
  now = now;
  next = "flows";
}

abbrev calls : List (Call String)
calls = proxied 1 ∷ nameless 2 ∷ proxied 3 ∷ nameless 4 ∷ []

runs : Unit {0}
unfolding serve_calls rate_limit_inner extract_client_ip check try_consume new_bucket get put filter
    walk reverse_onto to_canonical any_contains refilled seconds_for
runs = tt

second_refused :
    map (λ r. r.1) (serve_calls lib trust (calls_of lib trust "unknown" calls) limiter)
    ≡ passed "flows" (record { limit = 1; remaining = 0; reset = 0; retry_after = none })
      ∷ refused (record { limit = 1; remaining = 0; reset = 10; retry_after = some 10 })
      ∷ []
unfolding runs
second_refused = refl

serve_calls-alone_example :
    responses_to lib trust "unknown" (serve_calls lib trust calls limiter)
    ≡ serve_calls lib trust (calls_of lib trust "unknown" calls) limiter
serve_calls-alone_example = serve_calls-alone lib trust "unknown" calls limiter

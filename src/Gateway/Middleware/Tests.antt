-- ===== src/Gateway/Middleware/Tests.antt =====
-- The middleware at concrete requests: two tokens, and three requests of one client.
use mini_marketplace.Base.{
  ℕ, ◌+◌, ◌-◌, ◌*◌, ◌≡◌, ◌≢◌, refl, All, some, List, [], ◌∷◌, ◌++◌, leb, if◌then◌else◌, text_eq,
}
use mini_marketplace.Gateway.RateLimit.{
  Numbers, TokenBucketLimiter, Visit, returned, limit_key, bucket_of, refilled, put_bucket,
  token_bucket, allow, verdict_of, rate_limit,
}
use mini_marketplace.Gateway.Middleware.{
  Request, Registered, before_metrics, after_metrics, no_route, path_label, metrics, serve,
  serve_all,
}
use mini_marketplace.Gateway.Middleware.Counted.{
  verdicts, admitted, handled, counted, answered, serve_all-counted,
}

abbrev whole : Numbers ℕ
whole = record {
  of_ℕ = λ n. n;
  add = λ a b. a + b;
  sub = λ a b. a - b;
  mul = λ a b. a * b;
  min = λ a b. if leb a b then a else b;
  at_least = λ a b. leb b a;
}

abbrev limiter : TokenBucketLimiter ℕ
limiter = record { capacity = 3; refill_rate = 1 }

abbrev visit : Visit ℕ
visit = record { now = 7; clock = 100; client_ip = "a"; fate = returned }

-- the handlers count their calls
abbrev get_order : Request ℕ ℕ
get_order = record {
  visit = visit;
  method = "GET";
  full_path = "/api/v1/orders/:id";
  handle = λ n. (some 200, n + 1);
}

abbrev nowhere : Request ℕ ℕ
nowhere = record { visit = visit; method = "GET"; full_path = ""; handle = λ n. (some 404, n) }

abbrev swagger : Request ℕ ℕ
swagger = record {
  visit = visit;
  method = "GET";
  full_path = "/swagger/*any";
  handle = λ n. (some 200, n);
}

abbrev requests : List (Registered × Request ℕ ℕ)
requests =
    (after_metrics, get_order)
    ∷ (before_metrics, swagger)
    ∷ (no_route, nowhere)
    ∷ (after_metrics, get_order)
    ∷ []

-- The fourth request is refused, and the counter has seen the first and the third.
samples :
    (serve_all whole limiter requests [] 0 []).3
    ≡ record { method = "GET"; path = "/api/v1/orders/:id"; status = 200 }
      ∷ record { method = "GET"; path = "unmatched"; status = 404 }
      ∷ []
unfolding serve_all serve metrics path_label rate_limit allow token_bucket bucket_of refilled
    put_bucket verdict_of limit_key text_eq
samples = refl

requests_routed :
    All (λ (x : Registered × Request ℕ ℕ). (x.0 ≢ no_route) → x.1.full_path ≢ "") requests
requests_routed = (λ n e. cc, (λ n e. cc, (λ n. absurd (n refl), (λ n e. cc, tt))))

serve_all-counted_example :
    let (vs, buckets') = verdicts whole limiter requests [] in
    let through = admitted whole limiter vs requests in
    let (answers, s') = handled through 0 in
    serve_all whole limiter requests [] 0 []
    ≡ (answered vs answers, buckets', s', [] ++ counted through answers)
serve_all-counted_example = serve_all-counted whole limiter requests [] 0 [] requests_routed

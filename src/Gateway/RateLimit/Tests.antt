-- ===== src/Gateway/RateLimit/Tests.antt =====
-- The limiter at concrete requests, on whole numbers of tokens and seconds.
use mini_marketplace.Base.{
  ℕ, ◌+◌, ◌-◌, ◌*◌, String, ◌≡◌, refl, List, [], ◌∷◌, map, leb, if◌then◌else◌, arith, text_eq,
}
use mini_marketplace.Gateway.RateLimit.{
  Numbers, TokenBucketLimiter, Fate, returned, away, lost, next, too_many_requests, limit_key,
  bucket_of, refilled, put_bucket, token_bucket, allow, verdict_of, rate_limit,
}
use mini_marketplace.Gateway.RateLimit.Buckets.{IsExact}
use mini_marketplace.Gateway.RateLimit.Burst.{
  counter, at_moment, fates_of, verdicts_of, verdicts_of-counter,
}

abbrev whole : Numbers ℕ
whole = record {
  of_ℕ = λ n. n;
  add = λ a b. a + b;
  sub = λ a b. a - b;
  mul = λ a b. a * b;
  min = λ a b. if leb a b then a else b;
  at_least = λ a b. leb b a;
}

-- two tokens, and three a second
abbrev limiter : TokenBucketLimiter ℕ
limiter = record { capacity = 2; refill_rate = 3 }

whole-IsExact : IsExact whole limiter 7
whole-IsExact = record {
  sub_self = refl;
  mul_zero = refl;
  add_zero = λ n small. omega arith;
  min_small = λ n small. ground arith;
  at_least_one = λ n small. refl;
  sub_one = λ n small. omega arith;
}

abbrev requests : List (String × Fate)
requests =
    ("a", returned)
    ∷ ("b", returned)
    ∷ ("a", away)
    ∷ ("a", returned)
    ∷ ("a", returned)
    ∷ ("b", lost)
    ∷ ("b", returned)
    ∷ []

-- The third call of "a" that returns is refused.
refused :
    verdicts_of whole limiter "a" (map (at_moment 7 100) requests) []
    ≡ next ∷ next ∷ next ∷ too_many_requests ∷ []
unfolding verdicts_of at_moment rate_limit allow token_bucket bucket_of refilled put_bucket
    verdict_of limit_key text_eq
refused = refl

-- A lost reply has cost "b" a token.
lost_token : counter 2 (fates_of "b" requests) ≡ next ∷ next ∷ too_many_requests ∷ []
unfolding counter fates_of text_eq
lost_token = refl

verdicts_of-counter_example :
    verdicts_of whole limiter "b" (map (at_moment 7 100) requests) []
    ≡ counter 2 (fates_of "b" requests)
verdicts_of-counter_example =
    verdicts_of-counter whole limiter 7 100 "b" requests [] whole-IsExact refl

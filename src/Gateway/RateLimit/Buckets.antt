-- ===== src/Gateway/RateLimit/Buckets.antt =====
-- The bucket of a client at one moment (api-gateway/internal/ratelimit/limiter.go and
-- delivery/http/middleware/rate_limit.go).
use text.Mathlib.TextLemmas.{append_cancel_left}
use mini_marketplace.Base.{
  text_eq_iff, first-select, first-and_none, ℕ, zero, suc, ◌-◌, ◌≤◌, String, ◌≡◌, false, not, ◌&&◌,
  none, List, ltb, leb, first, text_eq, text_eq→eq, text_eq_refl, text_eq_sym, arith,
}
use mini_marketplace.Gateway.RateLimit.{
  Numbers, Bucket, TokenBucketLimiter, limit_key, bucket_of, refilled, put_bucket, token_bucket,
}

-- Whole numbers up to the capacity are exact, and at one moment nothing is refilled: what doubles
-- do for a capacity below 2 ^ 53 and a finite time and rate.
pub record IsExact {F : Type 0} (num : Numbers F) (l : TokenBucketLimiter F) (now : F)
    : Type 0 where
  pub sub_self : num.sub now now ≡ num.of_ℕ 0
  pub mul_zero : num.mul (num.of_ℕ 0) l.refill_rate ≡ num.of_ℕ 0
  pub add_zero : (n : ℕ) → n ≤ l.capacity → num.add (num.of_ℕ n) (num.of_ℕ 0) ≡ num.of_ℕ n
  pub min_small : (n : ℕ) → n ≤ l.capacity → num.min (num.of_ℕ l.capacity) (num.of_ℕ n) ≡ num.of_ℕ n
  pub at_least_one : (n : ℕ) → n ≤ l.capacity → num.at_least (num.of_ℕ n) (num.of_ℕ 1) ≡ leb 1 n
  pub sub_one : (n : ℕ) → suc n ≤ l.capacity → num.sub (num.of_ℕ (suc n)) (num.of_ℕ 1) ≡ num.of_ℕ n

pub limit_key-apart : (a b : String) → text_eq (limit_key a) (limit_key b) ≡ text_eq a b
unfolding limit_key
limit_key-apart a b = ground (
  arith,
  text_eq_iff a b,
  text_eq_iff (limit_key a) (limit_key b),
  append_cancel_left "ratelimit:" a b,
)

module _ {F : Type 0} (num : Numbers F) (l : TokenBucketLimiter F) (now : F) (clock : ℕ)
    (exact : IsExact num l now) where
  refilled_same : (n : ℕ) → n ≤ l.capacity → refilled num l now (num.of_ℕ n, now) ≡ num.of_ℕ n
  unfolding refilled
  refilled_same n small =
      ground
        (arith, exact.sub_self, exact.mul_zero, exact.add_zero n small, exact.min_small n small)

  -- A bucket that has just been put.
  bucket_of-put_bucket :
      (key : String) (tokens : F) (buckets : List (Bucket F))
      → bucket_of num l now clock key (put_bucket num l now clock key tokens buckets)
        ≡ (tokens, now)
  unfolding bucket_of put_bucket
  bucket_of-put_bucket key tokens buckets = ground (arith, text_eq_refl key)

  -- The bucket of another key.
  bucket_of-put_bucket_ne :
      (key key' : String) (tokens : F) (buckets : List (Bucket F))
      → text_eq key' key ≡ false
      → bucket_of num l now clock key (put_bucket num l now clock key' tokens buckets)
        ≡ bucket_of num l now clock key buckets
  unfolding bucket_of put_bucket
  bucket_of-put_bucket_ne key key' tokens buckets apart =
      let same =
        first-select (λ b. text_eq b.key key && ltb clock b.expires) (λ b. not (text_eq b.key key'))
          buckets (λ b hit. ground (arith, text_eq→eq b.key key, text_eq_sym key key')) in
      ground (arith, same)

  -- One call of the script on a bucket with `left` tokens.
  pub token_bucket_lem :
      (key : String) (left : ℕ) (buckets : List (Bucket F))
      → left ≤ l.capacity
      → bucket_of num l now clock key buckets ≡ (num.of_ℕ left, now)
      → (token_bucket num l now clock key buckets).0 ≡ leb 1 left
        × (bucket_of num l now clock key (token_bucket num l now clock key buckets).1
            ≡ (num.of_ℕ (left - 1), now))
  unfolding token_bucket
  token_bucket_lem key zero buckets small here =
      let full = refilled_same zero small in
      let none_left = exact.at_least_one zero small in
      let after = bucket_of-put_bucket key (num.of_ℕ 0) buckets in
      (ground (arith, full, none_left), ground (arith, full, none_left, after))
  token_bucket_lem key (suc left) buckets small here =
      let full = refilled_same (suc left) small in
      let enough = exact.at_least_one (suc left) small in
      let one_less = exact.sub_one left small in
      let after = bucket_of-put_bucket key (num.of_ℕ left) buckets in
      (ground (arith, full, enough), ground (arith, full, enough, one_less, after))

  pub token_bucket_other :
      (key key' : String) (buckets : List (Bucket F))
      → text_eq key' key ≡ false
      → bucket_of num l now clock key (token_bucket num l now clock key' buckets).1
        ≡ bucket_of num l now clock key buckets
  unfolding token_bucket
  token_bucket_other key key' buckets apart =
      let tokens = refilled num l now (bucket_of num l now clock key' buckets) in
      ground (
        arith,
        bucket_of-put_bucket_ne key key' tokens buckets apart,
        bucket_of-put_bucket_ne key key' (num.sub tokens (num.of_ℕ 1)) buckets apart,
      )

  -- No token of the client was taken before.
  pub fresh_bucket :
      (ip : String) (buckets : List (Bucket F))
      → first (λ b. text_eq b.key (limit_key ip)) buckets ≡ none
      → bucket_of num l now clock (limit_key ip) buckets ≡ (num.of_ℕ l.capacity, now)
  unfolding bucket_of
  fresh_bucket ip buckets none_there = ground (
    arith,
    first-and_none (λ b. text_eq b.key (limit_key ip)) (λ b. ltb clock b.expires) buckets
        none_there,
  )

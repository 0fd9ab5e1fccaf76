-- ===== src/Gateway/RateLimit.antt =====
-- api-gateway/internal: the token bucket of ratelimit/limiter.go with its script, and the middleware
-- of delivery/http/middleware/rate_limit.go. The numbers of the script are of a type of their own,
-- with the operations that it uses; Redis reads back the numbers that it was given.
pub mod Buckets
pub mod Burst
mod Tests
use Prim.Native.String.{◌++◌ as text_append}
use mini_marketplace.Base.{
  ℕ, ◌+◌, String, Bool, true, false, not, ◌&&◌, Option, none, some, List, [], ◌∷◌, ok, err, Result,
  if◌then◌else◌, ltb, first, select, text_eq,
}

-- Lua's numbers: the operations of the script.
pub record Numbers (F : Type 0) : Type 0 where
  pub of_ℕ : ℕ → F
  pub add : F → F → F
  pub sub : F → F → F
  pub mul : F → F → F
  pub min : F → F → F
  pub at_least : F → F → Bool

-- the fields of a key, with the time at which Redis drops it
pub record Bucket (F : Type 0) : Type 0 where
  pub key : String
  pub tokens : F
  pub last_refill : F
  pub expires : ℕ

pub record TokenBucketLimiter (F : Type 0) : Type 0 where
  pub capacity : ℕ
  pub refill_rate : F

-- What becomes of the call of the script: it returns; or Redis is away; or it runs and its reply is
-- lost.
pub data Fate : Type 0 where
  returned away lost : Fate

-- a request: the time as the limiter writes it, the time of Redis, and the address of the client
pub record Visit (F : Type 0) : Type 0 where
  pub now : F
  pub clock : ℕ
  pub client_ip : String
  pub fate : Fate

-- What the middleware does: it calls the handlers behind it, or answers 429.
pub data Verdict : Type 0 where
  next too_many_requests : Verdict

unfoldable pub limit_key : String → String
limit_key client_ip = text_append "ratelimit:" client_ip

module _ {F : Type 0} (num : Numbers F) (l : TokenBucketLimiter F) where
  -- the tokens and the time of the last refill that the script starts from
  unfoldable pub bucket_of : F → ℕ → String → List (Bucket F) → F × F
  bucket_of now clock key buckets =
      elim (first (λ b. text_eq b.key key && ltb clock b.expires) buckets) [
        | none ↦ (num.of_ℕ l.capacity, now)
        | some b ↦ (b.tokens, b.last_refill)
      ]

  -- the tokens after the refill
  unfoldable pub refilled : F → F × F → F
  refilled now (tokens, last_refill) =
      num.min (num.of_ℕ l.capacity)
        (num.add tokens (num.mul (num.sub now last_refill) l.refill_rate))

  -- `HMSET` and `EXPIRE`
  unfoldable pub put_bucket : F → ℕ → String → F → List (Bucket F) → List (Bucket F)
  put_bucket now clock key tokens buckets =
      record { key = key; tokens = tokens; last_refill = now; expires = clock + 3600 }
      ∷ select (λ b. not (text_eq b.key key)) buckets

  -- the script, for one token: 1 or 0 as a test, and the keys
  unfoldable pub token_bucket : F → ℕ → String → List (Bucket F) → Bool × List (Bucket F)
  unfolding bucket_of refilled put_bucket
  token_bucket now clock key buckets =
      let tokens = refilled now (bucket_of now clock key buckets) in
      if num.at_least tokens (num.of_ℕ 1)
      then (true, put_bucket now clock key (num.sub tokens (num.of_ℕ 1)) buckets)
      else (false, put_bucket now clock key tokens buckets)

  unfoldable pub allow :
      Visit F → String → List (Bucket F) → Result (Unit {0}) Bool × List (Bucket F)
  allow v key buckets =
      let (allowed, after) = token_bucket v.now v.clock key buckets in
      elim v.fate [
        | returned ↦ (ok allowed, after)
        | away ↦ (err tt, buckets)
        | lost ↦ (err tt, after)
      ]

  -- what the middleware makes of the limiter's answer
  unfoldable pub verdict_of : Result (Unit {0}) Bool → Verdict
  verdict_of (err e) = next
  verdict_of (ok true) = next
  verdict_of (ok false) = too_many_requests

  unfoldable pub rate_limit : Visit F → List (Bucket F) → Verdict × List (Bucket F)
  unfolding verdict_of limit_key
  rate_limit v buckets =
      let (r, after) = allow v (limit_key v.client_ip) buckets in (verdict_of r, after)

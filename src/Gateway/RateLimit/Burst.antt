-- ===== src/Gateway/RateLimit/Burst.antt =====
-- The token bucket of the gateway against a counter (api-gateway/internal/ratelimit/limiter.go and
-- delivery/http/middleware/rate_limit.go).
use mathlib.Core.Path.{subst}
use mini_marketplace.Base.{
  ℕ, ◌-◌, ◌≤◌, String, ◌≡◌, refl, sym, ◌∙◌, false, inl, inr, none, List, [], ◌∷◌, map,
  if◌then◌else◌, leb, first, text_eq, text_eq→eq, Bool-cases, arith,
}
use mini_marketplace.Gateway.RateLimit.{
  Numbers, Bucket, TokenBucketLimiter, Fate, returned, away, lost, Visit, Verdict, next,
  too_many_requests, limit_key, bucket_of, allow, verdict_of, rate_limit,
}
use mini_marketplace.Gateway.RateLimit.Buckets.{
  IsExact, limit_key-apart, token_bucket_lem, token_bucket_other, fresh_bucket,
}

-- A counter of tokens, as the description of the limiter: a request whose call returns passes while
-- a token is left, and takes it; a lost reply lets the request pass and takes a token if one is
-- left; with Redis away the request passes.
unfoldable pub counter : ℕ → List Fate → List Verdict
counter left [] = []
counter left (returned ∷ fates) =
    (if leb 1 left then next else too_many_requests) ∷ counter (left - 1) fates
counter left (lost ∷ fates) = next ∷ counter (left - 1) fates
counter left (away ∷ fates) = next ∷ counter left fates

-- a request of a client at a moment, with its fate
unfoldable pub at_moment : {F : Type 0} → F → ℕ → String × Fate → Visit F
at_moment now clock (client_ip, fate) = record {
  now = now;
  clock = clock;
  client_ip = client_ip;
  fate = fate;
}

-- the fates of the requests of one client
unfoldable pub fates_of : String → List (String × Fate) → List Fate
fates_of ip [] = []
fates_of ip ((client_ip, fate) ∷ requests) =
    if text_eq client_ip ip then fate ∷ fates_of ip requests else fates_of ip requests

-- the verdicts on the requests of one client, among those of all
unfoldable pub verdicts_of :
    {F : Type 0}
    → Numbers F
    → TokenBucketLimiter F
    → String
    → List (Visit F)
    → List (Bucket F)
    → List Verdict
verdicts_of num l ip [] buckets = []
verdicts_of num l ip (v ∷ visits) buckets =
    let (verdict, after) = rate_limit num l v buckets in
    let rest = verdicts_of num l ip visits after in
    if text_eq v.client_ip ip then verdict ∷ rest else rest

module _ {F : Type 0} (num : Numbers F) (l : TokenBucketLimiter F) (now : F) (clock : ℕ)
    (exact : IsExact num l now) where
  -- A request of another client leaves the bucket as it is.
  rate_limit_other :
      (ip client_ip : String) (fate : Fate) (buckets : List (Bucket F))
      → text_eq client_ip ip ≡ false
      → bucket_of num l now clock
          (limit_key ip)
          (rate_limit num l (at_moment now clock (client_ip, fate)) buckets).1
        ≡ bucket_of num l now clock (limit_key ip) buckets
  unfolding rate_limit allow at_moment
  rate_limit_other ip client_ip away buckets apart = refl
  rate_limit_other ip client_ip returned buckets apart =
      token_bucket_other num l now clock exact (limit_key ip) (limit_key client_ip) buckets
        (limit_key-apart client_ip ip ∙ apart)
  rate_limit_other ip client_ip lost buckets apart =
      token_bucket_other num l now clock exact (limit_key ip) (limit_key client_ip) buckets
        (limit_key-apart client_ip ip ∙ apart)

  -- What a request with `left` tokens comes to: the verdict of the counter, and its tokens.
  abbrev Counts : String → ℕ → Fate → List Fate → Verdict × List (Bucket F) → Type 0
  Counts ip left fate fates out =
      (left' : ℕ) × (left' ≤ l.capacity)
      × (bucket_of num l now clock (limit_key ip) out.1 ≡ (num.of_ℕ left', now))
      × (counter left (fate ∷ fates) ≡ out.0 ∷ counter left' fates)

  rate_limit-Counts :
      (ip : String) (fate : Fate) (fates : List Fate) (left : ℕ) (buckets : List (Bucket F))
      → left ≤ l.capacity
      → bucket_of num l now clock (limit_key ip) buckets ≡ (num.of_ℕ left, now)
      → Counts ip left fate fates (rate_limit num l (at_moment now clock (ip, fate)) buckets)
  unfolding rate_limit allow verdict_of at_moment counter
  rate_limit-Counts ip away fates left buckets small here = (left, small, here, refl)
  rate_limit-Counts ip returned fates left buckets small here =
      let (answer, after) =
        token_bucket_lem num l now clock exact (limit_key ip) left buckets small here in
      (left - 1, omega arith, after, ground (arith, answer))
  rate_limit-Counts ip lost fates left buckets small here =
      let (answer, after) =
        token_bucket_lem num l now clock exact (limit_key ip) left buckets small here in
      (left - 1, omega arith, after, refl)

  verdicts_of_lem :
      (ip : String) (requests : List (String × Fate)) (left : ℕ) (buckets : List (Bucket F))
      → left ≤ l.capacity
      → bucket_of num l now clock (limit_key ip) buckets ≡ (num.of_ℕ left, now)
      → verdicts_of num l ip (map (at_moment now clock) requests) buckets
        ≡ counter left (fates_of ip requests)
  unfolding verdicts_of fates_of at_moment
  verdicts_of_lem ip [] left buckets small here = unfold counter in refl
  verdicts_of_lem ip ((client_ip, fate) ∷ requests) left buckets small here =
      let after = (rate_limit num l (at_moment now clock (client_ip, fate)) buckets).1 in
      elim (Bool-cases (text_eq client_ip ip)) [
        | inr apart ↦
            let kept = rate_limit_other ip client_ip fate buckets apart in
            let rest = verdicts_of_lem ip requests left after small (kept ∙ here) in
            ground (arith, rest)
        | inl same ↦
            let fates = fates_of ip requests in
            let (left', small', there, counts) =
              subst
                (λ (c : String).
                  Counts ip left fate fates
                    (rate_limit num l (at_moment now clock (c, fate)) buckets))
                (sym (text_eq→eq client_ip ip same))
                (rate_limit-Counts ip fate fates left buckets small here) in
            let rest = verdicts_of_lem ip requests left' after small' there in
            ground (arith, rest, counts)
      ]

-- At any one moment the limiter is a counter for every client: the verdicts on a client's requests,
-- among the requests of any others and whatever becomes of the calls of Redis, are those of a
-- counter that starts with the capacity, fed with the fates of that client's requests alone. The
-- client has no bucket yet, and whole numbers up to the capacity are exact.
pub verdicts_of-counter :
    {F : Type 0} (num : Numbers F) (l : TokenBucketLimiter F) (now : F) (clock : ℕ) (ip : String)
    (requests : List (String × Fate)) (buckets : List (Bucket F))
    → IsExact num l now
    → first (λ b. text_eq b.key (limit_key ip)) buckets ≡ none
    → verdicts_of num l ip (map (at_moment now clock) requests) buckets
      ≡ counter l.capacity (fates_of ip requests)
verdicts_of-counter num l now clock ip requests buckets exact absent =
    verdicts_of_lem num l now clock exact ip requests l.capacity buckets (omega arith)
      (fresh_bucket num l now clock exact ip buckets absent)

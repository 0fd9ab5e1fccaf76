-- ===== src/Gateway/Middleware/Counted.antt =====
-- The middleware taken apart: the limiter, the handlers and the counter, each by itself
-- (api-gateway/internal/delivery/http/middleware).
use mathlib.Core.List.{append-nil, append_assoc}
use mini_marketplace.Base.{
  ℕ, ◌≡◌, refl, ◌⊎◌, inl, inr, Option, none, some, List, [], ◌∷◌, ◌++◌, arith, Option-cases, ◌≢◌,
  String, Bool-cases, text_eq, text_eq→eq, All,
}
use mini_marketplace.Gateway.RateLimit.{
  Numbers, TokenBucketLimiter, Bucket, Verdict, next, too_many_requests, rate_limit,
}
use mini_marketplace.Gateway.Middleware.{
  Sample, Request, Registered, before_metrics, after_metrics, no_route, path_label, metrics, serve,
  serve_all,
}

module _ {F S : Type 0} (num : Numbers F) (l : TokenBucketLimiter F) where
  -- The limiter by itself: its verdicts and its buckets, whatever the handlers do.
  pub verdicts : List (Registered × Request F S) → List (Bucket F) → List Verdict × List (Bucket F)
  verdicts [] buckets = ([], buckets)
  verdicts ((_, r) ∷ requests) buckets =
      let (verdict, after) = rate_limit num l r.visit buckets in
      let (rest, left) = verdicts requests after in (verdict ∷ rest, left)

  -- The requests that it lets through.
  pub admitted : List Verdict → List (Registered × Request F S) → List (Registered × Request F S)
  admitted [] requests = []
  admitted (v ∷ vs) [] = []
  admitted (next ∷ vs) (r ∷ requests) = r ∷ admitted vs requests
  admitted (too_many_requests ∷ vs) (r ∷ requests) = admitted vs requests

module _ {F S : Type 0} where
  -- The handlers by themselves.
  pub handled : List (Registered × Request F S) → S → List (Option ℕ) × S
  handled [] s = ([], s)
  handled ((_, r) ∷ requests) s =
      let (answer, after) = r.handle s in
      let (answers, left) = handled requests after in (answer ∷ answers, left)

  -- What the counter should get of a request and its answer: a sample if the handler did not panic
  -- and its route comes after the counter or there is none.
  pub sample_of : Registered → Request F S → Option ℕ → List Sample
  sample_of after_metrics r (some status) =
      record { method = r.method; path = r.full_path; status = status } ∷ []
  sample_of no_route r (some status) =
      record { method = r.method; path = "unmatched"; status = status } ∷ []
  sample_of before_metrics r answer = []
  sample_of w r none = []

  pub counted : List (Registered × Request F S) → List (Option ℕ) → List Sample
  counted [] answers = []
  counted (r ∷ requests) [] = []
  counted ((w, r) ∷ requests) (answer ∷ answers) = sample_of w r answer ++ counted requests answers

-- The answers to all requests, of the verdicts and the answers of the handlers.
pub answered : List Verdict → List (Option ℕ) → List (Option ℕ)
answered [] answers = []
answered (too_many_requests ∷ vs) answers = some 429 ∷ answered vs answers
answered (next ∷ vs) [] = []
answered (next ∷ vs) (answer ∷ answers) = answer ∷ answered vs answers

Verdict-cases : (v : Verdict) → (v ≡ too_many_requests) ⊎ (v ≡ next)
Verdict-cases too_many_requests = inl refl
Verdict-cases next = inr refl

label_of_route : (path : String) → path ≢ "" → path_label path ≡ path
unfolding path_label
label_of_route path routed = elim (Bool-cases (text_eq path "")) [
  | inl e ↦ absurd (routed (text_eq→eq path "" e))
  | inr e ↦ rw e
]

label_of_none : path_label "" ≡ "unmatched"
unfolding path_label text_eq
label_of_none = refl

module _ {F S : Type 0} (num : Numbers F) (l : TokenBucketLimiter F) where
  serve-refused :
      (w : Registered) (r : Request F S) (buckets : List (Bucket F)) (s : S) (total : List Sample)
      → (rate_limit num l r.visit buckets).0 ≡ too_many_requests
      → serve num l w r buckets s total ≡ (some 429, (rate_limit num l r.visit buckets).1, s, total)
  unfolding serve
  serve-refused w r buckets s total refused = ground arith

  -- A request that the limiter lets through.
  serve-admitted :
      (w : Registered) (r : Request F S) (buckets : List (Bucket F)) (s : S) (total : List Sample)
      → ((w ≢ no_route) → r.full_path ≢ "")
      → (rate_limit num l r.visit buckets).0 ≡ next
      → serve num l w r buckets s total ≡ (
        (r.handle s).0,
        (rate_limit num l r.visit buckets).1,
        (r.handle s).1,
        total ++ sample_of w r (r.handle s).0,
      )
  unfolding serve metrics sample_of
  serve-admitted before_metrics r buckets s total path passed = ground (arith, append-nil total)
  serve-admitted after_metrics r buckets s total path passed = elim (Option-cases (r.handle s).0) [
    | inl panicked ↦ ground (arith, append-nil total)
    | inr (status, done) ↦ ground (arith, label_of_route r.full_path (path (λ e. cc)))
  ]
  serve-admitted no_route r buckets s total path passed = elim (Option-cases (r.handle s).0) [
    | inl panicked ↦ ground (arith, append-nil total)
    | inr (status, done) ↦ ground (arith, label_of_none)
  ]

-- The middleware is transparent and the counter is exact, where each request that has a route has
-- its path: whatever the requests and their handlers are, the limiter decides as it does alone; the
-- handlers run on the requests that it lets through and on no others, to the same answers and the
-- same state as without middleware; every request refused is answered 429; and the counter gets, in
-- their order, one sample for each request let through whose handler did not panic and whose route
-- is registered after the counter, with its method, its path and its status, or that has no route,
-- with the path `unmatched`, and none for any other.
pub serve_all-counted :
    {F S : Type 0} (num : Numbers F) (l : TokenBucketLimiter F)
    (requests : List (Registered × Request F S)) (buckets : List (Bucket F)) (s : S)
    (total : List Sample)
    → All (λ (x : Registered × Request F S). (x.0 ≢ no_route) → x.1.full_path ≢ "") requests
    → let (vs, buckets') = verdicts num l requests buckets in
      let through = admitted num l vs requests in
      let (answers, s') = handled through s in
      serve_all num l requests buckets s total
      ≡ (answered vs answers, buckets', s', total ++ counted through answers)
unfolding serve_all verdicts admitted handled counted answered
serve_all-counted num l [] buckets s total routed = rw append-nil refl
serve_all-counted num l ((w, r) ∷ requests) buckets s total routed =
    let (verdict, after) = rate_limit num l r.visit buckets in
    elim (Verdict-cases verdict) [
      | inl refused ↦ ground (
        arith,
        serve-refused num l w r buckets s total refused,
        serve_all-counted num l requests after s total routed.1,
      )
      | inr passed ↦
          let (answer, s') = r.handle s in
          let one = sample_of w r answer in
          let through = admitted num l (verdicts num l requests after).0 requests in
          ground (
            arith,
            serve-admitted num l w r buckets s total routed.0 passed,
            serve_all-counted num l requests after s' (total ++ one) routed.1,
            append_assoc total one (counted through (handled through s').0),
          )
    ]

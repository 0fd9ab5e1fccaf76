-- ===== src/Gateway/Middleware.antt =====
-- api-gateway/internal/delivery/http/middleware/metrics.go, and the order in which
-- api-gateway/cmd/gateway/main.go puts the middleware of a route. What `c.Next()` runs is given: from
-- the state of the handlers behind to the status of the answer, or `none` for a panic, which unwinds
-- through the middleware. The times observed are left out.
pub mod Counted
mod Tests
use mini_marketplace.Base.{
  ℕ, String, Option, none, some, List, [], ◌∷◌, ◌++◌, if◌then◌else◌, text_eq,
}
use mini_marketplace.Gateway.RateLimit.{
  Numbers, TokenBucketLimiter, Visit, Bucket, Verdict, next, too_many_requests, rate_limit,
}

-- the labels of an increment of `HTTPRequestsTotal`
pub record Sample : Type 0 where
  pub method : String
  pub path : String
  pub status : ℕ

-- a request to the gateway, with the path of its route and what the handler does: that of the
-- route, or gin's answer 404 where there is no route
pub record Request (F S : Type 0) : Type 0 where
  pub visit : Visit F
  pub method : String
  pub full_path : String
  pub handle : S → Option ℕ × S

-- `path`, for a request without a route too
unfoldable pub path_label : String → String
path_label full_path = if text_eq full_path "" then "unmatched" else full_path

-- `Metrics`: what follows `c.Next()` is not reached by a panic
unfoldable pub metrics :
    {S : Type 0}
    → String
    → String
    → (S → Option ℕ × S)
    → S
    → List Sample
    → Option ℕ × S × List Sample
unfolding path_label
metrics method full_path handle s total =
    let (answer, after) = handle s in
    elim answer [
      | none ↦ (none, after, total)
      | some status ↦ (
        some status,
        after,
        total ++ record { method = method; path = path_label full_path; status = status } ∷ [],
      )
    ]

-- The route of a request: registered before `router.Use(middleware.Metrics())`, after it, or no
-- route at all. gin runs the middleware of a route that was in use when it was registered, and all of
-- the engine's for a request without one, whose `c.FullPath()` is empty.
pub data Registered : Type 0 where
  before_metrics after_metrics no_route : Registered

module _ {F S : Type 0} (num : Numbers F) (l : TokenBucketLimiter F) where
  -- one request through the middleware of its route
  unfoldable pub serve :
      Registered
      → Request F S
      → List (Bucket F)
      → S
      → List Sample
      → Option ℕ × List (Bucket F) × S × List Sample
  serve registered r buckets s total =
      let (verdict, after) = rate_limit num l r.visit buckets in
      elim verdict [
        | too_many_requests ↦ (some 429, after, s, total)
        | next ↦ elim registered [
          | before_metrics ↦ let (answer, s') = r.handle s in (answer, after, s', total)
          | after_metrics ↦
              let (answer, s', total') = metrics r.method r.full_path r.handle s total in
              (answer, after, s', total')
          | no_route ↦
              let (answer, s', total') = metrics r.method "" r.handle s total in
              (answer, after, s', total')
        ]
      ]

  -- requests one after another: the answers, and what is left
  unfoldable pub serve_all :
      List (Registered × Request F S)
      → List (Bucket F)
      → S
      → List Sample
      → List (Option ℕ) × List (Bucket F) × S × List Sample
  serve_all [] buckets s total = ([], buckets, s, total)
  serve_all ((registered, r) ∷ requests) buckets s total =
      let (answer, after, s', total') = serve registered r buckets s total in
      let (answers, buckets', left, counted) = serve_all requests after s' total' in
      (answer ∷ answers, buckets', left, counted)

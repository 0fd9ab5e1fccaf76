-- ===== src/Gateway.antt =====
-- api-gateway/internal: the cache-aside read of delivery/http/order_handler.go over
-- cache/redis_cache.go, and the HTTP codes of its errors. What order-service answers is given with
-- each request. A cached value is the value that its JSON text stands for. Logs are left out.
pub mod Fresh
pub mod Requests
pub mod RateLimit
pub mod Middleware
mod Tests
use mini_marketplace.Base.{
  ℕ, ◌+◌, String, Bool, true, false, ◌&&◌, Option, none, some, List, [], ◌∷◌, ok, err, Result,
  if◌then◌else◌, ltb, first, select, not, text_eq,
}
use Prim.Native.String.{◌++◌ as text_append}
use mini_marketplace.Base.Int.{ℤ}
use mini_marketplace.Orders.Domain.{Money}
use mini_marketplace.Orders.Server.{ItemMessage}
use mini_marketplace.Orders.Server as Proto

-- What a call of the client fails with: a status, by its code, or another error.
pub data GrpcError : Type 0 where
  invalid_argument not_found failed_precondition aborted unavailable other_code : GrpcError
  no_status : GrpcError

-- the HTTP code
unfoldable pub write_grpc_error : GrpcError → ℕ
write_grpc_error invalid_argument = 400
write_grpc_error not_found = 404
write_grpc_error failed_precondition = 409
write_grpc_error aborted = 409
write_grpc_error unavailable = 503
write_grpc_error other_code = 500
write_grpc_error no_status = 500

pub record OrderItemResponse : Type 0 where
  pub sku : String
  pub name : String
  pub price : ℤ
  pub currency : String
  pub quantity : ℤ

-- `orderResponse`, the answer of the gateway
pub record OrderView : Type 0 where
  pub id : String
  pub customer_id : String
  pub items : List OrderItemResponse
  pub total_cost : ℤ
  pub currency : String
  pub status : String
  pub version : ℤ
  pub created_at : String
  pub updated_at : String

-- the loop of `toOrderResponse`; `none` is the panic of a price that is not set
unfoldable pub item_views : List ItemMessage → Option (List OrderItemResponse)
item_views [] = some []
item_views (it ∷ rest) = elim it.price [
  | none ↦ none
  | some price ↦ elim (item_views rest) [
    | none ↦ none
    | some views ↦ some (
        record {
          sku = it.sku;
          name = it.name;
          price = price.amount;
          currency = price.currency;
          quantity = it.quantity;
        }
        ∷ views)
  ]
]

unfoldable pub order_view : (ℕ → String) → Proto.OrderResponse → Option OrderView
order_view rfc3339 o = elim (item_views o.items) [
  | none ↦ none
  | some items ↦ elim o.total_cost [
    | none ↦ none
    | some total ↦ some (record {
      id = o.id;
      customer_id = o.customer_id;
      items = items;
      total_cost = total.amount;
      currency = total.currency;
      status = o.status;
      version = o.version;
      created_at = rfc3339 o.created_at;
      updated_at = rfc3339 o.updated_at;
    })
  ]
]

-- an entry of the cache, with the time at which Redis drops it
pub record CacheEntry : Type 0 where
  pub key : String
  pub value : OrderView
  pub expires : ℕ

-- What a request takes from outside: the clock, whether Redis fails to read or to write, the text
-- of a time, and what the call of order-service gives.
pub record Visit : Type 0 where
  pub now : ℕ
  pub get_fails : Bool
  pub set_fails : Bool
  pub rfc3339 : ℕ → String
  pub reply : Result GrpcError Proto.OrderResponse

-- `RedisCache.Get`: an error, a miss, or a value that has not expired
unfoldable pub cache_get : Visit → String → List CacheEntry → Result (Unit {0}) (Option OrderView)
cache_get v key cache =
    if v.get_fails
    then err tt
    else elim (first (λ e. text_eq e.key key && ltb v.now e.expires) cache) [
      | none ↦ ok none
      | some e ↦ ok (some e.value)
    ]

-- `RedisCache.Set`: the entry of a key is replaced
unfoldable pub cache_set : ℕ → Visit → String → OrderView → List CacheEntry → List CacheEntry
cache_set ttl v key value cache =
    if v.set_fails
    then cache
    else record { key = key; value = value; expires = v.now + ttl }
      ∷ select (λ e. not (text_eq e.key key)) cache

-- The answer of a handler: 200 with an order, another code, or a panic.
pub data Answer : Type 0 where
  order_found : OrderView → Answer
  failed : ℕ → Answer
  panic : Answer

unfoldable pub cache_key : String → String
cache_key id = text_append "order:" id

-- after a miss: the call of order-service, and the write to the cache
unfoldable pub read_through : ℕ → Visit → String → List CacheEntry → Answer × List CacheEntry
read_through ttl v id cache = elim v.reply [
  | err e ↦ (failed (write_grpc_error e), cache)
  | ok resp ↦ elim (order_view v.rfc3339 resp) [
    | none ↦ (panic, cache)
    | some view ↦ (order_found view, cache_set ttl v (cache_key id) view cache)
  ]
]

unfoldable pub get_order : ℕ → Visit → String → List CacheEntry → Answer × List CacheEntry
get_order ttl v id cache = elim (cache_get v (cache_key id) cache) [
  | err e ↦ read_through ttl v id cache
  | ok (some cached) ↦ (order_found cached, cache)
  | ok none ↦ read_through ttl v id cache
]

-- The cache after some requests, the newest first, from an empty one.
unfoldable pub cache_after : ℕ → List (Visit × String) → List CacheEntry
cache_after ttl [] = []
cache_after ttl ((v, id) ∷ earlier) = (get_order ttl v id (cache_after ttl earlier)).1

-- ===== src/Gateway/Tests/Posting.antt =====
-- `POST` and the lists of the gateway at concrete inputs.
use mini_marketplace.Base.{
  ℕ, String, ◌≡◌, refl, Option, none, some, [], ◌∷◌, ok, err, text_eq, Result,
}
use mini_marketplace.Base.Json.{Bytes, garbage, encoded}
use mini_marketplace.Base.Int.{pos}
use mini_marketplace.Orders.Server as Proto
use mini_marketplace.Orders.Server.{Reply, response, failure, panic}
use mini_marketplace.Gateway.{GrpcError, unavailable, write_grpc_error, order_view, item_views}
use mini_marketplace.Gateway.Requests.{
  CreateOrderRequest, list_orders, order_page, list_failed, order_views,
}
use mini_marketplace.Gateway.Requests.Answers.{code_of}
use mini_marketplace.Gateway.Tests.{stored, view}

abbrev request : CreateOrderRequest
request = record {
  customer_id = "c1";
  items =
      record { sku = "apple"; name = "Apple"; price = pos 30; currency = "EUR"; quantity = pos 2 }
      ∷ [];
}

-- Every JSON text is read as that request.
abbrev bind : Bytes → Option CreateOrderRequest
bind garbage = none
bind (encoded v) = some request

abbrev stamp : ℕ → String
stamp n = "1970-01-01T00:00:03Z"

-- A page is passed on with its cursor, and an order-service that is away is a 503.
page_passed :
    list_orders (λ c cursor limit. ok (stored ∷ [], "x")) stamp "c1" "" ≡ order_page (view ∷ []) "x"
unfolding list_orders order_views order_view item_views text_eq
page_passed = refl

away : list_orders (λ c cursor limit. err unavailable) stamp "c1" "" ≡ list_failed 503
unfolding list_orders write_grpc_error text_eq
away = refl

-- A transport that brings every reply.
abbrev receive : Reply → Result GrpcError Proto.OrderResponse
receive (response r) = ok r
receive (failure c) = err (code_of c)
receive panic = err unavailable

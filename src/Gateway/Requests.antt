-- ===== src/Gateway/Requests.antt =====
-- `CreateOrder` and `ListOrders` of api-gateway/internal/delivery/http/order_handler.go. gin's
-- `ShouldBindJSON`, which reads a body and checks the tags of the request's fields, and the calls of
-- the client (client/grpc/order_client.go, which only passes them on) are parameters.
pub mod Answers
pub mod Create
use mini_marketplace.Base.{
  String, Option, none, some, List, [], ◌∷◌, map, ok, err, Result, if◌then◌else◌, text_eq, ℕ,
}
use mini_marketplace.Base.Int.{ℤ, pos}
use mini_marketplace.Base.Json.{Bytes}
use mini_marketplace.Orders.Server.{ItemMessage}
use mini_marketplace.Orders.Server as Proto
use mini_marketplace.Gateway.{GrpcError, write_grpc_error, OrderView, order_view}

pub record CreateOrderItemRequest : Type 0 where
  pub sku : String
  pub name : String
  pub price : ℤ  -- int64
  pub currency : String
  pub quantity : ℤ  -- int32

pub record CreateOrderRequest : Type 0 where
  pub customer_id : String
  pub items : List CreateOrderItemRequest

-- an item of the loop of `CreateOrder`
unfoldable pub message_of : CreateOrderItemRequest → ItemMessage
message_of it = record {
  sku = it.sku;
  name = it.name;
  price = some (record { amount = it.price; currency = it.currency });
  quantity = it.quantity;
}

-- The answer to a `POST`: 201 with an order, another code, or a panic.
pub data PostAnswer : Type 0 where
  order_created : OrderView → PostAnswer
  rejected : ℕ → PostAnswer
  post_panic : PostAnswer

-- the answer to a call of the client
unfoldable pub post_answer : (ℕ → String) → Result GrpcError Proto.OrderResponse → PostAnswer
post_answer rfc3339 (err e) = rejected (write_grpc_error e)
post_answer rfc3339 (ok resp) = elim (order_view rfc3339 resp) [
  | none ↦ post_panic
  | some view ↦ order_created view
]

unfoldable pub create_order :
    (Bytes → Option CreateOrderRequest)
    → (String → List ItemMessage → Result GrpcError Proto.OrderResponse)
    → (ℕ → String)
    → Bytes
    → PostAnswer
unfolding message_of post_answer
create_order bind send rfc3339 body = elim (bind body) [
  | none ↦ rejected 400
  | some req ↦ post_answer rfc3339 (send req.customer_id (map message_of req.items))
]

-- The answer to a `GET` of a list: 200 with a page, another code, or a panic.
pub data ListAnswer : Type 0 where
  order_page : List OrderView → String → ListAnswer
  list_failed : ℕ → ListAnswer
  list_panic : ListAnswer

-- the loop of `ListOrders`
unfoldable pub order_views : (ℕ → String) → List Proto.OrderResponse → Option (List OrderView)
order_views rfc3339 [] = some []
order_views rfc3339 (o ∷ orders) = elim (order_view rfc3339 o) [
  | none ↦ none
  | some view ↦ elim (order_views rfc3339 orders) [ none ↦ none | some views ↦ some (view ∷ views) ]
]

-- `ListOrders`, which always asks for 20 orders
unfoldable pub list_orders :
    (String → String → ℤ → Result GrpcError (List Proto.OrderResponse × String))
    → (ℕ → String)
    → String
    → String
    → ListAnswer
list_orders send rfc3339 customer_id cursor =
    if text_eq customer_id "" then list_failed 400 else elim (send customer_id cursor (pos 20)) [
      | err e ↦ list_failed (write_grpc_error e)
      | ok (orders, next_cursor) ↦ elim (order_views rfc3339 orders) [
        | none ↦ list_panic
        | some views ↦ order_page views next_cursor
      ]
    ]

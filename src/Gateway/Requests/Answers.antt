-- ===== src/Gateway/Requests/Answers.antt =====
-- What the client of order-service gets of a reply, and what the gateway makes of it
-- (api-gateway/internal/delivery/http/order_handler.go). The transport between them is gRPC.
use mini_marketplace.Base.{
  String, ℕ, ◌≡◌, ◌≢◌, refl, ◌∙◌, ap, ◌⊎◌, inl, inr, some, List, [], ◌∷◌, map, ok, err, Result,
  arith,
}
use mini_marketplace.Base.Int.{pos}
use mini_marketplace.Orders.Domain.{Order}
use mini_marketplace.Orders.Store.{Host}
use mini_marketplace.Orders.Server as Proto
use mini_marketplace.Orders.Server.{
  ItemMessage, Reply, response, failure, panic, Code, internal, serve_create_order,
  to_order_response,
}
use mini_marketplace.Orders.Server.Create.{IsResponseTo}
use mini_marketplace.Gateway as Gateway
use mini_marketplace.Gateway.{
  GrpcError, write_grpc_error, OrderView, OrderItemResponse, order_view, item_views,
}
use mini_marketplace.Gateway.Requests.{
  PostAnswer, CreateOrderItemRequest, CreateOrderRequest, message_of, order_created, rejected,
  post_answer,
}

-- What `status.FromError` finds in the error for a status of the server.
abbrev pub code_of : Code → GrpcError
code_of Code.invalid_argument = Gateway.invalid_argument
code_of Code.failed_precondition = Gateway.failed_precondition
code_of Code.aborted = Gateway.aborted
code_of Code.internal = Gateway.other_code

-- What a call ends with that gRPC itself breaks off: Unavailable where the server is away, or one of
-- the codes, such as DeadlineExceeded and Canceled, that the gateway does not look for.
abbrev pub IsBroken : Result GrpcError Proto.OrderResponse → Type 0
IsBroken got = (got ≡ err Gateway.unavailable) ⊎ (got ≡ err Gateway.other_code)

-- What the code relies on of gRPC between the client and the server: a response and a status arrive
-- as they are, unless the call is broken off, as it is by a panic.
pub record IsTransport (receive : Reply → Result GrpcError Proto.OrderResponse) : Type 0 where
  pub of_response :
      (r : Proto.OrderResponse) → (receive (response r) ≡ ok r) ⊎ IsBroken (receive (response r))
  pub of_failure :
      (c : Code) → (receive (failure c) ≡ err (code_of c)) ⊎ IsBroken (receive (failure c))
  pub of_panic : IsBroken (receive panic)

-- The items as the client sent them.
unfoldable pub item_answer : CreateOrderItemRequest → OrderItemResponse
item_answer it = record {
  sku = it.sku;
  name = it.name;
  price = it.price;
  currency = it.currency;
  quantity = it.quantity;
}

-- The view of a new order, with the items of the request.
pub record IsViewOf (h : Host) (req : CreateOrderRequest) (v : OrderView) : Type 0 where
  pub id : v.id ≡ h.new_id
  pub customer : v.customer_id ≡ req.customer_id
  pub items_back : v.items ≡ map item_answer req.items
  pub status : v.status ≡ "CREATED"
  pub version : v.version ≡ pos 1

item_views-message_of :
    (items : List CreateOrderItemRequest)
    → item_views (map message_of items) ≡ some (map item_answer items)
unfolding item_views message_of item_answer
item_views-message_of [] = refl
item_views-message_of (it ∷ items) = ground (arith, item_views-message_of items)

pub post_answer-IsViewOf :
    (rfc3339 : ℕ → String) (h : Host) (req : CreateOrderRequest) (o : Order)
    → IsResponseTo h req.customer_id (map message_of req.items) (to_order_response o)
    → (v : OrderView) × (post_answer rfc3339 (ok (to_order_response o)) ≡ order_created v)
      × IsViewOf h req v
unfolding post_answer order_view to_order_response
post_answer-IsViewOf rfc3339 h req o r =
    let resp : Proto.OrderResponse = to_order_response o in
    let read : item_views resp.items ≡ some (map item_answer req.items) =
      ap item_views r.items_back ∙ item_views-message_of req.items in
    let view : OrderView = record {
      id = resp.id;
      customer_id = resp.customer_id;
      items = map item_answer req.items;
      total_cost = o.total_cost.amount;
      currency = o.total_cost.currency;
      status = resp.status;
      version = resp.version;
      created_at = rfc3339 resp.created_at;
      updated_at = rfc3339 resp.updated_at;
    } in
    (
      view,
      ground (arith, read),
      record {
        id = r.id;
        customer = r.customer;
        items_back = refl;
        status = r.status;
        version = r.version;
      },
    )

-- The answers to a request that was sent on, with what the client got.
abbrev pub IsAnswer :
    Host → CreateOrderRequest → Result GrpcError Proto.OrderResponse → PostAnswer → Type 0
IsAnswer h req got out =
    ((got ≡ err Gateway.unavailable) × (out ≡ rejected 503))
    ⊎ ((got ≢ err Gateway.unavailable)
        × ((out ≡ rejected 500) ⊎ ((v : OrderView) × (out ≡ order_created v) × IsViewOf h req v)))

broken-IsAnswer :
    (rfc3339 : ℕ → String) (h : Host) (req : CreateOrderRequest)
    {got : Result GrpcError Proto.OrderResponse}
    → IsBroken got
    → IsAnswer h req got (post_answer rfc3339 got)
unfolding post_answer write_grpc_error
broken-IsAnswer rfc3339 h req broken = elim broken [
  | inl away ↦ inl (away, rw away refl)
  | inr other ↦ inr (rw other (λ e. cc), inl (rw other refl))
]

-- The answer to a reply that is no panic and no refusal of the request.
pub internal-IsAnswer :
    (receive : Reply → Result GrpcError Proto.OrderResponse) (rfc3339 : ℕ → String) (h : Host)
    (req : CreateOrderRequest)
    → IsTransport receive
    → IsAnswer h req
        (receive (failure Code.internal))
        (post_answer rfc3339 (receive (failure Code.internal)))
unfolding post_answer write_grpc_error
internal-IsAnswer receive rfc3339 h req t = elim (t.of_failure Code.internal) [
  | inl arrived ↦ inr (rw arrived (λ e. cc), inl (rw arrived refl))
  | inr broken ↦ broken-IsAnswer rfc3339 h req broken
]

pub response-IsAnswer :
    (receive : Reply → Result GrpcError Proto.OrderResponse) (rfc3339 : ℕ → String) (h : Host)
    (req : CreateOrderRequest) (o : Order)
    → IsTransport receive
    → IsResponseTo h req.customer_id (map message_of req.items) (to_order_response o)
    → let got = receive (response (to_order_response o)) in
      IsAnswer h req got (post_answer rfc3339 got)
response-IsAnswer receive rfc3339 h req o t r = elim (t.of_response (to_order_response o)) [
  | inl arrived ↦ rw arrived (inr (λ e. cc, inr (post_answer-IsViewOf rfc3339 h req o r)))
  | inr broken ↦ broken-IsAnswer rfc3339 h req broken
]

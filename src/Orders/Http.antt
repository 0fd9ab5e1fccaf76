-- ===== src/Orders/Http.antt =====
-- order-service/internal/delivery/http/order_handler.go. gin's `ShouldBindJSON`, which reads a body
-- and checks the tags of the request's fields, and `strconv.Atoi` are parameters. The texts of
-- errors and the logs are left out.
pub mod Create
use mini_marketplace.Base.{
  ℕ, String, Option, none, some, List, [], ◌∷◌, map, Result, ok, err, if◌then◌else◌, text_eq,
}
use mini_marketplace.Base.Int.{ℤ, pos}
use mini_marketplace.Base.Json.{Bytes}
use mini_marketplace.Orders.Domain.{OrderError, empty_items, OrderItem, Order, new_money}
use mini_marketplace.Orders.Store.{OrderDb, Host}
use mini_marketplace.Orders.Server.{status_text}
use mini_marketplace.Orders.Usecase.{create_order, get_order}
use mini_marketplace.Orders.Pages.{CursorText, list_orders}

pub record CreateOrderItemRequest : Type 0 where
  pub sku : String
  pub name : String
  pub price : ℤ  -- int64
  pub currency : String
  pub quantity : ℤ  -- int

pub record CreateOrderRequest : Type 0 where
  pub customer_id : String
  pub items : List CreateOrderItemRequest

-- `orderResponse`
pub record OrderResponse : Type 0 where
  pub id : String
  pub customer_id : String
  pub total_cost : ℤ
  pub currency : String
  pub status : String
  pub version : ℕ

-- The answer of a handler: a code with its body.
pub data Answer : Type 0 where
  order_answer : ℕ → OrderResponse → Answer
  list_answer : ℕ → List OrderResponse → String → Answer
  error_answer : ℕ → Answer

unfoldable pub to_order_response : Order → OrderResponse
unfolding status_text
to_order_response o = record {
  id = o.id;
  customer_id = o.customer_id;
  total_cost = o.total_cost.amount;
  currency = o.total_cost.currency;
  status = status_text o.status;
  version = o.version;
}

-- an item of the loop of `CreateOrder`
unfoldable pub item_of : CreateOrderItemRequest → OrderItem
unfolding new_money
item_of it = record {
  sku = it.sku;
  name = it.name;
  price = new_money it.price it.currency;
  quantity = it.quantity;
}

-- the end of `CreateOrder`
unfoldable pub created_answer : Result OrderError Order → Answer
unfolding to_order_response
created_answer (ok o) = order_answer 201 (to_order_response o)
created_answer (err empty_items) = error_answer 400
created_answer (err e) = error_answer 500

unfoldable pub handle_create_order :
    (Bytes → Option CreateOrderRequest) → Host → Bytes → OrderDb → Answer × OrderDb
unfolding item_of
handle_create_order bind h body db = elim (bind body) [
  | none ↦ (error_answer 400, db)
  | some req ↦
      let (r, db') = create_order h req.customer_id (map item_of req.items) db in
      (created_answer r, db')
]

unfoldable pub handle_get_order : Host → String → OrderDb → Answer
unfolding to_order_response
handle_get_order h id db = elim (get_order h id db) [
  | err e ↦ error_answer 404
  | ok o ↦ order_answer 200 (to_order_response o)
]

-- the limit of the query, 0 if it is no number
unfoldable pub query_limit : (String → Option ℤ) → String → ℤ
query_limit atoi limit = elim (atoi limit) [ none ↦ pos 0 | some n ↦ n ]

unfoldable pub handle_list_orders :
    CursorText → (String → Option ℤ) → Host → String → String → String → OrderDb → Answer
unfolding to_order_response query_limit
handle_list_orders t atoi h customer_id cursor limit db =
    if text_eq customer_id ""
    then error_answer 400
    else elim (list_orders t h customer_id cursor (query_limit atoi limit) db) [
      | err e ↦ error_answer 500
      | ok (orders, next_cursor) ↦ list_answer 200 (map to_order_response orders) next_cursor
    ]

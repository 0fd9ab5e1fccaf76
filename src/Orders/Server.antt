-- ===== src/Orders/Server.antt =====
-- order-service/internal/delivery/grpc/order_server.go: requests and responses of
-- order-service/proto as records. A message field that is not set is a nil pointer, `none`. The text
-- of a status and the logs are left out.
pub mod Replies
pub mod Create
use mini_marketplace.Base.{ℕ, String, Option, none, some, List, [], ◌∷◌, map, Result, ok, err}
use mini_marketplace.Base.Int.{ℤ, pos, wrap32}
use mini_marketplace.Orders.Domain.{
  OrderStatus, created, awaiting_stock, confirmed, cancelled, completed, OrderError, empty_items,
  invalid_transition, optimistic_lock, Money, OrderItem, Order, new_money,
}
use mini_marketplace.Orders.Store.{OrderDb, Host}
use mini_marketplace.Orders.Usecase.{create_order, get_order}
use mini_marketplace.Orders.Pages.{CursorText, list_orders}

-- `orderv1.OrderItem`; `quantity` is an `int32`
pub record ItemMessage : Type 0 where
  pub sku : String
  pub name : String
  pub price : Option Money
  pub quantity : ℤ

pub record OrderResponse : Type 0 where
  pub id : String
  pub customer_id : String
  pub items : List ItemMessage
  pub total_cost : Option Money
  pub status : String
  pub version : ℤ
  pub created_at : ℕ
  pub updated_at : ℕ

pub data Code : Type 0 where
  invalid_argument failed_precondition aborted internal : Code

-- What a call of the server ends in: a response, a status, or a panic.
pub data Reply : Type 0 where
  response : OrderResponse → Reply
  failure : Code → Reply
  panic : Reply

-- the strings of the constants
unfoldable pub status_text : OrderStatus → String
status_text created = "CREATED"
status_text awaiting_stock = "AWAITING_STOCK"
status_text confirmed = "CONFIRMED"
status_text cancelled = "CANCELLED"
status_text completed = "COMPLETED"

unfoldable pub map_domain_err : OrderError → Code
map_domain_err empty_items = invalid_argument
map_domain_err invalid_transition = failed_precondition
map_domain_err optimistic_lock = aborted
map_domain_err _ = internal

unfoldable pub item_message : OrderItem → ItemMessage
unfolding wrap32
item_message it = record {
  sku = it.sku;
  name = it.name;
  price = some it.price;
  quantity = wrap32 it.quantity;
}

unfoldable pub to_order_response : Order → OrderResponse
unfolding item_message status_text wrap32
to_order_response o = record {
  id = o.id;
  customer_id = o.customer_id;
  items = map item_message o.items;
  total_cost = some o.total_cost;
  status = status_text o.status;
  version = wrap32 (pos o.version);
  created_at = o.created_at;
  updated_at = o.updated_at;
}

-- the loop of `CreateOrder`; `none` is the panic of reading a price that is not set
unfoldable pub request_items : List ItemMessage → Option (List OrderItem)
unfolding new_money
request_items [] = some []
request_items (it ∷ rest) = elim it.price [
  | none ↦ none
  | some price ↦ elim (request_items rest) [
    | none ↦ none
    | some items ↦ some (
        record {
          sku = it.sku;
          name = it.name;
          price = new_money price.amount price.currency;
          quantity = it.quantity;
        }
        ∷ items)
  ]
]

-- the end of a call
unfoldable pub reply_of : Result OrderError Order → Reply
unfolding map_domain_err to_order_response
reply_of (ok o) = response (to_order_response o)
reply_of (err e) = failure (map_domain_err e)

unfoldable pub serve_create_order : Host → String → List ItemMessage → OrderDb → Reply × OrderDb
serve_create_order h customer_id items db = elim (request_items items) [
  | none ↦ (panic, db)
  | some items' ↦ let (r, db') = create_order h customer_id items' db in (reply_of r, db')
]

unfoldable pub serve_get_order : Host → String → OrderDb → Reply
serve_get_order h id db = reply_of (get_order h id db)

-- What `ListOrders` of the server ends in: the orders and the cursor for more, or a status.
pub data ListReply : Type 0 where
  order_list : List OrderResponse → String → ListReply
  list_failure : Code → ListReply

unfoldable pub serve_list_orders : CursorText → Host → String → String → ℤ → OrderDb → ListReply
unfolding map_domain_err to_order_response
serve_list_orders t h customer_id cursor limit db =
    elim (list_orders t h customer_id cursor limit db) [
      | err e ↦ list_failure (map_domain_err e)
      | ok (orders, next_cursor) ↦ order_list (map to_order_response orders) next_cursor
    ]

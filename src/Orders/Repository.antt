-- ===== src/Orders/Repository.antt =====
-- order-service/internal/repository/postgres/order_repo.go: the three methods on one order.
-- The SQL texts are `select`, `first`, `update` and appends on the lists of rows.
pub mod Atomic
pub mod Valid
pub mod ReadBack
use mini_marketplace.Base.{
  ℕ, suc, ◌+◌, String, Bool, true, false, ◌&&◌, Option, none, some, List, [], ◌∷◌, ◌++◌, map, ok,
  err, Result, ◌>>=◌, attempt, transact, if◌then◌else◌, ◌==◌, text_eq, select, update, affected,
  first, cut_at,
}
use mini_marketplace.Base.Json.{Bytes}
use mini_marketplace.Orders.Domain.{OrderItem, Order, OrderError, driver, optimistic_lock, no_rows}
use mini_marketplace.Orders.Store.{
  OrderRow, ItemRow, OutboxRow, pending, OrderDb, Call, begin, commit, insert_order, close_batch,
  insert_outbox, insert_item, select_order, select_items, scan_row, update_order, Host,
}

unfoldable pub row_of : Host → Order → OrderRow
row_of h o = record {
  id = o.id;
  customer_id = h.uuid o.customer_id;
  total_amount = o.total_cost.amount;
  currency = o.total_cost.currency;
  status = o.status;
  version = o.version;
  created_at = h.timestamptz o.created_at;
  updated_at = h.timestamptz o.updated_at;
}

unfoldable pub item_row : String → OrderItem → ItemRow
item_row order_id it = record {
  order_id = order_id;
  sku = it.sku;
  name = it.name;
  price = it.price.amount;
  currency = it.price.currency;
  quantity = it.quantity;
}

-- `INSERT INTO orders`; the primary key refuses an id that is taken.
unfoldable pub insert_order_row : Host → Order → OrderDb → Result OrderError OrderDb
unfolding row_of
insert_order_row h o db = elim (first (λ r. text_eq r.id o.id) db.orders) [
  | some r ↦ err driver
  | none ↦
      attempt (h.fails insert_order) driver (record db { orders = db.orders ++ row_of h o ∷ [] })
]

-- the batch of `INSERT INTO order_items`: `n` counts the results read
unfoldable pub insert_item_rows :
    Host → String → ℕ → List OrderItem → OrderDb → Result OrderError OrderDb
unfolding item_row
insert_item_rows h order_id n [] db = ok db
insert_item_rows h order_id n (it ∷ items) db = elim (h.fails (insert_item n)) [
  | true ↦ err driver
  | false ↦
      insert_item_rows h order_id (suc n) items
        (record db { items = db.items ++ item_row order_id it ∷ [] })
]

unfoldable pub outbox_row : Host → String → String → Bytes → OutboxRow
outbox_row h order_id event_type payload = record {
  id = h.row_id;
  aggregate_id = order_id;
  event_type = event_type;
  payload = payload;
  status = pending;
  created_at = h.timestamptz h.now;
  sent_at = none;
}

-- `INSERT INTO outbox`
unfoldable pub insert_outbox_row :
    Host → String → String → Bytes → OrderDb → Result OrderError OrderDb
unfolding outbox_row
insert_outbox_row h order_id event_type payload db =
    attempt (h.fails insert_outbox) driver
      (record db { outbox = db.outbox ++ outbox_row h order_id event_type payload ∷ [] })

-- the body of the transaction of `SaveWithEvent`
unfoldable pub save_body :
    Host → Order → String → Bytes → OrderDb → Result OrderError (Unit {0} × OrderDb)
unfolding insert_order_row insert_item_rows insert_outbox_row
save_body h o event_type payload db = do
  with_row ← insert_order_row h o db
  with_items ← insert_item_rows h o.id 0 o.items with_row
  closed ← attempt (h.fails close_batch) driver with_items
  with_event ← insert_outbox_row h o.id event_type payload closed
  ok (tt, with_event)

unfoldable pub save_with_event :
    Host → Order → String → Bytes → OrderDb → Result OrderError (Unit {0}) × OrderDb
unfolding save_body
save_with_event h o event_type payload db =
    transact (h.fails begin) (h.fails commit) driver (save_body h o event_type payload) db

unfoldable pub scan_item : ItemRow → OrderItem
scan_item r = record {
  sku = r.sku;
  name = r.name;
  price = record { amount = r.price; currency = r.currency };
  quantity = r.quantity;
}

unfoldable pub scan_order : OrderRow → List OrderItem → Order
scan_order r items = record {
  id = r.id;
  customer_id = r.customer_id;
  items = items;
  total_cost = record { amount = r.total_amount; currency = r.currency };
  status = r.status;
  version = r.version;
  created_at = r.created_at;
  updated_at = r.updated_at;
}

-- the loop over the item rows, which does not look at `rows.Err()`
unfoldable pub scan_items : Host → List ItemRow → Result OrderError (List OrderItem)
unfolding scan_item
scan_items h [] = ok []
scan_items h (r ∷ rows) = attempt (h.fails scan_row) driver (map scan_item (r ∷ rows))

unfoldable pub get_by_id : Host → String → OrderDb → Result OrderError Order
unfolding scan_order scan_items
get_by_id h id db = elim (h.fails select_order) [
  | true ↦ err driver
  | false ↦ elim (first (λ r. text_eq r.id id) db.orders) [
    | none ↦ err no_rows
    | some r ↦ elim (h.fails select_items) [
      | true ↦ err driver
      | false ↦ do
        items ← scan_items h (cut_at h.cut (select (λ i. text_eq i.order_id id) db.items))
        ok (scan_order r items)
    ]
  ]
]

-- the body of the transaction of `UpdateStatusWithEvent`; the update is the optimistic lock
unfoldable pub update_body :
    Host → Order → String → Bytes → OrderDb → Result OrderError (Unit {0} × OrderDb)
unfolding insert_outbox_row
update_body h o event_type payload db =
    let stands = λ (r : OrderRow). text_eq r.id o.id && r.version == o.version in
    let updated : OrderDb = record db {
      orders =
          update stands
            (λ r. record r {
              status = o.status;
              version = r.version + 1;
              updated_at = h.timestamptz h.now;
            })
            db.orders;
    } in
    elim (h.fails update_order) [
      | true ↦ err driver
      | false ↦
          if affected stands db.orders == 0
          then err optimistic_lock
          else (do db' ← insert_outbox_row h o.id event_type payload updated; ok (tt, db'))
    ]

unfoldable pub update_status_with_event :
    Host → Order → String → Bytes → OrderDb → Result OrderError (Unit {0}) × OrderDb
unfolding update_body
update_status_with_event h o event_type payload db =
    transact (h.fails begin) (h.fails commit) driver (update_body h o event_type payload) db

-- ===== src/Orders/Usecase.antt =====
-- order-service/internal/usecase/order_usecase.go on one order.
-- Each attempt of `UpdateOrderStatus` has a host of its own; `others` is what other processes
-- commit between its read and its write. Logs and metrics are left out.
pub mod Create
pub mod Attempt
pub mod Status
pub mod Outcome
pub mod Alone
use mini_marketplace.Base.{ℕ, zero, suc, String, List, [], ◌∷◌, ok, err, Result, ◌>>=◌}
use mini_marketplace.Base.Json.{Bytes}
use mini_marketplace.Orders.Domain.{
  OrderItem, Order, OrderStatus, created, awaiting_stock, confirmed, cancelled, completed,
  OrderError, optimistic_lock, no_event_mapping, exceeded_retries, new_order, transition_to,
}
use mini_marketplace.Orders.Events.{
  order_created, order_confirmed, order_cancelled, created_payload, confirmed_payload,
  cancelled_payload,
}
use mini_marketplace.Orders.Store.{OrderDb, Host}
use mini_marketplace.Orders.Repository.{save_with_event, get_by_id, update_status_with_event}

-- the last steps of `CreateOrder`, on the result of `SaveWithEvent`
unfoldable pub created_result :
    Order → Result OrderError (Unit {0}) × OrderDb → Result OrderError Order × OrderDb
created_result o (ok _, db) = (ok o, db)
created_result o (err e, db) = (err e, db)

unfoldable pub create_order :
    Host → String → List OrderItem → OrderDb → Result OrderError Order × OrderDb
unfolding created_result
create_order h customer_id items db = elim (new_order h.now h.new_id customer_id items) [
  | err e ↦ (err e, db)
  | ok o ↦ created_result o (save_with_event h o order_created (created_payload h.rfc3339 o) db)
]

unfoldable pub get_order : Host → String → OrderDb → Result OrderError Order
get_order h id db = get_by_id h id db

-- The event type and the payload for a new status.
unfoldable pub build_status_event :
    Order → OrderStatus → String → Result OrderError (String × Bytes)
build_status_event o confirmed reason = ok (order_confirmed, confirmed_payload o.id)
build_status_event o cancelled reason = ok (order_cancelled, cancelled_payload o.id reason)
build_status_event o created reason = err no_event_mapping
build_status_event o awaiting_stock reason = err no_event_mapping
build_status_event o completed reason = err no_event_mapping

-- What one attempt decides before it writes: the order with its new status, and its event.
unfoldable pub prepare :
    Host → String → OrderStatus → String → OrderDb → Result OrderError (Order × String × Bytes)
prepare h id new_status reason db = do
  o ← get_by_id h id db
  o' ← transition_to h.now new_status o
  (event_type, payload) ← build_status_event o' new_status reason
  ok (o', event_type, payload)

abbrev pub max_retries : ℕ
max_retries = 3

module _ (hosts : ℕ → Host) (others : ℕ → OrderDb → OrderDb) where
  -- The loop with `left` attempts to go; `attempt` is the loop's counter.
  unfoldable pub update_loop :
      (left attempt : ℕ)
      → String
      → OrderStatus
      → String
      → OrderDb
      → Result OrderError (Unit {0}) × OrderDb
  update_loop zero attempt id new_status reason db = (err exceeded_retries, db)
  update_loop (suc left) attempt id new_status reason db =
      elim (prepare (hosts attempt) id new_status reason db) [
        | err e ↦ (err e, db)
        | ok (o, event_type, payload) ↦
            let (r, db') =
              update_status_with_event (hosts attempt) o event_type payload (others attempt db) in
            elim r [
              | ok _ ↦ (ok tt, db')
              | err optimistic_lock ↦ update_loop left (suc attempt) id new_status reason db'
              | err e ↦ (err e, db')
            ]
      ]

  unfoldable pub update_order_status :
      String → OrderStatus → String → OrderDb → Result OrderError (Unit {0}) × OrderDb
  update_order_status id new_status reason db = update_loop max_retries 0 id new_status reason db

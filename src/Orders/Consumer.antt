-- ===== src/Orders/Consumer.antt =====
-- order-service/internal/consumer/stock_result_consumer.go. Each message that is handled has the
-- hosts and the other writers of its `UpdateOrderStatus`. Logs are left out.
pub mod Race
use mini_marketplace.Base.{ℕ, String, Option, none, some, List, [], ok, err, Result}
use mini_marketplace.Base.Json.{text_at, Bytes}
use mini_marketplace.Base.Kafka.{Message, Fetched, fields_of, consume}
use mini_marketplace.Orders.Domain.{
  OrderStatus, confirmed, cancelled, OrderError, invalid_transition,
}
use mini_marketplace.Orders.Store.{OrderDb, Host}
use mini_marketplace.Orders.Usecase.{update_order_status}

-- `StockReservedEvent`: the order's id
unfoldable pub stock_reserved_event : Bytes → Option String
unfolding fields_of text_at
stock_reserved_event value = elim (fields_of value) [
  | none ↦ none
  | some fs ↦ text_at "order_id" fs
]

pub record StockFailedEvent : Type 0 where
  pub order_id : String
  pub reason : String

unfoldable pub stock_failed_event : Bytes → Option StockFailedEvent
unfolding fields_of text_at
stock_failed_event value = elim (fields_of value) [
  | none ↦ none
  | some fs ↦ elim (text_at "order_id" fs) [
    | none ↦ none
    | some order_id ↦ elim (text_at "reason" fs) [
      | none ↦ none
      | some reason ↦ some (record { order_id = order_id; reason = reason })
    ]
  ]
]

-- A status that the order cannot move to counts as a duplicate and is acknowledged.
unfoldable pub acknowledge :
    Result OrderError (Unit {0}) × OrderDb → Result OrderError (Unit {0}) × OrderDb
acknowledge (ok _, db) = (ok tt, db)
acknowledge (err invalid_transition, db) = (ok tt, db)
acknowledge (err e, db) = (err e, db)

module _ (hosts : ℕ → ℕ → Host) (others : ℕ → ℕ → OrderDb → OrderDb) where
  unfoldable pub handle_reserved : ℕ → Message → OrderDb → Result OrderError (Unit {0}) × OrderDb
  unfolding stock_reserved_event acknowledge
  handle_reserved n msg db = elim (stock_reserved_event msg.value) [
    | none ↦ (ok tt, db)
    | some order_id ↦
        acknowledge (update_order_status (hosts n) (others n) order_id confirmed "" db)
  ]

  unfoldable pub handle_failed : ℕ → Message → OrderDb → Result OrderError (Unit {0}) × OrderDb
  unfolding stock_failed_event acknowledge
  handle_failed n msg db = elim (stock_failed_event msg.value) [
    | none ↦ (ok tt, db)
    | some event ↦
        acknowledge
          (update_order_status (hosts n) (others n) event.order_id cancelled event.reason db)
  ]

  -- the loops, from what they fetch to the tables and the messages committed
  unfoldable pub run_reserved : List Fetched → OrderDb → OrderDb × List Message
  run_reserved fetched db = consume handle_reserved 0 fetched db []

  unfoldable pub run_failed : List Fetched → OrderDb → OrderDb × List Message
  run_failed fetched db = consume handle_failed 0 fetched db []

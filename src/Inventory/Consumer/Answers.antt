-- ===== src/Inventory/Consumer/Answers.antt =====
-- The answers of inventory-service, and what becomes of an order that has none
-- (inventory-service/internal/consumer/order_created_consumer.go).
use mini_marketplace.Base.{
  ◌≢◌, ℕ, String, ◌≡◌, refl, ◌⊎◌, inl, inr, none, some, ok, err, true, ap, Result, arith, text_eq,
  Option-cases,
}
use mini_marketplace.Base.Json.{key}
use mini_marketplace.Base.Kafka.{Message}
use mini_marketplace.Inventory.Stock.{
  InventoryError, already_processed, not_positive, over_release, driver,
}
use mini_marketplace.Inventory.Store.{InventoryDb, Host}
use mini_marketplace.Inventory.Repository.{contains, reserved_payload, failed_payload}
use mini_marketplace.Inventory.Repository.Reserve.{Reserved}
use mini_marketplace.Inventory.Usecase.Outcome.{
  short, unknown, IsSilent, repeated, bad_quantity, bad_release, broken, told,
  reserve_stock_outcome,
}
use mini_marketplace.Inventory.Usecase.Repeated.{reserve_stock-repeated}
use mini_marketplace.Inventory.Consumer.{OrderCreatedEvent, order_created_event, handle_message}
use mini_marketplace.Orders.Consumer.{stock_reserved_event, stock_failed_event}

-- order-service reads from the two answers the id of the order and the reason that
-- inventory-service wrote.
pub answers_contract :
    (order_id reason : String)
    → (stock_reserved_event (reserved_payload order_id) ≡ some order_id)
      × (stock_failed_event (failed_payload order_id reason)
          ≡ some (record { order_id = order_id; reason = reason }))
unfolding stock_reserved_event stock_failed_event reserved_payload failed_payload key text_eq
answers_contract order_id reason = (refl, refl)

-- A message that the loop commits has had one of four fates: it is no event at all; or its order is
-- reserved, with a `stock.reserved` event; or a `stock.failed` event with the reason is written and
-- no stock is touched; or the order is marked as processed before, and nothing has changed. When the
-- handler returns an error instead, it is neither that of an order processed before nor a business
-- error, and no table has changed.
pub handle_message_fates :
    (hosts hosts' : ℕ → Host) (n : ℕ) (m : Message) (db : InventoryDb)
    → let out = handle_message hosts hosts' n m db in
      ((order_created_event m.value ≡ none) × (out ≡ (ok tt, db)))
      ⊎ ((event : OrderCreatedEvent) × (order_created_event m.value ≡ some event)
          × (((db' : InventoryDb) × (out ≡ (ok tt, db'))
                × Reserved (hosts n) event.order_id event.items db db')
              ⊎ (((reason : String) × (out ≡ (ok tt, told (hosts' n) event.order_id reason db)))
                  ⊎ (((contains event.order_id db.processed_events ≡ true) × (out ≡ (ok tt, db)))
                      ⊎ ((e : InventoryError) × IsSilent e
                          × (e ≢ already_processed)
                          × (out ≡ (err e, db)))))))
unfolding handle_message
handle_message_fates hosts hosts' n m db = elim (Option-cases (order_created_event m.value)) [
  | inl garbled ↦ inl (garbled, ground arith)
  | inr (event, read) ↦ inr (
    event,
    read,
    elim (reserve_stock_outcome (hosts n) (hosts' n) event.order_id event.items db) [
      | inl (db', done, r) ↦ inl (db', ground arith, r)
      | inr (inl (_, reason, short _, refused)) ↦ inr (inl (reason, ground arith))
      | inr (inl (_, reason, unknown _, refused)) ↦ inr (inl (reason, ground arith))
      | inr (inr (_, repeated, failed)) ↦
          let marked =
            reserve_stock-repeated (hosts n) (hosts' n) event.order_id event.items db
              (ap (λ (x : Result InventoryError (Unit {0}) × InventoryDb). x.0) failed) in
          inr (inr (inl (marked, ground arith)))
      | inr (inr (_, bad_quantity, failed)) ↦
          inr (inr (inr (not_positive, bad_quantity, λ e. cc, ground arith)))
      | inr (inr (_, bad_release, failed)) ↦
          inr (inr (inr (over_release, bad_release, λ e. cc, ground arith)))
      | inr (inr (_, broken, failed)) ↦ inr (inr (inr (driver, broken, λ e. cc, ground arith)))
    ],
  )
]

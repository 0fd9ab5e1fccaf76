-- ===== src/Inventory/Consumer.antt =====
-- inventory-service/internal/consumer/order_created_consumer.go. Logs, metrics and the time taken
-- are left out.
pub mod Contract
pub mod Answers
use mini_marketplace.Base.{ℕ, String, Option, none, some, List, [], ◌∷◌, ok, err, Result}
use mini_marketplace.Base.Json.{
  Json, null, obj, Items, nil, cons, Fields, end, Bytes, text_at, num_at, items_at,
}
use mini_marketplace.Base.Kafka.{Message, Fetched, fields_of, consume}
use mini_marketplace.Inventory.Stock.{
  InventoryError, insufficient_stock, stock_not_found, already_processed,
}
use mini_marketplace.Inventory.Store.{InventoryDb, Host}
use mini_marketplace.Inventory.Repository.{ReservationItem}
use mini_marketplace.Inventory.Usecase.{reserve_stock}

-- `OrderCreatedItem` of the fields of an object, with what becomes a `ReservationItem` kept
unfoldable pub item_of_fields : Fields → Option ReservationItem
unfolding text_at num_at
item_of_fields fs = elim (text_at "sku" fs) [
  | none ↦ none
  | some sku ↦ elim (text_at "name" fs) [
    | none ↦ none
    | some name ↦ elim (num_at "quantity" fs) [
      | none ↦ none
      | some quantity ↦ some (record { sku = sku; qty = quantity })
    ]
  ]
]

unfoldable pub item_of : Json → Option ReservationItem
unfolding item_of_fields
item_of (obj fs) = item_of_fields fs
item_of null = item_of_fields end
item_of _ = none

unfoldable pub items_of : Items → Option (List ReservationItem)
items_of nil = some []
items_of (cons j items) = elim (item_of j) [
  | none ↦ none
  | some it ↦ elim (items_of items) [ none ↦ none | some its ↦ some (it ∷ its) ]
]

-- `OrderCreatedEvent`, with its items as they are passed on
pub record OrderCreatedEvent : Type 0 where
  pub order_id : String
  pub customer_id : String
  pub items : List ReservationItem
  pub created_at : String

unfoldable pub event_of_fields : Fields → Option OrderCreatedEvent
unfolding text_at items_at
event_of_fields fs = elim (text_at "order_id" fs) [
  | none ↦ none
  | some order_id ↦ elim (text_at "customer_id" fs) [
    | none ↦ none
    | some customer_id ↦ elim (items_at "items" fs) [
      | none ↦ none
      | some elements ↦ elim (items_of elements) [
        | none ↦ none
        | some items ↦ elim (text_at "created_at" fs) [
          | none ↦ none
          | some created_at ↦ some (record {
            order_id = order_id;
            customer_id = customer_id;
            items = items;
            created_at = created_at;
          })
        ]
      ]
    ]
  ]
]

unfoldable pub order_created_event : Bytes → Option OrderCreatedEvent
unfolding fields_of event_of_fields
order_created_event value = elim (fields_of value) [ none ↦ none | some fs ↦ event_of_fields fs ]

-- the `switch` on the result of `ReserveStock`
unfoldable pub acknowledge :
    Result InventoryError (Unit {0}) × InventoryDb → Result InventoryError (Unit {0}) × InventoryDb
acknowledge (ok _, db) = (ok tt, db)
acknowledge (err already_processed, db) = (ok tt, db)
acknowledge (err (insufficient_stock reason), db) = (ok tt, db)
acknowledge (err (stock_not_found reason), db) = (ok tt, db)
acknowledge (err e, db) = (err e, db)

module _ (hosts hosts' : ℕ → Host) where
  unfoldable pub handle_message :
      ℕ → Message → InventoryDb → Result InventoryError (Unit {0}) × InventoryDb
  unfolding acknowledge
  handle_message n msg db = elim (order_created_event msg.value) [
    | none ↦ (ok tt, db)
    | some event ↦ acknowledge (reserve_stock (hosts n) (hosts' n) event.order_id event.items db)
  ]

  unfoldable pub run : List Fetched → InventoryDb → InventoryDb × List Message
  run fetched db = consume handle_message 0 fetched db []

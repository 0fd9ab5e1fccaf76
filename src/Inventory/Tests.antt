-- ===== src/Inventory/Tests.antt =====
-- Runs of the inventory service on small tables, and the theorems at concrete inputs.
mod Sending
use mini_marketplace.Base.{
  text_eq_iff, ℕ, String, ◌≡◌, ◌≢◌, refl, ◌⊎◌, true, false, none, some, List, [], ◌∷◌, ok, err,
  arith, text_eq,
}
use mini_marketplace.Base.Int.{pos, ◌+ℤ◌, ◌-ℤ◌}
use mini_marketplace.Base.Kafka.{Message}
use mini_marketplace.Orders.Events.{created_payload}
use mini_marketplace.Orders.Consumer.{stock_reserved_event, stock_failed_event}
use mini_marketplace.Orders.Tests.Data.{first_order}
use mini_marketplace.Inventory.Stock.{
  Stock, InventoryError, already_processed, reserve, release, IsStocked, release-reserve,
}
use mini_marketplace.Inventory.Store.{InventoryDb, Host, Call, outbox_row}
use mini_marketplace.Inventory.Repository.{
  ReservationItem, reserve_all, reserve_body, reserve_new, select_stocks, check_items,
  reserve_items, write_stock, put_stock, column_accepts, restocked, conclude, contains,
  reserved_payload, failed_payload, stock_reserved,
}
use mini_marketplace.Inventory.Repository.Reserve.{Reserved, reserve_all_atomic}
use mini_marketplace.Inventory.Repository.Levels.{levels, total_of}
use mini_marketplace.Inventory.Repository.Enough.{asks, HasEnough}
use mini_marketplace.Inventory.Repository.Success.{reserve_all_succeeds}
use mini_marketplace.Inventory.Usecase.{reserve_stock}
use mini_marketplace.Inventory.Usecase.Outcome.{told, IsRefusal, IsSilent, reserve_stock_outcome}
use mini_marketplace.Inventory.Consumer.{OrderCreatedEvent, order_created_event, handle_message}
use mini_marketplace.Inventory.Consumer.Contract.{order_created_contract}
use mini_marketplace.Inventory.Consumer.Answers.{answers_contract, handle_message_fates}

abbrev quiet : Host
quiet = record { now = 9; row_id = "e9"; fails = λ c. false; cut = none }

abbrev quiet_hosts : ℕ → Host
quiet_hosts n = quiet

abbrev apples : Stock
apples = record { sku = "apple"; available_qty = pos 5; reserved_qty = pos 1; version = 3 }

abbrev depot : InventoryDb
depot = record { stock = apples ∷ []; processed_events = []; outbox = [] }

-- two lines of one sku, more than one line alone
abbrev wish : List ReservationItem
wish = record { sku = "apple"; qty = pos 2 } ∷ record { sku = "apple"; qty = pos 3 } ∷ []

abbrev apples_left : Stock
apples_left = record { sku = "apple"; available_qty = pos 0; reserved_qty = pos 6; version = 5 }

abbrev depot_after : InventoryDb
depot_after = record {
  stock = apples_left ∷ [];
  processed_events = "o1" ∷ [];
  outbox = outbox_row quiet "o1" stock_reserved (reserved_payload "o1") ∷ [];
}

both_lines : reserve_all quiet "o1" wish depot ≡ (ok tt, depot_after)
unfolding reserve_all reserve_body reserve_new contains select_stocks check_items reserve_items
    write_stock put_stock column_accepts restocked reserve conclude ◌+ℤ◌ ◌-ℤ◌ text_eq
both_lines = refl

reserve_all_atomic_example :
    let out = reserve_all quiet "o1" wish depot in
    (((e : InventoryError) × (out ≡ (err e, depot)))
      ⊎ ((db' : InventoryDb) × (out ≡ (ok tt, db')) × Reserved quiet "o1" wish depot db'))
    × (contains "o1" depot.processed_events ≡ true
        → ((c : Call) → quiet.fails c ≡ false)
        → out ≡ (err already_processed, depot))
reserve_all_atomic_example = reserve_all_atomic quiet "o1" wish depot

abbrev apples_less : Stock
apples_less = record { sku = "apple"; available_qty = pos 3; reserved_qty = pos 3; version = 3 }

two_apples : reserve (pos 2) apples ≡ ok apples_less
unfolding reserve ◌+ℤ◌ ◌-ℤ◌
two_apples = refl

two_released : release (pos 2) apples_less ≡ ok apples
unfolding release ◌+ℤ◌ ◌-ℤ◌
two_released = refl

reserve_stock_outcome_example :
    let out = reserve_stock quiet quiet "o1" wish depot in
    ((db' : InventoryDb) × (out ≡ (ok tt, db')) × Reserved quiet "o1" wish depot db')
    ⊎ (((e : InventoryError) × (reason : String) × IsRefusal e reason
          × (out ≡ (err e, told quiet "o1" reason depot)))
        ⊎ ((e : InventoryError) × IsSilent e × (out ≡ (err e, depot))))
reserve_stock_outcome_example = reserve_stock_outcome quiet quiet "o1" wish depot

abbrev order_message : Message
order_message = record {
  topic = "order.created";
  key = "o1";
  value = created_payload (λ t. "t") first_order;
}

handle_message_fates_example :
    let out = handle_message quiet_hosts quiet_hosts 0 order_message depot in
    ((order_created_event order_message.value ≡ none) × (out ≡ (ok tt, depot)))
    ⊎ ((event : OrderCreatedEvent) × (order_created_event order_message.value ≡ some event)
        × (((db' : InventoryDb) × (out ≡ (ok tt, db'))
              × Reserved quiet event.order_id event.items depot db')
            ⊎ (((reason : String) × (out ≡ (ok tt, told quiet event.order_id reason depot)))
                ⊎ (((contains event.order_id depot.processed_events ≡ true)
                      × (out ≡ (ok tt, depot)))
                    ⊎ ((e : InventoryError) × IsSilent e
                        × (e ≢ already_processed)
                        × (out ≡ (err e, depot)))))))
handle_message_fates_example = handle_message_fates quiet_hosts quiet_hosts 0 order_message depot

order_created_contract_example :
    order_created_event (created_payload (λ t. "t") first_order)
    ≡ some (record {
      order_id = "o1";
      customer_id = "c1";
      items = record { sku = "apple"; qty = pos 2 } ∷ [];
      created_at = "t";
    })
order_created_contract_example =
    order_created_contract (λ t. "t") first_order ((omega arith, omega arith), tt)

answers_contract_example :
    (stock_reserved_event (reserved_payload "o1") ≡ some "o1")
    × (stock_failed_event (failed_payload "o1" "none left")
        ≡ some (record { order_id = "o1"; reason = "none left" }))
answers_contract_example = answers_contract "o1" "none left"

asked_apple : (k : String) → asks k wish ≡ true → k ≡ "apple"
unfolding asks
asked_apple k e = ground (arith, text_eq_iff k "apple")

wish-HasEnough : HasEnough wish (levels depot.stock)
unfolding levels text_eq total_of ◌+ℤ◌
wish-HasEnough k e = rw (asked_apple k e) (
  record { available = pos 5; reserved = pos 1 },
  refl,
  record {
    enough = omega arith;
    nonneg = omega arith;
    in_column = omega arith;
    stays_in_column = omega arith;
  },
)

reserve_all_succeeds_example : (reserve_all quiet "o1" wish depot).0 ≡ ok tt
unfolding contains
reserve_all_succeeds_example =
    reserve_all_succeeds quiet "o1" wish depot (λ c. refl) refl (omega arith, (omega arith, tt))
      wish-HasEnough

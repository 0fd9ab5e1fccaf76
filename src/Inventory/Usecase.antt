-- ===== src/Inventory/Usecase.antt =====
-- inventory-service/internal/usecase/inventory_usecase.go. `ReserveAll` and `RecordFailure` are two
-- calls with a host each.
pub mod Outcome
pub mod Repeated
pub mod Short
use mini_marketplace.Base.{String, List, ok, err, Result}
use mini_marketplace.Inventory.Stock.{
  InventoryError, insufficient_stock, stock_not_found, already_processed,
}
use mini_marketplace.Inventory.Store.{InventoryDb, Host}
use mini_marketplace.Inventory.Repository.{ReservationItem, reserve_all, record_failure}

-- The branch of a business error: the failure is recorded, and the error is passed on unless the
-- recording fails.
unfoldable pub tell_failure :
    Host
    → String
    → String
    → InventoryError
    → InventoryDb
    → Result InventoryError (Unit {0}) × InventoryDb
tell_failure h order_id reason e db =
    let (r, db') = record_failure h order_id reason db in
    elim r [ ok _ ↦ (err e, db') | err record_err ↦ (err record_err, db') ]

unfoldable pub reserve_stock :
    Host
    → Host
    → String
    → List ReservationItem
    → InventoryDb
    → Result InventoryError (Unit {0}) × InventoryDb
reserve_stock h h' order_id items db =
    let (r, db') = reserve_all h order_id items db in
    elim r [
      | ok _ ↦ (ok tt, db')
      | err already_processed ↦ (err already_processed, db')
      | err (insufficient_stock reason) ↦
          tell_failure h' order_id reason (insufficient_stock reason) db'
      | err (stock_not_found reason) ↦ tell_failure h' order_id reason (stock_not_found reason) db'
      | err e ↦ (err e, db')
    ]

-- ===== src/Inventory/Usecase/Outcome.antt =====
-- The outcomes of `ReserveStock` (inventory-service/internal/usecase/inventory_usecase.go).
use mini_marketplace.Base.{String, ◌≡◌, ◌⊎◌, inl, inr, List, [], ◌∷◌, ◌++◌, ok, err, arith}
use mini_marketplace.Inventory.Stock.{
  InventoryError, insufficient_stock, stock_not_found, already_processed, not_positive,
  over_release, driver,
}
use mini_marketplace.Inventory.Store.{InventoryDb, Host, outbox_row}
use mini_marketplace.Inventory.Repository.{
  ReservationItem, record_failure, stock_failed, failed_payload,
}
use mini_marketplace.Inventory.Repository.Reserve.{Reserved, reserve_all_atomic}
use mini_marketplace.Inventory.Usecase.{tell_failure, reserve_stock}

-- The tables with the event of a failure and nothing else that is new.
unfoldable pub told : Host → String → String → InventoryDb → InventoryDb
told h order_id reason db = record db {
  outbox = db.outbox ++ outbox_row h order_id stock_failed (failed_payload order_id reason) ∷ [];
}

-- The two business errors, with the text that `err.Error()` gives.
pub data IsRefusal : InventoryError → String → Type 0 where
  short : (reason : String) → IsRefusal (insufficient_stock reason) reason
  unknown : (reason : String) → IsRefusal (stock_not_found reason) reason

-- The errors that are passed on without an event.
pub data IsSilent : InventoryError → Type 0 where
  repeated : IsSilent already_processed
  bad_quantity : IsSilent not_positive
  bad_release : IsSilent over_release
  broken : IsSilent driver

tell_failure-cases :
    (h : Host) (order_id reason : String) (e : InventoryError) (db : InventoryDb)
    → (tell_failure h order_id reason e db ≡ (err e, told h order_id reason db))
      ⊎ (tell_failure h order_id reason e db ≡ (err driver, db))
unfolding tell_failure record_failure told
tell_failure-cases h order_id reason e db = ground arith

-- `ReserveStock` ends in one of three ways. It returns nil and all is reserved, with a
-- `stock.reserved` event; or it returns a business error, and the only change is a `stock.failed`
-- event with the text of that error as the reason, the order not being marked as processed; or it
-- returns an error that is no business error and no table has changed.
pub reserve_stock_outcome :
    (h h' : Host) (order_id : String) (items : List ReservationItem) (db : InventoryDb)
    → let out = reserve_stock h h' order_id items db in
      ((db' : InventoryDb) × (out ≡ (ok tt, db')) × Reserved h order_id items db db')
      ⊎ (((e : InventoryError) × (reason : String) × IsRefusal e reason
            × (out ≡ (err e, told h' order_id reason db)))
          ⊎ ((e : InventoryError) × IsSilent e × (out ≡ (err e, db))))
unfolding reserve_stock
reserve_stock_outcome h h' order_id items db = elim (reserve_all_atomic h order_id items db).0 [
  | inr (db', done, r) ↦ inl (db', ground arith, r)
  | inl (insufficient_stock reason, failed) ↦
      elim (tell_failure-cases h' order_id reason (insufficient_stock reason) db) [
        | inl told' ↦ inr (inl (insufficient_stock reason, reason, short reason, ground arith))
        | inr silent ↦ inr (inr (driver, broken, ground arith))
      ]
  | inl (stock_not_found reason, failed) ↦
      elim (tell_failure-cases h' order_id reason (stock_not_found reason) db) [
        | inl told' ↦ inr (inl (stock_not_found reason, reason, unknown reason, ground arith))
        | inr silent ↦ inr (inr (driver, broken, ground arith))
      ]
  | inl (already_processed, failed) ↦ inr (inr (already_processed, repeated, ground arith))
  | inl (not_positive, failed) ↦ inr (inr (not_positive, bad_quantity, ground arith))
  | inl (over_release, failed) ↦ inr (inr (over_release, bad_release, ground arith))
  | inl (driver, failed) ↦ inr (inr (driver, broken, ground arith))
]

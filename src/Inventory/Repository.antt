-- ===== src/Inventory/Repository.antt =====
-- inventory-service/internal/repository/postgres/stock_repo.go, and the events of
-- internal/domain/event.go. `FOR UPDATE` holds the selected rows until the end of the transaction,
-- so the rows read are the rows written.
pub mod Levels
pub mod Lines
pub mod Reserve
pub mod Enough
pub mod Success
use mini_marketplace.Base.{
  ℕ, suc, ◌+◌, String, Bool, true, false, not, ◌&&◌, ◌||◌, Option, none, some, List, [], ◌∷◌, ◌++◌,
  map, ok, err, Result, ◌>>=◌, attempt, transact, if◌then◌else◌, text_eq, select, update, first,
}
use Prim.Native.String.{◌++◌ as text_append}
use mini_marketplace.Base.Int.{ℤ, pos, leb_ℤ, ltb_ℤ}
use mini_marketplace.Base.Json.{text, obj, end, field, Bytes, encoded}
use mini_marketplace.Inventory.Stock.{
  Stock, InventoryError, insufficient_stock, stock_not_found, already_processed, driver, reserve,
}
use mini_marketplace.Inventory.Store.{
  InventoryDb, OutboxRow, Call, begin, commit, check_processed, select_stock, scan_row, rows_err,
  update_stock, insert_outbox, insert_processed, Host, outbox_row,
}

pub record ReservationItem : Type 0 where
  pub sku : String
  pub qty : ℤ

abbrev pub stock_reserved : String
stock_reserved = "stock.reserved"

abbrev pub stock_failed : String
stock_failed = "stock.failed"

unfoldable pub reserved_payload : String → Bytes
reserved_payload order_id = encoded (obj (field "order_id" (text order_id) end))

unfoldable pub failed_payload : String → String → Bytes
failed_payload order_id reason =
    encoded (obj (field "order_id" (text order_id) (field "reason" (text reason) end)))

-- `EXISTS(SELECT 1 FROM processed_events WHERE order_id = $1)`
unfoldable pub contains : String → List String → Bool
contains order_id [] = false
contains order_id (x ∷ ids) = if text_eq x order_id then true else contains order_id ids

-- `sku = ANY($1)` for the skus of the items
unfoldable pub wanted : List ReservationItem → Stock → Bool
wanted [] s = false
wanted (it ∷ items) s = if text_eq s.sku it.sku then true else wanted items s

-- step 2: the rows of the wanted skus, as the map `stocks`
unfoldable pub select_stocks :
    Host → List ReservationItem → InventoryDb → Result InventoryError (List Stock)
unfolding wanted
select_stocks h items db =
    if h.fails select_stock || h.fails scan_row || h.fails rows_err
    then err driver
    else ok (select (wanted items) db.stock)

-- step 3: every sku is there and has enough
unfoldable pub check_items : List Stock → List ReservationItem → Result InventoryError (Unit {0})
check_items stocks [] = ok tt
check_items stocks (it ∷ items) = elim (first (λ s. text_eq s.sku it.sku) stocks) [
  | none ↦ err (stock_not_found (text_append "stock not found for sku: sku " it.sku))
  | some s ↦
      if ltb_ℤ s.available_qty it.qty
      then err (insufficient_stock (text_append "insufficient stock available: sku " it.sku))
      else check_items stocks items
]

-- The wrapping of step 4, `reserve sku %s: %w`.
unfoldable pub wrap_reserve : String → InventoryError → InventoryError
wrap_reserve sku (insufficient_stock e) =
    insufficient_stock (text_append "reserve sku " (text_append sku (text_append ": " e)))
wrap_reserve sku (stock_not_found e) =
    stock_not_found (text_append "reserve sku " (text_append sku (text_append ": " e)))
wrap_reserve sku e = e

-- The columns of `stock` are of type int, and `available_qty` and `reserved_qty` are checked.
unfoldable pub column_accepts : ℤ → Bool
column_accepts q = leb_ℤ (pos 0) q && leb_ℤ q (pos 2147483647)

-- The new values of a row.
unfoldable pub restocked : Stock → Stock → Stock
restocked s r = record r {
  available_qty = s.available_qty;
  reserved_qty = s.reserved_qty;
  version = r.version + 1;
}

-- `UPDATE stock ... WHERE sku = $3`; `n` counts the updates
unfoldable pub write_stock :
    Host → ℕ → Stock → String → InventoryDb → Result InventoryError InventoryDb
unfolding restocked
write_stock h n s sku db =
    if h.fails (update_stock n)
      || not (column_accepts s.available_qty && column_accepts s.reserved_qty)
    then err driver
    else ok (record db { stock = update (λ r. text_eq r.sku sku) (restocked s) db.stock })

-- The map after its entry for a sku has been changed through the pointer.
unfoldable pub put_stock : String → Stock → List Stock → List Stock
put_stock sku s stocks = update (λ x. text_eq x.sku sku) (λ x. s) stocks

-- step 4, and 3's lookup once more: `stocks[it.SKU]` is there
unfoldable pub reserve_items :
    Host → ℕ → List Stock → List ReservationItem → InventoryDb → Result InventoryError InventoryDb
reserve_items h n stocks [] db = ok db
reserve_items h n stocks (it ∷ items) db = elim (first (λ s. text_eq s.sku it.sku) stocks) [
  | none ↦ err driver
  | some s ↦ elim (reserve it.qty s) [
    | err e ↦ err (wrap_reserve it.sku e)
    | ok s' ↦ elim (write_stock h n s' it.sku db) [
      | err e ↦ err e
      | ok db' ↦ reserve_items h (suc n) (put_stock it.sku s' stocks) items db'
    ]
  ]
]

-- steps 4 and 5: the event and the mark; the primary key refuses an id that is there
unfoldable pub conclude : Host → String → InventoryDb → Result InventoryError InventoryDb
conclude h order_id db = do
  told ← attempt (h.fails insert_outbox) driver (record db {
    outbox = db.outbox ++ outbox_row h order_id stock_reserved (reserved_payload order_id) ∷ [];
  })
  attempt (h.fails insert_processed || contains order_id db.processed_events) driver
      (record told { processed_events = told.processed_events ++ order_id ∷ [] })

-- steps 2 to 5
unfoldable pub reserve_new :
    Host
    → String
    → List ReservationItem
    → InventoryDb
    → Result InventoryError (Unit {0} × InventoryDb)
reserve_new h order_id items db = do
  stocks ← select_stocks h items db
  checked ← check_items stocks items
  updated ← reserve_items h 0 stocks items db
  concluded ← conclude h order_id updated
  ok (tt, concluded)

unfoldable pub reserve_body :
    Host
    → String
    → List ReservationItem
    → InventoryDb
    → Result InventoryError (Unit {0} × InventoryDb)
reserve_body h order_id items db =
    if h.fails check_processed
    then err driver
    else (if contains order_id db.processed_events
        then err already_processed
        else reserve_new h order_id items db)

unfoldable pub reserve_all :
    Host
    → String
    → List ReservationItem
    → InventoryDb
    → Result InventoryError (Unit {0}) × InventoryDb
reserve_all h order_id items db =
    transact (h.fails begin) (h.fails commit) driver (reserve_body h order_id items) db

unfoldable pub record_failure :
    Host → String → String → InventoryDb → Result InventoryError (Unit {0}) × InventoryDb
record_failure h order_id reason db = if h.fails insert_outbox then (err driver, db) else (
  ok tt,
  record db {
    outbox = db.outbox ++ outbox_row h order_id stock_failed (failed_payload order_id reason) ∷ [];
  },
)

-- ===== src/Inventory/Usecase/Short.antt =====
-- `ReserveStock` of an order for which there is not enough
-- (inventory-service/internal/usecase/inventory_usecase.go).
use mini_marketplace.Base.{
  String, ◌≡◌, ◌⊎◌, inl, inr, true, false, Option, none, some, List, [], ◌∷◌, ok, err, arith,
  Option-cases, Bool-cases, In, select,
}
use mathlib.Core.Path.{subst}
use Prim.Native.String.{◌++◌ as text_append}
use mini_marketplace.Base.Int.{ltb_ℤ}
use mini_marketplace.Inventory.Stock.{Stock, InventoryError, insufficient_stock, stock_not_found}
use mini_marketplace.Inventory.Store.{
  InventoryDb, Host, Call, begin, check_processed, select_stock, scan_row, rows_err, insert_outbox,
}
use mini_marketplace.Inventory.Repository.{
  ReservationItem, wanted, contains, select_stocks, check_items, reserve_new, reserve_body,
  reserve_all, record_failure,
}
use mini_marketplace.Inventory.Repository.Levels.{Level, row_of, levels, Agrees-select}
use mini_marketplace.Inventory.Usecase.{reserve_stock, tell_failure}
use mini_marketplace.Inventory.Usecase.Outcome.{IsRefusal, short, unknown, told}

-- A line asks for a sku that there is not, or for more than is available.
abbrev pub IsLacking : ReservationItem → (String → Option Level) → Type 0
IsLacking it at =
    (at it.sku ≡ none) ⊎ ((l : Level) × (at it.sku ≡ some l) × (ltb_ℤ l.available it.qty ≡ true))

-- Some line does.
abbrev pub Lacks : List ReservationItem → (String → Option Level) → Type 0
Lacks items at = (it : ReservationItem) × In it items × IsLacking it at

check_items-Lacks :
    (stocks : List Stock) (items : List ReservationItem)
    → Lacks items (levels stocks)
    → (e : InventoryError) × (reason : String) × IsRefusal e reason
      × (check_items stocks items ≡ err e)
unfolding check_items levels
check_items-Lacks stocks [] (it, i, lack) = absurd i
check_items-Lacks stocks (x ∷ items) (it, i, lack) = elim (Option-cases (row_of x.sku stocks)) [
  | inl missing ↦
      let reason = text_append "stock not found for sku: sku " x.sku in
      (stock_not_found reason, reason, unknown reason, ground arith)
  | inr (s, found) ↦ elim (Bool-cases (ltb_ℤ s.available_qty x.qty)) [
    | inl few ↦
        let reason = text_append "insufficient stock available: sku " x.sku in
        (insufficient_stock reason, reason, short reason, ground arith)
    | inr enough ↦ elim i [
      | inl same ↦
          let own : IsLacking x (levels stocks) =
            subst (λ (y : ReservationItem). IsLacking y (levels stocks)) same lack in
          absurd (elim own [ inl nothing ↦ ground arith | inr (l, there, few) ↦ ground arith ])
      | inr later ↦
          let (e, reason, refusal, rest) = check_items-Lacks stocks items (it, later, lack) in
          (e, reason, refusal, ground arith)
    ]
  ]
]

Lacks-select :
    (items : List ReservationItem) (stock : List Stock)
    → Lacks items (levels stock)
    → Lacks items (levels (select (wanted items) stock))
Lacks-select items stock (it, i, lack) = elim (Agrees-select items stock it.sku) [
  | inl nothing ↦ (it, i, inl nothing)
  | inr same ↦ (it, i, rw same lack)
]

-- An order with a line that cannot be served is refused, and a `stock.failed` event tells so.
pub reserve_stock-Lacks :
    (h h' : Host) (order_id : String) (items : List ReservationItem) (db : InventoryDb)
    → ((c : Call) → h.fails c ≡ false)
    → ((c : Call) → h'.fails c ≡ false)
    → contains order_id db.processed_events ≡ false
    → Lacks items (levels db.stock)
    → (e : InventoryError) × (reason : String) × IsRefusal e reason
      × (reserve_stock h h' order_id items db ≡ (err e, told h' order_id reason db))
unfolding reserve_stock reserve_all reserve_body reserve_new tell_failure record_failure told
reserve_stock-Lacks h h' order_id items db works works' is_new lacks =
    let stocks = select (wanted items) db.stock in
    let chosen : select_stocks h items db ≡ ok stocks =
      unfold select_stocks in ground (arith, works select_stock, works scan_row, works rows_err) in
    let (e, reason, refusal, refused) =
      check_items-Lacks stocks items (Lacks-select items db.stock lacks) in
    (e, reason, refusal, by_refusal e reason refusal chosen refused)
  where
    by_refusal :
        (e : InventoryError) (reason : String)
        → IsRefusal e reason
        → select_stocks h items db ≡ ok (select (wanted items) db.stock)
        → check_items (select (wanted items) db.stock) items ≡ err e
        → reserve_stock h h' order_id items db ≡ (err e, told h' order_id reason db)
    by_refusal e reason (short r) chosen refused =
        ground (arith, works begin, works check_processed, works' insert_outbox)
    by_refusal e reason (unknown r) chosen refused =
        ground (arith, works begin, works check_processed, works' insert_outbox)

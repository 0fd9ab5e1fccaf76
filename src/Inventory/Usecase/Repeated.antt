-- ===== src/Inventory/Usecase/Repeated.antt =====
-- When `ReserveStock` returns `ErrAlreadyProcessed`
-- (inventory-service/internal/usecase/inventory_usecase.go).
use mini_marketplace.Base.{
  ℕ, suc, String, ◌≡◌, ◌≢◌, inl, inr, true, List, [], ◌∷◌, err, arith, Bool-cases, Option-cases,
  Result-cases, text_eq, first,
}
use mini_marketplace.Base.Int.{ℤ}
use mini_marketplace.Inventory.Stock.{
  Stock, InventoryError, insufficient_stock, stock_not_found, already_processed, not_positive,
  over_release, driver, reserve,
}
use mini_marketplace.Inventory.Store.{InventoryDb, Host}
use mini_marketplace.Inventory.Repository.{
  ReservationItem, contains, select_stocks, check_items, wrap_reserve, write_stock, put_stock,
  reserve_items, conclude, reserve_new, reserve_body, reserve_all, record_failure,
}
use mini_marketplace.Inventory.Usecase.{tell_failure, reserve_stock}

check_items-new :
    (stocks : List Stock) (items : List ReservationItem)
    → check_items stocks items ≢ err already_processed
unfolding check_items
check_items-new stocks [] = λ e. cc
check_items-new stocks (it ∷ items) = ground (arith, check_items-new stocks items)

reserve-new : (q : ℤ) (s : Stock) → reserve q s ≢ err already_processed
unfolding reserve
reserve-new q s = ground arith

wrap_reserve-new :
    (sku : String) (e : InventoryError)
    → e ≢ already_processed
    → wrap_reserve sku e ≢ already_processed
unfolding wrap_reserve
wrap_reserve-new sku (insufficient_stock x) n = λ e. cc
wrap_reserve-new sku (stock_not_found x) n = λ e. cc
wrap_reserve-new sku already_processed n = n
wrap_reserve-new sku not_positive n = n
wrap_reserve-new sku over_release n = n
wrap_reserve-new sku driver n = n

write_stock-new :
    (h : Host) (n : ℕ) (s : Stock) (sku : String) (db : InventoryDb)
    → write_stock h n s sku db ≢ err already_processed
unfolding write_stock
write_stock-new h n s sku db = ground arith

reserve_items-new :
    (h : Host) (n : ℕ) (stocks : List Stock) (items : List ReservationItem) (db : InventoryDb)
    → reserve_items h n stocks items db ≢ err already_processed
unfolding reserve_items
reserve_items-new h n stocks [] db = λ e. cc
reserve_items-new h n stocks (it ∷ items) db =
    elim (Option-cases (first (λ (s : Stock). text_eq s.sku it.sku) stocks)) [
      | inl missing ↦ ground arith
      | inr (s, found) ↦ elim (Result-cases (reserve it.qty s)) [
        | inr (x, failed) ↦
            let other = wrap_reserve-new it.sku x (λ e. reserve-new it.qty s (ground arith)) in
            λ e. other (ground arith)
        | inl (s', kept) ↦ elim (Result-cases (write_stock h n s' it.sku db)) [
          | inr (x, failed) ↦ λ e. write_stock-new h n s' it.sku db (ground arith)
          | inl (db', done) ↦
              let rest = reserve_items-new h (suc n) (put_stock it.sku s' stocks) items db' in
              λ e. rest (ground arith)
        ]
      ]
    ]

reserve_new-new :
    (h : Host) (order_id : String) (items : List ReservationItem) (db : InventoryDb)
    → reserve_new h order_id items db ≢ err already_processed
unfolding reserve_new
reserve_new-new h order_id items db = elim (Result-cases (select_stocks h items db)) [
  | inr (x, failed) ↦ unfold select_stocks in ground arith
  | inl (stocks, chosen) ↦ elim (Result-cases (check_items stocks items)) [
    | inr (x, failed) ↦ λ e. check_items-new stocks items (ground arith)
    | inl (u, checked) ↦ elim (Result-cases (reserve_items h 0 stocks items db)) [
      | inr (x, failed) ↦ λ e. reserve_items-new h 0 stocks items db (ground arith)
      | inl (updated, reserved) ↦ unfold conclude in ground arith
    ]
  ]
]

-- Only an order that is marked is refused for being processed before.
reserve_all-repeated :
    (h : Host) (order_id : String) (items : List ReservationItem) (db : InventoryDb)
    → (reserve_all h order_id items db).0 ≡ err already_processed
    → contains order_id db.processed_events ≡ true
unfolding reserve_all reserve_body
reserve_all-repeated h order_id items db e =
    elim (Bool-cases (contains order_id db.processed_events)) [
      | inl marked ↦ marked
      | inr unmarked ↦ absurd (ground (arith, reserve_new-new h order_id items db))
    ]

pub reserve_stock-repeated :
    (h h' : Host) (order_id : String) (items : List ReservationItem) (db : InventoryDb)
    → (reserve_stock h h' order_id items db).0 ≡ err already_processed
    → contains order_id db.processed_events ≡ true
unfolding reserve_stock tell_failure record_failure
reserve_stock-repeated h h' order_id items db e =
    reserve_all-repeated h order_id items db (ground arith)

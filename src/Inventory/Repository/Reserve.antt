-- ===== src/Inventory/Repository/Reserve.antt =====
-- What `ReserveAll` leaves (inventory-service/internal/repository/postgres/stock_repo.go).
use mini_marketplace.Base.{
  String, ◌≡◌, ◌⊎◌, inl, inr, true, false, List, [], ◌∷◌, ◌++◌, ok, err, arith, Bool-cases,
  Result-cases, select, ◌∙◌, ap,
}
use mathlib.Core.Option
use mini_marketplace.Inventory.Stock.{Stock, InventoryError, driver, already_processed}
use mini_marketplace.Inventory.Store.{
  InventoryDb, Host, Call, begin, check_processed, outbox_row, commit,
}
use mini_marketplace.Inventory.Repository.{
  ReservationItem, wanted, select_stocks, check_items, reserve_items, conclude, contains,
  reserve_new, reserve_body, reserve_all, stock_reserved, reserved_payload,
}
use mini_marketplace.Inventory.Repository.Levels.{
  levels, total_of, take_from, Agrees, Agrees-select,
}
use mini_marketplace.Inventory.Repository.Lines.{reserve_items-LinesReserved}

-- What a successful reservation has done: the order was new; the levels of every sku have moved by
-- all that the items ask of it; there is one new event; and the order is marked as processed.
pub record Reserved (h : Host) (order_id : String) (items : List ReservationItem)
    (db db' : InventoryDb) : Type 0 where
  pub is_new : contains order_id db.processed_events ≡ false
  pub moved :
      (k : String)
      → levels db'.stock k ≡ Option.map (take_from (total_of k items)) (levels db.stock k)
  pub processed : db'.processed_events ≡ db.processed_events ++ order_id ∷ []
  pub event_added :
      db'.outbox
      ≡ db.outbox ++ outbox_row h order_id stock_reserved (reserved_payload order_id) ∷ []

conclude-ok :
    (h : Host) (order_id : String) (db db' : InventoryDb)
    → conclude h order_id db ≡ ok db'
    → db' ≡ record db {
      processed_events = db.processed_events ++ order_id ∷ [];
      outbox = db.outbox ++ outbox_row h order_id stock_reserved (reserved_payload order_id) ∷ [];
    }
unfolding conclude
conclude-ok h order_id db db' e = ground arith

select_stocks-ok :
    (h : Host) (items : List ReservationItem) (db : InventoryDb) {stocks : List Stock}
    → select_stocks h items db ≡ ok stocks
    → stocks ≡ select (wanted items) db.stock
unfolding select_stocks
select_stocks-ok h items db e = ground arith

reserve_new-Reserved :
    (h : Host) (order_id : String) (items : List ReservationItem) (db db' : InventoryDb)
    → contains order_id db.processed_events ≡ false
    → reserve_new h order_id items db ≡ ok (tt, db')
    → Reserved h order_id items db db'
unfolding reserve_new
reserve_new-Reserved h order_id items db db' is_new e =
    elim (Result-cases (select_stocks h items db)) [
      | inr (x, failed) ↦ absurd (ground arith)
      | inl (stocks, chosen) ↦ elim (Result-cases (check_items stocks items)) [
        | inr (x, failed) ↦ absurd (ground arith)
        | inl (u, checked) ↦ elim (Result-cases (reserve_items h 0 stocks items db)) [
          | inr (x, failed) ↦ absurd (ground arith)
          | inl (updated, lines) ↦ elim (Result-cases (conclude h order_id updated)) [
            | inr (x, failed) ↦ absurd (ground arith)
            | inl (concluded, ended) ↦
                let agrees : Agrees stocks db.stock =
                  rw (select_stocks-ok h items db chosen) (Agrees-select items db.stock) in
                let r = reserve_items-LinesReserved h 0 stocks items db updated agrees lines in
                let last : concluded ≡ db' = ground arith in
                let same = conclude-ok h order_id updated db' (ended ∙ ap ok last) in
                rw same (record {
                  is_new = is_new;
                  moved = r.moved;
                  processed = rw r.processed_kept;
                  event_added = rw r.outbox_kept;
                })
          ]
        ]
      ]
    ]

reserve_body-Reserved :
    (h : Host) (order_id : String) (items : List ReservationItem) (db db' : InventoryDb)
    → reserve_body h order_id items db ≡ ok (tt, db')
    → Reserved h order_id items db db'
unfolding reserve_body
reserve_body-Reserved h order_id items db db' e =
    reserve_new-Reserved h order_id items db db' (ground arith) (ground arith)

-- `ReserveAll` is all or nothing: whichever calls fail and whatever the items are, it either returns
-- an error and changes no table, or it returns nil and has reserved every line of the order, with
-- one event and the mark of the order. For an order that is marked it never reserves again: unless
-- a call fails it returns `ErrAlreadyProcessed`.
pub reserve_all_atomic :
    (h : Host) (order_id : String) (items : List ReservationItem) (db : InventoryDb)
    → let out = reserve_all h order_id items db in
      (((e : InventoryError) × (out ≡ (err e, db)))
        ⊎ ((db' : InventoryDb) × (out ≡ (ok tt, db')) × Reserved h order_id items db db'))
      × (contains order_id db.processed_events ≡ true
          → ((c : Call) → h.fails c ≡ false)
          → out ≡ (err already_processed, db))
unfolding reserve_all
reserve_all_atomic h order_id items db = (
  elim (Bool-cases (h.fails begin)) [
    | inl e ↦ inl (driver, ground arith)
    | inr begun ↦ elim (Result-cases (reserve_body h order_id items db)) [
      | inr (x, failed) ↦ inl (x, ground arith)
      | inl ((u, db'), done) ↦ elim (Bool-cases (h.fails commit)) [
        | inl refused ↦ inl (driver, ground arith)
        | inr committed ↦
            inr (db', ground arith, reserve_body-Reserved h order_id items db db' (ground arith))
      ]
    ]
  ],
  λ marked works. unfold reserve_body in ground (arith, works begin, works check_processed),
)

-- ===== src/Inventory/Repository/Success.antt =====
-- `ReserveAll` on an order that can be served
-- (inventory-service/internal/repository/postgres/stock_repo.go).
use mini_marketplace.Base.{
  ℕ, suc, String, ◌≡◌, refl, true, false, some, List, [], ◌∷◌, ok, inl, inr, arith, Bool-cases,
  Result-cases, text_eq, text_eq→eq, first_passes, select, update, ◌∙◌,
}
use mini_marketplace.Base.Int.{ℤ, pos, ◌+ℤ◌, ◌-ℤ◌, ◌≤ℤ◌, int_laws}
use mini_marketplace.Inventory.Stock.{Stock, reserve}
use mini_marketplace.Inventory.Store.{
  InventoryDb, Host, Call, begin, commit, check_processed, select_stock, scan_row, rows_err,
  update_stock, insert_outbox, insert_processed,
}
use mini_marketplace.Inventory.Repository.{
  ReservationItem, wanted, contains, select_stocks, column_accepts, write_stock, put_stock,
  reserve_items, restocked, conclude, reserve_new, reserve_body, reserve_all,
}
use mini_marketplace.Inventory.Repository.Levels.{
  level_of, row_of, levels, total_of, take_from, levels-put_stock,
}
use mini_marketplace.Inventory.Repository.Enough.{
  column_max, HasRoom, HasEnough, ArePositive, total_of_nonneg, room_left, head_found,
  check_items-ok, levels-select, asks_more,
}

-- The stock after a line is taken.
abbrev taken : ℤ → Stock → Stock
taken qty s = record s {
  available_qty = s.available_qty -ℤ qty;
  reserved_qty = s.reserved_qty +ℤ qty;
}

reserve-taken :
    (qty total : ℤ) (s : Stock)
    → pos 1 ≤ℤ qty
    → pos 0 ≤ℤ total
    → HasRoom (qty +ℤ total) (level_of s)
    → reserve qty s ≡ ok (taken qty s)
unfolding reserve
reserve-taken qty total s p t room =
    let h : qty ≤ℤ s.available_qty = omega (int_laws, room.enough) in ground arith

column_accepts-in : (q : ℤ) → pos 0 ≤ℤ q → q ≤ℤ column_max → column_accepts q ≡ true
unfolding column_accepts
column_accepts-in q low high = ground arith

write_stock-taken :
    (h : Host) (n : ℕ) (qty total : ℤ) (s : Stock) (sku : String) (db : InventoryDb)
    → ((c : Call) → h.fails c ≡ false)
    → pos 1 ≤ℤ qty
    → pos 0 ≤ℤ total
    → HasRoom (qty +ℤ total) (level_of s)
    → (db' : InventoryDb) × (write_stock h n (taken qty s) sku db ≡ ok db')
      × (db'.processed_events ≡ db.processed_events)
unfolding write_stock
write_stock-taken h n qty total s sku db works p t room =
    let available =
      column_accepts-in (s.available_qty -ℤ qty) (omega (int_laws, room.enough))
        (omega (int_laws, room.in_column)) in
    let reserved =
      column_accepts-in (s.reserved_qty +ℤ qty) (omega (int_laws, room.nonneg))
        (omega (int_laws, room.stays_in_column)) in
    let s' : Stock = taken qty s in
    (
      record db { stock = update (λ r. text_eq r.sku sku) (restocked s') db.stock },
      ground (arith, works (update_stock n), available, reserved),
      refl,
    )

-- The others keep their room.
HasEnough-rest :
    (it : ReservationItem) (items : List ReservationItem) (s : Stock) (stocks : List Stock)
    → pos 1 ≤ℤ it.qty
    → row_of it.sku stocks ≡ some s
    → HasEnough (it ∷ items) (levels stocks)
    → HasEnough items (levels (put_stock it.sku (taken it.qty s) stocks))
HasEnough-rest it items s stocks p there enough k e =
    let (l, found, room) = enough k (asks_more k it items e) in
    let key : s.sku ≡ it.sku =
      text_eq→eq s.sku it.sku (first_passes (λ x. text_eq x.sku it.sku) stocks there) in
    let next = levels-put_stock it.sku k (taken it.qty s) stocks key in
    elim (Bool-cases (text_eq it.sku k)) [
      | inr differs ↦
          let less : total_of k (it ∷ items) ≡ total_of k items =
            unfold total_of in rw differs (omega int_laws) in
          (l, ground arith, rw less at room)
      | inl same ↦
          let sku : it.sku ≡ k = text_eq→eq it.sku k same in
          let whole : total_of k (it ∷ items) ≡ it.qty +ℤ total_of k items =
            unfold total_of in rw same in
          let level : l ≡ level_of s = unfold levels in ground arith in
          (
            take_from it.qty l,
            ground arith,
            room_left it.qty (total_of k items) l p (rw whole at room),
          )
    ]

reserve_items-ok :
    (h : Host) (n : ℕ) (stocks : List Stock) (items : List ReservationItem) (db : InventoryDb)
    → ((c : Call) → h.fails c ≡ false)
    → ArePositive items
    → HasEnough items (levels stocks)
    → (db' : InventoryDb) × (reserve_items h n stocks items db ≡ ok db')
      × (db'.processed_events ≡ db.processed_events)
unfolding reserve_items
reserve_items-ok h n stocks [] db works p enough = (db, refl, refl)
reserve_items-ok h n stocks (it ∷ items) db works p enough =
    let (s, there, room) = head_found stocks it items p enough in
    let t = total_of_nonneg it.sku items p.1 in
    let total = total_of it.sku items in
    let line = reserve-taken it.qty total s p.0 t room in
    let (db₁, written, kept) = write_stock-taken h n it.qty total s it.sku db works p.0 t room in
    let (db', rest, kept') =
      reserve_items-ok h (suc n) (put_stock it.sku (taken it.qty s) stocks) items db₁ works p.1
        (HasEnough-rest it items s stocks p.0 there enough) in
    (db', ground (arith, there, line, written, rest), kept' ∙ kept)

conclude-ok :
    (h : Host) (order_id : String) (db : InventoryDb)
    → ((c : Call) → h.fails c ≡ false)
    → contains order_id db.processed_events ≡ false
    → (db' : InventoryDb) × (conclude h order_id db ≡ ok db')
unfolding conclude
conclude-ok h order_id db works is_new = elim (Result-cases (conclude h order_id db)) [
  | inl (db', e) ↦ (db', e)
  | inr (x, e) ↦ absurd (ground (arith, works insert_outbox, works insert_processed))
]

-- `ReserveAll` returns nil, and so reserves all, on every order that is new, asks for positive
-- quantities, and for no more of any sku than is available, its lines added up, if no call fails
-- and the levels, before and after, lie within their columns.
pub reserve_all_succeeds :
    (h : Host) (order_id : String) (items : List ReservationItem) (db : InventoryDb)
    → ((c : Call) → h.fails c ≡ false)
    → contains order_id db.processed_events ≡ false
    → ArePositive items
    → HasEnough items (levels db.stock)
    → (reserve_all h order_id items db).0 ≡ ok tt
unfolding reserve_all reserve_body reserve_new
reserve_all_succeeds h order_id items db works is_new p enough =
    let stocks : List Stock = select (wanted items) db.stock in
    let chosen : select_stocks h items db ≡ ok stocks =
      unfold select_stocks in ground (arith, works select_stock, works scan_row, works rows_err) in
    let enough' : HasEnough items (levels stocks) =
      λ k e. rw (levels-select items k db.stock e) (enough k e) in
    let checked = check_items-ok stocks items p enough' in
    let (db', lines, kept) = reserve_items-ok h 0 stocks items db works p enough' in
    let still_new : contains order_id db'.processed_events ≡ false = rw kept is_new in
    let (db'', ended) = conclude-ok h order_id db' works still_new in
    ground (arith, works begin, works commit, works check_processed, chosen, checked, lines, ended)

-- ===== src/Orders/Repository/ReadBack.antt =====
-- What `GetByID` reads after a save (order-service/internal/repository/postgres/order_repo.go).
use mini_marketplace.Base.{
  String, ◌≡◌, refl, true, false, none, some, List, [], ◌∷◌, ◌++◌, map, ok, inl, inr, Bool-cases,
  arith, text_eq, text_eq_refl, text_eq→eq, select, All, All-map, is_some, ap, ◌∙◌, select-append,
  select_whole, select_nothing,
}
use mini_marketplace.Base.Json.{Bytes}
use mini_marketplace.Orders.Domain.{OrderItem, Order}
use mini_marketplace.Orders.Store.{
  OrderRow, ItemRow, OrderDb, Call, Host, select_order, select_items, scan_row,
}
use mini_marketplace.Orders.Repository.{
  row_of, item_row, save_with_event, scan_item, scan_items, get_by_id,
}
use mini_marketplace.Orders.Repository.Valid.{IsValid, row_at, row_at-append_self}
use mini_marketplace.Orders.Repository.Atomic.{saved, save_with_event_atomic}

none_of :
    (id : String) (rows : List OrderRow) (items : List ItemRow)
    → row_at id rows ≡ none
    → All (λ (i : ItemRow). is_some (row_at i.order_id rows) ≡ true) items
    → All (λ (i : ItemRow). text_eq i.order_id id ≡ false) items
none_of id rows items free h = All-map items (λ i e. other i e) h
  where
    other : (i : ItemRow) → is_some (row_at i.order_id rows) ≡ true → text_eq i.order_id id ≡ false
    other i e = elim (Bool-cases (text_eq i.order_id id)) [
      | inl same ↦ let k : i.order_id ≡ id = text_eq→eq i.order_id id same in absurd (ground arith)
      | inr differs ↦ differs
    ]

each_own :
    (id : String) (items : List OrderItem)
    → All (λ (i : ItemRow). text_eq i.order_id id ≡ true) (map (item_row id) items)
unfolding item_row
each_own id [] = tt
each_own id (it ∷ items) = (text_eq_refl id, each_own id items)

scan_item_rows :
    (id : String) (items : List OrderItem) → map scan_item (map (item_row id) items) ≡ items
unfolding scan_item item_row
scan_item_rows id [] = refl
scan_item_rows id (it ∷ items) = ap (◌∷◌ it) (scan_item_rows id items)

pub scan_items_lem :
    (h : Host) (rows : List ItemRow)
    → h.fails scan_row ≡ false
    → scan_items h rows ≡ ok (map scan_item rows)
unfolding scan_items
scan_items_lem h [] works = refl
scan_items_lem h (r ∷ rows) works = rw works

-- An order as the columns keep it.
unfoldable pub as_stored : Host → Order → Order
as_stored h o = record o {
  customer_id = h.uuid o.customer_id;
  created_at = h.timestamptz o.created_at;
  updated_at = h.timestamptz o.updated_at;
}

pub get_by_id-saved :
    (h h' : Host) (o : Order) (event_type : String) (payload : Bytes) (db : OrderDb)
    → IsValid db
    → row_at o.id db.orders ≡ none
    → ((c : Call) → h'.fails c ≡ false)
    → h'.cut ≡ none
    → get_by_id h' o.id (saved h o event_type payload db) ≡ ok (as_stored h o)
unfolding get_by_id saved row_of as_stored
get_by_id-saved h h' o event_type payload db v free works whole =
    let row : row_at o.id (db.orders ++ row_of h o ∷ []) ≡ some (row_of h o) =
      row_at-append_self (row_of h o) db.orders free in
    let items : select (λ i. text_eq i.order_id o.id) (db.items ++ map (item_row o.id) o.items)
        ≡ map (item_row o.id) o.items =
      select-append (λ i. text_eq i.order_id o.id) db.items (map (item_row o.id) o.items)
      ∙ rw
          (select_nothing (λ i. text_eq i.order_id o.id) db.items
            (none_of o.id db.orders db.items free v.owned))
          (select_whole (λ i. text_eq i.order_id o.id) (map (item_row o.id) o.items)
            (each_own o.id o.items)) in
    ground (
      arith,
      works select_order,
      row,
      works select_items,
      whole,
      items,
      scan_items_lem h' (map (item_row o.id) o.items) (works scan_row),
      scan_item_rows o.id o.items,
    )

-- On tables with their keys, an order that was saved is read back as its columns keep it, by a read
-- in which no call fails and no loop over rows is cut short.
pub get_by_id-save :
    (h h' : Host) (o : Order) (event_type : String) (payload : Bytes) (db db' : OrderDb)
    → IsValid db
    → save_with_event h o event_type payload db ≡ (ok tt, db')
    → ((c : Call) → h'.fails c ≡ false)
    → h'.cut ≡ none
    → get_by_id h' o.id db' ≡ ok (as_stored h o)
get_by_id-save h h' o event_type payload db db' v e works whole =
    elim (save_with_event_atomic h o event_type payload db).0 [
      | inl (x, failed) ↦ cc
      | inr (done, free) ↦
          let same : saved h o event_type payload db ≡ db' = cc in
          rw (← same) (get_by_id-saved h h' o event_type payload db v free works whole)
    ]

-- ===== src/Orders/Pages/Behind.antt =====
-- The page that `ListOrders` returns for a cursor, as a part of the customer's rows
-- (order-service/internal/usecase/order_usecase.go and repository/postgres/order_repo.go).
use mathlib.Core.List.{map-append}
use mini_marketplace.Base.{
  ℕ, zero, suc, ◌+◌, ◌<◌, String, ◌≡◌, refl, sym, ap, ◌∙◌, false, none, some, List, [], ◌∷◌, ◌++◌,
  map, ok, if◌then◌else◌, ◌==◌, arith, ◌⊎◌, inl, inr, length, take, drop, get_elem?, select,
  text_eq, get_elem?-drop, get_elem?-take, get_elem?_found, text_eq→eq, text_eq_refl, select-and,
}
use mini_marketplace.Base.Int.{ℤ}
use mini_marketplace.Orders.Domain.{Order}
use mini_marketplace.Orders.Store.{OrderRow, OrderDb, Call, select_list, scan_row, Host}
use mini_marketplace.Orders.Repository.{scan_order}
use mini_marketplace.Orders.Repository.Valid.{HasKeys}
use mini_marketplace.Orders.Pages.{
  CursorText, encode_cursor, is_before, sort_newest, first_rows, rows_behind, scan_orders,
  last_cursor, page_of, list_by_customer, page_limit, list_orders,
}
use mini_marketplace.Orders.Pages.Cursor.{IsCursorText, decode_cursor-encode_cursor}
use mini_marketplace.Orders.Pages.Sorting.{
  place, IsNewestFirst, HasDistinctIds, HasDistinctIds-select, HasKeys-HasDistinctIds,
  sort_newest-IsNewestFirst, select-sort_newest, select_behind,
}

unfoldable pub listed : List OrderRow → List Order
listed rows = map (λ r. scan_order r []) rows

last_cursor-listed :
    (t : CursorText) (rows : List OrderRow) (i : ℕ) {e : OrderRow}
    → length rows ≡ suc i
    → get_elem? rows i ≡ some e
    → last_cursor t (listed rows) ≡ encode_cursor t e.created_at e.id
unfolding last_cursor listed scan_order
last_cursor-listed t [] i h found = absurd (omega arith)
last_cursor-listed t (x ∷ []) zero h found = ground arith
last_cursor-listed t (x ∷ []) (suc i) h found = absurd (omega arith)
last_cursor-listed t (x ∷ y ∷ rows) zero h found = absurd (omega arith)
last_cursor-listed t (x ∷ y ∷ rows) (suc i) {e} h found =
    last_cursor-listed t (y ∷ rows) i {e = e} (omega arith) found

pub listed-append : (xs ys : List OrderRow) → listed xs ++ listed ys ≡ listed (xs ++ ys)
unfolding listed
listed-append xs ys = sym (map-append (λ (r : OrderRow). scan_order r []) xs ys)

pub length-listed : (rows : List OrderRow) → length (listed rows) ≡ length rows
unfolding listed
length-listed [] = refl
length-listed (r ∷ rows) = ap suc (length-listed rows)

-- On a host on which the query, the reads and the loop go through, a page holds its rows.
page_of-ok :
    (t : CursorText) (h : Host) (limit : ℕ) (rows : List OrderRow)
    → ((c : Call) → h.fails c ≡ false)
    → h.cut ≡ none
    → page_of t h limit rows
      ≡ ok (listed rows, if length rows == limit then last_cursor t (listed rows) else "")
unfolding page_of scan_orders listed
page_of-ok t h limit [] works whole = rw (works select_list, whole)
page_of-ok t h limit (r ∷ rows) works whole =
    let same : length (map (λ (r : OrderRow). scan_order r []) rows) ≡ length rows =
      unfold listed in length-listed rows in
    rw (works select_list, whole, works scan_row, same)

cursor_filled :
    (t : CursorText) (created_at : ℕ) (id : String)
    → IsCursorText t
    → text_eq (encode_cursor t created_at id) "" ≡ false
cursor_filled t created_at id laws =
    let (back, filled) = decode_cursor-encode_cursor t created_at id laws in
    ground (arith, filled, text_eq→eq (encode_cursor t created_at id) "")

-- The cursor from which the rows of a list are behind its first `m`.
abbrev pub LeadsTo : CursorText → List OrderRow → ℕ → String → Type 0
LeadsTo t rows m cursor =
    ((m ≡ 0) × (cursor ≡ ""))
    ⊎ ((n : ℕ) × (m ≡ suc n)
        × (e : OrderRow) × (get_elem? rows n ≡ some e)
        × (cursor ≡ encode_cursor t e.created_at e.id))

-- the rows of a customer, newest first
unfoldable pub customer_rows : CursorText → String → OrderDb → List OrderRow
customer_rows t customer_id db =
    sort_newest t (select (λ r. text_eq r.customer_id customer_id) db.orders)

module _ (t : CursorText) (h : Host) (customer_id : String) (db : OrderDb) (laws : IsCursorText t)
    (keys : HasKeys db.orders) where
  distinct : HasDistinctIds (select (λ r. text_eq r.customer_id customer_id) db.orders)
  distinct =
      HasDistinctIds-select (λ r. text_eq r.customer_id customer_id) db.orders
        (HasKeys-HasDistinctIds db.orders keys)

  pub customer_rows-IsNewestFirst : IsNewestFirst t (customer_rows t customer_id db)
  unfolding customer_rows
  customer_rows-IsNewestFirst = sort_newest-IsNewestFirst t laws _ distinct

  -- Behind the cursor of the row `m` of the customer's rows, the query finds what follows it.
  rows_behind_lem :
      (m limit : ℕ) (e : OrderRow)
      → get_elem? (customer_rows t customer_id db) m ≡ some e
      → rows_behind t customer_id (place e) limit db
        ≡ take limit (drop (suc m) (customer_rows t customer_id db))
  unfolding rows_behind
  rows_behind_lem m limit e found =
      let mine = select (λ (r : OrderRow). text_eq r.customer_id customer_id) db.orders in
      let narrow =
        select-and (λ (r : OrderRow). text_eq r.customer_id customer_id)
          (λ r. is_before t r (place e)) db.orders in
      let sorted = select-sort_newest t laws (λ r. is_before t r (place e)) mine distinct in
      let behind =
        select_behind t laws (customer_rows t customer_id db) m customer_rows-IsNewestFirst found in
      ap (λ rows. take limit (sort_newest t rows)) narrow
      ∙ ap (take limit) (sym sorted ∙ unfold customer_rows in behind)

  list_by_customer_lem :
      (m limit : ℕ) (cursor : String)
      → LeadsTo t (customer_rows t customer_id db) m cursor
      → list_by_customer t h customer_id cursor limit db
        ≡ page_of t h limit (take limit (drop m (customer_rows t customer_id db)))
  unfolding list_by_customer first_rows customer_rows
  list_by_customer_lem m limit cursor (inl (start, leads)) = rw (start, leads, text_eq_refl "")
  list_by_customer_lem m limit cursor (inr (n, at, e, found, same)) =
      let (back, filled) = decode_cursor-encode_cursor t e.created_at e.id laws in
      let kept = cursor_filled t e.created_at e.id laws in
      let rows = rows_behind_lem n limit e found in
      rw (at, same, kept, back) (ap (page_of t h limit) (unfold customer_rows in rows))

  module _ (limit : ℤ) (works : (c : Call) → h.fails c ≡ false) (whole : h.cut ≡ none) where
    pub page_lem :
        (m : ℕ) (cursor : String)
        → LeadsTo t (customer_rows t customer_id db) m cursor
        → let rows = take (page_limit limit) (drop m (customer_rows t customer_id db)) in
          list_orders t h customer_id cursor limit db
          ≡ ok (
            listed rows,
            if length rows == page_limit limit then last_cursor t (listed rows) else "",
          )
    unfolding list_orders
    page_lem m cursor leads =
        list_by_customer_lem m (page_limit limit) cursor leads
        ∙ page_of-ok t h (page_limit limit) _ works whole

    -- The cursor behind a full page leads to what follows it.
    pub next_lem :
        (m p : ℕ)
        → 0 < p
        → let rows = take p (drop m (customer_rows t customer_id db)) in
          length rows ≡ p
          → LeadsTo t (customer_rows t customer_id db) (m + p) (last_cursor t (listed rows))
            × (text_eq (last_cursor t (listed rows)) "" ≡ false)
    next_lem m zero positive full = absurd (omega arith)
    next_lem m (suc q) positive full =
        let behind = drop m (customer_rows t customer_id db) in
        let rows = take (suc q) behind in
        let (e, found) = get_elem?_found rows q (omega arith) in
        let last = last_cursor-listed t rows q {e = e} full found in
        let there =
          get_elem?-take (suc q) q behind (omega arith)
          ∙ get_elem?-drop m q (customer_rows t customer_id db) in
        (
          inr (m + q, omega arith, e, sym there ∙ found, last),
          rw last (cursor_filled t e.created_at e.id laws),
        )

-- ===== src/Orders/Pages/Bounds.antt =====
-- What every page of `ListOrders` keeps to (order-service/internal/usecase/order_usecase.go and
-- repository/postgres/order_repo.go), whatever fails.
use mini_marketplace.Base.{
  ℕ, ◌≤◌, String, ◌≡◌, ◌≢◌, Option, Bool, true, sym, ap, ◌∙◌, none, some, List, [], ok, inl, inr,
  Bool-cases, Option-cases, Result-cases, length, take, select, cut_at, All, text_eq, text_eq→eq,
  arith, length-take-le, length-take-drop, All-select_passes, All-take, All-cut_at, All-map_list,
  ◌&&◌,
}
use mathlib.Core.Path.{subst}
use mini_marketplace.Base.Int.{ℤ, pos, negsuc, ◌≤ℤ◌}
use mini_marketplace.Orders.Domain.{Order}
use mini_marketplace.Orders.Store.{OrderRow, OrderDb, Host}
use mini_marketplace.Orders.Repository.{scan_order}
use mini_marketplace.Orders.Pages.{
  CursorText, decode_cursor, first_rows, rows_behind, sort_newest, is_before, scan_orders, page_of,
  list_by_customer, page_limit, list_orders,
}
use mini_marketplace.Orders.Pages.Sorting.{All-sort_newest}
use mini_marketplace.Orders.Pages.Behind.{listed, length-listed}

page_limit-bounds :
    (limit : ℤ)
    → (1 ≤ page_limit limit)
      × (page_limit limit ≤ 100)
      × (pos 1 ≤ℤ limit → limit ≤ℤ pos 100 → pos (page_limit limit) ≡ limit)
unfolding page_limit
page_limit-bounds (pos n) = (ground arith, ground arith, λ low high. ap pos (ground arith))
page_limit-bounds (negsuc n) = (ground arith, ground arith, λ low high. absurd (omega arith))

-- The rows of one customer.
Owned : String → List OrderRow → Type 0
Owned customer_id = All (λ r. r.customer_id ≡ customer_id)

scan_orders-listed :
    (h : Host) (rows : List OrderRow) {orders : List Order}
    → scan_orders h rows ≡ ok orders
    → orders ≡ listed (cut_at h.cut rows)
unfolding scan_orders listed
scan_orders-listed h rows e = ground arith

length-cut_at-le {ℓ} : {A : Type ℓ} (o : Option ℕ) (xs : List A) → length (cut_at o xs) ≤ length xs
length-cut_at-le none xs = omega arith
length-cut_at-le (some n) xs = omega (arith, length-take-drop n xs)

page_of-listed :
    (t : CursorText) (h : Host) (limit : ℕ) (rows : List OrderRow) {orders : List Order}
    {next : String}
    → page_of t h limit rows ≡ ok (orders, next)
    → (orders ≡ listed (cut_at h.cut rows)) × (next ≢ "" → length orders ≡ limit)
unfolding page_of
page_of-listed t h limit rows {orders} {next} e = elim (Result-cases (scan_orders h rows)) [
  | inl (orders', scanned) ↦
      let same : orders' ≡ orders = ground arith in
      (sym same ∙ scan_orders-listed h rows scanned, λ filled. ground (arith, filled))
  | inr (e', failed) ↦ absurd (ground arith)
]

-- A page of the answer to a query with a limit, for a test that only rows of the customer pass.
query_page :
    (t : CursorText) (h : Host) (customer_id : String) (limit : ℕ) (q : OrderRow → Bool)
    (rows : List OrderRow) {orders : List Order} {next : String}
    → ((r : OrderRow) → q r ≡ true → r.customer_id ≡ customer_id)
    → page_of t h limit (take limit (sort_newest t (select q rows))) ≡ ok (orders, next)
    → (length orders ≤ limit)
      × All (λ o. o.customer_id ≡ customer_id) orders
      × (next ≢ "" → length orders ≡ limit)
unfolding listed scan_order Owned
query_page t h customer_id limit q rows {orders} {next} mine e =
    let found = take limit (sort_newest t (select q rows)) in
    let owned : Owned customer_id (cut_at h.cut found) = All-cut_at _ h.cut found (
      All-take _ limit (sort_newest t (select q rows)) (
        All-sort_newest t _ (select q rows)
          (All-select_passes (λ r. r.customer_id ≡ customer_id) q rows mine))) in
    let (same, filled) = page_of-listed t h limit found e in
    let size : length orders ≡ length (cut_at h.cut found) =
      ap length same ∙ length-listed (cut_at h.cut found) in
    (
      omega (
        arith,
        size,
        length-cut_at-le h.cut found,
        length-take-le limit (sort_newest t (select q rows)),
      ),
      subst (All (λ o. o.customer_id ≡ customer_id)) (sym same) (
          All-map_list (λ (o : Order). o.customer_id ≡ customer_id) (λ r. scan_order r [])
            (cut_at h.cut found) owned),
      filled,
    )

-- A page of `ListOrders` keeps to its bounds, whatever cursor and limit are asked for, which calls
-- fail and where a loop is cut short: it holds at most the limit that `ListOrders` applies, which
-- lies between 1 and 100 and is the one asked for if that does, its orders are all the customer's,
-- and a cursor for more comes only with a full page.
pub list_orders-bounds :
    (t : CursorText) (h : Host) (customer_id cursor : String) (limit : ℤ) (db : OrderDb)
    {orders : List Order} {next : String}
    → list_orders t h customer_id cursor limit db ≡ ok (orders, next)
    → (length orders ≤ page_limit limit)
      × (1 ≤ page_limit limit)
      × (page_limit limit ≤ 100)
      × (pos 1 ≤ℤ limit → limit ≤ℤ pos 100 → pos (page_limit limit) ≡ limit)
      × All (λ o. o.customer_id ≡ customer_id) orders
      × (next ≢ "" → length orders ≡ page_limit limit)
unfolding list_orders list_by_customer first_rows rows_behind
list_orders-bounds t h customer_id cursor limit db {orders} {next} e =
    let (low, high, same) = page_limit-bounds limit in
    let bounded : (length orders ≤ page_limit limit)
        × All (λ o. o.customer_id ≡ customer_id) orders
        × (next ≢ "" → length orders ≡ page_limit limit) =
      elim (Bool-cases (text_eq cursor "")) [
        | inl start ↦
            query_page t h customer_id (page_limit limit) (λ r. text_eq r.customer_id customer_id)
              db.orders {orders = orders} {next = next} (λ r. text_eq→eq r.customer_id customer_id)
              (ground arith)
        | inr more ↦ elim (Option-cases (decode_cursor t cursor)) [
          | inl bad ↦ absurd (ground arith)
          | inr (at, good) ↦
              query_page t h customer_id (page_limit limit)
                (λ r. text_eq r.customer_id customer_id && is_before t r at) db.orders
                {orders = orders} {next = next}
                (λ r both. text_eq→eq r.customer_id customer_id (ground arith)) (ground arith)
        ]
      ] in
    (bounded.0, low, high, same, bounded.1, bounded.2)

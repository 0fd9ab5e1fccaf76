-- ===== src/Orders/Pages/Walk.antt =====
-- A client that follows the cursors of `ListOrders`
-- (order-service/internal/usecase/order_usecase.go and repository/postgres/order_repo.go).
use native.Mathlib.Nat.{suc-mul}
use mathlib.Core.Option
use mini_marketplace.Base.{
  ℕ, zero, suc, ◌+◌, ◌*◌, ◌<◌, String, ◌≡◌, refl, sym, ap, ◌∙◌, Bool, false, Option, none, some,
  List, [], ◌++◌, map, ok, err, if◌then◌else◌, ◌==◌, ==_iff, arith, inl, inr, Bool-cases, length,
  take, drop, select, affected, text_eq, length-take-drop, take-append-drop, drop-drop, take_short,
  length-select, text_eq_refl,
}
use mini_marketplace.Base.Int.{ℤ}
use mini_marketplace.Orders.Domain.{Order}
use mini_marketplace.Orders.Store.{OrderRow, OrderDb, Call, Host}
use mini_marketplace.Orders.Repository.{scan_order}
use mini_marketplace.Orders.Repository.Valid.{HasKeys}
use mini_marketplace.Orders.Pages.{CursorText, last_cursor, page_limit, list_orders}
use mini_marketplace.Orders.Pages.Cursor.{IsCursorText}
use mini_marketplace.Orders.Pages.Sorting.{IsNewestFirst, affected-sort_newest, length-sort_newest}
use mini_marketplace.Orders.Pages.Behind.{
  listed, listed-append, LeadsTo, customer_rows, customer_rows-IsNewestFirst, page_lem, next_lem,
}

-- Ask for at most `n` pages, from a cursor on, until none is left behind the page: the orders of
-- all the pages, or `none` for an error and for pages left over.
unfoldable pub walk : CursorText → Host → String → ℤ → OrderDb → ℕ → String → Option (List Order)
walk t h customer_id limit db zero cursor = none
walk t h customer_id limit db (suc n) cursor = elim (list_orders t h customer_id cursor limit db) [
  | err e ↦ none
  | ok (orders, next) ↦
      let rest = walk t h customer_id limit db n next in
      if text_eq next "" then some orders else Option.map (λ more. orders ++ more) rest
]

walk_step :
    (t : CursorText) (h : Host) (customer_id : String) (limit : ℤ) (db : OrderDb) (n : ℕ)
    (cursor : String) {orders : List Order} {next : String}
    → list_orders t h customer_id cursor limit db ≡ ok (orders, next)
    → walk t h customer_id limit db (suc n) cursor ≡ (
        if text_eq next ""
        then some orders
        else Option.map (λ more. orders ++ more) (walk t h customer_id limit db n next))
unfolding walk
walk_step t h customer_id limit db n cursor e = ground (arith, e)

page_limit_positive : (limit : ℤ) → 0 < page_limit limit
unfolding page_limit
page_limit_positive limit = ground arith

module _ (t : CursorText) (h : Host) (customer_id : String) (limit : ℤ) (db : OrderDb)
    (laws : IsCursorText t) (keys : HasKeys db.orders) (works : (c : Call) → h.fails c ≡ false)
    (whole : h.cut ≡ none) where
  walk_lem :
      (n m : ℕ) (cursor : String)
      → LeadsTo t (customer_rows t customer_id db) m cursor
      → length (drop m (customer_rows t customer_id db)) < n * page_limit limit
      → walk t h customer_id limit db n cursor
        ≡ some (listed (drop m (customer_rows t customer_id db)))
  walk_lem zero m cursor leads enough = absurd (omega arith)
  walk_lem (suc n) m cursor leads enough =
      let p = page_limit limit in
      let all = customer_rows t customer_id db in
      let rows = take p (drop m all) in
      let step =
        walk_step t h customer_id limit db n cursor
          (page_lem t h customer_id db laws keys limit works whole m cursor leads) in
      elim (Bool-cases (length rows == p)) [
        | inr short ↦
            let rest : rows ≡ drop m all = take_short p (drop m all) (ground arith) in
            step ∙ rw (short, text_eq_refl "") (ap (λ rows. some (listed rows)) rest)
        | inl full ↦
            let filling : length rows ≡ p = (==_iff (length rows) p).0 full in
            let (leads', filled) =
              next_lem t h customer_id db laws keys limit works whole m p
                (page_limit_positive limit) filling in
            let rest = drop-drop m p all in
            let less : length (drop (m + p) all) < n * p =
              omega (arith, ap length rest, length-take-drop p (drop m all), suc-mul n p) in
            let more = walk_lem n (m + p) (last_cursor t (listed rows)) leads' less in
            step
            ∙ rw (full, filled, more)
                (ap some (
                  listed-append rows (drop (m + p) all)
                  ∙ ap listed (ap (λ ys. rows ++ ys) (sym rest) ∙ take-append-drop p (drop m all))))
      ]

-- Following the cursors of `ListOrders` shows every order of the customer once, newest first and
-- with ties broken by the id, whatever limit is asked for: with n pages of the limit that
-- `ListOrders` applies holding more than the customer's orders, the walk from the empty cursor ends
-- within n pages and returns exactly the customer's rows, without their items. The table keeps its
-- primary key and does not change during the walk, no call of the driver fails and no loop is cut
-- short, and times, base64 and ids are as documented.
pub walk-list_orders :
    (t : CursorText) (h : Host) (customer_id : String) (limit : ℤ) (db : OrderDb) (n : ℕ)
    → IsCursorText t
    → HasKeys db.orders
    → ((c : Call) → h.fails c ≡ false)
    → h.cut ≡ none
    → affected (λ r. text_eq r.customer_id customer_id) db.orders < n * page_limit limit
    → (rows : List OrderRow) × (walk t h customer_id limit db n ""
        ≡ some (map (λ r. scan_order r []) rows))
      × IsNewestFirst t rows
      × ((p : OrderRow → Bool)
          → affected p rows
            ≡ affected p (select (λ r. text_eq r.customer_id customer_id) db.orders))
unfolding customer_rows listed
walk-list_orders t h customer_id limit db n laws keys works whole enough =
    let mine = select (λ (r : OrderRow). text_eq r.customer_id customer_id) db.orders in
    (
      customer_rows t customer_id db,
      walk_lem t h customer_id limit db laws keys works whole n 0 "" (inl (refl, refl)) (
          omega (
            arith,
            length-sort_newest t mine,
            length-select (λ (r : OrderRow). text_eq r.customer_id customer_id) db.orders,
          )),
      customer_rows-IsNewestFirst t h customer_id db laws keys,
      λ p. affected-sort_newest t p mine,
    )

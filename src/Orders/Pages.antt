-- ===== src/Orders/Pages.antt =====
-- The listing of orders: `ListByCustomer` of
-- order-service/internal/repository/postgres/order_repo.go with its cursor, and `ListOrders` of
-- internal/usecase/order_usecase.go. The listed orders come without their items.
pub mod Cursor
pub mod Sorting
pub mod Bounds
pub mod Behind
pub mod Walk
use Prim.Native.Char.{code}
use Prim.Native.String.{◌++◌ as text_append}
use mini_marketplace.Base.{
  ℕ, String, Bool, true, false, ◌&&◌, ◌||◌, Option, none, some, List, [], ◌∷◌, map, ok, err, Result,
  ◌>>=◌, attempt, if◌then◌else◌, ltb, ◌==◌, text_eq, select, length, take, cut_at,
}
use mini_marketplace.Base.Int.{ℤ, pos, leb_ℤ, ltb_ℤ, pos_part}
use mini_marketplace.Orders.Domain.{Order, OrderError, driver, bad_cursor}
use mini_marketplace.Orders.Store.{OrderRow, OrderDb, Call, select_list, scan_row, Host}
use mini_marketplace.Orders.Repository.{scan_order}

-- What the cursor and the query take from elsewhere: `Format` and `Parse` of a time as RFC 3339
-- with nanoseconds, base64 as of `URLEncoding`, and PostgreSQL's `<` on ids.
pub record CursorText : Type 0 where
  pub format : ℕ → String
  pub parse : String → Option ℕ
  pub encode : String → String
  pub decode : String → Option String
  pub id_lt : String → String → Bool

-- `strings.SplitN(raw, "|", 2)`, with `none` for a single part
unfoldable pub split_at_bar : String → Option (String × String)
split_at_bar String.[] = none
split_at_bar (String.◌∷◌ c s) =
    let rest = split_at_bar s in
    if code c == b'|'
    then some ("", s)
    else elim rest [ none ↦ none | some (before, after) ↦ some (String.◌∷◌ c before, after) ]

unfoldable pub encode_cursor : CursorText → ℕ → String → String
encode_cursor t created_at id = t.encode (text_append (t.format created_at) (text_append "|" id))

unfoldable pub decode_cursor : CursorText → String → Option (ℕ × String)
decode_cursor t cursor = elim (t.decode cursor) [
  | none ↦ none
  | some raw ↦ elim (split_at_bar raw) [
    | none ↦ none
    | some (time, id) ↦ elim (t.parse time) [
      | none ↦ none
      | some created_at ↦ some (created_at, id)
    ]
  ]
]

-- `(a.created_at, a.id) < (b.created_at, b.id)` for the columns of a row `a`
unfoldable pub is_before : CursorText → OrderRow → ℕ × String → Bool
is_before t r (created_at, id) =
    ltb r.created_at created_at || (r.created_at == created_at && t.id_lt r.id id)

-- `ORDER BY created_at DESC, id DESC`
unfoldable pub insert_newest : CursorText → OrderRow → List OrderRow → List OrderRow
insert_newest t r [] = r ∷ []
insert_newest t r (x ∷ rows) =
    if is_before t x (r.created_at, r.id) then r ∷ x ∷ rows else x ∷ insert_newest t r rows

unfoldable pub sort_newest : CursorText → List OrderRow → List OrderRow
sort_newest t [] = []
sort_newest t (r ∷ rows) = insert_newest t r (sort_newest t rows)

-- the rows of the first query, and of the second, behind a decoded cursor
unfoldable pub first_rows : CursorText → String → ℕ → OrderDb → List OrderRow
first_rows t customer_id limit db =
    take limit (sort_newest t (select (λ r. text_eq r.customer_id customer_id) db.orders))

unfoldable pub rows_behind : CursorText → String → ℕ × String → ℕ → OrderDb → List OrderRow
rows_behind t customer_id at limit db =
    take limit (
      sort_newest t (select (λ r. text_eq r.customer_id customer_id && is_before t r at) db.orders))

-- the loop over the rows, which does not look at `rows.Err()`
unfoldable pub scan_orders : Host → List OrderRow → Result OrderError (List Order)
scan_orders h rows = elim (cut_at h.cut rows) [
  | [] ↦ ok []
  | r ∷ more ↦ attempt (h.fails scan_row) driver (map (λ r. scan_order r []) (r ∷ more))
]

-- the cursor behind the last order of a list
unfoldable pub last_cursor : CursorText → List Order → String
last_cursor t [] = ""
last_cursor t (o ∷ []) = encode_cursor t o.created_at o.id
last_cursor t (o ∷ o' ∷ orders) = last_cursor t (o' ∷ orders)

-- the end of `ListByCustomer`, from the rows of its query
unfoldable pub page_of :
    CursorText → Host → ℕ → List OrderRow → Result OrderError (List Order × String)
page_of t h limit rows = if h.fails select_list then err driver else (do
  orders ← scan_orders h rows
  ok (orders, if length orders == limit then last_cursor t orders else ""))

unfoldable pub list_by_customer :
    CursorText → Host → String → String → ℕ → OrderDb → Result OrderError (List Order × String)
list_by_customer t h customer_id cursor limit db =
    if text_eq cursor ""
    then page_of t h limit (first_rows t customer_id limit db)
    else elim (decode_cursor t cursor) [
      | none ↦ err bad_cursor
      | some at ↦ page_of t h limit (rows_behind t customer_id at limit db)
    ]

-- The limit that `ListOrders` passes on.
unfoldable pub page_limit : ℤ → ℕ
page_limit limit = if leb_ℤ limit (pos 0) || ltb_ℤ (pos 100) limit then 20 else pos_part limit

unfoldable pub list_orders :
    CursorText → Host → String → String → ℤ → OrderDb → Result OrderError (List Order × String)
list_orders t h customer_id cursor limit db =
    list_by_customer t h customer_id cursor (page_limit limit) db

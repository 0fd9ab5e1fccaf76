-- ===== src/Orders/Tests/Paging.antt =====
-- Pages of orders on concrete tables: a unary text of times, base64 left out, ids by their codes.
use Prim.Native.Char.{code}
use text.Mathlib.TextEquality.{Char-path}
use mini_marketplace.Base.{
  ℕ, zero, suc, ◌≡◌, ◌≢◌, refl, ap, Bool, true, false, ◌&&◌, ◌||◌, some, none, String, List, [],
  ◌∷◌, map, ok, ltb, ◌==◌, arith, Option, affected, select, text_eq, length, All, ◌≤◌,
}
use mini_marketplace.Base.Int.{pos, ◌≤ℤ◌}
use mini_marketplace.Orders.Domain.{created, Order}
use mini_marketplace.Orders.Store.{OrderRow, OrderDb}
use mini_marketplace.Orders.Repository.{scan_order}
use mini_marketplace.Orders.Repository.Valid.{HasKeys}
use mini_marketplace.Orders.Pages.{
  CursorText, encode_cursor, decode_cursor, list_orders, page_limit, list_by_customer, first_rows,
  rows_behind, page_of, scan_orders, last_cursor, split_at_bar, is_before, sort_newest,
  insert_newest,
}
use mini_marketplace.Orders.Pages.Cursor.{HasNoBar, IsCursorText, decode_cursor-encode_cursor}
use mini_marketplace.Orders.Pages.Sorting.{IsNewestFirst}
use mini_marketplace.Orders.Pages.Bounds.{list_orders-bounds}
use mini_marketplace.Orders.Pages.Walk.{walk, walk-list_orders}
use mini_marketplace.Orders.Tests.Data.{quiet, order_row}

abbrev ones : ℕ → String
ones zero = String.[]
ones (suc n) = String.◌∷◌ "1" (ones n)

abbrev count : String → ℕ
count String.[] = 0
count (String.◌∷◌ c s) = suc (count s)

abbrev lt_by_code : String → String → Bool
lt_by_code String.[] String.[] = false
lt_by_code String.[] (String.◌∷◌ d t) = true
lt_by_code (String.◌∷◌ c s) String.[] = false
lt_by_code (String.◌∷◌ c s) (String.◌∷◌ d t) =
    ltb (code c) (code d) || (code c == code d && lt_by_code s t)

lt_by_code_irrefl : (a : String) → lt_by_code a a ≡ false
lt_by_code_irrefl String.[] = refl
lt_by_code_irrefl (String.◌∷◌ c s) = ground (arith, lt_by_code_irrefl s)

lt_by_code_trans :
    (a b c : String) → lt_by_code a b ≡ true → lt_by_code b c ≡ true → lt_by_code a c ≡ true
lt_by_code_trans String.[] String.[] c h h' = absurd (ground arith)
lt_by_code_trans String.[] (String.◌∷◌ y t) String.[] h h' = absurd (ground arith)
lt_by_code_trans String.[] (String.◌∷◌ y t) (String.◌∷◌ z u) h h' = refl
lt_by_code_trans (String.◌∷◌ x s) String.[] c h h' = absurd (ground arith)
lt_by_code_trans (String.◌∷◌ x s) (String.◌∷◌ y t) String.[] h h' = absurd (ground arith)
lt_by_code_trans (String.◌∷◌ x s) (String.◌∷◌ y t) (String.◌∷◌ z u) h h' =
    ground (arith, lt_by_code_trans s t u)

lt_by_code_total : (a b : String) → lt_by_code a b ≡ false → lt_by_code b a ≡ false → a ≡ b
lt_by_code_total String.[] String.[] h h' = refl
lt_by_code_total String.[] (String.◌∷◌ y t) h h' = absurd (ground arith)
lt_by_code_total (String.◌∷◌ x s) String.[] h h' = absurd (ground arith)
lt_by_code_total (String.◌∷◌ x s) (String.◌∷◌ y t) h h' =
    let same : code x ≡ code y = ground arith in
    let rest : s ≡ t = lt_by_code_total s t (ground arith) (ground arith) in
    let first : x ≡ y = Char-path x y same in cc

abbrev plain : CursorText
plain = record {
  format = ones;
  parse = λ s. some (count s);
  encode = λ s. s;
  decode = λ s. some s;
  id_lt = lt_by_code;
}

count-ones : (n : ℕ) → count (ones n) ≡ n
count-ones zero = refl
count-ones (suc n) = ap suc (count-ones n)

ones-HasNoBar : (n : ℕ) → HasNoBar (ones n)
ones-HasNoBar zero = tt
ones-HasNoBar (suc n) = (refl, ones-HasNoBar n)

plain-IsCursorText : IsCursorText plain
plain-IsCursorText = record {
  parse-format = λ n. ap some (count-ones n);
  format-HasNoBar = ones-HasNoBar;
  decode-encode = λ s. refl;
  encode_filled = λ s h. h;
  lt_irrefl = lt_by_code_irrefl;
  lt_trans = lt_by_code_trans;
  lt_total = lt_by_code_total;
}

-- a row of a customer, at a time
abbrev row_of_customer : String → String → ℕ → OrderRow
row_of_customer customer_id id created_at = record (order_row created 1 created_at) {
  id = id;
  customer_id = customer_id;
  created_at = created_at;
}

abbrev shelf : OrderDb
shelf = record {
  orders =
      row_of_customer "c1" "a" 3
      ∷ row_of_customer "c2" "b" 4
      ∷ row_of_customer "c1" "c" 5
      ∷ row_of_customer "c1" "d" 3
      ∷ [];
  items = [];
  outbox = [];
}

shelf-HasKeys : HasKeys shelf.orders
unfolding text_eq
shelf-HasKeys = (refl, (refl, (refl, (refl, tt))))

ids_of : Option (List Order) → List String
ids_of none = []
ids_of (some orders) = map (λ o. o.id) orders

-- Two pages of two, the newest first; the greater id first where times agree.
walk_test : ids_of (walk plain quiet "c1" (pos 2) shelf 2 "") ≡ "c" ∷ "d" ∷ "a" ∷ []
unfolding ids_of walk list_orders list_by_customer page_limit first_rows rows_behind page_of
    scan_orders last_cursor encode_cursor decode_cursor split_at_bar is_before sort_newest
    insert_newest scan_order text_eq
walk_test = refl

-- The first page of two, and its cursor.
page_test :
    list_orders plain quiet "c1" "" (pos 2) shelf
    ≡ ok (
      scan_order (row_of_customer "c1" "c" 5) [] ∷ scan_order (row_of_customer "c1" "d" 3) [] ∷ [],
      "111|d",
    )
unfolding list_orders list_by_customer page_limit first_rows page_of scan_orders last_cursor
    encode_cursor is_before sort_newest insert_newest scan_order text_eq
page_test = refl

decode_cursor-encode_cursor_example :
    (decode_cursor plain (encode_cursor plain 2 "o1") ≡ some (2, "o1"))
    × (encode_cursor plain 2 "o1" ≢ "")
decode_cursor-encode_cursor_example = decode_cursor-encode_cursor plain 2 "o1" plain-IsCursorText

walk-list_orders_example :
    (rows : List OrderRow) × (walk plain quiet "c1" (pos 2) shelf 2 ""
      ≡ some (map (λ r. scan_order r []) rows))
    × IsNewestFirst plain rows
    × ((p : OrderRow → Bool)
        → affected p rows ≡ affected p (select (λ r. text_eq r.customer_id "c1") shelf.orders))
unfolding page_limit text_eq
walk-list_orders_example =
    walk-list_orders plain quiet "c1" (pos 2) shelf 2 plain-IsCursorText shelf-HasKeys (λ c. refl)
      refl (omega arith)

abbrev second : String
second = "111|d"

abbrev first_page : List Order
first_page =
    scan_order (row_of_customer "c1" "c" 5) [] ∷ scan_order (row_of_customer "c1" "d" 3) [] ∷ []

list_orders-bounds_example :
    (length first_page ≤ page_limit (pos 2))
    × (1 ≤ page_limit (pos 2))
    × (page_limit (pos 2) ≤ 100)
    × (pos 1 ≤ℤ pos 2 → pos 2 ≤ℤ pos 100 → pos (page_limit (pos 2)) ≡ pos 2)
    × All (λ o. o.customer_id ≡ "c1") first_page
    × (second ≢ "" → length first_page ≡ page_limit (pos 2))
list_orders-bounds_example =
    list_orders-bounds plain quiet "c1" "" (pos 2) shelf {orders = first_page} {next = second}
      page_test

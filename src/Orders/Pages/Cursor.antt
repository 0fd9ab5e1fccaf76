-- ===== src/Orders/Pages/Cursor.antt =====
-- The cursor of order-service/internal/repository/postgres/order_repo.go (`encodeCursor` and
-- `decodeCursor`), and what it relies on.
use Prim.Native.Char.{code}
use Prim.Native.String.{◌++◌ as text_append}
use text.Mathlib.TextLemmas.{cons-append, nil-append}
use mini_marketplace.Base.{ℕ, String, ◌≡◌, ◌≢◌, true, false, some, arith, ◌==◌, ap, ◌∙◌}
use mini_marketplace.Orders.Pages.{CursorText, split_at_bar, encode_cursor, decode_cursor}

-- No character of the text is a bar.
abbrev pub HasNoBar : String → Type 0
HasNoBar String.[] = Unit
HasNoBar (String.◌∷◌ c s) = ((code c == b'|') ≡ false) × HasNoBar s

-- What the documentation of the three says: the text of a time is read back, and has no bar in it;
-- base64 is read back, and is empty only for an empty text; ids are strictly and totally ordered.
pub record IsCursorText (t : CursorText) : Type 0 where
  pub parse-format : (n : ℕ) → t.parse (t.format n) ≡ some n
  pub format-HasNoBar : (n : ℕ) → HasNoBar (t.format n)
  pub decode-encode : (s : String) → t.decode (t.encode s) ≡ some s
  pub encode_filled : (s : String) → s ≢ "" → t.encode s ≢ ""
  pub lt_irrefl : (a : String) → t.id_lt a a ≡ false
  pub lt_trans : (a b c : String) → t.id_lt a b ≡ true → t.id_lt b c ≡ true → t.id_lt a c ≡ true
  pub lt_total : (a b : String) → t.id_lt a b ≡ false → t.id_lt b a ≡ false → a ≡ b

bar-append : (id : String) → text_append "|" id ≡ String.◌∷◌ "|" id
bar-append id = cons-append "|" "" id ∙ ap (λ (s : String). String.◌∷◌ "|" s) (nil-append id)

split_at_bar-append :
    (s id : String) → HasNoBar s → split_at_bar (text_append s (text_append "|" id)) ≡ some (s, id)
unfolding split_at_bar
split_at_bar-append String.[] id h = rw (nil-append (text_append "|" id), bar-append id)
split_at_bar-append (String.◌∷◌ c s) id h =
    rw (cons-append c s (text_append "|" id)) (ground (arith, split_at_bar-append s id h.1))

-- A cursor is read back as the time and the id it was made of, and is never the empty text, which
-- asks for the first page.
pub decode_cursor-encode_cursor :
    (t : CursorText) (created_at : ℕ) (id : String)
    → IsCursorText t
    → (decode_cursor t (encode_cursor t created_at id) ≡ some (created_at, id))
      × (encode_cursor t created_at id ≢ "")
unfolding decode_cursor encode_cursor
decode_cursor-encode_cursor t created_at id laws =
    let raw : String = text_append (t.format created_at) (text_append "|" id) in
    let split = split_at_bar-append (t.format created_at) id (laws.format-HasNoBar created_at) in
    (
      ground (arith, laws.decode-encode raw, split, laws.parse-format created_at),
      laws.encode_filled raw (λ e.
          unfold split_at_bar in
          let none_left : split_at_bar "" ≡ some (t.format created_at, id) = rw e at split in cc),
    )

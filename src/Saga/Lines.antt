-- ===== src/Saga/Lines.antt =====
-- How much of a sku the lines of an order ask for, in the table `order_items` of order-service.
use mini_marketplace.Base.{
  String, ◌≡◌, refl, false, List, [], ◌∷◌, ◌++◌, map, text_eq, text_eq_refl, All, if◌then◌else◌,
}
use mini_marketplace.Base.Int.{ℤ, pos, ◌+ℤ◌, int_laws}
use mini_marketplace.Orders.Domain.{OrderItem}
use mini_marketplace.Orders.Store.{ItemRow}
use mini_marketplace.Orders.Repository.{item_row}
use mini_marketplace.Inventory.Repository.Levels.{total_of}
use mini_marketplace.Inventory.Consumer.Contract.{requested}

-- What the lines of one order ask of one sku.
pub ordered : String → String → List ItemRow → ℤ
ordered k id [] = pos 0
ordered k id (r ∷ rows) =
    (if text_eq r.order_id id then (if text_eq r.sku k then r.quantity else pos 0) else pos 0)
    +ℤ ordered k id rows

-- What the lines of several orders do.
unfoldable pub ordered_by : String → List String → List ItemRow → ℤ
ordered_by k [] rows = pos 0
ordered_by k (id ∷ ids) rows = ordered k id rows +ℤ ordered_by k ids rows

pub ordered-append :
    (k id : String) (rows more : List ItemRow)
    → ordered k id (rows ++ more) ≡ ordered k id rows +ℤ ordered k id more
unfolding ordered
ordered-append k id [] more = omega int_laws
ordered-append k id (r ∷ rows) more = rw (ordered-append k id rows more) (omega int_laws)

-- Lines of other orders count for nothing.
pub ordered_elsewhere :
    (k id : String) (rows : List ItemRow)
    → All (λ (r : ItemRow). text_eq r.order_id id ≡ false) rows
    → ordered k id rows ≡ pos 0
unfolding ordered
ordered_elsewhere k id [] h = refl
ordered_elsewhere k id (r ∷ rows) h = rw (h.0, ordered_elsewhere k id rows h.1) (omega int_laws)

-- The rows of a new order count as its items.
pub ordered-item_row :
    (k id : String) (items : List OrderItem)
    → ordered k id (map (item_row id) items) ≡ total_of k (map requested items)
unfolding ordered total_of item_row
ordered-item_row k id [] = refl
ordered-item_row k id (it ∷ items) = rw (text_eq_refl id, ordered-item_row k id items)

pub ordered_by-append :
    (k : String) (ids more : List String) (rows : List ItemRow)
    → ordered_by k (ids ++ more) rows ≡ ordered_by k ids rows +ℤ ordered_by k more rows
unfolding ordered_by
ordered_by-append k [] more rows = omega int_laws
ordered_by-append k (id ∷ ids) more rows = rw (ordered_by-append k ids more rows) (omega int_laws)

pub ordered_by-same :
    (k : String) (ids : List String) (rows rows' : List ItemRow)
    → All (λ (id : String). ordered k id rows' ≡ ordered k id rows) ids
    → ordered_by k ids rows' ≡ ordered_by k ids rows
unfolding ordered_by
ordered_by-same k [] rows rows' h = refl
ordered_by-same k (id ∷ ids) rows rows' h = rw (h.0, ordered_by-same k ids rows rows' h.1)

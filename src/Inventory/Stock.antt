-- ===== src/Inventory/Stock.antt =====
-- inventory-service/internal/domain/stock.go, and the errors of internal/ports/repository.go.
-- A quantity is an integer. Every quantity that is stored lies in a column of type int, so the
-- sums here stay in the range of Go's `int`.
use mini_marketplace.Base.{ℕ, String, ◌≡◌, refl, Result, ok, err, if◌then◌else◌, arith, ◌∙◌}
use mini_marketplace.Base.Int.{ℤ, pos, ◌+ℤ◌, ◌-ℤ◌, ◌≤ℤ◌, ltb_ℤ, leb_ℤ, int_laws}

-- `ErrInsufficientStock` and `ErrStockNotFound` with the text of the whole chain of wrappings,
-- `ErrAlreadyProcessed`, the two anonymous errors of `Reserve` and `Release`, and an error of the
-- driver.
pub data InventoryError : Type 0 where
  insufficient_stock stock_not_found : String → InventoryError
  already_processed : InventoryError
  not_positive over_release : InventoryError
  driver : InventoryError

pub record Stock : Type 0 where
  pub sku : String
  pub available_qty : ℤ
  pub reserved_qty : ℤ
  pub version : ℕ

unfoldable pub reserve : ℤ → Stock → Result InventoryError Stock
reserve qty s =
    if leb_ℤ qty (pos 0)
    then err not_positive
    else (if ltb_ℤ s.available_qty qty
        then err (insufficient_stock "insufficient stock available")
        else ok (record s {
          available_qty = s.available_qty -ℤ qty;
          reserved_qty = s.reserved_qty +ℤ qty;
        }))

unfoldable pub release : ℤ → Stock → Result InventoryError Stock
release qty s =
    if leb_ℤ qty (pos 0)
    then err not_positive
    else (if ltb_ℤ s.reserved_qty qty
        then err over_release
        else ok (record s {
          reserved_qty = s.reserved_qty -ℤ qty;
          available_qty = s.available_qty +ℤ qty;
        }))

-- No quantity is negative.
pub record IsStocked (s : Stock) : Type 0 where
  pub available : pos 0 ≤ℤ s.available_qty
  pub reserved : pos 0 ≤ℤ s.reserved_qty

pub reserve-ok :
    (qty : ℤ) (s : Stock) {s' : Stock}
    → reserve qty s ≡ ok s'
    → (pos 1 ≤ℤ qty)
      × (qty ≤ℤ s.available_qty)
      × (s' ≡ record s {
        available_qty = s.available_qty -ℤ qty;
        reserved_qty = s.reserved_qty +ℤ qty;
      })
unfolding reserve
reserve-ok qty s e = (ground arith, ground arith, ground arith)

release_lem :
    (qty : ℤ) (s : Stock)
    → pos 1 ≤ℤ qty
    → qty ≤ℤ s.reserved_qty
    → release qty s
      ≡ ok (record s {
        reserved_qty = s.reserved_qty -ℤ qty;
        available_qty = s.available_qty +ℤ qty;
      })
unfolding release
release_lem qty s p h = ground arith

-- A successful reservation from a stock without negative quantities moves its quantity from the
-- available to the reserved stock, keeps the sum, and leaves neither negative; releasing the
-- same quantity afterwards succeeds and restores the stock exactly.
pub release-reserve :
    (qty : ℤ) (s : Stock) {s' : Stock}
    → IsStocked s
    → reserve qty s ≡ ok s'
    → IsStocked s'
      × (s'.available_qty +ℤ s'.reserved_qty ≡ s.available_qty +ℤ s.reserved_qty)
      × (s'.reserved_qty ≡ s.reserved_qty +ℤ qty)
      × (release qty s' ≡ ok s)
release-reserve qty s {s'} v e =
    let (positive, covered, same) = reserve-ok qty s e in
    let a : ℤ = s.available_qty in
    let r : ℤ = s.reserved_qty in
    let back : (r +ℤ qty) -ℤ qty ≡ r = omega int_laws in
    let full : (a -ℤ qty) +ℤ qty ≡ a = omega int_laws in
    rw same (
      record { available = omega int_laws; reserved = omega int_laws },
      omega int_laws,
      refl,
      release_lem qty _ positive (omega int_laws)
          ∙ (λ i. ok (record s { available_qty = full i; reserved_qty = back i })),
    )

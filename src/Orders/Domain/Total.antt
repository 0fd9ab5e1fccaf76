-- ===== src/Orders/Domain/Total.antt =====
-- The total of a new order (order-service/internal/domain/order.go, `NewOrder`).
use mini_marketplace.Base.{
  ℕ, String, ◌*◌, ◌<◌, ◌≡◌, ◌≢◌, refl, ◌⊎◌, inl, inr, map, List, [], ◌∷◌, ok, err, All, arith, ◌∙◌,
  take,
}
use mini_marketplace.Base.Int.{
  ℤ, pos, negsuc, ◌+ℤ◌, ◌*ℤ◌, ◌≤ℤ◌, wrap64, wrap64_in_range, int64_half, pos_part, neg_part,
  +ℤ_parts, int_laws,
}
use mini_marketplace.Orders.Domain.{
  Money, OrderItem, Order, created, empty_items, add, subtotal, add_items, new_order, order_of,
}

-- The exact sum of price times quantity, over the integers.
unfoldable pub exact_total : List OrderItem → ℤ
exact_total [] = pos 0
exact_total (it ∷ items) = it.price.amount *ℤ it.quantity +ℤ exact_total items

-- What the request validation of the gateway guarantees of an item.
abbrev pub IsPositive : OrderItem → Type 0
IsPositive it = (pos 0 ≤ℤ it.price.amount) × (pos 0 ≤ℤ it.quantity)

*ℤ_pos : (a b : ℕ) → pos a *ℤ pos b ≡ pos (a * b)
unfolding ◌*ℤ◌
*ℤ_pos a b = ground arith

neg_part_zero : (a : ℤ) → pos 0 ≤ℤ a → neg_part a ≡ 0
neg_part_zero (pos n) h = refl
neg_part_zero (negsuc n) h = absurd (omega arith)

product_nonneg : (a b : ℤ) → pos 0 ≤ℤ a → pos 0 ≤ℤ b → pos 0 ≤ℤ a *ℤ b
product_nonneg (pos a) (pos b) h k = rw (*ℤ_pos a b) (omega arith)
product_nonneg (pos a) (negsuc b) h k = absurd (omega arith)
product_nonneg (negsuc a) b h k = absurd (omega arith)

pub exact_total_nonneg :
    (items : List OrderItem) → All IsPositive items → pos 0 ≤ℤ exact_total items
unfolding exact_total
exact_total_nonneg [] h = omega arith
exact_total_nonneg (it ∷ items) h = omega (
  arith,
  +ℤ_parts,
  product_nonneg it.price.amount it.quantity h.0.0 h.0.1,
  exact_total_nonneg items h.1,
)

-- An accumulated amount stays exact while the whole sum fits.
add_step :
    (t p rest : ℤ)
    → pos 0 ≤ℤ t
    → pos 0 ≤ℤ p
    → pos 0 ≤ℤ rest
    → pos_part (t +ℤ (p +ℤ rest)) < int64_half
    → (wrap64 (t +ℤ wrap64 p) ≡ t +ℤ p)
      × (pos 0 ≤ℤ t +ℤ p)
      × (pos_part ((t +ℤ p) +ℤ rest) < int64_half)
add_step t p rest ht hp hr fits =
    let whole : t +ℤ (p +ℤ rest) ≡ (t +ℤ p) +ℤ rest = omega int_laws in
    let nonneg : pos 0 ≤ℤ t +ℤ p = omega int_laws in
    (
      rw (wrap64_in_range p (omega (int_laws, neg_part_zero p hp)))
          (wrap64_in_range (t +ℤ p) (omega (int_laws, neg_part_zero (t +ℤ p) nonneg))),
      nonneg,
      rw (← whole) fits,
    )

pub add_items_exact :
    (total : Money) (items : List OrderItem)
    → All IsPositive items
    → pos 0 ≤ℤ total.amount
    → pos_part (total.amount +ℤ exact_total items) < int64_half
    → (add_items total items).amount ≡ total.amount +ℤ exact_total items
unfolding exact_total add_items add subtotal
add_items_exact total [] h n fits = omega int_laws
add_items_exact total (it ∷ items) h n fits =
    let (step, n', fits') =
      add_step total.amount (it.price.amount *ℤ it.quantity) (exact_total items) n
        (product_nonneg it.price.amount it.quantity h.0.0 h.0.1) (exact_total_nonneg items h.1)
        fits in
    let next : Money = add total (subtotal it) in
    add_items_exact next items h.1 (rw step n') (rw step fits') ∙ rw step (omega int_laws)

-- An item with the same amounts, priced in another currency.
abbrev reprice : String → OrderItem → OrderItem
reprice currency it = record it { price = record { amount = it.price.amount; currency = currency } }

-- Every item but the first repriced.
abbrev pub reprice_rest : String → List OrderItem → List OrderItem
reprice_rest currency [] = []
reprice_rest currency (it ∷ items) = it ∷ map (reprice currency) items

add_items-reprice :
    (total : Money) (currency : String) (items : List OrderItem)
    → add_items total (map (reprice currency) items) ≡ add_items total items
unfolding add_items add subtotal
add_items-reprice total currency [] = refl
add_items-reprice total currency (it ∷ items) =
    add_items-reprice (add total (subtotal it)) currency items

add_items-currency :
    (total : Money) (items : List OrderItem) → (add_items total items).currency ≡ total.currency
unfolding add_items add
add_items-currency total [] = refl
add_items-currency total (it ∷ items) = add_items-currency (add total (subtotal it)) items

-- `NewOrder` refuses exactly the empty list. Of other items the new order keeps the items and is
-- CREATED at version 1, and where none of them has a negative price or quantity and the exact total
-- fits in an `int64`, its total is exactly the sum of price times quantity: no sum on the way wraps
-- around. The total is in the currency of the first item, whatever the others are priced in: with
-- those repriced to any currency at all the order is accepted too, with the same total.
pub new_order_exact :
    (now : ℕ) (id customer_id : String) (items : List OrderItem) (currency : String)
    → ((items ≡ []) × (new_order now id customer_id items ≡ err empty_items))
      ⊎ ((o o' : Order) × (items ≢ [])
          × (new_order now id customer_id items ≡ ok o)
          × (All IsPositive items
              → pos_part (exact_total items) < int64_half
              → o.total_cost.amount ≡ exact_total items)
          × (o.items ≡ items)
          × (o.status ≡ created)
          × (o.version ≡ 1)
          × (new_order now id customer_id (reprice_rest currency items) ≡ ok o')
          × (o'.total_cost ≡ o.total_cost)
          × (take 1 (map (λ it. it.price.currency) items) ≡ o.total_cost.currency ∷ []))
unfolding new_order add_items
new_order_exact now id customer_id [] currency = inl (refl, refl)
new_order_exact now id customer_id (it ∷ items) currency =
    let start : Money = record { amount = pos 0; currency = it.price.currency } in
    let e : pos 0 +ℤ exact_total (it ∷ items) ≡ exact_total (it ∷ items) = omega int_laws in
    inr (
      order_of now id customer_id it items,
      order_of now id customer_id it (map (reprice currency) items),
      λ e. cc,
      refl,
      λ h fits. add_items_exact start (it ∷ items) h (omega arith) (rw e fits) ∙ e,
      refl,
      refl,
      refl,
      refl,
      add_items-reprice (add start (subtotal it)) currency items,
      rw (add_items-currency start (it ∷ items)) refl,
    )

-- ===== src/Orders/Tests/Saving.antt =====
-- Saving and creating orders at concrete inputs.
use mini_marketplace.Base.{
  ◌<◌, ◌≡◌, ◌≢◌, refl, ◌⊎◌, false, none, [], ◌∷◌, map, ok, err, arith, All, first, affected,
  text_eq, take,
}
use mini_marketplace.Base.Json.{Bytes}
use mini_marketplace.Base.Int.{◌+ℤ◌, ◌*ℤ◌, pos_part, int64_half}
use mini_marketplace.Orders.Domain.{
  Order, created, confirmed, OrderError, driver, optimistic_lock, empty_items, new_order, order_of,
}
use mini_marketplace.Orders.Domain.Total.{exact_total, IsPositive, reprice_rest, new_order_exact}
use mini_marketplace.Orders.Events.{
  order_created, order_confirmed, created_payload, confirmed_payload,
}
use mini_marketplace.Orders.Store.{Call}
use mini_marketplace.Orders.Repository.{save_with_event, update_status_with_event}
use mini_marketplace.Orders.Repository.Atomic.{
  saved, stands, moved, save_with_event_atomic, update_status_with_event_atomic,
}
use mini_marketplace.Orders.Repository.Valid.{IsValid, row_at}
use mini_marketplace.Orders.Usecase.{create_order, get_order}
use mini_marketplace.Orders.Usecase.Create.{create_order_atomic, get_order-create_order}
use mini_marketplace.Orders.Tests.Data.{quiet, apple, pear, basket, first_order, new_db, waiting_db}

abbrev second_order : Order
second_order = order_of 7 "o2" "c1" apple (pear ∷ [])

abbrev payload : Bytes
payload = created_payload quiet.rfc3339 second_order

new_db-IsValid : IsValid new_db
unfolding text_eq
new_db-IsValid = record { keys = (refl, tt); owned = (refl, tt) }

save_with_event_atomic_example :
    let out = save_with_event quiet second_order order_created payload new_db in
    (((e : OrderError) × (out ≡ (err e, new_db)))
      ⊎ ((out ≡ (ok tt, saved quiet second_order order_created payload new_db))
          × (first (λ r. text_eq r.id second_order.id) new_db.orders ≡ none)))
    × (((c : Call) → quiet.fails c ≡ false)
        → first (λ r. text_eq r.id second_order.id) new_db.orders ≡ none
        → out ≡ (ok tt, saved quiet second_order order_created payload new_db))
save_with_event_atomic_example =
    save_with_event_atomic quiet second_order order_created payload new_db

-- The order in `waiting_db`, as an update to CONFIRMED passes it on.
abbrev to_confirm : Order
to_confirm = record first_order { status = confirmed; version = 2; updated_at = 7 }

update_status_with_event_atomic_example :
    let out =
      update_status_with_event quiet to_confirm order_confirmed
        (confirmed_payload "o1")
        waiting_db in
    ((out ≡ (err driver, waiting_db))
      ⊎ (((affected (stands to_confirm) waiting_db.orders ≡ 0)
            × (out ≡ (err optimistic_lock, waiting_db)))
          ⊎ ((affected (stands to_confirm) waiting_db.orders ≢ 0)
              × (out ≡ (
                ok tt,
                moved quiet to_confirm order_confirmed (confirmed_payload "o1") waiting_db,
              )))))
    × (((c : Call) → quiet.fails c ≡ false) → out ≢ (err driver, waiting_db))
update_status_with_event_atomic_example =
    update_status_with_event_atomic quiet to_confirm order_confirmed (confirmed_payload "o1")
      waiting_db

free : row_at "o2" new_db.orders ≡ none
unfolding text_eq
free = refl

save_done :
    save_with_event quiet second_order order_created payload new_db
    ≡ (ok tt, saved quiet second_order order_created payload new_db)
unfolding order_of
save_done =
    (save_with_event_atomic quiet second_order order_created payload new_db).1 (λ c. refl) free

create_order_atomic_example :
    let out = create_order quiet "c1" basket new_db in
    (((e : OrderError) × (out ≡ (err e, new_db)) × (basket ≡ [] → e ≡ empty_items))
      ⊎ ((o : Order) × (new_order 7 "o2" "c1" basket ≡ ok o)
          × (row_at "o2" new_db.orders ≡ none)
          × (out ≡ (ok o, saved quiet o order_created (created_payload quiet.rfc3339 o) new_db))))
    × (((c : Call) → quiet.fails c ≡ false)
        → row_at "o2" new_db.orders ≡ none
        → basket ≢ []
        → (o : Order) × (out.0 ≡ ok o))
create_order_atomic_example = create_order_atomic quiet "c1" basket new_db

create_done :
    create_order quiet "c1" basket new_db
    ≡ (ok second_order, saved quiet second_order order_created payload new_db)
unfolding create_order new_order
create_done = rw save_done

get_order-create_order_example :
    get_order quiet second_order.id (saved quiet second_order order_created payload new_db)
    ≡ ok second_order
get_order-create_order_example =
    get_order-create_order quiet quiet "c1" basket new_db {o = second_order}
      {db' = saved quiet second_order order_created payload new_db} new_db-IsValid create_done
      (λ c. refl) refl

-- The basket is one whose total is exact.
basket-IsPositive : All IsPositive basket
basket-IsPositive = ((omega arith, omega arith), ((omega arith, omega arith), tt))

basket_fits : pos_part (exact_total basket) < int64_half
unfolding exact_total ◌+ℤ◌ ◌*ℤ◌
basket_fits = omega arith

new_order_exact_example :
    ((basket ≡ []) × (new_order 7 "o2" "c1" basket ≡ err empty_items))
    ⊎ ((o o' : Order) × (basket ≢ [])
        × (new_order 7 "o2" "c1" basket ≡ ok o)
        × (All IsPositive basket
            → pos_part (exact_total basket) < int64_half
            → o.total_cost.amount ≡ exact_total basket)
        × (o.items ≡ basket)
        × (o.status ≡ created)
        × (o.version ≡ 1)
        × (new_order 7 "o2" "c1" (reprice_rest "JPY" basket) ≡ ok o')
        × (o'.total_cost ≡ o.total_cost)
        × (take 1 (map (λ it. it.price.currency) basket) ≡ o.total_cost.currency ∷ []))
new_order_exact_example = new_order_exact 7 "o2" "c1" basket "JPY"

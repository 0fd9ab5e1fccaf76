-- ===== src/Saga/Tests/Progress.antt =====
-- The schedule that settles an order, for an order of two apples and one of nine.
use mini_marketplace.Base.{◌≡◌, refl, true, [], ◌∷◌, map, arith, String, text_eq, text_eq_iff}
use mini_marketplace.Base.Int.{pos, ◌+ℤ◌}
use mini_marketplace.Orders.Domain.{OrderItem, confirmed, cancelled, status_eq}
use mini_marketplace.Orders.Usecase.{create_order}
use mini_marketplace.Orders.Worker.Announce.{HasStatus}
use mini_marketplace.Orders.Tests.Data.{quiet, apple}
use mini_marketplace.Inventory.Repository.{contains}
use mini_marketplace.Inventory.Repository.Levels.{levels, total_of}
use mini_marketplace.Inventory.Repository.Enough.{HasEnough, asks}
use mini_marketplace.Inventory.Consumer.Contract.{requested}
use mini_marketplace.Saga.{World, ◌⇒*◌}
use mini_marketplace.Saga.Tests.{opening}
use mini_marketplace.Saga.Progress.{placed_order_settles}
use mini_marketplace.Saga.Answered.{enough, lacking}
use mini_marketplace.Inventory.Usecase.Short.{Lacks}
use mini_marketplace.Base.{inl, inr}

asked_apple : (k : String) → asks k (map requested (apple ∷ [])) ≡ true → k ≡ "apple"
unfolding asks
asked_apple k e = ground (arith, text_eq_iff k "apple")

enough_apples : HasEnough (map requested (apple ∷ [])) (levels opening.inventory.stock)
unfolding levels text_eq total_of ◌+ℤ◌
enough_apples k e = rw (asked_apple k e) (
  record { available = pos 5; reserved = pos 1 },
  refl,
  record {
    enough = omega arith;
    nonneg = omega arith;
    in_column = omega arith;
    stays_in_column = omega arith;
  },
)

placed_order_settles_example :
    (w' : World) × (record opening {
      orders = (create_order quiet "c1" (apple ∷ []) opening.orders).1;
    }
      ⇒* w')
    × HasStatus "o2" confirmed w'.orders
    × (contains "o2" w'.inventory.processed_events ≡ status_eq confirmed confirmed)
unfolding contains
placed_order_settles_example =
    placed_order_settles quiet "c1" (apple ∷ []) opening confirmed (λ c. refl)
      (record { keys = tt; owned = tt }) refl (λ e. cc) (omega arith, tt) refl
      (enough (omega arith, tt) enough_apples)

-- More apples than there are.
abbrev too_many : OrderItem
too_many = record apple { quantity = pos 9 }

too_many-Lacks : Lacks (map requested (too_many ∷ [])) (levels opening.inventory.stock)
unfolding levels text_eq
too_many-Lacks =
    (requested too_many, inl refl, inr (record { available = pos 5; reserved = pos 1 }, refl, refl))

short_order_settles :
    (w' : World) × (record opening {
      orders = (create_order quiet "c1" (too_many ∷ []) opening.orders).1;
    }
      ⇒* w')
    × HasStatus "o2" cancelled w'.orders
    × (contains "o2" w'.inventory.processed_events ≡ status_eq cancelled confirmed)
unfolding contains
short_order_settles =
    placed_order_settles quiet "c1" (too_many ∷ []) opening cancelled (λ c. refl)
      (record { keys = tt; owned = tt }) refl (λ e. cc) (omega arith, tt) refl
      (lacking too_many-Lacks)

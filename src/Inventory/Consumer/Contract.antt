-- ===== src/Inventory/Consumer/Contract.antt =====
-- The JSON contract of `order.created` between order-service/internal/domain/order.go and
-- inventory-service/internal/consumer/order_created_consumer.go.
use mini_marketplace.Base.{ℕ, String, ◌≡◌, refl, some, List, [], ◌∷◌, map, arith, All, text_eq}
use mini_marketplace.Base.Int.{IsInt64}
use mini_marketplace.Base.Json.{key}
use mini_marketplace.Orders.Domain.{Order, OrderItem}
use mini_marketplace.Orders.Events.{created_payload, json_items, json_item}
use mini_marketplace.Inventory.Repository.{ReservationItem}
use mini_marketplace.Inventory.Consumer.{order_created_event, item_of, items_of}

abbrev pub requested : OrderItem → ReservationItem
requested it = record { sku = it.sku; qty = it.quantity }

item_of-json_item :
    (it : OrderItem) → IsInt64 it.quantity → item_of (json_item it) ≡ some (requested it)
unfolding item_of json_item key text_eq
item_of-json_item it fits = ground arith

items_of-json_items :
    (items : List OrderItem)
    → All (λ (it : OrderItem). IsInt64 it.quantity) items
    → items_of (json_items items) ≡ some (map requested items)
unfolding items_of json_items
items_of-json_items [] h = refl
items_of-json_items (it ∷ items) h =
    ground (arith, item_of-json_item it h.0, items_of-json_items items h.1)

-- Whatever order order-service announces, inventory-service reads from the message exactly its id,
-- its customer, the sku and the quantity of each of its items in their order, and the text of its
-- time, provided that the quantities are values of Go's `int`.
pub order_created_contract :
    (rfc3339 : ℕ → String) (o : Order)
    → All (λ (it : OrderItem). IsInt64 it.quantity) o.items
    → order_created_event (created_payload rfc3339 o)
      ≡ some (record {
        order_id = o.id;
        customer_id = o.customer_id;
        items = map requested o.items;
        created_at = rfc3339 o.created_at;
      })
unfolding order_created_event created_payload key text_eq
order_created_contract rfc3339 o h = ground (arith, items_of-json_items o.items h)

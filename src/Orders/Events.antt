-- ===== src/Orders/Events.antt =====
-- The events of order-service/internal/domain/order.go as the JSON values that `json.Marshal`
-- writes by the struct tags. The text of a time is the host's `rfc3339`.
use mini_marketplace.Base.{ℕ, String, List, [], ◌∷◌}
use mini_marketplace.Base.Json.{
  Json, num, text, arr, obj, Items, nil, cons, end, field, Bytes, encoded,
}
use mini_marketplace.Orders.Domain.{Money, OrderItem, Order}

abbrev pub order_created : String
order_created = "order.created"

abbrev pub order_confirmed : String
order_confirmed = "order.confirmed"

abbrev pub order_cancelled : String
order_cancelled = "order.cancelled"

unfoldable pub json_money : Money → Json
json_money m = obj (field "amount" (num m.amount) (field "currency" (text m.currency) end))

unfoldable pub json_item : OrderItem → Json
unfolding json_money
json_item i = obj (
    field "sku" (text i.sku) (
      field "name" (text i.name)
        (field "price" (json_money i.price) (field "quantity" (num i.quantity) end))))

unfoldable pub json_items : List OrderItem → Items
json_items [] = nil
json_items (i ∷ items) = cons (json_item i) (json_items items)

-- `OrderCreatedEvent` of a new order
unfoldable pub created_payload : (ℕ → String) → Order → Bytes
unfolding json_money
created_payload rfc3339 o = encoded (
    obj (
      field "order_id" (text o.id) (
        field "customer_id" (text o.customer_id) (
          field "items" (arr (json_items o.items)) (
            field "total_cost" (json_money o.total_cost)
              (field "created_at" (text (rfc3339 o.created_at)) end))))))

-- `OrderConfirmedEvent`
unfoldable pub confirmed_payload : String → Bytes
confirmed_payload order_id = encoded (obj (field "order_id" (text order_id) end))

-- `OrderCancelledEvent`
unfoldable pub cancelled_payload : String → String → Bytes
cancelled_payload order_id reason =
    encoded (obj (field "order_id" (text order_id) (field "reason" (text reason) end)))

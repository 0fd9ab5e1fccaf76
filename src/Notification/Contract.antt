-- ===== src/Notification/Contract.antt =====
-- The events of order-service/internal/domain/order.go as
-- notification-service/internal/consumer/order-events-consumer.go reads them.
use mini_marketplace.Base.{ℕ, String, ◌≡◌, refl, some, text_eq}
use mini_marketplace.Base.Json.{key}
use mini_marketplace.Orders.Domain.{Order}
use mini_marketplace.Orders.Events.{created_payload, confirmed_payload, cancelled_payload}
use mini_marketplace.Notification.{order_event}

-- Of each of the three events that order-service announces notification-service reads the id of
-- the order; of a cancellation it reads the reason, and of the two others an empty reason.
pub order_event_contract :
    (rfc3339 : ℕ → String) (o : Order) (order_id reason : String)
    → (order_event (created_payload rfc3339 o) ≡ some (record { order_id = o.id; reason = "" }))
      × (order_event (confirmed_payload order_id)
          ≡ some (record { order_id = order_id; reason = "" }))
      × (order_event (cancelled_payload order_id reason)
          ≡ some (record { order_id = order_id; reason = reason }))
unfolding order_event created_payload confirmed_payload cancelled_payload key text_eq
order_event_contract rfc3339 o order_id reason = (refl, refl, refl)

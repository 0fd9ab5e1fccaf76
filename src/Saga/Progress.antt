-- ===== src/Saga/Progress.antt =====
-- A schedule that settles an order, through every part of the two services.
use mini_marketplace.Base.{ℕ, String, ◌≡◌, ◌≢◌, ap, false, none, List, [], map, All}
use mini_marketplace.Base.Int.{IsInt64}
use mini_marketplace.Orders.Domain.{OrderItem, created, awaiting_stock, confirmed}
use mini_marketplace.Orders.Store as OrdersStore
use mini_marketplace.Orders.Store.{OrderDb}
use mini_marketplace.Orders.Repository.Valid.{IsValid, row_at}
use mini_marketplace.Orders.Usecase.{create_order}
use mini_marketplace.Orders.Worker.Announce.{HasStatus}
use mini_marketplace.Orders.Consumer.{handle_reserved}
use mini_marketplace.Orders.Consumer.Race.{nobody, handle_reserved-confirms}
use mini_marketplace.Inventory.Repository.{contains}
use mini_marketplace.Inventory.Repository.Levels.{levels}
use mini_marketplace.Inventory.Consumer.Contract.{requested}
use mini_marketplace.Inventory.Consumer.Answers.{answers_contract}
use mini_marketplace.Saga.{World, ◌⇒◌, confirm, ◌⇒*◌, here, then}
use mini_marketplace.Orders.Domain.{OrderStatus, cancelled, completed, status_eq}
use mini_marketplace.Orders.Consumer.{handle_failed}
use mini_marketplace.Orders.Consumer.Race.{handle_failed-cancels}
use mini_marketplace.Saga.{cancel}
use mini_marketplace.Saga.Placed.{create_order-IsPlaced, publish_orders_announces}
use mini_marketplace.Saga.Answered.{Supply, IsAnswered, announced-IsAnswered}

-- The delivery of the answer.
answered_settles :
    (h : OrdersStore.Host) (id : String) (s : OrderStatus) (w : World)
    → ((c : OrdersStore.Call) → h.fails c ≡ false)
    → IsAnswered id s w
    → (w' : World) × (w ⇒ w')
      × HasStatus id s w'.orders
      × (contains id w'.inventory.processed_events ≡ status_eq s confirmed)
answered_settles h id confirmed w works a =
    let hosts : ℕ → ℕ → OrdersStore.Host = λ n k. h in
    let (r, found, waits) = a.waits in
    let (topic, value) = a.tells in
    let (db', r', found', is_confirmed, done) =
      handle_reserved-confirms hosts (λ n k. works) 0 a.message w.orders id r
        (rw value ((answers_contract id "").0)) a.valid found waits in
    let same : (handle_reserved hosts (λ _. nobody) 0 a.message w.orders).1 ≡ db' =
      ap (λ out. out.1) done in
    (
      record w { orders = (handle_reserved hosts (λ n k db. db) 0 a.message w.orders).1 },
      confirm hosts 0 a.message a.there topic,
      (r', rw same found', is_confirmed),
      a.marked,
    )
answered_settles h id cancelled w works a =
    let hosts : ℕ → ℕ → OrdersStore.Host = λ n k. h in
    let (r, found, waits) = a.waits in
    let (reason, topic, value) = a.tells in
    let (db', r', found', is_cancelled, done) =
      handle_failed-cancels hosts (λ n k. works) 0 a.message w.orders
        (record { order_id = id; reason = reason }) r (rw value ((answers_contract id reason).1))
        a.valid found waits in
    let same : (handle_failed hosts (λ _. nobody) 0 a.message w.orders).1 ≡ db' =
      ap (λ out. out.1) done in
    (
      record w { orders = (handle_failed hosts (λ n k db. db) 0 a.message w.orders).1 },
      cancel hosts 0 a.message a.there topic,
      (r', rw same found', is_cancelled),
      a.marked,
    )
answered_settles h id created w works a = absurd a.tells
answered_settles h id awaiting_stock w works a = absurd a.tells
answered_settles h id completed w works a = absurd a.tells

-- From any world at all, an order that is placed with a free id can be settled by what is in stock.
-- If of every sku there is enough for all its lines together, their quantities are positive and the
-- columns have room, then after the call of `CreateOrder` there are batches of the two workers and
-- deliveries of two messages that end with the order CONFIRMED and marked as processed; if some
-- line asks for a sku that there is not or for more of it than is available, there are such that
-- end with it CANCELLED and not marked. Whatever else is stored, pending and published may be there.
-- The quantities are values of Go's `int`, inventory-service has not marked the id, the keys of
-- order-service's tables hold at the start, and no call of the host fails.
pub placed_order_settles :
    (h : OrdersStore.Host) (customer_id : String) (items : List OrderItem) (w : World)
    (s : OrderStatus)
    → ((c : OrdersStore.Call) → h.fails c ≡ false)
    → IsValid w.orders
    → row_at h.new_id w.orders.orders ≡ none
    → items ≢ []
    → All (λ (it : OrderItem). IsInt64 it.quantity) items
    → contains h.new_id w.inventory.processed_events ≡ false
    → Supply (map requested items) (levels w.inventory.stock) s
    → (w' : World) × (record w { orders = (create_order h customer_id items w.orders).1 } ⇒* w')
      × HasStatus h.new_id s w'.orders
      × (contains h.new_id w'.inventory.processed_events ≡ status_eq s confirmed)
placed_order_settles h customer_id items w s works v free filled fit is_new supply =
    let id = h.new_id in
    let w₁ : World = record w { orders = (create_order h customer_id items w.orders).1 } in
    let placed = create_order-IsPlaced h customer_id items w.orders works v free filled fit in
    let (w₂, published, same, announced) = publish_orders_announces h id items w₁ works placed in
    let (w₃, w₄, decided, answered, is_answered) =
      announced-IsAnswered h id items w₂ s announced (rw same is_new) (rw same supply) in
    let (w₅, settled, has_status, marked) = answered_settles h id s w₄ works is_answered in
    (w₅, then published (then decided (then answered (then settled here))), has_status, marked)

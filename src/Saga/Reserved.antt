-- ===== src/Saga/Reserved.antt =====
-- No phantom reservation: what inventory-service has processed are orders that order-service has.
use mini_marketplace.Base.{ℕ, ◌≡◌, inl, inr, [], ◌∷◌, All, All-append, All-map, All-In}
use mini_marketplace.Base.Kafka.{Message}
use mini_marketplace.Orders.Events.{order_created}
use mini_marketplace.Orders.Store.{OrderDb}
use mini_marketplace.Orders.Repository.Valid.{IsValid}
use mini_marketplace.Orders.Usecase.{create_order}
use mini_marketplace.Orders.Consumer.{handle_reserved, handle_failed}
use mini_marketplace.Inventory.Store.{InventoryDb, Host}
use mini_marketplace.Inventory.Usecase.Outcome.{told}
use mini_marketplace.Inventory.Consumer.{handle_message}
use mini_marketplace.Inventory.Consumer.Answers.{handle_message_fates}
use mini_marketplace.Saga.{
  World, ◌⇒◌, place, publish_orders, reserve_stock, publish_answers, confirm, cancel, ◌⇒*◌, here,
  then,
}
use mini_marketplace.Saga.Answers.{process_batch-same}
use mini_marketplace.Saga.Known.{IsKnown, IsOfOrder, AreOfOrders, IsOfOrder-kept}
use mini_marketplace.Saga.Written.{create_order-IsTraced}
use mini_marketplace.Saga.Trace.{
  handle_reserved-IsTraced, handle_failed-IsTraced, process_batch-IsTraced,
}

-- Nothing is announced or processed yet. The orders may be any, under the keys of their tables, and
-- the stock may be anything.
pub record IsSilent (w : World) : Type 0 where
  pub no_events : w.orders.outbox ≡ []
  pub nothing_announced : w.order_log ≡ []
  pub no_marks : w.inventory.processed_events ≡ []
  pub has_keys : IsValid w.orders

-- What every step keeps.
pub record IsTrue (w : World) : Type 0 where
  pub stored : AreOfOrders w.orders
  pub valid : IsValid w.orders
  pub announced : All (IsOfOrder w.orders) w.order_log
  pub known : All (IsKnown w.orders.orders) w.inventory.processed_events

-- A handled message marks at most the order that it names.
handle_message-IsKnown :
    (hosts hosts' : ℕ → Host) (n : ℕ) (m : Message) (orders : OrderDb) (db : InventoryDb)
    → m.topic ≡ order_created
    → IsOfOrder orders m
    → All (IsKnown orders.orders) db.processed_events
    → All (IsKnown orders.orders) (handle_message hosts hosts' n m db).1.processed_events
unfolding told
handle_message-IsKnown hosts hosts' n m orders db topic of_order known =
    elim (handle_message_fates hosts hosts' n m db) [
      | inl (garbled, same) ↦ rw same known
      | inr (event, read, inl (db', done, r)) ↦
          rw (done, r.processed)
            (All-append (IsKnown orders.orders) db.processed_events (event.order_id ∷ []) known
              ((of_order topic event read).0, tt))
      | inr (event, read, inr (inl (reason, done))) ↦ rw done known
      | inr (event, read, inr (inr (inl (marked, same)))) ↦ rw same known
      | inr (event, read, inr (inr (inr (e, silent, apart, same)))) ↦ rw same known
    ]

pub ⇒-IsTrue : {w w' : World} → w ⇒ w' → IsTrue w → IsTrue w'
⇒-IsTrue (place {w} h customer_id items) t =
    let (stored', valid', keeps) =
      create_order-IsTraced h customer_id items w.orders t.stored t.valid in
    record {
      stored = stored';
      valid = valid';
      announced =
          All-map w.order_log
            (λ m p. IsOfOrder-kept w.orders (create_order h customer_id items w.orders).1 m keeps p)
            t.announced;
      known = All-map w.inventory.processed_events (λ id k. (keeps id k).0) t.known;
    }
⇒-IsTrue (publish_orders {w} tick) t =
    let ((stored', valid', keeps), announced') =
      process_batch-IsTraced tick w.orders w.order_log t.stored t.valid t.announced in
    record {
      stored = stored';
      valid = valid';
      announced = announced';
      known = All-map w.inventory.processed_events (λ id k. (keeps id k).0) t.known;
    }
⇒-IsTrue (reserve_stock {w} hosts hosts' n m there topic) t = record {
  stored = t.stored;
  valid = t.valid;
  announced = t.announced;
  known =
      handle_message-IsKnown hosts hosts' n m w.orders w.inventory topic
        (All-In (IsOfOrder w.orders) m w.order_log t.announced there) t.known;
}
⇒-IsTrue (publish_answers {w} tick) t = record {
  stored = t.stored;
  valid = t.valid;
  announced = t.announced;
  known = rw ((process_batch-same tick w.inventory w.stock_log).0) (t.known);
}
⇒-IsTrue (confirm {w} hosts n m there topic) t =
    let (stored', valid', keeps) = handle_reserved-IsTraced hosts n m w.orders t.stored t.valid in
    record {
      stored = stored';
      valid = valid';
      announced =
          All-map w.order_log
            (λ x p.
              IsOfOrder-kept w.orders (handle_reserved hosts (λ n k db. db) n m w.orders).1 x keeps
                p)
            t.announced;
      known = All-map w.inventory.processed_events (λ id k. (keeps id k).0) t.known;
    }
⇒-IsTrue (cancel {w} hosts n m there topic) t =
    let (stored', valid', keeps) = handle_failed-IsTraced hosts n m w.orders t.stored t.valid in
    record {
      stored = stored';
      valid = valid';
      announced =
          All-map w.order_log
            (λ x p.
              IsOfOrder-kept w.orders (handle_failed hosts (λ n k db. db) n m w.orders).1 x keeps p)
            t.announced;
      known = All-map w.inventory.processed_events (λ id k. (keeps id k).0) t.known;
    }

⇒*-IsTrue : {w w' : World} → w ⇒* w' → IsTrue w → IsTrue w'
⇒*-IsTrue here t = t
⇒*-IsTrue (then step rest) t = ⇒*-IsTrue rest (⇒-IsTrue step t)

pub silent-IsTrue : {w : World} → IsSilent w → IsTrue w
silent-IsTrue silent = record {
  stored = rw (silent.no_events) tt;
  announced = rw (silent.nothing_announced) tt;
  known = rw (silent.no_marks) tt;
  valid = silent.has_keys;
}

-- No stock is reserved for an order that does not exist: from a start with an empty outbox of
-- order-service, an empty topic of `order.created`, no mark of a processed order and the keys of
-- order-service's tables, however the steps of the two services interleave, whichever calls fail in
-- them, and however often messages are handled, every order for which inventory-service has
-- committed a reservation is a row of order-service's table. So is every order named by an
-- `order.created` message in the outbox or in the topic, and the message asks of every sku for as
-- much as the lines of that order in `order_items` do. The primary key of `orders` and the foreign
-- key of `order_items` hold all along.
pub reachable-IsKnown :
    {w w' : World}
    → IsSilent w
    → w ⇒* w'
    → All (IsKnown w'.orders.orders) w'.inventory.processed_events
      × AreOfOrders w'.orders
      × All (IsOfOrder w'.orders) w'.order_log
      × IsValid w'.orders
reachable-IsKnown silent steps =
    let t = ⇒*-IsTrue steps (silent-IsTrue silent) in (t.known, t.stored, t.announced, t.valid)

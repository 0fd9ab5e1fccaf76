-- ===== src/Saga/Placed.antt =====
-- The start of a schedule that settles an order: it is placed, and its event is published.
use mini_marketplace.Base.{
  String, ◌≡◌, ◌≢◌, refl, sym, inl, inr, false, none, some, List, [], map, All, In, In-append_right,
  affected, arith,
}
use mathlib.Core.Path.{subst}
use mini_marketplace.Base.Int.{IsInt64}
use mini_marketplace.Base.Kafka.{Message}
use mini_marketplace.Orders.Domain.{OrderItem, created, awaiting_stock}
use mini_marketplace.Orders.Events.{order_created, created_payload}
use mini_marketplace.Orders.Store as OrdersStore
use mini_marketplace.Orders.Store.{OrderDb}
use mini_marketplace.Orders.Repository as OrdersRepository
use mini_marketplace.Orders.Repository.{row_of}
use mini_marketplace.Orders.Repository.Atomic.{saved}
use mini_marketplace.Orders.Repository.Valid.{IsValid, row_at, row_at-append_self, saved-IsValid}
use mini_marketplace.Orders.Usecase.{create_order}
use mini_marketplace.Orders.Usecase.Create.{create_order_atomic}
use mini_marketplace.Orders.Server.Replies.{new_order-fields}
use mini_marketplace.Orders.Worker as OrdersWorker
use mini_marketplace.Orders.Worker.Sent as OrdersSent
use mini_marketplace.Orders.Worker.Drain as OrdersDrain
use mini_marketplace.Orders.Worker.Announce.{HasStatus, process_batch_announces}
use mini_marketplace.Inventory.Consumer.{OrderCreatedEvent, order_created_event}
use mini_marketplace.Inventory.Consumer.Contract.{requested, order_created_contract}
use mini_marketplace.Saga.{World, ◌⇒◌, publish_orders}

-- Tables in which an order is placed and its event waits to be published, and what inventory-service
-- will read of it.
pub record IsPlaced (id : String) (items : List OrderItem) (db : OrderDb) : Type 0 where
  pub valid : IsValid db
  pub row : OrdersStore.OutboxRow
  pub stored : In row db.outbox
  pub waits : row.status ≡ OrdersStore.pending
  pub topic : row.event_type ≡ order_created
  pub key : row.aggregate_id ≡ id
  pub event : OrderCreatedEvent
  pub read : order_created_event row.payload ≡ some event
  pub named : event.order_id ≡ id
  pub asked : event.items ≡ map requested items
  pub fresh : HasStatus id created db

pub create_order-IsPlaced :
    (h : OrdersStore.Host) (customer_id : String) (items : List OrderItem) (db : OrderDb)
    → ((c : OrdersStore.Call) → h.fails c ≡ false)
    → IsValid db
    → row_at h.new_id db.orders ≡ none
    → items ≢ []
    → All (λ (it : OrderItem). IsInt64 it.quantity) items
    → IsPlaced h.new_id items (create_order h customer_id items db).1
unfolding saved OrdersRepository.outbox_row row_of
create_order-IsPlaced h customer_id items db works v free filled fit =
    let (outcome, sound) = create_order_atomic h customer_id items db in
    let (o', made) = sound works free filled in
    elim outcome [
      | inl (e, failed, _) ↦ absurd (ground arith)
      | inr (o, new, _, done) ↦
          let (id, _, same, status, _) = new_order-fields h.now h.new_id customer_id items new in
          let payload = created_payload h.rfc3339 o in
          let free' : row_at o.id db.orders ≡ none = rw id free in
          rw done (record {
            valid = saved-IsValid h o order_created payload db v free';
            row = OrdersRepository.outbox_row h o.id order_created payload;
            stored = In-append_right _ db.outbox _ (inl refl);
            waits = refl;
            topic = refl;
            key = id;
            event = record {
              order_id = o.id;
              customer_id = o.customer_id;
              items = map requested o.items;
              created_at = h.rfc3339 o.created_at;
            };
            read = order_created_contract h.rfc3339 o (rw same fit);
            named = id;
            asked = rw same refl;
            fresh =
                (row_of h o, rw (← id) (row_at-append_self (row_of h o) db.orders free'), status);
          })
    ]

-- A tick with room for all that is pending, at which nothing fails that does not fail at the host.
abbrev order_tick : OrdersStore.Host → OrderDb → OrdersWorker.Tick
order_tick h db = record {
  host = record h { cut = none };
  batch_size = affected OrdersWorker.is_pending db.outbox;
  locked = λ r. false;
  publish_fails = λ rec. false;
  stored = λ rec. false;
}

-- An order whose event is in the topic, and that awaits stock.
pub record IsAnnounced (id : String) (items : List OrderItem) (w : World) : Type 0 where
  pub valid : IsValid w.orders
  pub message : Message
  pub there : In message w.order_log
  pub topic : message.topic ≡ order_created
  pub event : OrderCreatedEvent
  pub read : order_created_event message.value ≡ some event
  pub named : event.order_id ≡ id
  pub asked : event.items ≡ map requested items
  pub waits : HasStatus id awaiting_stock w.orders

pub publish_orders_announces :
    (h : OrdersStore.Host) (id : String) (items : List OrderItem) (w : World)
    → ((c : OrdersStore.Call) → h.fails c ≡ false)
    → IsPlaced id items w.orders
    → (w' : World) × (w ⇒ w') × (w'.inventory ≡ w.inventory) × IsAnnounced id items w'
unfolding OrdersWorker.message_of OrdersWorker.record_of
publish_orders_announces h id items w works p =
    let t = order_tick h w.orders in
    let clear : OrdersDrain.IsClear t w.orders = record {
      calm = record { works = works; delivers = λ rec. refl; unlocked = λ r. refl; whole = refl };
      fits = omega arith;
    } in
    let (valid, announced, waits) =
      process_batch_announces t w.orders w.order_log p.row clear p.valid p.stored p.waits p.topic
        (subst (λ (i : String). HasStatus i created w.orders) (sym p.key) p.fresh) in
    let (out, db', log') = OrdersWorker.process_batch t w.orders w.order_log in
    (
      record w { orders = db'; order_log = log' },
      publish_orders t,
      refl,
      record {
        valid = valid;
        message = OrdersSent.row_message p.row;
        there = announced;
        topic = p.topic;
        event = p.event;
        read = p.read;
        named = p.named;
        asked = p.asked;
        waits = subst (λ (i : String). HasStatus i awaiting_stock db') p.key waits;
      },
    )

-- ===== src/Saga/Answered.antt =====
-- The middle of a schedule that settles an order: inventory-service decides, and its answer is
-- published.
use mini_marketplace.Base.{
  ℕ, String, ◌≡◌, refl, sym, ap, inl, inr, false, none, some, List, [], ◌∷◌, map, In,
  In-append_right, affected, arith,
}
use mathlib.Core.Path.{subst}
use mini_marketplace.Base.Kafka.{Message}
use mini_marketplace.Orders.Domain.{OrderItem, awaiting_stock, confirmed}
use mini_marketplace.Orders.Store as OrdersStore
use mini_marketplace.Orders.Store.{OrderDb}
use mini_marketplace.Orders.Repository.Valid.{IsValid}
use mini_marketplace.Orders.Worker.Announce.{HasStatus}
use mini_marketplace.Inventory.Store as InventoryStore
use mini_marketplace.Inventory.Store.{InventoryDb, outbox_row}
use mini_marketplace.Inventory.Repository.{contains, stock_reserved, reserved_payload}
use mini_marketplace.Inventory.Repository.Levels.{levels}
use mini_marketplace.Inventory.Repository.Enough.{HasEnough, ArePositive}
use mini_marketplace.Inventory.Repository.Reserve.{Reserved, reserve_all_atomic}
use mini_marketplace.Inventory.Repository.Success.{reserve_all_succeeds}
use mini_marketplace.Inventory.Usecase.{reserve_stock}
use mini_marketplace.Inventory.Consumer.{OrderCreatedEvent, order_created_event, handle_message}
use mini_marketplace.Inventory.Consumer.Contract.{requested}
use mini_marketplace.Inventory.Worker as InventoryWorker
use mini_marketplace.Inventory.Worker.Batch as InventoryBatch
use mini_marketplace.Inventory.Worker.Drain as InventoryDrain
use mini_marketplace.Saga.{World, ◌⇒◌, publish_orders, publish_answers, confirm, ◌⇒*◌, here, then}
use mini_marketplace.Saga as Saga
use mini_marketplace.Saga.Answers.{contains_last, process_batch-same}
use mini_marketplace.Base.{Option, err}
use mini_marketplace.Base.Json.{Bytes}
use mini_marketplace.Orders.Domain.{OrderStatus, cancelled, status_eq}
use mini_marketplace.Inventory.Stock.{InventoryError}
use mini_marketplace.Inventory.Repository.{ReservationItem, stock_failed, failed_payload}
use mini_marketplace.Inventory.Repository.Levels.{Level}
use mini_marketplace.Inventory.Usecase.Outcome.{IsRefusal, short, unknown, told}
use mini_marketplace.Inventory.Usecase.Short.{Lacks, reserve_stock-Lacks}
use mini_marketplace.Saga.Placed.{IsAnnounced}

-- What the stock levels come to for the items of an order: enough of every sku for all its lines, or
-- too little for some line; with the status that the order will have.
pub data Supply (items : List ReservationItem) (at : String → Option Level)
    : OrderStatus → Type 0 where
  enough : ArePositive items → HasEnough items at → Supply items at confirmed
  lacking : Lacks items at → Supply items at cancelled

-- The answer that gives an order that status.
abbrev pub Tells : String → OrderStatus → String → Bytes → Type 0
Tells id confirmed topic payload = (topic ≡ stock_reserved) × (payload ≡ reserved_payload id)
Tells id cancelled topic payload =
    (reason : String) × (topic ≡ stock_failed) × (payload ≡ failed_payload id reason)
Tells id _ topic payload = ⊥

-- A host at which nothing fails.
abbrev calm : OrdersStore.Host → InventoryStore.Host
calm h = record { now = h.now; row_id = h.row_id; fails = λ c. false; cut = none }

-- A tick with room for all that is pending, at which nothing fails.
abbrev stock_tick : OrdersStore.Host → InventoryDb → InventoryWorker.Tick
stock_tick h db = record {
  host = calm h;
  batch_size = affected InventoryWorker.is_pending db.outbox;
  locked = λ r. false;
  publish_fails = λ rec. false;
  stored = λ rec. false;
}

-- A handled message of a new order for which there is enough.
handle_message-Reserved :
    (hosts hosts' : ℕ → InventoryStore.Host) (n : ℕ) (m : Message) (db : InventoryDb)
    (event : OrderCreatedEvent)
    → ((c : InventoryStore.Call) → (hosts n).fails c ≡ false)
    → order_created_event m.value ≡ some event
    → contains event.order_id db.processed_events ≡ false
    → ArePositive event.items
    → HasEnough event.items (levels db.stock)
    → Reserved (hosts n) event.order_id event.items db (handle_message hosts hosts' n m db).1
unfolding handle_message reserve_stock
handle_message-Reserved hosts hosts' n m db event works read is_new p room =
    let done = reserve_all_succeeds (hosts n) event.order_id event.items db works is_new p room in
    elim (reserve_all_atomic (hosts n) event.order_id event.items db).0 [
      | inl (e, failed) ↦ absurd (ground arith)
      | inr (db', out, r) ↦
          let same : (handle_message hosts hosts' n m db).1 ≡ db' = ground arith in
          subst (Reserved (hosts n) event.order_id event.items db) (sym same) r
    ]

-- A handled message of a new order for which there is too little.
handle_message-Lacks :
    (hosts hosts' : ℕ → InventoryStore.Host) (n : ℕ) (m : Message) (db : InventoryDb)
    (event : OrderCreatedEvent)
    → ((c : InventoryStore.Call) → (hosts n).fails c ≡ false)
    → ((c : InventoryStore.Call) → (hosts' n).fails c ≡ false)
    → order_created_event m.value ≡ some event
    → contains event.order_id db.processed_events ≡ false
    → Lacks event.items (levels db.stock)
    → (reason : String) × ((handle_message hosts hosts' n m db).1
        ≡ told (hosts' n) event.order_id reason db)
handle_message-Lacks hosts hosts' n m db event works works' read is_new lacks =
    let (e, reason, refusal, done) =
      reserve_stock-Lacks (hosts n) (hosts' n) event.order_id event.items db works works' is_new
        lacks in
    (reason, acked e reason refusal done)
  where
    acked :
        (e : InventoryError) (reason : String)
        → IsRefusal e reason
        → reserve_stock (hosts n) (hosts' n) event.order_id event.items db
          ≡ (err e, told (hosts' n) event.order_id reason db)
        → (handle_message hosts hosts' n m db).1 ≡ told (hosts' n) event.order_id reason db
    acked e reason (short r) done = unfold handle_message in ground (arith, done, read)
    acked e reason (unknown r) done = unfold handle_message in ground (arith, done, read)

-- An order that is decided, with the answer in the outbox of inventory-service.
record IsDecided (id : String) (s : OrderStatus) (w : World) : Type 0 where
  pub valid : IsValid w.orders
  pub waits : HasStatus id awaiting_stock w.orders
  pub marked : contains id w.inventory.processed_events ≡ status_eq s confirmed
  pub row : InventoryStore.OutboxRow
  pub stored : In row w.inventory.outbox
  pub pending : row.status ≡ InventoryStore.pending
  pub tells : Tells id s row.event_type row.payload

reserve_stock_decides :
    (h : OrdersStore.Host) (id : String) (items : List OrderItem) (w : World) (s : OrderStatus)
    → IsAnnounced id items w
    → contains id w.inventory.processed_events ≡ false
    → Supply (map requested items) (levels w.inventory.stock) s
    → (w' : World) × (w ⇒ w') × IsDecided id s w'
unfolding outbox_row status_eq told
reserve_stock_decides h id items w s a is_new (enough positive room) =
    let hosts : ℕ → InventoryStore.Host = λ n. calm h in
    let db = w.inventory in
    let db' = (handle_message hosts hosts 0 a.message db).1 in
    let reserved : Reserved (calm h) a.event.order_id a.event.items db db' =
      handle_message-Reserved hosts hosts 0 a.message db a.event (λ c. refl) a.read
        (rw a.named is_new) (rw a.asked positive) (rw a.asked room) in
    let row =
      outbox_row (calm h) a.event.order_id stock_reserved (reserved_payload a.event.order_id) in
    (
      record w { inventory = db' },
      Saga.reserve_stock hosts hosts 0 a.message a.there a.topic,
      record {
        valid = a.valid;
        waits = a.waits;
        marked = rw (reserved.processed, a.named) (contains_last id db.processed_events);
        row = row;
        stored = rw reserved.event_added (In-append_right row db.outbox (row ∷ []) (inl refl));
        pending = refl;
        tells = (refl, ap reserved_payload a.named);
      },
    )
reserve_stock_decides h id items w s a is_new (lacking lacks) =
    let hosts : ℕ → InventoryStore.Host = λ n. calm h in
    let db = w.inventory in
    let db' = (handle_message hosts hosts 0 a.message db).1 in
    let (reason, refused) =
      handle_message-Lacks hosts hosts 0 a.message db a.event (λ c. refl) (λ c. refl) a.read
        (rw a.named is_new) (rw a.asked lacks) in
    let row =
      outbox_row (calm h) a.event.order_id stock_failed (failed_payload a.event.order_id reason) in
    (
      record w { inventory = db' },
      Saga.reserve_stock hosts hosts 0 a.message a.there a.topic,
      record {
        valid = a.valid;
        waits = a.waits;
        marked = rw refused is_new;
        row = row;
        stored = rw refused (In-append_right row db.outbox (row ∷ []) (inl refl));
        pending = refl;
        tells = (reason, refl, ap (λ k. failed_payload k reason) a.named);
      },
    )

-- An order whose answer is in the topic.
pub record IsAnswered (id : String) (s : OrderStatus) (w : World) : Type 0 where
  pub valid : IsValid w.orders
  pub waits : HasStatus id awaiting_stock w.orders
  pub marked : contains id w.inventory.processed_events ≡ status_eq s confirmed
  pub message : Message
  pub there : In message w.stock_log
  pub tells : Tells id s message.topic message.value

publish_answers_answers :
    (h : OrdersStore.Host) (id : String) (s : OrderStatus) (w : World)
    → IsDecided id s w
    → (w' : World) × (w ⇒ w') × IsAnswered id s w'
unfolding InventoryWorker.message_of InventoryWorker.record_of
publish_answers_answers h id s w d =
    let t = stock_tick h w.inventory in
    let clear : InventoryDrain.IsClear t w.inventory = record {
      works = λ c. refl;
      delivers = λ rec. refl;
      unlocked = λ r. refl;
      whole = refl;
      fits = omega arith;
    } in
    let answered =
      InventoryDrain.process_batch_publishes t w.inventory w.stock_log d.row clear d.stored
        d.pending in
    let (out, db', log') = InventoryWorker.process_batch t w.inventory w.stock_log in
    (
      record w { inventory = db'; stock_log = log' },
      publish_answers t,
      record {
        valid = d.valid;
        waits = d.waits;
        marked = rw (process_batch-same t w.inventory w.stock_log).0 (d.marked);
        message = InventoryBatch.row_message d.row;
        there = answered;
        tells = d.tells;
      },
    )

-- From the announcement to the answer.
pub announced-IsAnswered :
    (h : OrdersStore.Host) (id : String) (items : List OrderItem) (w : World) (s : OrderStatus)
    → IsAnnounced id items w
    → contains id w.inventory.processed_events ≡ false
    → Supply (map requested items) (levels w.inventory.stock) s
    → (w₁ : World) × (w₂ : World) × (w ⇒ w₁) × (w₁ ⇒ w₂) × IsAnswered id s w₂
announced-IsAnswered h id items w s a is_new supply =
    let (w₁, step, decided) = reserve_stock_decides h id items w s a is_new supply in
    let (w₂, step', answered) = publish_answers_answers h id s w₁ decided in
    (w₁, w₂, step, step', answered)

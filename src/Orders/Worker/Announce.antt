-- ===== src/Orders/Worker/Announce.antt =====
-- What a whole batch of the outbox worker does for one order: it announces it, and the order awaits
-- stock (order-service/internal/outbox/worker.go).
use mini_marketplace.Base.{
  ◌+◌, String, ◌≡◌, refl, ◌⊎◌, inl, inr, true, not, ◌&&◌, some, List, [], ◌∷◌, map, Bool-cases,
  arith, text_eq, text_eq_refl, first_passes, select, order_by, In, In-map, In-select, In-order_by,
  In-append_right, if◌then◌else◌,
}
use mathlib.Core.Option
use mini_marketplace.Base.Kafka.{Message}
use mini_marketplace.Orders.Domain.{OrderStatus, created, awaiting_stock, status_eq}
use mini_marketplace.Orders.Events.{order_created}
use mini_marketplace.Orders.Store.{OrderDb, OrderRow, OutboxRow, pending, Host}
use mini_marketplace.Orders.Repository.Valid.{
  IsValid, row_at, row_at-update, HasKeys-update, owned-update,
}
use mini_marketplace.Orders.Worker.{
  OutboxRecord, Tick, is_pending, record_of, message_of, process_batch, mark_sent,
  transition_to_awaiting_stock,
}
use mini_marketplace.Orders.Worker.Batch.{deliver, deliver_all}
use mini_marketplace.Orders.Worker.Sent.{row_message}
use mini_marketplace.Orders.Worker.Drain.{IsClear, process_batch-IsClear}

pub deliver-IsValid :
    (h : Host) (rec : OutboxRecord) (db : OrderDb) → IsValid db → IsValid (deliver h rec db)
unfolding deliver mark_sent transition_to_awaiting_stock
deliver-IsValid h rec db v = elim (Bool-cases (text_eq rec.event_type order_created)) [
  | inl e ↦ rw e (record {
    keys =
        HasKeys-update (λ r. text_eq r.id rec.aggregate_id && status_eq r.status created) _
          db.orders (λ r. refl) v.keys;
    owned =
        owned-update (λ r. text_eq r.id rec.aggregate_id && status_eq r.status created) _ db.orders
          db.items (λ r. refl) v.owned;
  })
  | inr e ↦ rw e (record { keys = v.keys; owned = v.owned })
]

pub deliver_all-IsValid :
    (h : Host) (records : List OutboxRecord) (db : OrderDb)
    → IsValid db
    → IsValid (deliver_all h records db)
unfolding deliver_all
deliver_all-IsValid h [] db v = v
deliver_all-IsValid h (rec ∷ records) db v =
    deliver_all-IsValid h records (deliver h rec db) (deliver-IsValid h rec db v)

-- The record of the `order.created` event of an order.
abbrev Announces : String → OutboxRecord → Type 0
Announces id rec = (rec.event_type ≡ order_created) × (rec.aggregate_id ≡ id)

-- The row of an id in a status.
abbrev pub HasStatus : String → OrderStatus → OrderDb → Type 0
HasStatus id s db = (r : OrderRow) × (row_at id db.orders ≡ some r) × (r.status ≡ s)

module _ (h : Host) (id : String) where
  -- The row of an id after a delivery.
  row_at-deliver :
      (rec : OutboxRecord) (db : OrderDb)
      → row_at id (deliver h rec db).orders ≡ (
          if text_eq rec.event_type order_created
          then Option.map
              (λ r.
                if text_eq r.id rec.aggregate_id && status_eq r.status created
                then record r {
                  status = awaiting_stock;
                  version = r.version + 1;
                  updated_at = h.timestamptz h.now;
                }
                else r)
              (row_at id db.orders)
          else row_at id db.orders)
  unfolding deliver mark_sent transition_to_awaiting_stock
  row_at-deliver rec db = elim (Bool-cases (text_eq rec.event_type order_created)) [
    | inl e ↦ rw e (row_at-update id _ _ db.orders (λ r. refl))
    | inr e ↦ rw e refl
  ]

  deliver-awaiting :
      (rec : OutboxRecord) (db : OrderDb)
      → HasStatus id awaiting_stock db
      → HasStatus id awaiting_stock (deliver h rec db)
  unfolding status_eq
  deliver-awaiting rec db (r, found, waits) = (r, ground (arith, row_at-deliver rec db), waits)

  -- Of an order that waits for its announcement or for stock, the delivery of any record leaves
  -- that it waits for one of the two, and that of its own record leaves it waiting for stock.
  deliver-waits :
      (rec : OutboxRecord) (db : OrderDb)
      → HasStatus id created db
      → HasStatus id created (deliver h rec db) ⊎ HasStatus id awaiting_stock (deliver h rec db)
  unfolding status_eq
  deliver-waits rec db (r, found, new) = elim (Bool-cases (text_eq rec.event_type order_created)) [
    | inr e ↦ inl (r, ground (arith, row_at-deliver rec db), new)
    | inl e ↦ elim (Bool-cases (text_eq r.id rec.aggregate_id)) [
      | inr apart ↦ inl (r, ground (arith, row_at-deliver rec db), new)
      | inl same ↦ inr (
        record r {
          status = awaiting_stock;
          version = r.version + 1;
          updated_at = h.timestamptz h.now;
        },
        ground (arith, row_at-deliver rec db),
        refl,
      )
    ]
  ]

  deliver_own :
      (rec : OutboxRecord) (db : OrderDb)
      → Announces id rec
      → HasStatus id created db
      → HasStatus id awaiting_stock (deliver h rec db)
  unfolding status_eq
  deliver_own rec db (topic, key) (r, found, new) =
      let e : text_eq rec.event_type order_created ≡ true = rw topic (text_eq_refl order_created) in
      let same : text_eq r.id rec.aggregate_id ≡ true =
        rw key (first_passes (λ x. text_eq x.id id) db.orders found) in
      (
        record r {
          status = awaiting_stock;
          version = r.version + 1;
          updated_at = h.timestamptz h.now;
        },
        ground (arith, row_at-deliver rec db),
        refl,
      )

  deliver_all-awaiting :
      (records : List OutboxRecord) (db : OrderDb)
      → HasStatus id awaiting_stock db
      → HasStatus id awaiting_stock (deliver_all h records db)
  unfolding deliver_all
  deliver_all-awaiting [] db waits = waits
  deliver_all-awaiting (rec ∷ records) db waits =
      deliver_all-awaiting records (deliver h rec db) (deliver-awaiting rec db waits)

  deliver_all-announced :
      (records : List OutboxRecord) (db : OrderDb) (own : OutboxRecord)
      → Announces id own
      → In own records
      → HasStatus id created db
      → HasStatus id awaiting_stock (deliver_all h records db)
  unfolding deliver_all
  deliver_all-announced [] db own a i new = absurd i
  deliver_all-announced (rec ∷ records) db own a (inl e) new =
      deliver_all-awaiting records (deliver h rec db) (deliver_own rec db (rw (← e) a) new)
  deliver_all-announced (rec ∷ records) db own a (inr i) new = elim (deliver-waits rec db new) [
    | inl still ↦ deliver_all-announced records (deliver h rec db) own a i still
    | inr waits ↦ deliver_all-awaiting records (deliver h rec db) waits
  ]

-- A whole batch announces every order whose event is pending: the message is in the topic, the keys
-- are kept, and the order, if it was CREATED, awaits stock.
pub process_batch_announces :
    (t : Tick) (db : OrderDb) (log : List Message) (x : OutboxRow)
    → IsClear t db
    → IsValid db
    → In x db.outbox
    → x.status ≡ pending
    → x.event_type ≡ order_created
    → HasStatus x.aggregate_id created db
    → let (r, db', log') = process_batch t db log in
      IsValid db' × In (row_message x) log' × HasStatus x.aggregate_id awaiting_stock db'
unfolding record_of
process_batch_announces t db log x c v there waits topic new =
    let chosen = select (λ r. is_pending r && not (t.locked r)) db.outbox in
    let passes : (is_pending x && not (t.locked x)) ≡ true = ground (arith, c.calm.unlocked x) in
    let read : In x (order_by (λ (r : OutboxRow). r.created_at) chosen) =
      In-order_by (λ (r : OutboxRow). r.created_at) x chosen
        (In-select (λ r. is_pending r && not (t.locked r)) x db.outbox passes there) in
    let records = map record_of (order_by (λ (r : OutboxRow). r.created_at) chosen) in
    let recorded : In (record_of x) records = In-map record_of x _ read in
    rw (process_batch-IsClear t db log c) (
      deliver_all-IsValid t.host records db v,
      In-append_right (row_message x) log (map message_of records)
          (In-map message_of (record_of x) records recorded),
      deliver_all-announced t.host x.aggregate_id records db (record_of x) (topic, refl) recorded
          new,
    )

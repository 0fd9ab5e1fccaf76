-- ===== src/Saga/Trace.antt =====
-- The `order.created` events through the use case, the consumer and the outbox worker of
-- order-service: each names an order that there is, in the outbox and in the topic.
use mini_marketplace.Base.{
  ◌∙◌, refl, ℕ, zero, suc, String, ◌≡◌, refl, sym, inl, inr, List, [], ◌∷◌, ◌++◌, map, ok,
  Option-cases, Result-cases, Bool-cases, arith, text_eq, All, All-append, All-map, All-update,
  All-take, All-map_list, ◌&&◌, ◌+◌, take,
}
use mathlib.Core.Path.{subst}
use mini_marketplace.Base.Kafka.{Message}
use mini_marketplace.Orders.Domain.{
  OrderStatus, created, awaiting_stock, confirmed, cancelled, status_eq,
}
use mini_marketplace.Orders.Events.{order_created}
use mini_marketplace.Orders.Store.{OrderDb, Host}
use mini_marketplace.Orders.Repository.Atomic.{moved, update_status_with_event_atomic}
use mini_marketplace.Orders.Usecase.{prepare, update_loop, update_order_status}
use mini_marketplace.Orders.Usecase.Attempt.{prepare-ok}
use mini_marketplace.Orders.Consumer.{
  acknowledge, handle_reserved, handle_failed, stock_reserved_event, stock_failed_event,
}
use mini_marketplace.Orders.Worker.{
  OutboxRecord, Tick, process_batch, fetch_pending, record_of, message_of, mark_sent,
  transition_to_awaiting_stock,
}
use mini_marketplace.Orders.Worker.Batch.{deliver, deliver_all, process_batch_lem}
use mini_marketplace.Orders.Worker.Sent.{
  row_message, marked, outbox-deliver, fetch_pending-rows, All-pending_rows,
}
use mini_marketplace.Orders.Repository.Valid.{IsValid}
use mini_marketplace.Orders.Worker.Announce.{deliver-IsValid}
use mini_marketplace.Saga.Orders.{acknowledge-tables}
use mini_marketplace.Saga.Known.{
  IsOfOrder, AreOfOrders, IsTraced, IsTraced-refl, Keeps, IsOfOrder-kept, update-Keeps,
}
use mini_marketplace.Saga.Written.{build_status_event-type, moved-IsTraced}

update_loop-IsTraced :
    (hosts : ℕ → Host) (left n : ℕ) (id : String) (s : OrderStatus) (reason : String) (db : OrderDb)
    → AreOfOrders db
    → IsValid db
    → IsTraced db (update_loop hosts (λ n d. d) left n id s reason db).1
unfolding update_loop
update_loop-IsTraced hosts zero n id s reason db stored valid = IsTraced-refl db stored valid
update_loop-IsTraced hosts (suc left) n id s reason db stored valid =
    let again = update_loop hosts (λ n d. d) (suc left) n id s reason db in
    elim (Result-cases (prepare (hosts n) id s reason db)) [
      | inr (x, failed) ↦
          let out : again.1 ≡ db = ground arith in
          subst (IsTraced db) (sym out) (IsTraced-refl db stored valid)
      | inl ((o, event_type, payload), ready) ↦
          let p = prepare-ok (hosts n) id s reason db ready in
          elim (update_status_with_event_atomic (hosts n) o event_type payload db).0 [
            | inl failed ↦
                let out : again.1 ≡ db = ground arith in
                subst (IsTraced db) (sym out) (IsTraced-refl db stored valid)
            | inr (inl (_, stale)) ↦
                let rest = update_loop hosts (λ n d. d) left (suc n) id s reason db in
                let out : again.1 ≡ rest.1 = ground arith in
                subst (IsTraced db) (sym out)
                  (update_loop-IsTraced hosts left (suc n) id s reason db stored valid)
            | inr (inr (hit, done)) ↦
                let out : again.1 ≡ moved (hosts n) o event_type payload db = ground arith in
                subst (IsTraced db) (sym out) (
                  moved-IsTraced (hosts n) o event_type payload db
                    (build_status_event-type o s reason p.event) stored valid)
          ]
    ]

acknowledged-IsTraced :
    (hosts : ℕ → Host) (id : String) (s : OrderStatus) (reason : String) (db : OrderDb)
    → AreOfOrders db
    → IsValid db
    → IsTraced db (acknowledge (update_order_status hosts (λ n d. d) id s reason db)).1
unfolding update_order_status
acknowledged-IsTraced hosts id s reason db stored valid =
    subst (IsTraced db)
      (sym (acknowledge-tables (update_order_status hosts (λ n d. d) id s reason db)))
      (update_loop-IsTraced hosts 3 0 id s reason db stored valid)

pub handle_reserved-IsTraced :
    (hosts : ℕ → ℕ → Host) (n : ℕ) (m : Message) (db : OrderDb)
    → AreOfOrders db
    → IsValid db
    → IsTraced db (handle_reserved hosts (λ n k d. d) n m db).1
unfolding handle_reserved
handle_reserved-IsTraced hosts n m db stored valid =
    let out = handle_reserved hosts (λ n k d. d) n m db in
    elim (Option-cases (stock_reserved_event m.value)) [
      | inl garbled ↦
          let same : out.1 ≡ db = ground arith in
          subst (IsTraced db) (sym same) (IsTraced-refl db stored valid)
      | inr (id, read) ↦
          let acked = acknowledge (update_order_status (hosts n) (λ k d. d) id confirmed "" db) in
          let same : out.1 ≡ acked.1 = ground arith in
          subst (IsTraced db) (sym same)
            (acknowledged-IsTraced (hosts n) id confirmed "" db stored valid)
    ]

pub handle_failed-IsTraced :
    (hosts : ℕ → ℕ → Host) (n : ℕ) (m : Message) (db : OrderDb)
    → AreOfOrders db
    → IsValid db
    → IsTraced db (handle_failed hosts (λ n k d. d) n m db).1
unfolding handle_failed
handle_failed-IsTraced hosts n m db stored valid =
    let out = handle_failed hosts (λ n k d. d) n m db in
    elim (Option-cases (stock_failed_event m.value)) [
      | inl garbled ↦
          let same : out.1 ≡ db = ground arith in
          subst (IsTraced db) (sym same) (IsTraced-refl db stored valid)
      | inr (event, read) ↦
          let acked =
            acknowledge
              (update_order_status (hosts n) (λ k d. d) event.order_id cancelled event.reason db) in
          let same : out.1 ≡ acked.1 = ground arith in
          subst (IsTraced db) (sym same)
            (acknowledged-IsTraced (hosts n) event.order_id cancelled event.reason db stored valid)
    ]

-- A delivery may move an order, and loses none.
deliver-Keeps : (h : Host) (rec : OutboxRecord) (db : OrderDb) → Keeps db (deliver h rec db)
unfolding deliver mark_sent transition_to_awaiting_stock
deliver-Keeps h rec db =
    let waits =
      update-Keeps (λ r. text_eq r.id rec.aggregate_id && status_eq r.status created)
        (λ r. record r {
          status = awaiting_stock;
          version = r.version + 1;
          updated_at = h.timestamptz h.now;
        }) in
    elim (Bool-cases (text_eq rec.event_type order_created)) [
      | inl e ↦ waits db (deliver h rec db) (λ r. refl) (rw e refl) (rw e refl)
      | inr e ↦ rw e (λ id known. (known, λ k. refl))
    ]

deliver-IsTraced :
    (h : Host) (rec : OutboxRecord) (db : OrderDb)
    → AreOfOrders db
    → IsValid db
    → IsTraced db (deliver h rec db)
unfolding record_of
deliver-IsTraced h rec db stored valid =
    let db' = deliver h rec db in
    let keeps = deliver-Keeps h rec db in
    (
      rw (outbox-deliver h rec db) (
          All-update (λ r. IsOfOrder db' (row_message r)) (λ r. text_eq r.id rec.id) (marked h)
            db.outbox (λ r p. p)
            (All-map db.outbox (λ r p. IsOfOrder-kept db db' (row_message r) keeps p) stored)),
      deliver-IsValid h rec db valid,
      keeps,
    )

IsTraced-trans : (db db' db'' : OrderDb) → Keeps db db' → IsTraced db' db'' → IsTraced db db''
IsTraced-trans db db' db'' keeps (stored, valid, keeps') = (
  stored,
  valid,
  λ id known.
      let (known', same) = keeps id known in
      let (known'', same') = keeps' id known' in (known'', λ k. same' k ∙ same k),
)

deliver_all-IsTraced :
    (h : Host) (records : List OutboxRecord) (db : OrderDb)
    → AreOfOrders db
    → IsValid db
    → IsTraced db (deliver_all h records db)
unfolding deliver_all
deliver_all-IsTraced h [] db stored valid = IsTraced-refl db stored valid
deliver_all-IsTraced h (rec ∷ records) db stored valid =
    let db' = deliver h rec db in
    let (stored', valid', keeps) = deliver-IsTraced h rec db stored valid in
    IsTraced-trans db db' (deliver_all h records db') keeps
      (deliver_all-IsTraced h records db' stored' valid')

-- The messages of fetched records name orders that there are.
fetched-IsOfOrder :
    (t : Tick) (db : OrderDb) {records : List OutboxRecord}
    → AreOfOrders db
    → fetch_pending t db ≡ ok records
    → All (λ c. IsOfOrder db (message_of c)) records
fetched-IsOfOrder t db stored fetched = rw (fetch_pending-rows t db fetched) (
    All-map_list (λ c. IsOfOrder db (message_of c)) record_of _
      (All-pending_rows (λ r. IsOfOrder db (row_message r)) t db stored))

-- A batch of the worker: what it stores and what it publishes names orders that there are.
pub process_batch-IsTraced :
    (t : Tick) (db : OrderDb) (log : List Message)
    → AreOfOrders db
    → IsValid db
    → All (IsOfOrder db) log
    → let (r, db', log') = process_batch t db log in IsTraced db db' × All (IsOfOrder db') log'
process_batch-IsTraced t db log stored valid logged = elim (process_batch_lem t db log) [
  | inl (records, fetched, done) ↦
      let db' = deliver_all t.host records db in
      let traced = deliver_all-IsTraced t.host records db stored valid in
      let messages =
        All-map_list (IsOfOrder db) message_of records
          (fetched-IsOfOrder t db {records = records} stored fetched) in
      rw done (
        traced,
        All-map (log ++ map message_of records) (λ m p. IsOfOrder-kept db db' m traced.2 p)
            (All-append (IsOfOrder db) log (map message_of records) logged messages),
      )
  | inr (inl failed) ↦ rw failed (IsTraced-refl db stored valid, logged)
  | inr (inr (records, k, fetched, small, part)) ↦
      let messages =
        All-map_list (IsOfOrder db) message_of (take k records)
          (All-take _ k records (fetched-IsOfOrder t db {records = records} stored fetched)) in
      rw part (
        IsTraced-refl db stored valid,
        All-append (IsOfOrder db) log (map message_of (take k records)) logged messages,
      )
]

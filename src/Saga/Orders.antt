-- ===== src/Saga/Orders.antt =====
-- What the operations of order-service do to the status of orders.
use mini_marketplace.Base.{
  ℕ, zero, suc, ◌+◌, ◌&&◌, some, String, ◌≡◌, inl, inr, List, [], ◌∷◌, ok, err, Option-cases,
  Result-cases, Bool-cases, arith, text_eq, text_eq→eq, All-append, All-update, All-update_if, sym,
  Result,
}
use mathlib.Core.Path.{subst}
use mini_marketplace.Base.Json.{Bytes}
use mini_marketplace.Base.Kafka.{Message}
use mini_marketplace.Orders.Domain.{
  OrderItem, Order, OrderStatus, OrderError, created, awaiting_stock, confirmed, cancelled,
  status_eq, driver,
}
use mini_marketplace.Orders.Events.{order_created}
use mini_marketplace.Orders.Store.{OrderDb, Host}
use mini_marketplace.Orders.Repository.{row_of}
use mini_marketplace.Orders.Repository.Atomic.{
  saved, moved, stands, update_status_with_event_atomic,
}
use mini_marketplace.Orders.Usecase.{create_order, prepare, update_loop, update_order_status}
use mini_marketplace.Orders.Usecase.Create.{create_order_atomic}
use mini_marketplace.Orders.Usecase.Attempt.{prepare-ok}
use mini_marketplace.Orders.Server.Replies.{new_order-fields}
use mini_marketplace.Orders.Worker.{
  OutboxRecord, Tick, process_batch, mark_sent, transition_to_awaiting_stock,
}
use mini_marketplace.Orders.Worker.Batch.{deliver, deliver_all, process_batch_lem}
use mini_marketplace.Orders.Consumer.{
  acknowledge, handle_reserved, handle_failed, stock_reserved_event, stock_failed_event,
  StockFailedEvent,
}
use mini_marketplace.Saga.{AllOrders}

pub acknowledge-tables :
    (out : Result OrderError (Unit {0}) × OrderDb) → (acknowledge out).1 ≡ out.1
unfolding acknowledge
acknowledge-tables out = ground arith

module _ (Q : OrderStatus → String → Type 0) (starts : (id : String) → Q created id)
    (waits : (id : String) → Q awaiting_stock id) where
  pub create_order-AllOrders :
      (h : Host) (customer_id : String) (items : List OrderItem) (db : OrderDb)
      → AllOrders Q db.orders
      → AllOrders Q (create_order h customer_id items db).1.orders
  unfolding saved row_of
  create_order-AllOrders h customer_id items db b =
      elim (create_order_atomic h customer_id items db).0 [
        | inl (e, failed, _) ↦ rw failed b
        | inr (o, new, free, done) ↦
            let (_, _, _, fresh, _) = new_order-fields h.now h.new_id customer_id items new in
            rw done (
              All-append _ db.orders (row_of h o ∷ []) b
                (subst (λ (s : OrderStatus). Q s o.id) (sym fresh) (starts o.id), tt))
      ]

  deliver-AllOrders :
      (h : Host) (rec : OutboxRecord) (db : OrderDb)
      → AllOrders Q db.orders
      → AllOrders Q (deliver h rec db).orders
  unfolding deliver mark_sent transition_to_awaiting_stock
  deliver-AllOrders h rec db b =
      let awaiting =
        All-update _ (λ r. text_eq r.id rec.aggregate_id && status_eq r.status created)
          (λ r. record r {
            status = awaiting_stock;
            version = r.version + 1;
            updated_at = h.timestamptz h.now;
          })
          db.orders (λ r p. waits r.id) b in
      elim (Bool-cases (text_eq rec.event_type order_created)) [
        | inl e ↦ rw e awaiting
        | inr e ↦ rw e b
      ]

  deliver_all-AllOrders :
      (h : Host) (records : List OutboxRecord) (db : OrderDb)
      → AllOrders Q db.orders
      → AllOrders Q (deliver_all h records db).orders
  unfolding deliver_all
  deliver_all-AllOrders h [] db b = b
  deliver_all-AllOrders h (rec ∷ records) db b =
      deliver_all-AllOrders h records (deliver h rec db) (deliver-AllOrders h rec db b)

  pub process_batch-AllOrders :
      (t : Tick) (db : OrderDb) (log : List Message)
      → AllOrders Q db.orders
      → AllOrders Q (process_batch t db log).1.orders
  process_batch-AllOrders t db log b = elim (process_batch_lem t db log) [
    | inl (records, fetched, done) ↦ rw done (deliver_all-AllOrders t.host records db b)
    | inr (inl failed) ↦ rw failed b
    | inr (inr (records, k, fetched, small, part)) ↦ rw part b
  ]

  result-AllOrders :
      {out out' : Result OrderError (Unit {0}) × OrderDb}
      → out ≡ out'
      → AllOrders Q out'.1.orders
      → AllOrders Q out.1.orders
  result-AllOrders e b =
      subst (λ (x : Result OrderError (Unit {0}) × OrderDb). AllOrders Q x.1.orders) (sym e) b

  moved-AllOrders :
      (h : Host) (o : Order) (event_type : String) (payload : Bytes) (db : OrderDb)
      → Q o.status o.id
      → AllOrders Q db.orders
      → AllOrders Q (moved h o event_type payload db).orders
  unfolding moved stands
  moved-AllOrders h o event_type payload db allowed b =
      All-update_if _ _ (stands o) _ db.orders
        (λ r p hit. let same : r.id ≡ o.id = text_eq→eq r.id o.id (ground arith) in rw same allowed)
        (λ r p miss. p) b

  update_loop-AllOrders :
      (hosts : ℕ → Host) (left n : ℕ) (id : String) (s : OrderStatus) (reason : String)
      (db : OrderDb)
      → Q s id
      → AllOrders Q db.orders
      → AllOrders Q (update_loop hosts (λ n d. d) left n id s reason db).1.orders
  unfolding update_loop
  update_loop-AllOrders hosts zero n id s reason db allowed b = b
  update_loop-AllOrders hosts (suc left) n id s reason db allowed b =
      let again = update_loop hosts (λ n d. d) (suc left) n id s reason db in
      elim (Result-cases (prepare (hosts n) id s reason db)) [
        | inr (x, failed) ↦ let out : again ≡ (err x, db) = ground arith in result-AllOrders out b
        | inl ((o, event_type, payload), ready) ↦
            let p = prepare-ok (hosts n) id s reason db ready in
            elim (update_status_with_event_atomic (hosts n) o event_type payload db).0 [
              | inl failed ↦
                  let out : again ≡ (err driver, db) = ground arith in result-AllOrders out b
              | inr (inl (_, stale)) ↦
                  let rest = update_loop hosts (λ n d. d) left (suc n) id s reason db in
                  let out : again ≡ rest = ground arith in
                  result-AllOrders out
                    (update_loop-AllOrders hosts left (suc n) id s reason db allowed b)
              | inr (inr (hit, done)) ↦
                  let out : again ≡ (ok tt, moved (hosts n) o event_type payload db) =
                    ground arith in
                  let founded : Q o.status o.id = rw (p.new_status_set, p.same_id) allowed in
                  result-AllOrders out (moved-AllOrders (hosts n) o event_type payload db founded b)
            ]
      ]

  acknowledged-AllOrders :
      (hosts : ℕ → Host) (id : String) (s : OrderStatus) (reason : String) (db : OrderDb)
      → Q s id
      → AllOrders Q db.orders
      → AllOrders Q (acknowledge (update_order_status hosts (λ n d. d) id s reason db)).1.orders
  unfolding update_order_status
  acknowledged-AllOrders hosts id s reason db allowed b =
      subst (λ (d : OrderDb). AllOrders Q d.orders)
        (sym (acknowledge-tables (update_order_status hosts (λ n d. d) id s reason db)))
        (update_loop-AllOrders hosts 3 0 id s reason db allowed b)

  -- The message must give reason for the status that it sets.
  pub handle_reserved-AllOrders :
      (hosts : ℕ → ℕ → Host) (n : ℕ) (m : Message) (db : OrderDb)
      → ((id : String) → stock_reserved_event m.value ≡ some id → Q confirmed id)
      → AllOrders Q db.orders
      → AllOrders Q (handle_reserved hosts (λ n k d. d) n m db).1.orders
  unfolding handle_reserved
  handle_reserved-AllOrders hosts n m db founded b =
      elim (Option-cases (stock_reserved_event m.value)) [
        | inl garbled ↦
            let out : handle_reserved hosts (λ n k d. d) n m db ≡ (ok tt, db) = ground arith in
            result-AllOrders out b
        | inr (id, read) ↦
            let acked = acknowledge (update_order_status (hosts n) (λ k d. d) id confirmed "" db) in
            let out : handle_reserved hosts (λ n k d. d) n m db ≡ acked = ground arith in
            result-AllOrders out
              (acknowledged-AllOrders (hosts n) id confirmed "" db (founded id read) b)
      ]

  pub handle_failed-AllOrders :
      (hosts : ℕ → ℕ → Host) (n : ℕ) (m : Message) (db : OrderDb)
      → ((event : StockFailedEvent)
          → stock_failed_event m.value ≡ some event
          → Q cancelled event.order_id)
      → AllOrders Q db.orders
      → AllOrders Q (handle_failed hosts (λ n k d. d) n m db).1.orders
  unfolding handle_failed
  handle_failed-AllOrders hosts n m db founded b =
      elim (Option-cases (stock_failed_event m.value)) [
        | inl garbled ↦
            let out : handle_failed hosts (λ n k d. d) n m db ≡ (ok tt, db) = ground arith in
            result-AllOrders out b
        | inr (event, read) ↦
            let acked =
              acknowledge (
                update_order_status (hosts n) (λ k d. d) event.order_id cancelled event.reason
                  db) in
            let out : handle_failed hosts (λ n k d. d) n m db ≡ acked = ground arith in
            result-AllOrders out (
              acknowledged-AllOrders (hosts n) event.order_id cancelled event.reason db
                (founded event read) b)
      ]

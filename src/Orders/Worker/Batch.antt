-- ===== src/Orders/Worker/Batch.antt =====
-- What one batch of order-service/internal/outbox/worker.go does, whichever calls fail.
use mini_marketplace.Base.{
  ℕ, suc, ◌≤◌, ◌≡◌, ◌⊎◌, inl, inr, List, [], ◌∷◌, ◌++◌, map, ok, err, Result-cases, Bool-cases,
  arith, text_eq, if◌then◌else◌, take, take_all, length,
}
use mathlib.Core.List.{append-nil, append_assoc}
use mini_marketplace.Base.Kafka.{Message}
use mini_marketplace.Orders.Domain.{driver}
use mini_marketplace.Orders.Events.{order_created}
use mini_marketplace.Orders.Store.{OrderDb, Host, begin, commit}
use mini_marketplace.Orders.Worker.{
  OutboxRecord, Tick, fetch_pending, message_of, mark_sent, transition_to_awaiting_stock,
  after_publish, process_records, process_batch,
}

-- The effect of one record: its row is SENT, and a new order awaits stock.
unfoldable pub deliver : Host → OutboxRecord → OrderDb → OrderDb
deliver h rec db =
    let marked : OrderDb = mark_sent h rec.id db in
    if text_eq rec.event_type order_created
    then transition_to_awaiting_stock h rec.aggregate_id marked
    else marked

unfoldable pub deliver_all : Host → List OutboxRecord → OrderDb → OrderDb
deliver_all h [] db = db
deliver_all h (rec ∷ records) db = deliver_all h records (deliver h rec db)

after_publish_lem :
    (t : Tick) (rec : OutboxRecord) (db : OrderDb)
    → (after_publish t rec db ≡ err driver) ⊎ (after_publish t rec db ≡ ok (deliver t.host rec db))
unfolding after_publish deliver
after_publish_lem t rec db = ground arith

-- The loop over the records ends with all of them delivered and published, or with an error after
-- some of them were published, in their order.
process_records_lem :
    (t : Tick) (records : List OutboxRecord) (db : OrderDb) (log : List Message)
    → (process_records t records db log
        ≡ (ok (deliver_all t.host records db), log ++ map message_of records))
      ⊎ ((k : ℕ) × (k ≤ length records)
          × (process_records t records db log
              ≡ (err driver, log ++ map message_of (take k records))))
unfolding process_records deliver_all
process_records_lem t [] db log = inl (rw append-nil)
process_records_lem t (rec ∷ records) db log = elim (Bool-cases (t.publish_fails rec)) [
  | inl e ↦ elim (Bool-cases (t.stored rec)) [
    | inl kept ↦ inr (1, omega arith, rw (e, process_records) (rw kept))
    | inr lost ↦ inr (0, omega arith, rw (e, process_records) (rw lost (rw append-nil)))
  ]
  | inr e ↦ elim (after_publish_lem t rec db) [
    | inl failed ↦ inr (1, omega arith, rw (e, process_records) (rw (failed, process_records)))
    | inr done ↦
        let log' : List Message = log ++ message_of rec ∷ [] in
        let regroup = λ (l : List Message). append_assoc log (message_of rec ∷ []) l in
        elim (process_records_lem t records (deliver t.host rec db) log') [
          | inl all' ↦ inl (
              rw (e, process_records)
                (rw (done, process_records) (rw all' (rw (regroup (map message_of records))))))
          | inr (k, small, part) ↦ inr (
            suc k,
            omega arith,
            rw (e, process_records)
                (rw (done, process_records)
                  (rw part (rw (regroup (map message_of (take k records)))))),
          )
        ]
  ]
]

pub fetch_pending_lem :
    (t : Tick) (db : OrderDb)
    → (fetch_pending t db ≡ err driver)
      ⊎ ((records : List OutboxRecord) × (fetch_pending t db ≡ ok records))
unfolding fetch_pending
fetch_pending_lem t db = elim (Result-cases (fetch_pending t db)) [
  | inl (records, e) ↦ inr (records, e)
  | inr (x, e) ↦ inl (ground arith)
]

-- A batch returns nil with the fetched records delivered and published, or an error with the tables
-- as they were and a first part of the records published.
pub process_batch_lem :
    (t : Tick) (db : OrderDb) (log : List Message)
    → let out = process_batch t db log in
      ((records : List OutboxRecord) × (fetch_pending t db ≡ ok records)
        × (out ≡ (ok tt, deliver_all t.host records db, log ++ map message_of records)))
      ⊎ ((out ≡ (err driver, db, log))
          ⊎ ((records : List OutboxRecord) × (k : ℕ) × (fetch_pending t db ≡ ok records)
              × (k ≤ length records)
              × (out ≡ (err driver, db, log ++ map message_of (take k records)))))
unfolding process_batch
process_batch_lem t db log = elim (Bool-cases (t.host.fails begin)) [
  | inl e ↦ inr (inl (ground arith))
  | inr begun ↦ elim (fetch_pending_lem t db) [
    | inl failed ↦ inr (inl (ground arith))
    | inr (records, fetched) ↦ elim (process_records_lem t records db log) [
      | inr (k, small, part) ↦ inr (inr (records, k, fetched, small, ground arith))
      | inl all' ↦ elim (Bool-cases (t.host.fails commit)) [
        | inl refused ↦
            inr (
              inr (records, length records, fetched, omega arith, ground (arith, take_all records)))
        | inr committed ↦ inl (records, fetched, ground arith)
      ]
    ]
  ]
]

-- ===== src/Orders/Worker.antt =====
-- order-service/internal/outbox/worker.go and publisher.go. A batch takes a host, the rows that
-- another worker holds locked, the records whose `WriteMessages` fails, and those of them that the
-- broker has stored all the same. What is published is appended to a log, which no rollback takes
-- back. The metric of the backlog is left out.
pub mod Batch
pub mod Sent
pub mod Drain
pub mod Announce
pub mod Rounds
pub mod Tables
pub mod Atomic
use mini_marketplace.Base.{
  ℕ, ◌+◌, String, Bool, true, false, not, ◌&&◌, some, List, [], ◌∷◌, ◌++◌, map, ok, err, Result,
  ◌>>=◌, attempt, if◌then◌else◌, order_by, text_eq, select, update, take, cut_at,
}
use mini_marketplace.Base.Json.{Bytes}
use mini_marketplace.Base.Kafka.{Message}
use mini_marketplace.Orders.Domain.{
  OrderStatus, created, awaiting_stock, OrderError, driver, status_eq,
}
use mini_marketplace.Orders.Events.{order_created}
use mini_marketplace.Orders.Store.{
  OrderRow, OutboxRow, Delivery, pending, sent, OrderDb, Call, begin, commit, select_pending,
  scan_row, update_sent, update_awaiting, Host,
}

pub record OutboxRecord : Type 0 where
  pub id : String
  pub aggregate_id : String
  pub event_type : String
  pub payload : Bytes

pub record Tick : Type 0 where
  pub host : Host
  pub batch_size : ℕ
  pub locked : OutboxRow → Bool
  pub publish_fails : OutboxRecord → Bool
  pub stored : OutboxRecord → Bool

abbrev pub is_pending : OutboxRow → Bool
is_pending r = elim r.status [ pending ↦ true | sent ↦ false ]

unfoldable pub record_of : OutboxRow → OutboxRecord
record_of r = record {
  id = r.id;
  aggregate_id = r.aggregate_id;
  event_type = r.event_type;
  payload = r.payload;
}

-- the rows that the query returns, by `ORDER BY created_at ASC`
unfoldable pub pending_rows : Tick → OrderDb → List OutboxRow
pending_rows t db = take t.batch_size (
    order_by (λ (r : OutboxRow). r.created_at)
      (select (λ r. is_pending r && not (t.locked r)) db.outbox))

-- `fetchPendingTx`; the loop over the rows does not look at `rows.Err()`
unfoldable pub fetch_pending : Tick → OrderDb → Result OrderError (List OutboxRecord)
unfolding record_of
fetch_pending t db = elim (t.host.fails select_pending) [
  | true ↦ err driver
  | false ↦ elim (cut_at t.host.cut (pending_rows t db)) [
    | [] ↦ ok []
    | r ∷ rows ↦ attempt (t.host.fails scan_row) driver (map record_of (r ∷ rows))
  ]
]

-- `Publisher.Publish` of a record: the aggregate's id is the key, the event type is the topic
unfoldable pub message_of : OutboxRecord → Message
message_of r = record { topic = r.event_type; key = r.aggregate_id; value = r.payload }

-- the update of `markSentTx`
unfoldable pub mark_sent : Host → String → OrderDb → OrderDb
mark_sent h id db = record db {
  outbox =
      update (λ r. text_eq r.id id)
        (λ r. record r { status = sent; sent_at = some (h.timestamptz h.now) }) db.outbox;
}

-- the update of `transitionToAwaitingStockTx`
unfoldable pub transition_to_awaiting_stock : Host → String → OrderDb → OrderDb
transition_to_awaiting_stock h order_id db = record db {
  orders =
      update (λ r. text_eq r.id order_id && status_eq r.status created)
        (λ r. record r {
          status = awaiting_stock;
          version = r.version + 1;
          updated_at = h.timestamptz h.now;
        })
        db.orders;
}

-- what follows the publication of a record
unfoldable pub after_publish : Tick → OutboxRecord → OrderDb → Result OrderError OrderDb
after_publish t rec db = do
  marked ← attempt (t.host.fails update_sent) driver (mark_sent t.host rec.id db)
  if text_eq rec.event_type order_created
      then attempt (t.host.fails update_awaiting) driver
          (transition_to_awaiting_stock t.host rec.aggregate_id marked)
      else ok marked

-- the loop over the records, on the tables of the transaction
unfoldable pub process_records :
    Tick → List OutboxRecord → OrderDb → List Message → Result OrderError OrderDb × List Message
process_records t [] db log = (ok db, log)
process_records t (rec ∷ records) db log = elim (t.publish_fails rec) [
  | true ↦ (err driver, if t.stored rec then log ++ message_of rec ∷ [] else log)
  | false ↦
      let log' : List Message = log ++ message_of rec ∷ [] in
      elim (after_publish t rec db) [
        | err e ↦ (err e, log')
        | ok db' ↦ process_records t records db' log'
      ]
]

-- the end of the transaction: what it wrote counts if no call and not the commit has failed
unfoldable pub finish_batch :
    Bool
    → OrderDb
    → Result OrderError OrderDb × List Message
    → Result OrderError (Unit {0}) × OrderDb × List Message
finish_batch commit_fails db (err e, log) = (err e, db, log)
finish_batch true db (ok db', log) = (err driver, db, log)
finish_batch false db (ok db', log) = (ok tt, db', log)

unfoldable pub process_batch :
    Tick → OrderDb → List Message → Result OrderError (Unit {0}) × OrderDb × List Message
unfolding finish_batch
process_batch t db log = elim (t.host.fails begin) [
  | true ↦ (err driver, db, log)
  | false ↦ elim (fetch_pending t db) [
    | err e ↦ (err e, db, log)
    | ok records ↦ finish_batch (t.host.fails commit) db (process_records t records db log)
  ]
]

-- `Run`: a batch at every tick, whatever the batch before has returned
unfoldable pub run_worker : List Tick → OrderDb → List Message → OrderDb × List Message
run_worker [] db log = (db, log)
run_worker (t ∷ ticks) db log =
    let (r, db', log') = process_batch t db log in run_worker ticks db' log'

-- ===== src/Inventory/Worker.antt =====
-- inventory-service/internal/outbox/worker.go and publisher.go. A batch takes a host, the rows that
-- another worker holds locked, the records whose `WriteMessages` fails, and those of them that the
-- broker has stored all the same. What is published is appended to a log, which no rollback takes
-- back.
pub mod Batch
pub mod Drain
pub mod Sent
use mini_marketplace.Base.{
  ℕ, String, Bool, true, false, not, ◌&&◌, some, List, [], ◌∷◌, ◌++◌, map, ok, err, Result, attempt,
  if◌then◌else◌, order_by, text_eq, select, update, take, cut_at,
}
use mini_marketplace.Base.Json.{Bytes}
use mini_marketplace.Base.Kafka.{Message}
use mini_marketplace.Inventory.Stock.{InventoryError, driver}
use mini_marketplace.Inventory.Store.{
  InventoryDb, OutboxRow, pending, sent, Host, begin, commit, select_pending, scan_row, update_sent,
}

pub record OutboxRecord : Type 0 where
  pub id : String
  pub aggregate_id : String
  pub event_type : String
  pub payload : Bytes

pub record Tick : Type 0 where
  pub host : Host
  pub batch_size : ℕ
  pub locked : OutboxRow → Bool
  pub publish_fails : OutboxRecord → Bool
  pub stored : OutboxRecord → Bool

abbrev pub is_pending : OutboxRow → Bool
is_pending r = elim r.status [ pending ↦ true | sent ↦ false ]

unfoldable pub record_of : OutboxRow → OutboxRecord
record_of r = record {
  id = r.id;
  aggregate_id = r.aggregate_id;
  event_type = r.event_type;
  payload = r.payload;
}

-- the rows that the query returns, by `ORDER BY created_at ASC`
unfoldable pub pending_rows : Tick → InventoryDb → List OutboxRow
pending_rows t db = take t.batch_size (
    order_by (λ (r : OutboxRow). r.created_at)
      (select (λ r. is_pending r && not (t.locked r)) db.outbox))

-- `fetchPendingTx`; the loop over the rows does not look at `rows.Err()`
unfoldable pub fetch_pending : Tick → InventoryDb → Result InventoryError (List OutboxRecord)
unfolding record_of
fetch_pending t db = elim (t.host.fails select_pending) [
  | true ↦ err driver
  | false ↦ elim (cut_at t.host.cut (pending_rows t db)) [
    | [] ↦ ok []
    | r ∷ rows ↦ attempt (t.host.fails scan_row) driver (map record_of (r ∷ rows))
  ]
]

-- `Publisher.Publish` of a record: the aggregate's id is the key, the event type is the topic
unfoldable pub message_of : OutboxRecord → Message
message_of r = record { topic = r.event_type; key = r.aggregate_id; value = r.payload }

-- the update of `markSentTx`
unfoldable pub mark_sent : Host → String → InventoryDb → InventoryDb
mark_sent h id db = record db {
  outbox =
      update (λ r. text_eq r.id id) (λ r. record r { status = sent; sent_at = some h.now })
        db.outbox;
}

-- the loop over the records, on the tables of the transaction
unfoldable pub process_records :
    Tick
    → List OutboxRecord
    → InventoryDb
    → List Message
    → Result InventoryError InventoryDb × List Message
process_records t [] db log = (ok db, log)
process_records t (rec ∷ records) db log = elim (t.publish_fails rec) [
  | true ↦ (err driver, if t.stored rec then log ++ message_of rec ∷ [] else log)
  | false ↦
      let log' : List Message = log ++ message_of rec ∷ [] in
      elim (t.host.fails update_sent) [
        | true ↦ (err driver, log')
        | false ↦ process_records t records (mark_sent t.host rec.id db) log'
      ]
]

-- the end of the transaction: what it wrote counts if no call and not the commit has failed
unfoldable pub finish_batch :
    Bool
    → InventoryDb
    → Result InventoryError InventoryDb × List Message
    → Result InventoryError (Unit {0}) × InventoryDb × List Message
finish_batch commit_fails db (err e, log) = (err e, db, log)
finish_batch true db (ok db', log) = (err driver, db, log)
finish_batch false db (ok db', log) = (ok tt, db', log)

unfoldable pub process_batch :
    Tick
    → InventoryDb
    → List Message
    → Result InventoryError (Unit {0}) × InventoryDb × List Message
unfolding finish_batch
process_batch t db log = elim (t.host.fails begin) [
  | true ↦ (err driver, db, log)
  | false ↦ elim (fetch_pending t db) [
    | err e ↦ (err e, db, log)
    | ok records ↦ finish_batch (t.host.fails commit) db (process_records t records db log)
  ]
]

-- `Run`: a batch at every tick, whatever the batch before has returned
unfoldable pub run_worker : List Tick → InventoryDb → List Message → InventoryDb × List Message
run_worker [] db log = (db, log)
run_worker (t ∷ ticks) db log =
    let (r, db', log') = process_batch t db log in run_worker ticks db' log'

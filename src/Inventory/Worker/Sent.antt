-- ===== src/Inventory/Worker/Sent.antt =====
-- The rows of inventory-service's outbox against the log of what was published
-- (inventory-service/internal/outbox/worker.go).
use mini_marketplace.Base.{◌≡◌, refl, inl, inr, List, [], ◌∷◌, ◌++◌, map, ok, All, ◌∙◌}
use mathlib.Core.List.{append-nil, append_assoc}
use mini_marketplace.Base.Kafka.{Message}
use mini_marketplace.Base.Outbox as Outbox
use mini_marketplace.Inventory.Store.{InventoryDb, OutboxRow, sent, Host}
use mini_marketplace.Inventory.Worker.{
  OutboxRecord, Tick, fetch_pending, record_of, message_of, process_batch, run_worker,
}
use mini_marketplace.Inventory.Worker.Batch.{
  row_message, marked, delivered, fetch_pending-All, process_batch_outcome,
}

-- What every batch keeps: the primary key of `outbox`, and the message of every row that is marked
-- SENT in the log.
pub record IsPublished (db : InventoryDb) (log : List Message) : Type 0 where
  pub keys : Outbox.HasOutboxKeys (λ (r : OutboxRow). r.id) db.outbox
  pub published :
      Outbox.SentPublished (λ (r : OutboxRow). r.status ≡ sent) row_message log db.outbox

-- a record stands for whatever row has its id
abbrev Covers : List OutboxRow → OutboxRecord → Type 0
Covers =
    Outbox.Covers (λ (r : OutboxRow). r.id) row_message (λ (rec : OutboxRecord). rec.id) message_of

fetched-Covers :
    (t : Tick) (db : InventoryDb) {records : List OutboxRecord}
    → Outbox.HasOutboxKeys (λ (r : OutboxRow). r.id) db.outbox
    → fetch_pending t db ≡ ok records
    → All (Covers db.outbox) records
unfolding record_of
fetched-Covers t db {records} keys fetched =
    fetch_pending-All (Covers db.outbox) t db
      (Outbox.All-Covers (λ (r : OutboxRow). r.id) row_message (λ (rec : OutboxRecord). rec.id)
        message_of record_of db.outbox (λ r. refl) (λ r. refl) keys)
      fetched

delivered-IsPublished :
    (h : Host) (records : List OutboxRecord) (db : InventoryDb) (log : List Message)
    → All (Covers db.outbox) records
    → IsPublished db log
    → IsPublished (delivered h records db) (log ++ map message_of records)
unfolding record_of delivered
delivered-IsPublished h records db log covered v = record {
  keys =
      Outbox.mark_all-HasOutboxKeys (λ (r : OutboxRow). r.id) (λ (r : OutboxRow). r.status ≡ sent)
        row_message (λ (rec : OutboxRecord). rec.id) message_of (marked h) (λ r. refl) (λ r. refl)
        records db.outbox v.keys;
  published =
      Outbox.mark_all-SentPublished (λ (r : OutboxRow). r.id) (λ (r : OutboxRow). r.status ≡ sent)
        row_message (λ (rec : OutboxRecord). rec.id) message_of (marked h) (λ r. refl) (λ r. refl)
        records db.outbox log covered v.published;
}

-- What a worker leaves alone, and the log that only grows.
pub record IsAfter (db : InventoryDb) (log : List Message) (db' : InventoryDb) (log' : List Message)
    : Type 0 where
  pub same_stock : db'.stock ≡ db.stock
  pub same_marks : db'.processed_events ≡ db.processed_events
  pub grown : (more : List Message) × (log' ≡ log ++ more)

process_batch-IsPublished :
    (t : Tick) (db : InventoryDb) (log : List Message)
    → IsPublished db log
    → let (r, db', log') = process_batch t db log in IsPublished db' log' × IsAfter db log db' log'
unfolding delivered
process_batch-IsPublished t db log v = elim (process_batch_outcome t db log) [
  | inl (records, fetched, _, done) ↦ rw done (
    delivered-IsPublished t.host records db log
        (fetched-Covers t db {records = records} v.keys fetched) v,
    record { same_stock = refl; same_marks = refl; grown = (map message_of records, refl) },
  )
  | inr (more, _, failed) ↦ rw failed (
    record {
      keys = v.keys;
      published =
          Outbox.SentPublished-log_grows (λ (r : OutboxRow). r.status ≡ sent) row_message log more
            db.outbox v.published;
    },
    record { same_stock = refl; same_marks = refl; grown = (more, refl) },
  )
]

-- At least once, for the answers of inventory-service: if the ids of its outbox are distinct and
-- every SENT row's message is in the log, then through any sequence of ticks, whichever calls fail
-- and whichever rows other workers hold locked, the ids stay distinct and a row is marked SENT only
-- when its message is in the log. Nothing is ever taken out of the log, and the worker changes
-- neither the stock nor the processed orders.
pub run_worker-IsPublished :
    (ticks : List Tick) (db : InventoryDb) (log : List Message)
    → IsPublished db log
    → let (db', log') = run_worker ticks db log in IsPublished db' log' × IsAfter db log db' log'
unfolding run_worker
run_worker-IsPublished [] db log v =
    (v, record { same_stock = refl; same_marks = refl; grown = ([], rw append-nil) })
run_worker-IsPublished (t ∷ ticks) db log v =
    let (r, db', log') = process_batch t db log in
    let (v', a) = process_batch-IsPublished t db log v in
    let (v'', b) = run_worker-IsPublished ticks db' log' v' in
    (
      v'',
      record {
        same_stock = b.same_stock ∙ a.same_stock;
        same_marks = b.same_marks ∙ a.same_marks;
        grown =
            let (more, first) = a.grown in
            let (rest, second) = b.grown in
            (more ++ rest, second ∙ rw first (append_assoc log more rest));
      },
    )

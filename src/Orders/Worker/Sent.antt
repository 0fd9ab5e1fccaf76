-- ===== src/Orders/Worker/Sent.antt =====
-- The rows of the outbox against the log of what was published
-- (order-service/internal/outbox/worker.go).
use mini_marketplace.Base.{
  ◌≡◌, refl, inl, inr, not, ◌&&◌, some, List, [], ◌∷◌, ◌++◌, map, ok, arith, text_eq, take, cut_at,
  update, All, All-select, All-take, All-cut_at, All-order_by, ◌∙◌, All-map_list, ap,
}
use mathlib.Core.List.{append-nil, append_assoc}
use mini_marketplace.Base.Kafka.{Message}
use mini_marketplace.Base.Outbox as Outbox
use mini_marketplace.Orders.Store.{OrderDb, OutboxRow, sent, Host}
use mini_marketplace.Orders.Worker.{
  OutboxRecord, Tick, is_pending, pending_rows, fetch_pending, record_of, message_of, mark_sent,
  process_batch, run_worker, transition_to_awaiting_stock,
}
use mini_marketplace.Orders.Worker.Batch.{deliver, deliver_all, process_batch_lem}

abbrev pub row_message : OutboxRow → Message
row_message r = message_of (record_of r)

-- Every row that is marked SENT has its message in the log.
abbrev pub SentPublished : List Message → List OutboxRow → Type 0
SentPublished = Outbox.SentPublished (λ (r : OutboxRow). r.status ≡ sent) row_message

-- The primary key of `outbox`.
abbrev pub HasOutboxKeys : List OutboxRow → Type 0
HasOutboxKeys = Outbox.HasOutboxKeys (λ (r : OutboxRow). r.id)

-- A row as `markSentTx` leaves it.
abbrev pub marked : Host → OutboxRow → OutboxRow
marked h r = record r { status = sent; sent_at = some (h.timestamptz h.now) }

-- the rows after the records are marked
abbrev mark_all : Host → List OutboxRecord → List OutboxRow → List OutboxRow
mark_all h =
    Outbox.mark_all (λ (r : OutboxRow). r.id) row_message (λ (rec : OutboxRecord). rec.id)
      message_of (marked h)

-- What holds of every row of the outbox holds of every row that a batch reads.
pub All-pending_rows :
    (P : OutboxRow → Type 0) (t : Tick) (db : OrderDb)
    → All P db.outbox
    → All P (cut_at t.host.cut (pending_rows t db))
unfolding pending_rows
All-pending_rows P t db h = All-cut_at P t.host.cut _ (
    All-take P t.batch_size _ (
      All-order_by (λ (r : OutboxRow). r.created_at) P _
        (All-select P (λ r. is_pending r && not (t.locked r)) db.outbox h)))

-- The fetched records are those of the rows read.
pub fetch_pending-rows :
    (t : Tick) (db : OrderDb) {records : List OutboxRecord}
    → fetch_pending t db ≡ ok records
    → records ≡ map record_of (cut_at t.host.cut (pending_rows t db))
unfolding fetch_pending
fetch_pending-rows t db e = ground arith

pub outbox-deliver :
    (h : Host) (rec : OutboxRecord) (db : OrderDb)
    → (deliver h rec db).outbox ≡ update (λ r. text_eq r.id rec.id) (marked h) db.outbox
unfolding deliver mark_sent transition_to_awaiting_stock
outbox-deliver h rec db = ground arith

outbox-deliver_all :
    (h : Host) (records : List OutboxRecord) (db : OrderDb)
    → (deliver_all h records db).outbox ≡ mark_all h records db.outbox
unfolding deliver_all
outbox-deliver_all h [] db = refl
outbox-deliver_all h (rec ∷ records) db =
    outbox-deliver_all h records (deliver h rec db)
    ∙ ap (mark_all h records) (outbox-deliver h rec db)

-- What every batch keeps, and the log that only grows.
pub record IsSound (db : OrderDb) (log : List Message) : Type 0 where
  pub keys : HasOutboxKeys db.outbox
  pub published : SentPublished log db.outbox

deliver_all-IsSound :
    (h : Host) (records : List OutboxRecord) (db : OrderDb) (log : List Message)
    → All
        (Outbox.Covers
          (λ (r : OutboxRow). r.id)
          row_message
          (λ (rec : OutboxRecord). rec.id)
          message_of
          db.outbox)
        records
    → IsSound db log
    → IsSound (deliver_all h records db) (log ++ map message_of records)
unfolding record_of
deliver_all-IsSound h records db log covered v = record {
  keys = rw (outbox-deliver_all h records db) (
      Outbox.mark_all-HasOutboxKeys (λ (r : OutboxRow). r.id) (λ (r : OutboxRow). r.status ≡ sent)
        row_message (λ (rec : OutboxRecord). rec.id) message_of (marked h) (λ r. refl) (λ r. refl)
        records db.outbox v.keys);
  published = rw (outbox-deliver_all h records db) (
      Outbox.mark_all-SentPublished (λ (r : OutboxRow). r.id) (λ (r : OutboxRow). r.status ≡ sent)
        row_message (λ (rec : OutboxRecord). rec.id) message_of (marked h) (λ r. refl) (λ r. refl)
        records db.outbox log covered v.published);
}

fetched-Covers :
    (t : Tick) (db : OrderDb) {records : List OutboxRecord}
    → HasOutboxKeys db.outbox
    → fetch_pending t db ≡ ok records
    → All
        (Outbox.Covers
          (λ (r : OutboxRow). r.id)
          row_message
          (λ (rec : OutboxRecord). rec.id)
          message_of
          db.outbox)
        records
unfolding record_of
fetched-Covers t db keys fetched = rw (fetch_pending-rows t db fetched) (
    All-map_list _ record_of _ (
      All-pending_rows _ t db (
        Outbox.All-Covers (λ (r : OutboxRow). r.id) row_message (λ (rec : OutboxRecord). rec.id)
          message_of record_of db.outbox (λ r. refl) (λ r. refl) keys)))

process_batch-IsSound :
    (t : Tick) (db : OrderDb) (log : List Message)
    → IsSound db log
    → let (r, db', log') = process_batch t db log in
      IsSound db' log' × ((more : List Message) × (log' ≡ log ++ more))
process_batch-IsSound t db log v = elim (process_batch_lem t db log) [
  | inl (records, fetched, done) ↦ rw done (
    deliver_all-IsSound t.host records db log
        (fetched-Covers t db {records = records} v.keys fetched) v,
    (map message_of records, refl),
  )
  | inr (inl failed) ↦ rw failed (v, ([], rw append-nil))
  | inr (inr (records, k, fetched, small, part)) ↦ rw part (
    record {
      keys = v.keys;
      published =
          Outbox.SentPublished-log_grows (λ (r : OutboxRow). r.status ≡ sent) row_message log
            (map message_of (take k records)) db.outbox v.published;
    },
    (map message_of (take k records), refl),
  )
]

-- At least once: if the ids of the outbox are distinct and every SENT row's message is in the log,
-- then through any sequence of ticks, whichever calls fail and whichever rows other
-- workers hold locked, the ids of the outbox stay distinct, a row is marked SENT only when its
-- message is in the log, and nothing is ever taken out of the log.
pub run_worker-IsSound :
    (ticks : List Tick) (db : OrderDb) (log : List Message)
    → IsSound db log
    → let (db', log') = run_worker ticks db log in
      IsSound db' log' × ((more : List Message) × (log' ≡ log ++ more))
unfolding run_worker
run_worker-IsSound [] db log v = (v, ([], rw append-nil))
run_worker-IsSound (t ∷ ticks) db log v =
    let (r, db', log') = process_batch t db log in
    let (v', (more, grown)) = process_batch-IsSound t db log v in
    let (v'', (rest, further)) = run_worker-IsSound ticks db' log' v' in
    (v'', (more ++ rest, further ∙ rw grown (append_assoc log more rest)))

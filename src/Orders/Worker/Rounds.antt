-- ===== src/Orders/Worker/Rounds.antt =====
-- When bounded batches, one after another, empty the outbox
-- (order-service/internal/outbox/worker.go).
use mini_marketplace.Base.{
  ℕ, zero, ok, ◌+◌, ◌-◌, ◌≤◌, ◌≡◌, refl, ◌∙◌, ap, ◌⊎◌, inl, inr, suc, Bool, true, false, not, ◌&&◌,
  List, [], ◌∷◌, map, arith, text_eq, text_eq_refl, length, take, select, update, order_by,
  affected, affected-split, affected-take-le, affected_all, affected-order_by, length-order_by, All,
  All-map, All-zip, In,
}
use mini_marketplace.Base.Kafka.{Message}
use mini_marketplace.Orders.Store.{OrderDb, OutboxRow, Delivery, pending, sent, Host}
use mini_marketplace.Orders.Worker.{
  OutboxRecord, Tick, is_pending, record_of, pending_rows, process_batch, run_worker,
}
use mini_marketplace.Orders.Worker.Batch.{deliver, deliver_all}
use mini_marketplace.Orders.Worker.Sent.{
  row_message, marked, outbox-deliver, IsSound, run_worker-IsSound,
}
use mini_marketplace.Orders.Worker.Drain.{names, length-chosen, IsCalm, process_batch-IsCalm}

-- A pending row that no record names.
abbrev left_by : List OutboxRecord → OutboxRow → Bool
left_by records r = is_pending r && not (names r.id records)

left_by-update :
    (h : Host) (rec : OutboxRecord) (records : List OutboxRecord) (rows : List OutboxRow)
    → affected (left_by records) (update (λ r. text_eq r.id rec.id) (marked h) rows)
      ≡ affected (left_by (rec ∷ records)) rows
unfolding names
left_by-update h rec records [] = refl
left_by-update h rec records (x ∷ rows) = ground (arith, left_by-update h rec records rows)

left_by_none : (rows : List OutboxRow) → affected is_pending rows ≡ affected (left_by []) rows
unfolding names
left_by_none [] = refl
left_by_none (x ∷ rows) = ground (arith, left_by_none rows)

-- What is pending after the records are delivered.
pending-deliver_all :
    (h : Host) (records : List OutboxRecord) (db : OrderDb)
    → affected is_pending (deliver_all h records db).outbox ≡ affected (left_by records) db.outbox
unfolding deliver_all
pending-deliver_all h [] db = left_by_none db.outbox
pending-deliver_all h (rec ∷ records) db =
    pending-deliver_all h records (deliver h rec db)
    ∙ ap (affected (left_by records)) (outbox-deliver h rec db)
    ∙ left_by-update h rec records db.outbox

-- Rows are named by their own records.
names-own : (rows : List OutboxRow) → All (λ r. names r.id (map record_of rows) ≡ true) rows
unfolding names record_of
names-own [] = tt
names-own (x ∷ rows) = (
  ground (arith, text_eq_refl x.id),
  All-map rows (λ r named. ground (arith, named)) (names-own rows),
)

affected-chosen :
    (t : Tick) (p : OutboxRow → Bool) (rows : List OutboxRow)
    → ((r : OutboxRow) → t.locked r ≡ false)
    → affected p (select (λ r. is_pending r && not (t.locked r)) rows)
      ≡ affected (λ r. is_pending r && p r) rows
affected-chosen t p [] unlocked = refl
affected-chosen t p (x ∷ rows) unlocked =
    ground (arith, unlocked x, affected-chosen t p rows unlocked)

pub length-take_cases :
    (n : ℕ) (rows : List OutboxRow)
    → (length rows ≤ length (take n rows)) ⊎ (n ≤ length (take n rows))
length-take_cases zero rows = inr (omega arith)
length-take_cases (suc n) [] = inl (omega arith)
length-take_cases (suc n) (x ∷ rows) = elim (length-take_cases n rows) [
  | inl whole ↦ inl (omega arith)
  | inr full ↦ inr (omega arith)
]

-- A calm batch leaves at most what it has no room for.
pending-process_batch :
    (t : Tick) (db : OrderDb) (log : List Message)
    → IsCalm t
    → affected is_pending (process_batch t db log).1.outbox
      ≤ affected is_pending db.outbox - t.batch_size
unfolding pending_rows
pending-process_batch t db log c =
    let chosen = select (λ r. is_pending r && not (t.locked r)) db.outbox in
    let sorted = order_by (λ (r : OutboxRow). r.created_at) chosen in
    let rows = take t.batch_size sorted in
    let records = map record_of rows in
    let named = λ (r : OutboxRow). names r.id records in
    let own : affected named rows ≡ length rows = affected_all named rows (names-own rows) in
    let among = affected-take-le named t.batch_size sorted in
    let unsorted = affected-order_by (λ (r : OutboxRow). r.created_at) named chosen in
    let waiting = affected-chosen t named db.outbox c.unlocked in
    let parts = affected-split is_pending named db.outbox in
    let all' = length-chosen t c.unlocked db.outbox in
    let kept = length-order_by (λ (r : OutboxRow). r.created_at) chosen in
    rw (process_batch-IsCalm t db log c, pending-deliver_all t.host records db)
      (omega (
        arith,
        own,
        among,
        unsorted,
        waiting,
        parts,
        all',
        kept,
        length-take_cases t.batch_size sorted,
      ))

-- the room of the ticks, all together
unfoldable pub room : List Tick → ℕ
room [] = 0
room (t ∷ ticks) = t.batch_size + room ticks

status_cases : (d : Delivery) → (d ≡ pending) ⊎ (d ≡ sent)
status_cases pending = inl refl
status_cases sent = inr refl

nothing_pending :
    (rows : List OutboxRow) → affected is_pending rows ≡ 0 → All (λ r. r.status ≡ sent) rows
nothing_pending [] h = tt
nothing_pending (x ∷ rows) h = elim (status_cases x.status) [
  | inl waits ↦ absurd (ground arith)
  | inr done ↦ (done, nothing_pending rows (ground arith))
]

-- Alone, a calm batch that holds every pending row returns nil and leaves no row pending.
process_batch_drains :
    (t : Tick) (db : OrderDb) (log : List Message)
    → IsCalm t
    → affected is_pending db.outbox ≤ t.batch_size
    → let (r, db', log') = process_batch t db log in
      (r ≡ ok tt) × All (λ (x : OutboxRow). x.status ≡ sent) db'.outbox
process_batch_drains t db log c fits =
    let left = pending-process_batch t db log c in
    let done = nothing_pending (process_batch t db log).1.outbox (omega (arith, left)) in
    (rw (process_batch-IsCalm t db log c) refl, done)

run_worker-pending :
    (ticks : List Tick) (db : OrderDb) (log : List Message)
    → All IsCalm ticks
    → affected is_pending (run_worker ticks db log).0.outbox
      ≤ affected is_pending db.outbox - room ticks
unfolding run_worker room
run_worker-pending [] db log c = omega arith
run_worker-pending (t ∷ ticks) db log c =
    let (r, db', log') = process_batch t db log in
    let first = pending-process_batch t db log c.0 in
    let rest = run_worker-pending ticks db' log' c.1 in omega (arith, first, rest)

-- Every event is published in the end: a sequence of batches in which nothing fails and nothing is
-- locked, whose sizes add up to at least the number of pending rows, leaves every row of the outbox
-- SENT and with its message in the topic, however small the batches are. At the start the ids of the
-- outbox are distinct and the messages of its SENT rows are in the topic.
pub run_worker_drains :
    (ticks : List Tick) (db : OrderDb) (log : List Message)
    → All IsCalm ticks
    → IsSound db log
    → affected is_pending db.outbox ≤ room ticks
    → let (db', log') = run_worker ticks db log in
      All (λ (r : OutboxRow). (r.status ≡ sent) × In (row_message r) log') db'.outbox
run_worker_drains ticks db log calm sound fits =
    let (db', log') = run_worker ticks db log in
    let left = run_worker-pending ticks db log calm in
    let done = nothing_pending db'.outbox (omega (arith, left)) in
    let (sound', _) = run_worker-IsSound ticks db log sound in
    All-map db'.outbox (λ r p. (p.0, p.1 p.0)) (All-zip _ _ db'.outbox done sound'.published)

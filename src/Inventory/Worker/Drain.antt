-- ===== src/Inventory/Worker/Drain.antt =====
-- A whole batch of inventory-service/internal/outbox/worker.go.
use mini_marketplace.Base.{
  ◌≤◌, ◌≡◌, refl, inl, inr, true, false, not, ◌&&◌, none, List, [], ◌∷◌, ◌++◌, map, ok, arith,
  take_enough, length, length-order_by, select, order_by, affected, cut_at, In, In-map, In-select,
  In-order_by, In-append_right,
}
use mini_marketplace.Base.Kafka.{Message}
use mini_marketplace.Inventory.Store.{
  InventoryDb, OutboxRow, pending, Call, begin, commit, select_pending, scan_row, update_sent,
}
use mini_marketplace.Inventory.Worker.{
  OutboxRecord, Tick, is_pending, pending_rows, fetch_pending, record_of, message_of,
  process_records, process_batch, mark_sent,
}
use mini_marketplace.Inventory.Worker.Batch.{row_message, process_batch_outcome}

-- A tick with room for every pending row, at which nothing fails and nothing is locked.
pub record IsClear (t : Tick) (db : InventoryDb) : Type 0 where
  pub works : (c : Call) → t.host.fails c ≡ false
  pub delivers : (rec : OutboxRecord) → t.publish_fails rec ≡ false
  pub unlocked : (r : OutboxRow) → t.locked r ≡ false
  pub whole : t.host.cut ≡ none
  pub fits : affected is_pending db.outbox ≤ t.batch_size

abbrev chosen : Tick → List OutboxRow → List OutboxRow
chosen t = select (λ r. is_pending r && not (t.locked r))

length-chosen :
    (t : Tick) (rows : List OutboxRow)
    → ((r : OutboxRow) → t.locked r ≡ false)
    → length (chosen t rows) ≡ affected is_pending rows
length-chosen t [] unlocked = refl
length-chosen t (r ∷ rows) unlocked = ground (arith, unlocked r, length-chosen t rows unlocked)

all_pending :
    (t : Tick) (db : InventoryDb)
    → IsClear t db
    → cut_at t.host.cut (pending_rows t db)
      ≡ order_by (λ (r : OutboxRow). r.created_at) (chosen t db.outbox)
unfolding pending_rows
all_pending t db c =
    let rows = order_by (λ (r : OutboxRow). r.created_at) (chosen t db.outbox) in
    let small : length rows ≤ t.batch_size = omega (
      arith,
      length-order_by (λ (r : OutboxRow). r.created_at) (chosen t db.outbox),
      length-chosen t db.outbox c.unlocked,
      c.fits,
    ) in
    rw c.whole (take_enough t.batch_size rows small)

fetch_pending_works :
    (t : Tick) (db : InventoryDb)
    → IsClear t db
    → fetch_pending t db
      ≡ ok (map record_of (order_by (λ (r : OutboxRow). r.created_at) (chosen t db.outbox)))
unfolding fetch_pending
fetch_pending_works t db c =
    ground (arith, c.works select_pending, c.works scan_row, all_pending t db c)

process_records_works :
    (t : Tick) (records : List OutboxRecord) (db : InventoryDb) (log : List Message)
    → ((c : Call) → t.host.fails c ≡ false)
    → ((rec : OutboxRecord) → t.publish_fails rec ≡ false)
    → (db' : InventoryDb) × ((process_records t records db log).0 ≡ ok db')
unfolding process_records
process_records_works t [] db log works delivers = (db, refl)
process_records_works t (rec ∷ records) db log works delivers =
    let (db', e) =
      process_records_works t records (mark_sent t.host rec.id db) (log ++ message_of rec ∷ [])
        works delivers in
    (db', ground (arith, delivers rec, works update_sent, e))

-- A whole batch publishes every pending event.
pub process_batch_publishes :
    (t : Tick) (db : InventoryDb) (log : List Message) (x : OutboxRow)
    → IsClear t db
    → In x db.outbox
    → x.status ≡ pending
    → In (row_message x) (process_batch t db log).2
process_batch_publishes t db log x c there waits =
    let rows = order_by (λ (r : OutboxRow). r.created_at) (chosen t db.outbox) in
    let passes : (is_pending x && not (t.locked x)) ≡ true = ground (arith, c.unlocked x) in
    let read : In x rows =
      In-order_by (λ (r : OutboxRow). r.created_at) x (chosen t db.outbox)
        (In-select (λ r. is_pending r && not (t.locked r)) x db.outbox passes there) in
    let here = In-map message_of (record_of x) _ (In-map record_of x rows read) in
    let fetched = fetch_pending_works t db c in
    let (db', all') = process_records_works t (map record_of rows) db log c.works c.delivers in
    let done : (process_batch t db log).0 ≡ ok tt =
      unfold process_batch in ground (arith, c.works begin, c.works commit, fetched, all') in
    elim (process_batch_outcome t db log) [
      | inr (more, stored, failed) ↦ absurd (ground arith)
      | inl (records, fetched', stored, out) ↦
          let same : map record_of rows ≡ records = ground arith in
          rw (out, ← same) (In-append_right (row_message x) log _ here)
    ]

-- ===== src/Inventory/Worker/Batch.antt =====
-- What one batch of inventory-service/internal/outbox/worker.go does, whichever calls fail.
use mini_marketplace.Base.{
  ℕ, suc, ◌≤◌, ◌≡◌, ◌⊎◌, inl, inr, some, not, ◌&&◌, List, [], ◌∷◌, ◌++◌, map, ok, err, Result-cases,
  Bool-cases, arith, take, take_all, length, All, In, In-map_self, All-take, All-map_list,
  All-cut_at, All-order_by, All-select, cut_at, order_by, select,
}
use mathlib.Core.Path.{subst}
use mathlib.Core.List.{append-nil, append_assoc}
use mini_marketplace.Base.Kafka.{Message}
use mini_marketplace.Base.Outbox as Outbox
use mini_marketplace.Inventory.Stock.{driver}
use mini_marketplace.Inventory.Store.{
  InventoryDb, OutboxRow, sent, Host, begin, commit, update_sent,
}
use mini_marketplace.Inventory.Worker.{
  OutboxRecord, Tick, fetch_pending, pending_rows, is_pending, record_of, message_of, mark_sent,
  process_records, process_batch,
}

abbrev pub row_message : OutboxRow → Message
row_message r = message_of (record_of r)

-- A row as `markSentTx` leaves it.
abbrev pub marked : Host → OutboxRow → OutboxRow
marked h r = record r { status = sent; sent_at = some h.now }

-- the rows after the records are marked
abbrev pub mark_all : Host → List OutboxRecord → List OutboxRow → List OutboxRow
mark_all h =
    Outbox.mark_all (λ (r : OutboxRow). r.id) row_message (λ (rec : OutboxRecord). rec.id)
      message_of (marked h)

-- The tables after all records were published and marked.
unfoldable pub delivered : Host → List OutboxRecord → InventoryDb → InventoryDb
delivered h records db = record db { outbox = mark_all h records db.outbox }

-- The loop over the records ends with all of them marked and published, or with an error after
-- some of them were published, in their order.
process_records_lem :
    (t : Tick) (records : List OutboxRecord) (db : InventoryDb) (log : List Message)
    → (process_records t records db log
        ≡ (ok (delivered t.host records db), log ++ map message_of records))
      ⊎ ((k : ℕ) × (k ≤ length records)
          × (process_records t records db log
              ≡ (err driver, log ++ map message_of (take k records))))
unfolding process_records delivered mark_sent
process_records_lem t [] db log = inl (rw append-nil)
process_records_lem t (rec ∷ records) db log = elim (Bool-cases (t.publish_fails rec)) [
  | inl e ↦ elim (Bool-cases (t.stored rec)) [
    | inl kept ↦ inr (1, omega arith, rw (e, process_records) (rw kept))
    | inr lost ↦ inr (0, omega arith, rw (e, process_records) (rw lost (rw append-nil)))
  ]
  | inr e ↦ elim (Bool-cases (t.host.fails update_sent)) [
    | inl failed ↦ inr (1, omega arith, rw (e, process_records) (rw (failed, process_records)))
    | inr done ↦
        let log' : List Message = log ++ message_of rec ∷ [] in
        let regroup = λ (l : List Message). append_assoc log (message_of rec ∷ []) l in
        elim (process_records_lem t records (mark_sent t.host rec.id db) log') [
          | inl all' ↦ inl (
              rw (e, process_records)
                (rw (done, process_records) (rw all' (rw (regroup (map message_of records))))))
          | inr (k, small, part) ↦ inr (
            suc k,
            omega arith,
            rw (e, process_records)
                (rw (done, process_records)
                  (rw part (rw (regroup (map message_of (take k records)))))),
          )
        ]
  ]
]

fetch_pending_lem :
    (t : Tick) (db : InventoryDb)
    → (fetch_pending t db ≡ err driver)
      ⊎ ((records : List OutboxRecord) × (fetch_pending t db ≡ ok records))
unfolding fetch_pending
fetch_pending_lem t db = elim (Result-cases (fetch_pending t db)) [
  | inl (records, e) ↦ inr (records, e)
  | inr (x, e) ↦ inl (ground arith)
]

-- What holds of the record of every row of the outbox holds of every record that is fetched.
pub fetch_pending-All :
    (P : OutboxRecord → Type 0) (t : Tick) (db : InventoryDb) {records : List OutboxRecord}
    → All (λ r. P (record_of r)) db.outbox
    → fetch_pending t db ≡ ok records
    → All P records
unfolding fetch_pending pending_rows
fetch_pending-All P t db {records} every fetched =
    let rows = take t.batch_size (
      order_by (λ (r : OutboxRow). r.created_at)
        (select (λ r. is_pending r && not (t.locked r)) db.outbox)) in
    let read : records ≡ map record_of (cut_at t.host.cut rows) = ground arith in
    rw read (
      All-map_list P record_of _ (
        All-cut_at _ t.host.cut _ (
          All-take _ t.batch_size _
            (All-order_by _ _ _ (All-select (λ x. P (record_of x)) _ db.outbox every)))))

-- The messages are those of rows of the outbox.
abbrev pub AreStored : InventoryDb → List Message → Type 0
AreStored db = All (λ m. In m (map row_message db.outbox))

fetched-AreStored :
    (t : Tick) (db : InventoryDb) {records : List OutboxRecord} (k : ℕ)
    → fetch_pending t db ≡ ok records
    → AreStored db (map message_of (take k records))
fetched-AreStored t db {records} k fetched = All-map_list _ message_of _ (
    All-take _ k records (
      fetch_pending-All (λ c. In (message_of c) (map row_message db.outbox)) t db
        (In-map_self row_message db.outbox) fetched))

-- A batch is atomic on the tables: it returns nil, with the fetched records published and their
-- rows marked, or an error, with no table changed and messages of some rows published.
pub process_batch_outcome :
    (t : Tick) (db : InventoryDb) (log : List Message)
    → let out = process_batch t db log in
      ((records : List OutboxRecord) × (fetch_pending t db ≡ ok records)
        × AreStored db (map message_of records)
        × (out ≡ (ok tt, delivered t.host records db, log ++ map message_of records)))
      ⊎ ((more : List Message) × AreStored db more × (out ≡ (err driver, db, log ++ more)))
unfolding process_batch
process_batch_outcome t db log = elim (Bool-cases (t.host.fails begin)) [
  | inl e ↦ inr ([], tt, rw append-nil (ground arith))
  | inr begun ↦ elim (fetch_pending_lem t db) [
    | inl failed ↦ inr ([], tt, rw append-nil (ground arith))
    | inr (records, fetched) ↦
        let stored : AreStored db (map message_of records) =
          subst (λ rs. AreStored db (map message_of rs)) (take_all records)
            (fetched-AreStored t db {records = records} (length records) fetched) in
        elim (process_records_lem t records db log) [
          | inr (k, small, part) ↦ inr (
            map message_of (take k records),
            fetched-AreStored t db {records = records} k fetched,
            ground arith,
          )
          | inl all' ↦ elim (Bool-cases (t.host.fails commit)) [
            | inl refused ↦ inr (map message_of records, stored, ground arith)
            | inr committed ↦ inl (records, fetched, stored, ground arith)
          ]
        ]
  ]
]

-- ===== src/Orders/Worker/Drain.antt =====
-- Batches in which nothing fails (order-service/internal/outbox/worker.go).
use mini_marketplace.Base.{
  ◌≤◌, String, ◌≡◌, refl, inl, inr, Bool, true, false, not, ◌&&◌, none, List, [], ◌∷◌, ◌++◌, map,
  ok, arith, text_eq, if◌then◌else◌, take_enough, length, select, cut_at, order_by, length-order_by,
  ◌∙◌, ap, affected,
}
use mini_marketplace.Base.Kafka.{Message}
use mini_marketplace.Orders.Store.{
  OrderDb, OutboxRow, Call, begin, commit, select_pending, scan_row, update_sent, update_awaiting,
}
use mini_marketplace.Orders.Worker.{
  OutboxRecord, Tick, is_pending, pending_rows, fetch_pending, record_of, message_of, process_batch,
  process_records, after_publish,
}
use mini_marketplace.Orders.Worker.Batch.{
  deliver, deliver_all, fetch_pending_lem, process_batch_lem,
}
use mini_marketplace.Orders.Worker.Sent.{fetch_pending-rows}

-- Some record has the id.
unfoldable pub names : String → List OutboxRecord → Bool
names id [] = false
names id (rec ∷ records) = if text_eq id rec.id then true else names id records

module _ (t : Tick) (unlocked : (r : OutboxRow) → t.locked r ≡ false) where
  -- what the query asks for
  abbrev chosen : List OutboxRow → List OutboxRow
  chosen = select (λ r. is_pending r && not (t.locked r))

  pub length-chosen : (rows : List OutboxRow) → length (chosen rows) ≡ affected is_pending rows
  length-chosen [] = refl
  length-chosen (r ∷ rows) = ground (arith, unlocked r, length-chosen rows)

  all_pending :
      (db : OrderDb)
      → affected is_pending db.outbox ≤ t.batch_size
      → pending_rows t db ≡ order_by (λ (r : OutboxRow). r.created_at) (chosen db.outbox)
  unfolding pending_rows
  all_pending db fits =
      take_enough t.batch_size (order_by (λ (r : OutboxRow). r.created_at) (chosen db.outbox)) (
        omega (
          arith,
          length-order_by (λ (r : OutboxRow). r.created_at) (chosen db.outbox),
          length-chosen db.outbox,
        ))

module _ (t : Tick) (works : (c : Call) → t.host.fails c ≡ false)
    (delivers : (rec : OutboxRecord) → t.publish_fails rec ≡ false) where
  process_records_works :
      (records : List OutboxRecord) (db : OrderDb) (log : List Message)
      → (db' : OrderDb) × ((process_records t records db log).0 ≡ ok db')
  unfolding process_records
  process_records_works [] db log = (db, refl)
  process_records_works (rec ∷ records) db log =
      let published : after_publish t rec db ≡ ok (deliver t.host rec db) =
        unfold after_publish in
        unfold deliver in ground (arith, works update_sent, works update_awaiting) in
      let (db', e) =
        process_records_works records (deliver t.host rec db) (log ++ message_of rec ∷ []) in
      (db', ground (arith, delivers rec, published, e))

  process_batch_works : (db : OrderDb) (log : List Message) → (process_batch t db log).0 ≡ ok tt
  unfolding process_batch
  process_batch_works db log = elim (fetch_pending_lem t db) [
    | inl failed ↦
        absurd (unfold fetch_pending in ground (arith, works select_pending, works scan_row))
    | inr (records, fetched) ↦
        let (db', e) = process_records_works records db log in
        ground (arith, works begin, works commit, fetched, e)
  ]

-- A tick at which nothing fails and nothing is locked.
pub record IsCalm (t : Tick) : Type 0 where
  pub works : (c : Call) → t.host.fails c ≡ false
  pub delivers : (rec : OutboxRecord) → t.publish_fails rec ≡ false
  pub unlocked : (r : OutboxRow) → t.locked r ≡ false
  pub whole : t.host.cut ≡ none

-- Such a batch delivers the records of the rows that it reads.
pub process_batch-IsCalm :
    (t : Tick) (db : OrderDb) (log : List Message)
    → IsCalm t
    → let records = map record_of (pending_rows t db) in
      process_batch t db log ≡ (ok tt, deliver_all t.host records db, log ++ map message_of records)
process_batch-IsCalm t db log c =
    let done = process_batch_works t c.works c.delivers db log in
    elim (process_batch_lem t db log) [
      | inr (inl failed) ↦ absurd (ground arith)
      | inr (inr (records, k, fetched, small, part)) ↦ absurd (ground arith)
      | inl (records, fetched, all') ↦
          let read =
            fetch_pending-rows t db fetched
            ∙ ap (λ c. map record_of (cut_at c (pending_rows t db))) c.whole in
          rw (← read) all'
    ]

-- One with room for every pending row, too.
pub record IsClear (t : Tick) (db : OrderDb) : Type 0 where
  pub calm : IsCalm t
  pub fits : affected is_pending db.outbox ≤ t.batch_size

-- It delivers the records of all pending rows, the oldest first.
pub process_batch-IsClear :
    (t : Tick) (db : OrderDb) (log : List Message)
    → IsClear t db
    → let records = map record_of (
        order_by
          (λ (r : OutboxRow). r.created_at)
          (select (λ r. is_pending r && not (t.locked r)) db.outbox)) in
      process_batch t db log ≡ (ok tt, deliver_all t.host records db, log ++ map message_of records)
process_batch-IsClear t db log c =
    rw (← all_pending t c.calm.unlocked db c.fits) (process_batch-IsCalm t db log c.calm)

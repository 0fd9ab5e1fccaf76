-- ===== src/Orders/Worker/Atomic.antt =====
-- A batch of the outbox worker against its description row by row
-- (order-service/internal/outbox/worker.go).
use mathlib.Core.List.{append-nil}
use mini_marketplace.Base.{
  ℕ, ◌≤◌, ◌≡◌, refl, ◌∙◌, ap, zero, suc, ◌⊎◌, inl, inr, true, false, ◌&&◌, not, some, List, [], ◌∷◌,
  ◌++◌, map, ok, err, arith, take, length, select, order_by, cut_at, All, All-zip, affected,
  length-select, length-order_by, All-map, All-select_passes, All-take, All-cut_at, All-order_by,
  In, length-take-le, length-take-drop, Option, none,
}
use mini_marketplace.Base.Kafka.{Message}
use mini_marketplace.Orders.Domain.{driver}
use mini_marketplace.Orders.Store.{OutboxRow, Delivery, pending, sent, OrderDb}
use mini_marketplace.Orders.Worker.{Tick, is_pending, record_of, pending_rows, process_batch}
use mini_marketplace.Orders.Worker.Batch.{process_batch_lem}
use mini_marketplace.Orders.Worker.Sent.{fetch_pending-rows, All-pending_rows}
use mini_marketplace.Orders.Worker.Tables.{tables_after, asked, deliver_all-after, messages-asked}
use mini_marketplace.Orders.Worker.Rounds.{length-take_cases}
use mini_marketplace.Orders.Worker.Drain.{IsCalm, process_batch-IsCalm}

-- The rows that a batch has read: of the table, PENDING, not locked, and no more than its size; and
-- as many as there are or as the size allows, unless the loop over the rows is cut short.
pub record IsRead (t : Tick) (db : OrderDb) (rows : List OutboxRow) : Type 0 where
  pub each :
      All (λ (r : OutboxRow). In r db.outbox × ((r.status ≡ pending) × (t.locked r ≡ false))) rows
  pub small : length rows ≤ t.batch_size
  pub enough :
      t.host.cut ≡ none
      → (affected (λ r. is_pending r && not (t.locked r)) db.outbox ≤ length rows)
        ⊎ (t.batch_size ≤ length rows)

take-map : {A B : Type 0} (f : A → B) (k : ℕ) (xs : List A) → take k (map f xs) ≡ map f (take k xs)
take-map f zero xs = refl
take-map f (suc k) [] = refl
take-map f (suc k) (x ∷ xs) = ap (◌∷◌ (f x)) (take-map f k xs)

length-map : {A B : Type 0} (f : A → B) (xs : List A) → length (map f xs) ≡ length xs
length-map f [] = refl
length-map f (x ∷ xs) = ap suc (length-map f xs)

All_own : (rows : List OutboxRow) → All (λ r. In r rows) rows
All_own [] = tt
All_own (r ∷ rows) = (inl refl, All-map rows (λ x h. inr h) (All_own rows))

status_cases : (d : Delivery) → (d ≡ pending) ⊎ (d ≡ sent)
status_cases pending = inl refl
status_cases sent = inr refl

passes :
    (t : Tick) (r : OutboxRow)
    → (is_pending r && not (t.locked r)) ≡ true
    → (r.status ≡ pending) × (t.locked r ≡ false)
passes t r e = elim (status_cases r.status) [
  | inl waits ↦ (waits, ground arith)
  | inr done ↦ absurd (ground arith)
]

length-cut_at-le :
    (o : Option ℕ) (n : ℕ) (rows : List OutboxRow) → length (cut_at o (take n rows)) ≤ n
length-cut_at-le none n rows = length-take-le n rows
length-cut_at-le (some k) n rows =
    omega (arith, length-take-drop k (take n rows), length-take-le n rows)

fetched-IsRead : (t : Tick) (db : OrderDb) → IsRead t db (cut_at t.host.cut (pending_rows t db))
unfolding pending_rows
fetched-IsRead t db =
    let key = λ (r : OutboxRow). r.created_at in
    let p = λ (r : OutboxRow). is_pending r && not (t.locked r) in
    let Q = λ (r : OutboxRow). (r.status ≡ pending) × (t.locked r ≡ false) in
    let sorted = order_by key (select p db.outbox) in
    let own = All-pending_rows (λ r. In r db.outbox) t db (All_own db.outbox) in
    let good : All Q (cut_at t.host.cut (take t.batch_size sorted)) = All-cut_at Q t.host.cut _ (
      All-take Q t.batch_size _
        (All-order_by key Q _ (All-select_passes Q p db.outbox (passes t)))) in
    record {
      each = All-zip (λ r. In r db.outbox) Q _ own good;
      small = length-cut_at-le t.host.cut t.batch_size sorted;
      enough = λ uncut.
          let all' = length-select p db.outbox in
          let kept = length-order_by key (select p db.outbox) in
          rw uncut (elim (length-take_cases t.batch_size sorted) [
            | inl whole ↦ inl (omega (arith, all', kept, whole))
            | inr full ↦ inr full
          ]);
    }

-- A batch of the outbox worker is all or nothing on the tables. Either it returns nil: then it has
-- read rows of the outbox, all PENDING and not locked, no more than its size and, unless the loop
-- over them is cut short, as many as there are or as its size allows; their messages are
-- published in that order; and the tables are as they were, but that these rows are SENT, and that
-- each order in CREATED which one of them announces as new awaits stock, at the next version. Or it
-- returns an error: then no table has changed, and the messages of a first part of the rows read have
-- been published all the same. Where nothing fails and nothing is locked it returns nil.
pub process_batch_atomic :
    (t : Tick) (db : OrderDb) (log : List Message)
    → let out = process_batch t db log in
      ((rows : List OutboxRow) × IsRead t db rows
        × ((out ≡ (ok tt, tables_after t.host rows db, log ++ map asked rows))
            ⊎ ((k : ℕ) × (k ≤ length rows)
                × (out ≡ (err driver, db, log ++ map asked (take k rows))))))
      × (IsCalm t → out.0 ≡ ok tt)
process_batch_atomic t db log =
    let read = cut_at t.host.cut (pending_rows t db) in
    (
      elim (process_batch_lem t db log) [
        | inl (records, fetched, done) ↦
            let same = fetch_pending-rows t db fetched in
            let tables = deliver_all-after t.host read db in
            (read, fetched-IsRead t db, inl (done ∙ rw same (rw (tables, messages-asked read))))
        | inr (inl failed) ↦
            (read, fetched-IsRead t db, inr (0, omega arith, failed ∙ rw append-nil))
        | inr (inr (records, k, fetched, small, failed)) ↦
            let same = fetch_pending-rows t db fetched in
            (
              read,
              fetched-IsRead t db,
              inr (
                k,
                rw (← length-map record_of read) (rw (← same) small),
                failed ∙ rw same (rw (take-map record_of k read, messages-asked (take k read))),
              ),
            )
      ],
      λ calm. rw (process_batch-IsCalm t db log calm),
    )

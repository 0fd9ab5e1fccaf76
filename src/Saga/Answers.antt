-- ===== src/Saga/Answers.antt =====
-- What inventory-service answers: every `stock.reserved` event, stored or published, names an order
-- that it has processed.
use mini_marketplace.Base.{
  ℕ, String, ◌≡◌, refl, inl, inr, true, List, [], ◌∷◌, ◌++◌, map, arith, text_eq, text_eq_refl, All,
  All-append, All-map, All-In, All-update, All-map_list,
}
use mathlib.Core.Path.{sym}
use mathlib.Core.List.{append-nil}
use mini_marketplace.Base.Kafka.{Message}
use mini_marketplace.Inventory.Store.{InventoryDb, OutboxRow, Host, outbox_row}
use mini_marketplace.Inventory.Repository.{contains, stock_reserved, reserved_payload}
use mini_marketplace.Inventory.Usecase.Outcome.{told}
use mini_marketplace.Inventory.Consumer.{handle_message}
use mini_marketplace.Inventory.Consumer.Answers.{handle_message_fates}
use mini_marketplace.Inventory.Worker.{OutboxRecord, Tick, process_batch, record_of, message_of}
use mini_marketplace.Inventory.Worker.Batch.{
  row_message, marked, mark_all, delivered, AreStored, process_batch_outcome,
}

-- A message of a reservation names a processed order.
abbrev pub IsFounded : List String → Message → Type 0
IsFounded processed m =
    m.topic ≡ stock_reserved
    → (id : String) × (m.value ≡ reserved_payload id) × (contains id processed ≡ true)

-- All answers of the outbox and of the log are founded.
pub record AreFounded (db : InventoryDb) (log : List Message) : Type 0 where
  pub stored : All (λ r. IsFounded db.processed_events (row_message r)) db.outbox
  pub logged : All (IsFounded db.processed_events) log

pub contains-append :
    (id : String) (xs ys : List String) → contains id xs ≡ true → contains id (xs ++ ys) ≡ true
unfolding contains
contains-append id [] ys h = absurd (ground arith)
contains-append id (x ∷ xs) ys h = ground (arith, contains-append id xs ys)

pub contains_last : (id : String) (xs : List String) → contains id (xs ++ id ∷ []) ≡ true
unfolding contains
contains_last id [] = rw (text_eq_refl id)
contains_last id (x ∷ xs) = ground (arith, contains_last id xs)

IsFounded-append :
    (processed more : List String) (m : Message)
    → IsFounded processed m
    → IsFounded (processed ++ more) m
IsFounded-append processed more m f e =
    let (id, value, marked) = f e in (id, value, contains-append id processed more marked)

-- New marks and one more event, itself founded.
AreFounded-grows :
    (db db' : InventoryDb) (log : List Message) (r : OutboxRow) (more : List String)
    → db'.processed_events ≡ db.processed_events ++ more
    → db'.outbox ≡ db.outbox ++ r ∷ []
    → IsFounded (db.processed_events ++ more) (row_message r)
    → AreFounded db log
    → AreFounded db' log
AreFounded-grows db db' log r more marks rows founded f =
    let later = IsFounded-append db.processed_events more in
    record {
      stored =
          rw (marks, rows)
            (All-append _ db.outbox (r ∷ [])
              (All-map db.outbox (λ x h. later (row_message x) h) f.stored) (founded, tt));
      logged = rw marks (All-map log (λ m h. later m h) f.logged);
    }

pub handle_message-AreFounded :
    (hosts hosts' : ℕ → Host) (n : ℕ) (m : Message) (db : InventoryDb) (log : List Message)
    → AreFounded db log
    → let db' = (handle_message hosts hosts' n m db).1 in
      AreFounded db' log
      × ((more : List String) × (db'.processed_events ≡ db.processed_events ++ more))
unfolding record_of message_of outbox_row told
handle_message-AreFounded hosts hosts' n m db log f =
    let unchanged : (more : List String) × (db.processed_events ≡ db.processed_events ++ more) =
      ([], sym (append-nil db.processed_events)) in
    elim (handle_message_fates hosts hosts' n m db) [
      | inl (garbled, same) ↦ rw same (f, unchanged)
      | inr (event, read, inl (db', done, r)) ↦ rw done (
        AreFounded-grows db db' log _ (event.order_id ∷ []) r.processed r.event_added
            (λ e. (event.order_id, refl, contains_last event.order_id db.processed_events)) f,
        (event.order_id ∷ [], r.processed),
      )
      | inr (event, read, inr (inl (reason, done))) ↦ rw done (
        AreFounded-grows db (told (hosts' n) event.order_id reason db) log _ []
            (sym (append-nil db.processed_events)) refl (λ e. absurd (cc)) f,
        unchanged,
      )
      | inr (event, read, inr (inr (inl (marked, same)))) ↦ rw same (f, unchanged)
      | inr (event, read, inr (inr (inr (e, silent, apart, same)))) ↦ rw same (f, unchanged)
    ]

-- Marking rows changes no message.
mark_all-stored :
    (P : Message → Type 0) (h : Host) (records : List OutboxRecord) (rows : List OutboxRow)
    → All (λ r. P (row_message r)) rows
    → All (λ r. P (row_message r)) (mark_all h records rows)
unfolding record_of
mark_all-stored P h [] rows s = s
mark_all-stored P h (c ∷ records) rows s =
    mark_all-stored P h records _
      (All-update (λ r. P (row_message r)) (λ r. text_eq r.id c.id) (marked h) rows (λ r p. p) s)

stored-logged :
    (P : Message → Type 0) (db : InventoryDb) (log more : List Message)
    → AreStored db more
    → All (λ r. P (row_message r)) db.outbox
    → All P log
    → All P (log ++ more)
stored-logged P db log more stored s l =
    All-append P log more l
      (All-map more (λ m i. All-In P m _ (All-map_list P row_message db.outbox s) i) stored)

pub process_batch-AreFounded :
    (t : Tick) (db : InventoryDb) (log : List Message)
    → AreFounded db log
    → let (r, db', log') = process_batch t db log in
      AreFounded db' log'
      × (db'.processed_events ≡ db.processed_events)
      × ((more : List Message) × (log' ≡ log ++ more))
unfolding delivered
process_batch-AreFounded t db log f = elim (process_batch_outcome t db log) [
  | inl (records, fetched, stored, done) ↦ rw done (
    record {
      stored = mark_all-stored (IsFounded db.processed_events) t.host records db.outbox f.stored;
      logged = stored-logged _ db log _ stored f.stored f.logged;
    },
    refl,
    (map message_of records, refl),
  )
  | inr (more, stored, failed) ↦ rw failed (
    record { stored = f.stored; logged = stored-logged _ db log more stored f.stored f.logged },
    refl,
    (more, refl),
  )
]

-- A batch of the worker leaves the marks and the stock as they are.
pub process_batch-same :
    (t : Tick) (db : InventoryDb) (log : List Message)
    → let db' = (process_batch t db log).1 in
      (db'.processed_events ≡ db.processed_events) × (db'.stock ≡ db.stock)
unfolding delivered
process_batch-same t db log = elim (process_batch_outcome t db log) [
  | inl (records, fetched, stored, done) ↦ rw done (refl, refl)
  | inr (more, stored, failed) ↦ rw failed (refl, refl)
]

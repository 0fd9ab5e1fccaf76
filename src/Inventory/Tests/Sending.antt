-- ===== src/Inventory/Tests/Sending.antt =====
-- The outbox worker of inventory-service at concrete inputs.
use mini_marketplace.Base.{◌≡◌, refl, true, false, none, some, [], ◌∷◌, text_eq}
use mini_marketplace.Base.Kafka.{Message}
use mini_marketplace.Inventory.Store.{InventoryDb, OutboxRow, pending, sent, commit}
use mini_marketplace.Inventory.Repository.{stock_reserved, reserved_payload}
use mini_marketplace.Inventory.Worker.{
  Tick, run_worker, process_batch, process_records, fetch_pending, pending_rows, record_of,
  message_of, mark_sent, finish_batch,
}
use mini_marketplace.Inventory.Worker.Sent.{IsPublished, IsAfter, run_worker-IsPublished}
use mini_marketplace.Inventory.Tests.{quiet, depot}

abbrev tick : Tick
tick = record {
  host = quiet;
  batch_size = 10;
  locked = λ r. false;
  publish_fails = λ r. false;
  stored = λ r. false;
}

-- A tick whose commit fails.
abbrev broken_tick : Tick
broken_tick = record tick {
  host = record quiet { fails = λ c. elim c [ commit ↦ true | _ ↦ false ] };
}

-- the event of a reservation
abbrev answer : OutboxRow
answer = record {
  id = "e9";
  aggregate_id = "o1";
  event_type = stock_reserved;
  payload = reserved_payload "o1";
  status = pending;
  created_at = 9;
  sent_at = none;
}

abbrev answered : InventoryDb
answered = record depot { processed_events = "o1" ∷ []; outbox = answer ∷ [] }

abbrev answer_message : Message
answer_message = record { topic = stock_reserved; key = "o1"; value = reserved_payload "o1" }

-- The first tick publishes and cannot commit, the second one publishes again.
run_worker_test : run_worker (broken_tick ∷ tick ∷ []) answered [] ≡ (
  record answered { outbox = record answer { status = sent; sent_at = some 9 } ∷ [] },
  answer_message ∷ answer_message ∷ [],
)
unfolding run_worker process_batch process_records fetch_pending pending_rows record_of message_of
    mark_sent finish_batch text_eq
run_worker_test = refl

run_worker-IsPublished_example :
    let (db', log') = run_worker (broken_tick ∷ tick ∷ []) answered [] in
    IsPublished db' log' × IsAfter answered [] db' log'
run_worker-IsPublished_example =
    run_worker-IsPublished (broken_tick ∷ tick ∷ []) answered []
      (record { keys = (tt, tt); published = (λ e. absurd (cc), tt) })

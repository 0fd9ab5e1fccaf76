-- ===== src/Orders/Tests/Status.antt =====
-- `UpdateOrderStatus` and the consumers at concrete inputs.
use mini_marketplace.Base.{
  ℕ, zero, suc, ◌<◌, ◌≤◌, ◌+◌, String, ◌≡◌, ◌≢◌, refl, ◌⊎◌, true, none, some, List, [], ◌∷◌, ok,
  err, arith, update, text_eq,
}
use mini_marketplace.Base.Json.{encoded, obj, field, text, end, text_at, key}
use mini_marketplace.Base.Kafka.{Message, message, fields_of}
use mini_marketplace.Orders.Domain.{
  OrderStatus, created, awaiting_stock, confirmed, cancelled, completed, invalid_transition,
  no_rows, no_event_mapping, transition_to, allows, allowed_transactions, status_eq,
}
use mini_marketplace.Orders.Domain.Machine.{◌⟶◌, drive, transition_to-⟶, drive_outcomes}
use mini_marketplace.Orders.Store.{OrderRow, OrderDb}
use mini_marketplace.Orders.Repository.{get_by_id, update_status_with_event, outbox_row}
use mini_marketplace.Orders.Repository.Valid.{
  IsValid, row_at, row_at-update, HasKeys-update, owned-update,
}
use mini_marketplace.Orders.Usecase.{update_order_status, update_loop, prepare, build_status_event}
use mini_marketplace.Orders.Usecase.Status.{
  IsDisciplined, Updated, announces, drift, update_order_status-Updated,
}
use mini_marketplace.Orders.Usecase.Outcome.{update_order_status_err}
use mini_marketplace.Orders.Usecase.Alone.{update_order_status_alone}
use mini_marketplace.Orders.Worker.{transition_to_awaiting_stock}
use mini_marketplace.Orders.Consumer.{handle_reserved, run_reserved, stock_reserved_event}
use mini_marketplace.Orders.Consumer.Race.{nobody, handle_reserved_idempotent, early_result_lost}
use mini_marketplace.Orders.Tests.Data.{
  quiet, quiet_hosts, first_order, new_db, waiting_db, order_row, apple_row, sent_event,
  confirmed_event,
}

abbrev bumped : OrderRow → OrderRow
bumped r = record r { version = r.version + 1 }

-- Another writer that touches every row between the read and the write of the first attempt.
abbrev touch : ℕ → OrderDb → OrderDb
touch zero db = record db { orders = update (λ r. true) bumped db.orders }
touch (suc n) db = db

one_row :
    (id : String) (rows : List OrderRow) (r r' : OrderRow)
    → row_at id rows ≡ some r
    → row_at id rows ≡ some r'
    → r'.status ≡ r.status
one_row id rows r r' e e' = ground arith

touch_versioned :
    (n : ℕ) (db : OrderDb) (id : String) (r r' : OrderRow)
    → row_at id db.orders ≡ some r
    → row_at id (touch n db).orders ≡ some r'
    → r'.version ≡ r.version
    → r'.status ≡ r.status
touch_versioned (suc n) db id r r' found found' same = one_row id db.orders r r' found found'
touch_versioned zero db id r r' found found' same =
    let moved = row_at-update id (λ r. true) bumped db.orders (λ r. refl) in ground arith

touch_keeps_keys : (n : ℕ) (db : OrderDb) → IsValid db → IsValid (touch n db)
touch_keeps_keys (suc n) db v = v
touch_keeps_keys zero db v = record {
  keys = HasKeys-update (λ r. true) bumped db.orders (λ r. refl) v.keys;
  owned = owned-update (λ r. true) bumped db.orders db.items (λ r. refl) v.owned;
}

touch-IsDisciplined : IsDisciplined touch
touch-IsDisciplined = record { keeps_keys = touch_keeps_keys; versioned = touch_versioned }

waiting_db-IsValid : IsValid waiting_db
unfolding text_eq
waiting_db-IsValid = record { keys = (refl, tt); owned = (refl, tt) }

abbrev confirmed_db : OrderDb
confirmed_db = record {
  orders = order_row confirmed 4 7 ∷ [];
  items = apple_row ∷ [];
  outbox = sent_event ∷ confirmed_event ∷ [];
}

-- The first attempt meets the touched row, and the second one succeeds.
retried : update_order_status quiet_hosts touch "o1" confirmed "" waiting_db ≡ (ok tt, confirmed_db)
unfolding update_order_status update_loop prepare get_by_id transition_to allows
    allowed_transactions status_eq build_status_event update_status_with_event outbox_row text_eq
retried = refl

update_order_status-Updated_example :
    (k : ℕ) × (k < 3)
    × Updated
        (quiet_hosts k)
        "o1"
        confirmed
        ""
        (drift quiet_hosts touch 0 (suc k) waiting_db)
        confirmed_db
update_order_status-Updated_example =
    update_order_status-Updated quiet_hosts touch "o1" confirmed "" waiting_db {db' = confirmed_db}
      touch-IsDisciplined waiting_db-IsValid retried

refused :
    update_order_status quiet_hosts touch "o1" completed "" waiting_db
    ≡ (err invalid_transition, waiting_db)
unfolding update_order_status update_loop prepare get_by_id transition_to allows
    allowed_transactions status_eq text_eq
refused = refl

update_order_status_err_example :
    (k : ℕ) × (k ≤ 3) × (waiting_db ≡ drift quiet_hosts touch 0 k waiting_db)
update_order_status_err_example =
    update_order_status_err quiet_hosts touch "o1" completed "" waiting_db {x = invalid_transition}
      {db' = waiting_db} refused

update_order_status_alone_example :
    let out = update_order_status quiet_hosts (λ n d. d) "o1" cancelled "no stock" waiting_db in
    (row_at "o1" waiting_db.orders ≡ none → out ≡ (err no_rows, waiting_db))
    × ((r : OrderRow)
        → row_at "o1" waiting_db.orders ≡ some r
        → (¬ (r.status ⟶ cancelled) → out ≡ (err invalid_transition, waiting_db))
          × (r.status ⟶ cancelled
              → ((announces cancelled "o1" "no stock" ≡ none)
                  × (out ≡ (err no_event_mapping, waiting_db)))
                ⊎ ((announces cancelled "o1" "no stock" ≢ none) × (out.0 ≡ ok tt))))
update_order_status_alone_example =
    update_order_status_alone quiet_hosts "o1" cancelled "no stock" waiting_db (λ n c. refl)

abbrev reserved_message : Message
reserved_message = record {
  topic = "stock.reserved";
  key = "o1";
  value = encoded (obj (field "order_id" (text "o1") end));
}

abbrev confirmed_once : OrderDb
confirmed_once = record {
  orders = order_row confirmed 3 7 ∷ [];
  items = apple_row ∷ [];
  outbox = sent_event ∷ confirmed_event ∷ [];
}

handled :
    handle_reserved (λ n. quiet_hosts) (λ n. nobody) 0 reserved_message waiting_db
    ≡ (ok tt, confirmed_once)
unfolding handle_reserved fields_of text_at key update_order_status update_loop prepare get_by_id
    transition_to allows allowed_transactions status_eq build_status_event update_status_with_event
    outbox_row text_eq
handled = refl

handle_reserved_idempotent_example :
    handle_reserved (λ n. quiet_hosts) (λ n. nobody) 1 reserved_message confirmed_once
    ≡ (ok tt, confirmed_once)
handle_reserved_idempotent_example =
    handle_reserved_idempotent (λ n. quiet_hosts) (λ n k c. refl) 0 1 reserved_message waiting_db
      confirmed_once waiting_db-IsValid handled

read_id : stock_reserved_event reserved_message.value ≡ some "o1"
unfolding stock_reserved_event fields_of text_at key text_eq
read_id = refl

new_row : row_at "o1" new_db.orders ≡ some (order_row created 1 3)
unfolding text_eq
new_row = refl

early_result_lost_example :
    (run_reserved (λ n. quiet_hosts) (λ n. nobody) (message reserved_message ∷ []) new_db
      ≡ (new_db, reserved_message ∷ []))
    × (row_at "o1" (transition_to_awaiting_stock quiet "o1" new_db).orders
        ≡ some (order_row awaiting_stock 2 7))
early_result_lost_example =
    early_result_lost (λ n. quiet_hosts) (λ n k c. refl) quiet reserved_message new_db "o1"
      (order_row created 1 3) read_id new_row refl

transition_to-⟶_example :
    ((created ⟶ confirmed)
      → transition_to 7 confirmed first_order
        ≡ ok (record first_order { status = confirmed; updated_at = 7 }))
    × (¬ (created ⟶ confirmed) → transition_to 7 confirmed first_order ≡ err invalid_transition)
transition_to-⟶_example = transition_to-⟶ 7 confirmed first_order

abbrev asked : List OrderStatus
asked = awaiting_stock ∷ cancelled ∷ confirmed ∷ []

drive_outcomes_example :
    ((created ≡ cancelled) ⊎ (created ≡ completed) → (drive 7 asked first_order).status ≡ created)
    × (created ≡ confirmed
        → ((drive 7 asked first_order).status ≡ confirmed)
          ⊎ ((drive 7 asked first_order).status ≡ completed))
drive_outcomes_example = drive_outcomes 7 asked first_order

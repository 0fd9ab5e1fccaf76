-- ===== src/Notification/Tests.antt =====
-- The notification service at concrete inputs.
use mini_marketplace.Base.{
  ℕ, zero, suc, String, ◌≡◌, refl, true, false, none, some, List, [], ◌∷◌, ok,
}
use mini_marketplace.Base.Json.{garbage, encoded, obj, field, text, end}
use mini_marketplace.Base.Kafka.{Message, Fetched, message, fetch_error}
use mini_marketplace.Orders.Events.{created_payload, confirmed_payload, cancelled_payload}
use mini_marketplace.Orders.Tests.Data.{first_order}
use mini_marketplace.Notification.{
  OrderEvent, NotificationDb, Call, begin, commit, Host, build_message, order_event, handle_message,
  run, has_row,
}
use mini_marketplace.Notification.Once.{
  IsOnce, IsBacked, run-IsOnce, run-IsBacked, handle_message_marks,
}
use mini_marketplace.Notification.Contract.{order_event_contract}

cancelled_message :
    build_message "order.cancelled" "o1" "no apples" ≡ "Ваш заказ o1 отменён: no apples"
unfolding build_message
cancelled_message = refl

abbrev empty_db : NotificationDb
empty_db = record { inbox_events = []; sent = [] }

abbrev confirmed_message : Message
confirmed_message = record {
  topic = "order.confirmed";
  key = "o1";
  value = encoded (obj (field "order_id" (text "o1") end));
}

abbrev broken_message : Message
broken_message = record confirmed_message { value = garbage }

-- The first delivery finds no connection, the second succeeds, the third is a duplicate.
abbrev rounds : List (String × List Fetched)
rounds =
    ("order.confirmed", message confirmed_message ∷ fetch_error ∷ message broken_message ∷ [])
    ∷ ("order.created", message confirmed_message ∷ [])
    ∷ ("order.confirmed", message confirmed_message ∷ message confirmed_message ∷ [])
    ∷ []

-- In the first round the loops cannot begin a transaction.
abbrev shaky : ℕ → ℕ → Host
shaky zero k = record { fails = λ c. elim c [ begin ↦ true | _ ↦ false ] }
shaky (suc n) k = record { fails = λ c. false }

shaky_commits : (n k : ℕ) → (shaky n k).fails commit ≡ false
shaky_commits zero k = refl
shaky_commits (suc n) k = refl

run-IsOnce_example : IsOnce (run shaky 0 rounds empty_db)
run-IsOnce_example =
    run-IsOnce shaky 0 rounds empty_db shaky_commits (record { keys = tt; all_marked = refl })

run-IsBacked_example : IsBacked (run shaky 0 rounds empty_db)
run-IsBacked_example = run-IsBacked shaky 0 rounds empty_db tt

handle_message_marks_example :
    let out = handle_message (shaky 1) "order.confirmed" 0 confirmed_message empty_db in
    (order_event confirmed_message.value ≡ none → out ≡ (ok tt, empty_db))
    × ((event : OrderEvent)
        → order_event confirmed_message.value ≡ some event
        → (out.0 ≡ ok tt → has_row event.order_id "order.confirmed" out.1.inbox_events ≡ true)
          × (((c : Call) → (shaky 1 0).fails c ≡ false) → out.0 ≡ ok tt))
handle_message_marks_example =
    handle_message_marks (shaky 1) "order.confirmed" 0 confirmed_message empty_db

order_event_contract_example :
    (order_event (created_payload (λ t. "t") first_order)
      ≡ some (record { order_id = "o1"; reason = "" }))
    × (order_event (confirmed_payload "o1") ≡ some (record { order_id = "o1"; reason = "" }))
    × (order_event (cancelled_payload "o1" "no apples")
        ≡ some (record { order_id = "o1"; reason = "no apples" }))
order_event_contract_example = order_event_contract (λ t. "t") first_order "o1" "no apples"

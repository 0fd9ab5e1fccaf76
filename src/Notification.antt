-- ===== src/Notification.antt =====
-- notification-service/internal: the message of a notification, the inbox table of
-- notification-service/migrations, the repository, the use case and the consumer. The sending of a
-- notification is a line of the log: it is kept in the order written, and no rollback takes it
-- back. Other log lines and metrics are left out.
pub mod Once
pub mod Contract
mod Tests
use mini_marketplace.Base.{
  ℕ, suc, String, Bool, true, false, ◌&&◌, Option, none, some, List, [], ◌∷◌, ◌++◌, ok, err, Result,
  if◌then◌else◌, text_eq,
}
use Prim.Native.String.{◌++◌ as text_append}
use mini_marketplace.Base.Json.{Bytes, text_at}
use mini_marketplace.Base.Kafka.{Message, Fetched, fields_of, consume}

unfoldable pub build_message : String → String → String → String
unfolding text_eq
build_message event_type order_id reason =
    if text_eq event_type "order.created"
    then text_append "Ваш заказ " (text_append order_id " принят в обработку")
    else (if text_eq event_type "order.confirmed"
        then text_append "Ваш заказ " (text_append order_id " подтверждён, товар зарезервирован")
        else (if text_eq event_type "order.cancelled"
            then text_append "Ваш заказ " (text_append order_id (text_append " отменён: " reason))
            else text_append "Обновление по заказу " order_id))

-- `ErrAlreadyProcessed`, and an error of the driver
pub data NotificationError : Type 0 where
  already_processed driver : NotificationError

-- a row of `inbox_events`
pub record InboxRow : Type 0 where
  pub order_id : String
  pub event_type : String

-- the line of the log that sends a notification
pub record SentNotification : Type 0 where
  pub order_id : String
  pub event_type : String
  pub message : String

pub record NotificationDb : Type 0 where
  pub inbox_events : List InboxRow
  pub sent : List SentNotification

-- The calls of the driver; the insert fails here by anything but a violated key.
pub data Call : Type 0 where
  begin insert_inbox commit : Call

pub record Host : Type 0 where
  pub fails : Call → Bool

-- the primary key (order_id, event_type)
unfoldable pub has_row : String → String → List InboxRow → Bool
has_row order_id event_type [] = false
has_row order_id event_type (r ∷ rows) =
    if text_eq r.order_id order_id && text_eq r.event_type event_type
    then true
    else has_row order_id event_type rows

unfoldable pub mark_processed_and_notify :
    Host
    → String
    → String
    → String
    → NotificationDb
    → Result NotificationError (Unit {0}) × NotificationDb
mark_processed_and_notify h order_id event_type message db =
    let row : InboxRow = record { order_id = order_id; event_type = event_type } in
    let line : SentNotification = record {
      order_id = order_id;
      event_type = event_type;
      message = message;
    } in
    let notified : NotificationDb = record db { sent = db.sent ++ line ∷ [] } in
    if h.fails begin
    then (err driver, db)
    else (if h.fails insert_inbox
        then (err driver, db)
        else (if has_row order_id event_type db.inbox_events
            then (err already_processed, db)
            else (if h.fails commit
                then (err driver, notified)
                else (ok tt, record notified { inbox_events = db.inbox_events ++ row ∷ [] }))))

unfoldable pub notify :
    Host
    → String
    → String
    → String
    → NotificationDb
    → Result NotificationError (Unit {0}) × NotificationDb
notify h order_id event_type reason db =
    mark_processed_and_notify h order_id event_type (build_message event_type order_id reason) db

pub record OrderEvent : Type 0 where
  pub order_id : String
  pub reason : String

unfoldable pub order_event : Bytes → Option OrderEvent
unfolding fields_of text_at
order_event value = elim (fields_of value) [
  | none ↦ none
  | some fs ↦ elim (text_at "order_id" fs) [
    | none ↦ none
    | some order_id ↦ elim (text_at "reason" fs) [
      | none ↦ none
      | some reason ↦ some (record { order_id = order_id; reason = reason })
    ]
  ]
]

-- the end of `handleMessage`: a duplicate is acknowledged
unfoldable pub acknowledge :
    Result NotificationError (Unit {0}) × NotificationDb
    → Result NotificationError (Unit {0}) × NotificationDb
acknowledge (ok _, db) = (ok tt, db)
acknowledge (err already_processed, db) = (ok tt, db)
acknowledge (err e, db) = (err e, db)

unfoldable pub handle_message :
    (ℕ → Host)
    → String
    → ℕ
    → Message
    → NotificationDb
    → Result NotificationError (Unit {0}) × NotificationDb
unfolding acknowledge
handle_message hosts topic n msg db = elim (order_event msg.value) [
  | none ↦ (ok tt, db)
  | some event ↦ acknowledge (notify (hosts n) event.order_id topic event.reason db)
]

-- the loop of one topic, from what it fetches to the messages committed
unfoldable pub consume_loop :
    (ℕ → Host) → String → List Fetched → NotificationDb → NotificationDb × List Message
consume_loop hosts topic fetched db = consume (handle_message hosts topic) 0 fetched db []

-- `Run` starts a loop per topic. The list says which loop goes on next and what it fetches, so it
-- is any interleaving of the loops.
unfoldable pub run :
    (ℕ → ℕ → Host) → ℕ → List (String × List Fetched) → NotificationDb → NotificationDb
run hosts n [] db = db
run hosts n ((topic, fetched) ∷ rounds) db =
    run hosts (suc n) rounds (consume_loop (hosts n) topic fetched db).0

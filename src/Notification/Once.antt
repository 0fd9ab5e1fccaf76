-- ===== src/Notification/Once.antt =====
-- How often a customer is notified of an event
-- (notification-service/internal/repository/postgres/inbox_repo.go and
-- internal/consumer/order-events-consumer.go).
use mini_marketplace.Base.{
  ℕ, suc, String, ◌≡◌, refl, ◌⊎◌, inl, inr, true, false, ◌&&◌, none, some, List, [], ◌∷◌, ◌++◌, map,
  ok, arith, Option-cases, text_eq, text_eq_sym, text_eq_refl, All, All-append, All-map, In,
  In-append_left, In-append_right,
}
use mini_marketplace.Base.Kafka.{Message, Fetched, consume_keeps}
use mini_marketplace.Notification.{
  InboxRow, SentNotification, NotificationDb, Call, begin, insert_inbox, commit, Host, has_row,
  build_message, mark_processed_and_notify, notify, OrderEvent, order_event, acknowledge,
  handle_message, consume_loop, run,
}

-- What a line of the log is about.
abbrev pub about : SentNotification → InboxRow
about s = record { order_id = s.order_id; event_type = s.event_type }

-- The primary key of `inbox_events`.
abbrev pub HasInboxKeys : List InboxRow → Type 0
HasInboxKeys [] = Unit
HasInboxKeys (r ∷ rows) = (has_row r.order_id r.event_type rows ≡ false) × HasInboxKeys rows

-- Every notification stands in the inbox, in the order sent, and none of them twice.
pub record IsOnce (db : NotificationDb) : Type 0 where
  pub keys : HasInboxKeys db.inbox_events
  pub all_marked : map about db.sent ≡ db.inbox_events

-- Every row of the inbox has its notification.
abbrev pub IsBacked : NotificationDb → Type 0
IsBacked db = All (λ (r : InboxRow). In r (map about db.sent)) db.inbox_events

module _ (h : Host) (order_id event_type reason : String) (db : NotificationDb) where
  abbrev line : SentNotification
  line = record {
    order_id = order_id;
    event_type = event_type;
    message = build_message event_type order_id reason;
  }

  -- What a call of `Notify` leaves.
  notify_leaves :
      ((notify h order_id event_type reason db).1 ≡ db)
      ⊎ ((has_row order_id event_type db.inbox_events ≡ false)
          × (((h.fails commit ≡ true)
                × ((notify h order_id event_type reason db).1
                    ≡ record db { sent = db.sent ++ line ∷ [] }))
              ⊎ ((notify h order_id event_type reason db).1 ≡ record {
                inbox_events = db.inbox_events ++ about line ∷ [];
                sent = db.sent ++ line ∷ [];
              })))
  unfolding notify mark_processed_and_notify
  notify_leaves = ground arith

-- An event is no event, or `Notify` decides what is left.
handle_message-state :
    (hosts : ℕ → Host) (topic : String) (n : ℕ) (m : Message) (db : NotificationDb)
    → ((handle_message hosts topic n m db).1 ≡ db)
      ⊎ ((order_id reason : String) × ((handle_message hosts topic n m db).1
            ≡ (notify (hosts n) order_id topic reason db).1))
unfolding handle_message
handle_message-state hosts topic n m db = elim (Option-cases (order_event m.value)) [
  | inl garbled ↦ inl (ground arith)
  | inr (event, read) ↦ inr (event.order_id, event.reason, ground arith)
]

map-append_one :
    (s : SentNotification) (ss : List SentNotification)
    → map about (ss ++ s ∷ []) ≡ map about ss ++ about s ∷ []
map-append_one s [] = refl
map-append_one s (x ∷ ss) = ground (arith, map-append_one s ss)

has_row-append_ne :
    (a b : String) (r : InboxRow) (rows : List InboxRow)
    → has_row a b rows ≡ false
    → (text_eq r.order_id a && text_eq r.event_type b) ≡ false
    → has_row a b (rows ++ r ∷ []) ≡ false
unfolding has_row
has_row-append_ne a b r [] e d = ground arith
has_row-append_ne a b r (x ∷ rows) e d = ground (arith, has_row-append_ne a b r rows)

HasInboxKeys-append :
    (r : InboxRow) (rows : List InboxRow)
    → has_row r.order_id r.event_type rows ≡ false
    → HasInboxKeys rows
    → HasInboxKeys (rows ++ r ∷ [])
unfolding has_row
HasInboxKeys-append r [] free k = (refl, tt)
HasInboxKeys-append r (x ∷ rows) free k = (
  has_row-append_ne x.order_id x.event_type r rows k.0
      (ground (arith, text_eq_sym r.order_id x.order_id, text_eq_sym r.event_type x.event_type)),
  HasInboxKeys-append r rows (ground arith) k.1,
)

handle_message-IsOnce :
    (hosts : ℕ → Host) (topic : String)
    → ((n : ℕ) → (hosts n).fails commit ≡ false)
    → (n : ℕ) (m : Message) (db : NotificationDb) → IsOnce db
    → IsOnce (handle_message hosts topic n m db).1
handle_message-IsOnce hosts topic commits n m db v =
    elim (handle_message-state hosts topic n m db) [
      | inl same ↦ rw same v
      | inr (order_id, reason, same) ↦ elim (notify_leaves (hosts n) order_id topic reason db) [
        | inl kept ↦ rw same (rw kept v)
        | inr (free, inl (failed, _)) ↦ absurd (ground (arith, commits n))
        | inr (free, inr both) ↦
            let s : SentNotification = line (hosts n) order_id topic reason db in
            rw same (
              rw both (record {
                keys = HasInboxKeys-append (about s) db.inbox_events free v.keys;
                all_marked = rw (map-append_one s db.sent, v.all_marked);
              }))
      ]
    ]

-- At most once: whatever the loops fetch, in whatever interleaving, duplicates and foreign
-- messages included, as long as no commit fails, the notifications sent stay one for each row of
-- the inbox, in its order, and no order has two of one event type.
pub run-IsOnce :
    (hosts : ℕ → ℕ → Host) (n : ℕ) (rounds : List (String × List Fetched)) (db : NotificationDb)
    → ((n k : ℕ) → (hosts n k).fails commit ≡ false)
    → IsOnce db
    → IsOnce (run hosts n rounds db)
unfolding run consume_loop
run-IsOnce hosts n [] db commits v = v
run-IsOnce hosts n ((topic, fetched) ∷ rounds) db commits v =
    run-IsOnce hosts (suc n) rounds _ commits (
      consume_keeps (handle_message (hosts n) topic) IsOnce
        (handle_message-IsOnce (hosts n) topic (commits n)) 0 fetched db [] v)

handle_message-IsBacked :
    (hosts : ℕ → Host) (topic : String) (n : ℕ) (m : Message) (db : NotificationDb)
    → IsBacked db
    → IsBacked (handle_message hosts topic n m db).1
handle_message-IsBacked hosts topic n m db v = elim (handle_message-state hosts topic n m db) [
  | inl same ↦ rw same v
  | inr (order_id, reason, same) ↦
      let s : SentNotification = line (hosts n) order_id topic reason db in
      let more : All (λ (r : InboxRow). In r (map about (db.sent ++ s ∷ []))) db.inbox_events =
        rw (map-append_one s db.sent) (
          All-map db.inbox_events (λ r i. In-append_left r (map about db.sent) (about s ∷ []) i)
            v) in
      elim (notify_leaves (hosts n) order_id topic reason db) [
        | inl kept ↦ rw same (rw kept v)
        | inr (free, inl (failed, only_sent)) ↦ rw same (rw only_sent more)
        | inr (free, inr both) ↦ rw same (
            rw both (
              All-append (λ (r : InboxRow). In r (map about (db.sent ++ s ∷ []))) db.inbox_events
                (about s ∷ []) more
                (
                  rw (map-append_one s db.sent)
                      (In-append_right (about s) (map about db.sent) (about s ∷ []) (inl refl)),
                  tt,
                )))
      ]
]

-- At least once: whichever calls fail, in whatever interleaving of the loops, it stays true that
-- an event is in the inbox only if its notification was sent.
pub run-IsBacked :
    (hosts : ℕ → ℕ → Host) (n : ℕ) (rounds : List (String × List Fetched)) (db : NotificationDb)
    → IsBacked db
    → IsBacked (run hosts n rounds db)
unfolding run consume_loop
run-IsBacked hosts n [] db v = v
run-IsBacked hosts n ((topic, fetched) ∷ rounds) db v = run-IsBacked hosts (suc n) rounds _ (
    consume_keeps (handle_message (hosts n) topic) IsBacked
      (handle_message-IsBacked (hosts n) topic) 0 fetched db [] v)

has_row-append_self :
    (a b : String) (rows : List InboxRow)
    → has_row a b (rows ++ record { order_id = a; event_type = b } ∷ []) ≡ true
unfolding has_row
has_row-append_self a b [] = ground (arith, text_eq_refl a, text_eq_refl b)
has_row-append_self a b (x ∷ rows) = ground (arith, has_row-append_self a b rows)

notify_marks :
    (h : Host) (order_id event_type reason : String) (db : NotificationDb)
    → let out = acknowledge (notify h order_id event_type reason db) in
      (out.0 ≡ ok tt → has_row order_id event_type out.1.inbox_events ≡ true)
      × (((c : Call) → h.fails c ≡ false) → out.0 ≡ ok tt)
unfolding notify mark_processed_and_notify acknowledge
notify_marks h order_id event_type reason db = (
  λ e. ground (arith, has_row-append_self order_id event_type db.inbox_events),
  λ works. ground (arith, works begin, works insert_inbox, works commit),
)

-- A message of an event is acknowledged only if its order and its topic stand in the inbox
-- afterwards, and it is acknowledged whenever no call fails. A message that is no event is
-- acknowledged and changes nothing.
pub handle_message_marks :
    (hosts : ℕ → Host) (topic : String) (n : ℕ) (m : Message) (db : NotificationDb)
    → let out = handle_message hosts topic n m db in
      (order_event m.value ≡ none → out ≡ (ok tt, db))
      × ((event : OrderEvent)
          → order_event m.value ≡ some event
          → (out.0 ≡ ok tt → has_row event.order_id topic out.1.inbox_events ≡ true)
            × (((c : Call) → (hosts n).fails c ≡ false) → out.0 ≡ ok tt))
unfolding handle_message
handle_message_marks hosts topic n m db = (
  λ garbled. ground arith,
  λ event read.
      let handled : handle_message hosts topic n m db
          ≡ acknowledge (notify (hosts n) event.order_id topic event.reason db) =
        ground arith in
      rw handled (notify_marks (hosts n) event.order_id topic event.reason db),
)

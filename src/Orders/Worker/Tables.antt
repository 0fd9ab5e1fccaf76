-- ===== src/Orders/Worker/Tables.antt =====
-- What one batch leaves in the tables, row by row (order-service/internal/outbox/worker.go).
use mini_marketplace.Base.{
  ◌+◌, String, ◌≡◌, refl, ◌∙◌, ap, sym, inl, inr, Bool, true, false, ◌&&◌, some, List, [], ◌∷◌, map,
  arith, text_eq, if◌then◌else◌, update, Bool-cases,
}
use mini_marketplace.Base.Kafka.{Message}
use mini_marketplace.Orders.Domain.{
  OrderStatus, created, awaiting_stock, confirmed, cancelled, completed, status_eq,
}
use mini_marketplace.Orders.Events.{order_created}
use mini_marketplace.Orders.Store.{OrderRow, OutboxRow, sent, OrderDb, Host}
use mini_marketplace.Orders.Worker.{
  OutboxRecord, record_of, message_of, mark_sent, transition_to_awaiting_stock,
}
use mini_marketplace.Orders.Worker.Batch.{deliver, deliver_all}
use mini_marketplace.Orders.Worker.Sent.{marked, outbox-deliver}

-- Some row has the id.
abbrev pub is_row : String → List OutboxRow → Bool
is_row id [] = false
is_row id (x ∷ rows) = if text_eq id x.id then true else is_row id rows

-- Some row announces the order as new.
abbrev pub announced : String → List OutboxRow → Bool
announced id [] = false
announced id (x ∷ rows) =
    if text_eq x.event_type "order.created" && text_eq id x.aggregate_id
    then true
    else announced id rows

abbrev is_created : OrderStatus → Bool
is_created s = elim s [ created ↦ true | _ ↦ false ]

-- A row of `outbox` after a batch that read the rows.
abbrev pub outbox_after : Host → List OutboxRow → OutboxRow → OutboxRow
outbox_after h rows r =
    if is_row r.id rows then record r { status = sent; sent_at = some (h.timestamptz h.now) } else r

-- A row of `orders` after it.
abbrev pub order_after : Host → List OutboxRow → OrderRow → OrderRow
order_after h rows r =
    if is_created r.status && announced r.id rows
    then record r {
      status = awaiting_stock;
      version = r.version + 1;
      updated_at = h.timestamptz h.now;
    }
    else r

-- The message that the row asks for.
abbrev pub asked : OutboxRow → Message
asked r = record { topic = r.event_type; key = r.aggregate_id; value = r.payload }

outbox-update :
    (h : Host) (x : OutboxRow) (more rows : List OutboxRow)
    → map (outbox_after h more) (update (λ r. text_eq r.id x.id) (marked h) rows)
      ≡ map (outbox_after h (x ∷ more)) rows
outbox-update h x more [] = refl
outbox-update h x more (r ∷ rows) = ground (arith, outbox-update h x more rows)

map_same : {A : Type 0} (f : A → A) (rows : List A) → ((r : A) → f r ≡ r) → map f rows ≡ rows
map_same f [] same = refl
map_same f (r ∷ rows) same = ground (arith, same r, map_same f rows same)

outbox-rows :
    (h : Host) (rows : List OutboxRow) (db : OrderDb)
    → (deliver_all h (map record_of rows) db).outbox ≡ map (outbox_after h rows) db.outbox
unfolding deliver_all record_of
outbox-rows h [] db = sym (map_same (outbox_after h []) db.outbox (λ r. refl))
outbox-rows h (x ∷ rows) db =
    outbox-rows h rows (deliver h (record_of x) db)
    ∙ ap (map (outbox_after h rows)) (outbox-deliver h (record_of x) db)
    ∙ outbox-update h x rows db.outbox

status_eq-created : (s : OrderStatus) → status_eq s created ≡ is_created s
unfolding status_eq
status_eq-created created = refl
status_eq-created awaiting_stock = refl
status_eq-created confirmed = refl
status_eq-created cancelled = refl
status_eq-created completed = refl

-- An order that the message of a new order moves.
orders-announced :
    (h : Host) (x : OutboxRow) (rows : List OrderRow)
    → text_eq x.event_type order_created ≡ true
    → update
        (λ r. text_eq r.id x.aggregate_id && status_eq r.status created)
        (λ r. record r {
          status = awaiting_stock;
          version = r.version + 1;
          updated_at = h.timestamptz h.now;
        })
        rows
      ≡ map (order_after h (x ∷ [])) rows
orders-announced h x [] e = refl
orders-announced h x (r ∷ rows) e =
    ground (arith, status_eq-created r.status, orders-announced h x rows e)

order_after-silent :
    (h : Host) (x : OutboxRow)
    → text_eq x.event_type order_created ≡ false
    → (r : OrderRow) → order_after h (x ∷ []) r ≡ r
order_after-silent h x e r = ground arith

orders-deliver :
    (h : Host) (x : OutboxRow) (db : OrderDb)
    → (deliver h (record_of x) db).orders ≡ map (order_after h (x ∷ [])) db.orders
unfolding deliver mark_sent transition_to_awaiting_stock record_of
orders-deliver h x db = elim (Bool-cases (text_eq x.event_type order_created)) [
  | inl e ↦ rw e (orders-announced h x db.orders e)
  | inr e ↦ rw e (sym (map_same (order_after h (x ∷ [])) db.orders (order_after-silent h x e)))
]

order_after-after :
    (h : Host) (x : OutboxRow) (more : List OutboxRow) (r : OrderRow)
    → order_after h more (order_after h (x ∷ []) r) ≡ order_after h (x ∷ more) r
order_after-after h x more r = elim (Bool-cases (is_created r.status)) [
  | inl e ↦ ground arith
  | inr e ↦ ground arith
]

orders-step :
    (h : Host) (x : OutboxRow) (more : List OutboxRow) (rows : List OrderRow)
    → map (order_after h more) (map (order_after h (x ∷ [])) rows)
      ≡ map (order_after h (x ∷ more)) rows
orders-step h x more [] = refl
orders-step h x more (r ∷ rows) =
    rw (order_after-after h x more r)
      (ap (◌∷◌ (order_after h (x ∷ more) r)) (orders-step h x more rows))

orders-rows :
    (h : Host) (rows : List OutboxRow) (db : OrderDb)
    → (deliver_all h (map record_of rows) db).orders ≡ map (order_after h rows) db.orders
unfolding deliver_all
orders-rows h [] db = sym (map_same (order_after h []) db.orders (λ r. ground arith))
orders-rows h (x ∷ rows) db =
    orders-rows h rows (deliver h (record_of x) db)
    ∙ ap (map (order_after h rows)) (orders-deliver h x db)
    ∙ orders-step h x rows db.orders

items-kept :
    (h : Host) (records : List OutboxRecord) (db : OrderDb)
    → (deliver_all h records db).items ≡ db.items
unfolding deliver_all deliver mark_sent transition_to_awaiting_stock
items-kept h [] db = refl
items-kept h (rec ∷ records) db = items-kept h records (deliver h rec db) ∙ ground arith

-- The tables after a batch that read the rows.
abbrev pub tables_after : Host → List OutboxRow → OrderDb → OrderDb
tables_after h rows db = record {
  orders = map (order_after h rows) db.orders;
  items = db.items;
  outbox = map (outbox_after h rows) db.outbox;
}

pub deliver_all-after :
    (h : Host) (rows : List OutboxRow) (db : OrderDb)
    → deliver_all h (map record_of rows) db ≡ tables_after h rows db
deliver_all-after h rows db = λ i. record {
  orders = orders-rows h rows db i;
  items = items-kept h (map record_of rows) db i;
  outbox = outbox-rows h rows db i;
}

pub messages-asked : (rows : List OutboxRow) → map message_of (map record_of rows) ≡ map asked rows
unfolding message_of record_of
messages-asked [] = refl
messages-asked (r ∷ rows) = ap (◌∷◌ (asked r)) (messages-asked rows)

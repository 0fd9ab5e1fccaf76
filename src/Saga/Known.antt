-- ===== src/Saga/Known.antt =====
-- What the operations of order-service do to the orders that exist and to the `order.created` events
-- that name them. The lines of an order are what its event asks for.
use mini_marketplace.Base.{
  ℕ, String, ◌≡◌, refl, sym, inl, inr, Bool, true, none, some, List, [], ◌∷◌, ◌++◌, Option-cases,
  arith, text_eq, All, All-append, All-map, update, is_some, first-append_some,
}
use mini_marketplace.Base.Json.{key, text_at, items_at}
use mini_marketplace.Base.Kafka.{Message, fields_of}
use mini_marketplace.Orders.Domain.{OrderItem, Order}
use mini_marketplace.Orders.Events.{order_created, created_payload}
use mini_marketplace.Orders.Store.{OrderDb, OrderRow, OutboxRow}
use mini_marketplace.Orders.Repository.Valid.{IsValid, row_at, row_at-update}
use mini_marketplace.Orders.Worker.Sent.{row_message}
use mini_marketplace.Inventory.Consumer.{OrderCreatedEvent, order_created_event, event_of_fields}
use mini_marketplace.Base.{text_eq→eq, ◌∙◌, map, false, Bool-cases}
use mini_marketplace.Orders.Events.{json_items, json_item}
use mini_marketplace.Inventory.Repository.{ReservationItem}
use mini_marketplace.Inventory.Repository.Levels.{total_of}
use mini_marketplace.Inventory.Consumer.{item_of, items_of}
use mini_marketplace.Inventory.Consumer.Contract.{requested}
use mini_marketplace.Saga.Lines.{ordered}

-- There is an order of this id.
abbrev pub IsKnown : List OrderRow → String → Type 0
IsKnown rows id = is_some (row_at id rows) ≡ true

-- An `order.created` message, as inventory-service reads it, names an order that there is, and asks
-- for what its lines ask for.
abbrev pub IsOfOrder : OrderDb → Message → Type 0
IsOfOrder db m =
    m.topic ≡ order_created
    → (event : OrderCreatedEvent) → order_created_event m.value ≡ some event
    → IsKnown db.orders event.order_id
      × ((k : String) → total_of k event.items ≡ ordered k event.order_id db.items)

-- Every event of the outbox does.
abbrev pub AreOfOrders : OrderDb → Type 0
AreOfOrders db = All (λ r. IsOfOrder db (row_message r)) db.outbox

-- No order is lost, and none asks for more or less.
abbrev pub Keeps : OrderDb → OrderDb → Type 0
Keeps db db' =
    (id : String)
    → IsKnown db.orders id
    → IsKnown db'.orders id × ((k : String) → ordered k id db'.items ≡ ordered k id db.items)

-- Tables after a write, with what it keeps of those before it.
abbrev pub IsTraced : OrderDb → OrderDb → Type 0
IsTraced db db' = AreOfOrders db' × IsValid db' × Keeps db db'

pub IsTraced-refl : (db : OrderDb) → AreOfOrders db → IsValid db → IsTraced db db
IsTraced-refl db stored valid = (stored, valid, λ id known. (known, λ k. refl))

pub IsOfOrder-kept :
    (db db' : OrderDb) (m : Message) → Keeps db db' → IsOfOrder db m → IsOfOrder db' m
IsOfOrder-kept db db' m keeps of_order topic event read =
    let (known, asked) = of_order topic event read in
    let (known', same) = keeps event.order_id known in (known', λ k. asked k ∙ sym (same k))

-- What inventory-service reads from the items of the event of a new order.
item_of-json_item :
    (it : OrderItem) (r : ReservationItem) → item_of (json_item it) ≡ some r → r ≡ requested it
unfolding item_of json_item key text_eq
item_of-json_item it r read = ground arith

items_of-json_items :
    (items : List OrderItem) (rs : List ReservationItem)
    → items_of (json_items items) ≡ some rs
    → rs ≡ map requested items
unfolding items_of json_items
items_of-json_items [] rs read = ground arith
items_of-json_items (it ∷ items) rs read = elim (Option-cases (item_of (json_item it))) [
  | inl garbled ↦ absurd (ground arith)
  | inr (r, first) ↦ elim (Option-cases (items_of (json_items items))) [
    | inl garbled ↦ absurd (ground arith)
    | inr (rest, others) ↦
        ground (arith, item_of-json_item it r first, items_of-json_items items rest others)
  ]
]

-- What inventory-service reads from the event of a new order.
pub created_event-requested :
    (rfc3339 : ℕ → String) (o : Order) (event : OrderCreatedEvent)
    → order_created_event (created_payload rfc3339 o) ≡ some event
    → (event.order_id ≡ o.id) × (event.items ≡ map requested o.items)
unfolding order_created_event created_payload fields_of event_of_fields text_at items_at key text_eq
created_event-requested rfc3339 o event read = elim (Option-cases (items_of (json_items o.items))) [
  | inl garbled ↦ absurd (ground arith)
  | inr (rs, items) ↦ ground (arith, items_of-json_items o.items rs items)
]

pub IsKnown-append :
    (id : String) (rows more : List OrderRow) → IsKnown rows id → IsKnown (rows ++ more) id
IsKnown-append id rows more known = elim (Option-cases (row_at id rows)) [
  | inl absent ↦ absurd (ground arith)
  | inr (r, found) ↦
      rw (first-append_some (λ (x : OrderRow). text_eq x.id id) rows more {x = r} found)
]

IsKnown-update :
    (id : String) (q : OrderRow → Bool) (f : OrderRow → OrderRow) (rows : List OrderRow)
    → ((r : OrderRow) → (f r).id ≡ r.id)
    → IsKnown rows id
    → IsKnown (update q f rows) id
IsKnown-update id q f rows keep known =
    let same = row_at-update id q f rows keep in
    elim (Option-cases (row_at id rows)) [
      | inl absent ↦ absurd (ground arith)
      | inr (r, found) ↦ rw (same, found)
    ]

-- An id that is known is not one that is free.
pub known_ne_free :
    (id other : String) (rows : List OrderRow)
    → IsKnown rows id
    → row_at other rows ≡ none
    → text_eq other id ≡ false
known_ne_free id other rows known free = elim (Bool-cases (text_eq other id)) [
  | inl e ↦
      let same : other ≡ id = text_eq→eq other id e in
      let free' : row_at id rows ≡ none = rw (← same) free in absurd (ground arith)
  | inr e ↦ e
]

-- A write that updates rows of `orders` and leaves the other tables.
pub update-Keeps :
    (q : OrderRow → Bool) (f : OrderRow → OrderRow) (db db' : OrderDb)
    → ((r : OrderRow) → (f r).id ≡ r.id)
    → db'.orders ≡ update q f db.orders
    → db'.items ≡ db.items
    → Keeps db db'
update-Keeps q f db db' keep rows items id known =
    (rw rows (IsKnown-update id q f db.orders keep known), λ k. rw items)

-- One more event, that names an order if it is `order.created`.
pub AreOfOrders-event :
    (db db' : OrderDb) (r : OutboxRow)
    → db'.outbox ≡ db.outbox ++ r ∷ []
    → Keeps db db'
    → IsOfOrder db' (row_message r)
    → AreOfOrders db
    → AreOfOrders db'
AreOfOrders-event db db' r grown keeps new stored = rw grown (
    All-append (λ x. IsOfOrder db' (row_message x)) db.outbox (r ∷ [])
      (All-map db.outbox (λ x p. IsOfOrder-kept db db' (row_message x) keeps p) stored) (new, tt))

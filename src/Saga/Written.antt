-- ===== src/Saga/Written.antt =====
-- The writes of order-service against the orders that events name: a new order, and a status with its
-- event.
use mini_marketplace.Base.{
  String, ◌≡◌, ◌≢◌, refl, sym, inl, inr, none, List, [], ◌∷◌, ◌++◌, ok, arith, text_eq, All,
  All-map,
}
use mathlib.Core.Path.{subst}
use mini_marketplace.Base.Json.{Bytes}
use mini_marketplace.Orders.Domain.{
  OrderItem, Order, OrderStatus, created, awaiting_stock, confirmed, cancelled, completed,
}
use mini_marketplace.Orders.Events.{order_created, created_payload}
use mini_marketplace.Orders.Store.{OrderDb, Host}
use mini_marketplace.Orders.Repository.{row_of, outbox_row}
use mini_marketplace.Orders.Repository.Atomic.{saved, moved}
use mini_marketplace.Orders.Repository.Valid.{
  IsValid, saved-IsValid, moved-IsValid, row_at, row_at-append_self,
}
use mini_marketplace.Orders.Usecase.{create_order, build_status_event}
use mini_marketplace.Orders.Usecase.Create.{create_order_atomic}
use mini_marketplace.Orders.Server.Replies.{new_order-fields}
use mini_marketplace.Orders.Worker.{record_of, message_of}
use mini_marketplace.Orders.Worker.Sent.{row_message}
use mini_marketplace.Base.Int.{int_laws}
use mini_marketplace.Base.{text_eq_sym, ◌∙◌, map, false}
use mini_marketplace.Orders.Store.{ItemRow}
use mini_marketplace.Orders.Repository.{item_row}
use mini_marketplace.Inventory.Repository.Levels.{total_of}
use mini_marketplace.Inventory.Consumer.Contract.{requested}
use mini_marketplace.Saga.Lines.{ordered, ordered-append, ordered_elsewhere, ordered-item_row}
use mini_marketplace.Saga.Known.{
  IsKnown, IsOfOrder, AreOfOrders, Keeps, IsTraced, IsTraced-refl, created_event-requested,
  IsKnown-append, known_ne_free, update-Keeps, AreOfOrders-event,
}

rows_of_order :
    (id : String) (items : List OrderItem)
    → All (λ (i : ItemRow). i.order_id ≡ id) (map (item_row id) items)
unfolding item_row
rows_of_order id [] = tt
rows_of_order id (it ∷ items) = (refl, rows_of_order id items)

-- The lines of a table with a new order, for one that was there and for the new one.
module _ (h : Host) (o : Order) (db : OrderDb) (free : row_at o.id db.orders ≡ none) where
  ordered-saved :
      (k id : String)
      → text_eq o.id id ≡ false
      → ordered k id (db.items ++ map (item_row o.id) o.items) ≡ ordered k id db.items
  ordered-saved k id apart =
      let more = map (item_row o.id) o.items in
      let others : All (λ (i : ItemRow). text_eq i.order_id id ≡ false) more =
        All-map more (λ (i : ItemRow) (e : i.order_id ≡ o.id). rw e apart)
          (rows_of_order o.id o.items) in
      rw (ordered-append k id db.items more, ordered_elsewhere k id more others) (omega int_laws)

  ordered-saved_self :
      (k : String)
      → IsValid db
      → ordered k o.id (db.items ++ map (item_row o.id) o.items)
        ≡ total_of k (map requested o.items)
  ordered-saved_self k valid =
      let others =
        All-map db.items
          (λ (i : ItemRow) known.
            text_eq_sym i.order_id o.id ∙ known_ne_free i.order_id o.id db.orders known free)
          valid.owned in
      rw
        (
          ordered-append k o.id db.items (map (item_row o.id) o.items),
          ordered_elsewhere k o.id db.items others,
          ordered-item_row k o.id o.items,
        )
        (omega int_laws)

  -- Tables with a new order and its event.
  saved-IsTraced :
      AreOfOrders db
      → IsValid db
      → IsTraced db (saved h o order_created (created_payload h.rfc3339 o) db)
  unfolding saved row_of outbox_row record_of message_of
  saved-IsTraced stored valid =
      let payload = created_payload h.rfc3339 o in
      let db' = saved h o order_created payload db in
      let keeps : Keeps db db' = λ id known. (
        IsKnown-append id db.orders (row_of h o ∷ []) known,
        λ k. ordered-saved k id (known_ne_free id o.id db.orders known free),
      ) in
      let here : IsKnown db'.orders o.id = rw (row_at-append_self (row_of h o) db.orders free) in
      let new : IsOfOrder db' (row_message (outbox_row h o.id order_created payload)) =
        λ topic event read.
          let (same, items) = created_event-requested h.rfc3339 o event read in
          (
            subst (IsKnown db'.orders) (sym same) here,
            λ k. rw (items, same) (sym (ordered-saved_self k valid)),
          ) in
      (
        AreOfOrders-event db db' _ refl keeps new stored,
        saved-IsValid h o order_created payload db valid free,
        keeps,
      )

pub create_order-IsTraced :
    (h : Host) (customer_id : String) (items : List OrderItem) (db : OrderDb)
    → AreOfOrders db
    → IsValid db
    → IsTraced db (create_order h customer_id items db).1
create_order-IsTraced h customer_id items db stored valid =
    elim (create_order_atomic h customer_id items db).0 [
      | inl (e, failed, _) ↦ rw failed (IsTraced-refl db stored valid)
      | inr (o, new, free, done) ↦
          let (id, _, _, _, _) = new_order-fields h.now h.new_id customer_id items new in
          rw done (saved-IsTraced h o db (rw id free) stored valid)
    ]

-- An announced status is no `order.created`.
pub build_status_event-type :
    (o : Order) (s : OrderStatus) (reason : String) {event_type : String} {payload : Bytes}
    → build_status_event o s reason ≡ ok (event_type, payload)
    → event_type ≢ order_created
unfolding build_status_event
build_status_event-type o created reason e = absurd (ground arith)
build_status_event-type o awaiting_stock reason e = absurd (ground arith)
build_status_event-type o completed reason e = absurd (ground arith)
build_status_event-type o confirmed reason {event_type} e =
    let same : "order.confirmed" ≡ event_type = ground arith in rw (← same) (λ apart. absurd (cc))
build_status_event-type o cancelled reason {event_type} e =
    let same : "order.cancelled" ≡ event_type = ground arith in rw (← same) (λ apart. absurd (cc))

pub moved-IsTraced :
    (h : Host) (o : Order) (event_type : String) (payload : Bytes) (db : OrderDb)
    → event_type ≢ order_created
    → AreOfOrders db
    → IsValid db
    → IsTraced db (moved h o event_type payload db)
unfolding moved outbox_row record_of message_of
moved-IsTraced h o event_type payload db apart stored valid =
    let db' = moved h o event_type payload db in
    let keeps : Keeps db db' = update-Keeps _ _ db db' (λ r. refl) refl refl in
    (
      AreOfOrders-event db db' _ refl keeps (λ topic. absurd (apart topic)) stored,
      moved-IsValid h o event_type payload db valid,
      keeps,
    )

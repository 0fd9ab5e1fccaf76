-- ===== src/Orders/Server/Replies.antt =====
-- What the gRPC server replies (order-service/internal/delivery/grpc/order_server.go).
use mini_marketplace.Base.{
  sym, affected, not, Bool, ℕ, String, ◌≡◌, ◌≢◌, refl, ◌⊎◌, inl, inr, none, some, List, [], ◌∷◌,
  map, ok, err, arith, All, Option-cases, is_some,
}
use mini_marketplace.Base.Int.{IsInt32, wrap32_in_range}
use mini_marketplace.Orders.Domain.{
  created, Money, OrderItem, Order, OrderError, empty_items, new_order, order_of, new_money, driver,
}
use mini_marketplace.Orders.Events.{order_created, created_payload}
use mini_marketplace.Orders.Store.{OrderDb, Host}
use mini_marketplace.Orders.Repository.Atomic.{save_with_event_lem}
use mini_marketplace.Orders.Usecase.{create_order}
use mini_marketplace.Orders.Server.{ItemMessage, item_message, request_items}

-- An item as the handler makes it of a message with a price.
abbrev item_of : ItemMessage → Money → OrderItem
item_of it price = record { sku = it.sku; name = it.name; price = price; quantity = it.quantity }

item_message-item_of :
    (it : ItemMessage) (price : Money)
    → IsInt32 it.quantity
    → it.price ≡ some price
    → item_message (item_of it price) ≡ it
unfolding item_message
item_message-item_of it price fits set = λ i. record {
  sku = it.sku;
  name = it.name;
  price = sym set i;
  quantity = wrap32_in_range it.quantity fits i;
}

-- The items of a request are sent back as they came.
pub map-request_items :
    (items : List ItemMessage) {its : List OrderItem}
    → All (λ (it : ItemMessage). IsInt32 it.quantity) items
    → request_items items ≡ some its
    → map item_message its ≡ items
unfolding request_items
map-request_items [] fits e = ground arith
map-request_items (it ∷ rest) {its} fits e = elim (Option-cases it.price) [
  | inl unset ↦ absurd (ground arith)
  | inr (price, set) ↦ elim (Option-cases (request_items rest)) [
    | inl unset ↦ absurd (ground arith)
    | inr (its', read) ↦
        let whole : its ≡ item_of it price ∷ its' = unfold new_money in ground arith in
        rw whole (λ i.
          item_message-item_of it price fits.0 set i
          ∷ map-request_items rest {its = its'} fits.1 read i)
  ]
]

-- An item without a price.
abbrev pub is_unpriced : ItemMessage → Bool
is_unpriced it = not (is_some it.price)

pub request_items-none :
    (items : List ItemMessage) → request_items items ≡ none → affected is_unpriced items ≢ 0
unfolding request_items
request_items-none [] e = λ z. cc
request_items-none (it ∷ rest) e = elim (Option-cases it.price) [
  | inl unset ↦ ground arith
  | inr (price, set) ↦ elim (Option-cases (request_items rest)) [
    | inl unset ↦ ground (arith, request_items-none rest unset)
    | inr (its, read) ↦ absurd (ground arith)
  ]
]

pub request_items-some :
    (items : List ItemMessage) {its : List OrderItem}
    → request_items items ≡ some its
    → affected is_unpriced items ≡ 0
unfolding request_items
request_items-some [] e = refl
request_items-some (it ∷ rest) e = elim (Option-cases it.price) [
  | inl unset ↦ absurd (ground arith)
  | inr (price, set) ↦ elim (Option-cases (request_items rest)) [
    | inl unset ↦ absurd (ground arith)
    | inr (its', read) ↦ ground (arith, request_items-some rest {its = its'} read)
  ]
]

pub create_order_errors :
    (h : Host) (customer_id : String) (items : List OrderItem) (db : OrderDb) {e : OrderError}
    {db' : OrderDb}
    → create_order h customer_id items db ≡ (err e, db')
    → (((items ≡ []) × (e ≡ empty_items)) ⊎ (e ≡ driver)) × (db' ≡ db)
unfolding create_order new_order
create_order_errors h customer_id [] db e = (inl (refl, ground arith), ground arith)
create_order_errors h customer_id (it ∷ items) db e =
    let o : Order = order_of h.now h.new_id customer_id it items in
    (
      inr (ground (arith, save_with_event_lem h o order_created (created_payload h.rfc3339 o) db)),
      ground (arith, save_with_event_lem h o order_created (created_payload h.rfc3339 o) db),
    )

pub new_order-fields :
    (now : ℕ) (id customer_id : String) (items : List OrderItem) {o : Order}
    → new_order now id customer_id items ≡ ok o
    → (o.id ≡ id)
      × (o.customer_id ≡ customer_id)
      × (o.items ≡ items)
      × (o.status ≡ created)
      × (o.version ≡ 1)
unfolding new_order order_of
new_order-fields now id customer_id [] e = absurd (ground arith)
new_order-fields now id customer_id (it ∷ items) e =
    (ground arith, ground arith, ground arith, ground arith, ground arith)

-- ===== src/Orders/Usecase/Create.antt =====
-- `CreateOrder` (order-service/internal/usecase/order_usecase.go), from the request to the tables.
use mini_marketplace.Base.{
  ℕ, String, ◌≡◌, refl, ◌⊎◌, inl, inr, none, false, ◌≢◌, List, [], ◌∷◌, ok, err, arith,
}
use mini_marketplace.Orders.Domain.{OrderItem, Order, OrderError, empty_items, order_of, new_order}
use mini_marketplace.Orders.Events.{order_created, created_payload}
use mini_marketplace.Orders.Store.{OrderDb, Call, Host}
use mini_marketplace.Orders.Repository.Atomic.{saved, save_with_event_atomic}
use mini_marketplace.Orders.Repository.Valid.{IsValid, row_at}
use mini_marketplace.Orders.Repository.ReadBack.{as_stored, get_by_id-saved}
use mini_marketplace.Orders.Usecase.{create_order, get_order}

-- `CreateOrder` either returns an error and changes no table, always so for an empty list of
-- items, or it returns the order that `NewOrder` made, whose tables then hold that order, its items
-- and its `order.created` event, and nothing else that is new. With items, a free id and no
-- failing call it is the second.
pub create_order_atomic :
    (h : Host) (customer_id : String) (items : List OrderItem) (db : OrderDb)
    → let out = create_order h customer_id items db in
      (((e : OrderError) × (out ≡ (err e, db)) × (items ≡ [] → e ≡ empty_items))
        ⊎ ((o : Order) × (new_order h.now h.new_id customer_id items ≡ ok o)
            × (row_at h.new_id db.orders ≡ none)
            × (out ≡ (ok o, saved h o order_created (created_payload h.rfc3339 o) db))))
      × (((c : Call) → h.fails c ≡ false)
          → row_at h.new_id db.orders ≡ none
          → items ≢ []
          → (o : Order) × (out.0 ≡ ok o))
unfolding create_order new_order
create_order_atomic h customer_id [] db =
    (inl (empty_items, refl, λ e. refl), λ works free filled. absurd (filled refl))
create_order_atomic h customer_id (it ∷ items) db =
    let o : Order = order_of h.now h.new_id customer_id it items in
    let (outcome, works_fine) =
      save_with_event_atomic h o order_created (created_payload h.rfc3339 o) db in
    (
      elim outcome [
        | inl (e, failed) ↦ inl (e, rw failed, λ none'. cc)
        | inr (done, free) ↦ inr (o, refl, free, rw done)
      ],
      λ works free filled. (o, rw (works_fine works free)),
    )

new_order-id :
    (now : ℕ) (id customer_id : String) (items : List OrderItem) {o : Order}
    → new_order now id customer_id items ≡ ok o
    → o.id ≡ id
unfolding new_order
new_order-id now id customer_id [] h = cc
new_order-id now id customer_id (it ∷ items) h = ground arith

-- On tables with their keys, what `CreateOrder` returned is what `GetOrder` then finds under its
-- id, if no call of that read fails and its loop over the items is not cut short: every field and
-- every item, the two times as far as a TIMESTAMPTZ column keeps them and the customer's id in the
-- text that a UUID column gives back.
pub get_order-create_order :
    (h h' : Host) (customer_id : String) (items : List OrderItem) (db : OrderDb) {o : Order}
    {db' : OrderDb}
    → IsValid db
    → create_order h customer_id items db ≡ (ok o, db')
    → ((c : Call) → h'.fails c ≡ false)
    → h'.cut ≡ none
    → get_order h' o.id db'
      ≡ ok (record o {
        customer_id = h.uuid o.customer_id;
        created_at = h.timestamptz o.created_at;
        updated_at = h.timestamptz o.updated_at;
      })
unfolding get_order as_stored
get_order-create_order h h' customer_id items db {o} {db'} v made works whole =
    elim (create_order_atomic h customer_id items db).0 [
      | inl (e, failed, _) ↦ cc
      | inr (o', new, free, done) ↦
          let same : o' ≡ o = ground arith in
          let tables : saved h o' order_created (created_payload h.rfc3339 o') db ≡ db' = cc in
          let fresh : row_at o'.id db.orders ≡ none =
            rw (new_order-id h.now h.new_id customer_id items new) free in
          rw (← same, ← tables)
            (get_by_id-saved h h' o' order_created (created_payload h.rfc3339 o') db v fresh works
              whole)
    ]

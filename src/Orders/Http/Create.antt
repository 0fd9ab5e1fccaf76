-- ===== src/Orders/Http/Create.antt =====
-- The answers of the HTTP handler to `POST /orders`
-- (order-service/internal/delivery/http/order_handler.go).
use mini_marketplace.Base.{
  ◌<◌, ◌≡◌, ◌≢◌, refl, sym, ◌∙◌, ap, ◌⊎◌, inl, inr, Option, none, some, false, List, [], ◌∷◌, map,
  ok, arith, All, Option-cases,
}
use mini_marketplace.Base.Int.{ℤ, pos, pos_part, ◌≤ℤ◌, ◌*ℤ◌, ◌+ℤ◌, int64_half}
use mini_marketplace.Base.Json.{Bytes}
use mini_marketplace.Orders.Domain.{OrderItem, Order, new_order, new_money}
use mini_marketplace.Orders.Domain.Total.{exact_total, IsPositive, new_order_exact}
use mini_marketplace.Orders.Events.{order_created, created_payload}
use mini_marketplace.Orders.Store.{OrderDb, Host, Call}
use mini_marketplace.Orders.Repository.Atomic.{saved}
use mini_marketplace.Orders.Repository.Valid.{row_at}
use mini_marketplace.Orders.Usecase.Create.{create_order_atomic}
use mini_marketplace.Orders.Server.{status_text}
use mini_marketplace.Orders.Server.Replies.{create_order_errors, new_order-fields}
use mini_marketplace.Orders.Http.{
  CreateOrderItemRequest, CreateOrderRequest, OrderResponse, order_answer, error_answer,
  to_order_response, item_of, created_answer, handle_create_order,
}

-- What the tags of the requests say of a request that was bound: `min=1`, and on every item
-- `gt=0` for the price and for the quantity.
pub record HasTags (req : CreateOrderRequest) : Type 0 where
  pub filled : req.items ≢ []
  pub positive :
      All (λ (it : CreateOrderItemRequest). (pos 1 ≤ℤ it.price) × (pos 1 ≤ℤ it.quantity)) req.items

-- the exact sum of price times quantity
unfoldable pub request_total : List CreateOrderItemRequest → ℤ
request_total [] = pos 0
request_total (it ∷ items) = it.price *ℤ it.quantity +ℤ request_total items

-- A new order, saved, and the answer that tells of it.
pub record IsNewOrder (h : Host) (req : CreateOrderRequest) (r : OrderResponse) : Type 0 where
  pub id : r.id ≡ h.new_id
  pub customer : r.customer_id ≡ req.customer_id
  pub status : r.status ≡ "CREATED"
  pub version : r.version ≡ 1
  pub total :
      pos_part (request_total req.items) < int64_half → r.total_cost ≡ request_total req.items

exact_total-item_of :
    (items : List CreateOrderItemRequest) → exact_total (map item_of items) ≡ request_total items
unfolding exact_total request_total item_of new_money
exact_total-item_of [] = refl
exact_total-item_of (it ∷ items) =
    ap (λ rest. it.price *ℤ it.quantity +ℤ rest) (exact_total-item_of items)

IsPositive-item_of :
    (items : List CreateOrderItemRequest)
    → All (λ (it : CreateOrderItemRequest). (pos 1 ≤ℤ it.price) × (pos 1 ≤ℤ it.quantity)) items
    → All IsPositive (map item_of items)
unfolding item_of new_money
IsPositive-item_of [] p = tt
IsPositive-item_of (it ∷ items) p =
    ((omega (arith, p.0.0), omega (arith, p.0.1)), IsPositive-item_of items p.1)

map-item_of-filled : (items : List CreateOrderItemRequest) → items ≢ [] → map item_of items ≢ []
map-item_of-filled [] filled = λ e. filled refl
map-item_of-filled (it ∷ items) filled = λ e. cc

-- The answer for a new order of a request with its tags.
answer-IsNewOrder :
    (h : Host) (req : CreateOrderRequest) (o : Order)
    → HasTags req
    → new_order h.now h.new_id req.customer_id (map item_of req.items) ≡ ok o
    → IsNewOrder h req (to_order_response o)
unfolding to_order_response
answer-IsNewOrder h req o tags new =
    let (id, customer, same, status, version) =
      new_order-fields h.now h.new_id req.customer_id (map item_of req.items) new in
    record {
      id = id;
      customer = customer;
      status = unfold status_text in rw status;
      version = version;
      total = λ fits.
          elim (new_order_exact h.now h.new_id req.customer_id (map item_of req.items) "") [
            | inl (empty, _) ↦ absurd (map-item_of-filled req.items tags.filled empty)
            | inr (o', _, _, new', total, _, _, _, _, _, _) ↦
                let one : o' ≡ o = ground arith in
                ap (λ (o : Order). o.total_cost.amount) (sym one)
                ∙ total (IsPositive-item_of req.items tags.positive)
                    (rw (exact_total-item_of req.items) fits)
                ∙ exact_total-item_of req.items
          ];
    }

-- `POST /orders` has three answers, when the tags hold of every request that is bound: 400, for a
-- body that cannot be bound, and only for such a one; 500; or 201 with a new order that is saved
-- with its event, CREATED at version 1 under a fresh id, whose total is exactly the sum of price
-- times quantity if that fits in an int64. But for the last the tables are unchanged. With a free id
-- and no failing call the last is the answer to every body that is bound.
pub handle_create_order_answers :
    (bind : Bytes → Option CreateOrderRequest) (h : Host) (body : Bytes) (db : OrderDb)
    → ((b : Bytes) (req : CreateOrderRequest) → bind b ≡ some req → HasTags req)
    → let out = handle_create_order bind h body db in
      (((bind body ≡ none) × (out ≡ (error_answer 400, db)))
        ⊎ ((req : CreateOrderRequest) × (bind body ≡ some req)
            × ((out ≡ (error_answer 500, db))
                ⊎ ((o : Order) × (out ≡ (
                  order_answer 201 (to_order_response o),
                  saved h o order_created (created_payload h.rfc3339 o) db,
                ))
                    × IsNewOrder h req (to_order_response o)))))
      × (((c : Call) → h.fails c ≡ false)
          → row_at h.new_id db.orders ≡ none
          → bind body ≢ none
          → (r : OrderResponse) × (out.0 ≡ order_answer 201 r))
unfolding handle_create_order created_answer
handle_create_order_answers bind h body db tagged = elim (Option-cases (bind body)) [
  | inl unbound ↦ (inl (unbound, ground arith), λ works free bound. absurd (bound unbound))
  | inr (req, bound) ↦
      let tags = tagged body req bound in
      let items : List OrderItem = map item_of req.items in
      let filled = map-item_of-filled req.items tags.filled in
      let (outcome, progress) = create_order_atomic h req.customer_id items db in
      (
        inr (
          req,
          bound,
          elim outcome [
            | inl (e, failed, _) ↦ elim (create_order_errors h req.customer_id items db failed).0 [
              | inl (empty, _) ↦ absurd (filled empty)
              | inr code ↦ inl (ground arith)
            ]
            | inr (o, new, free, done) ↦ inr (o, ground arith, answer-IsNewOrder h req o tags new)
          ],
        ),
        λ works free some_body.
            let (o, done) = progress works free filled in (to_order_response o, ground arith),
      )
]

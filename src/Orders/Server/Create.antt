-- ===== src/Orders/Server/Create.antt =====
-- The replies of the gRPC server to `CreateOrder` and `GetOrder`
-- (order-service/internal/delivery/grpc/order_server.go).
use mini_marketplace.Base.{
  sym, String, ◌≡◌, ◌≢◌, ◌⊎◌, inl, inr, none, some, false, List, [], map, ok, err, ℕ, ◌∷◌, arith,
  All, affected, Option-cases, ◌∙◌, ap,
}
use mini_marketplace.Base.Int.{pos, wrap32, IsInt32}
use mini_marketplace.Orders.Domain.{
  OrderItem, Order, created, no_rows, OrderError, driver, empty_items, new_order,
}
use mini_marketplace.Orders.Events.{order_created, created_payload}
use mini_marketplace.Orders.Store.{OrderDb, Host, Call, select_order}
use mini_marketplace.Orders.Repository.{get_by_id}
use mini_marketplace.Orders.Repository.Atomic.{saved}
use mini_marketplace.Orders.Repository.Valid.{IsValid, row_at}
use mini_marketplace.Orders.Usecase.{get_order}
use mini_marketplace.Orders.Usecase.Create.{create_order_atomic, get_order-create_order}
use mini_marketplace.Orders.Server.{
  ItemMessage, OrderResponse, invalid_argument, internal, Reply, response, failure, panic,
  item_message, to_order_response, status_text, request_items, reply_of, map_domain_err,
  serve_create_order, serve_get_order,
}
use mini_marketplace.Orders.Server.Replies.{
  is_unpriced, map-request_items, request_items-none, request_items-some, create_order_errors,
  new_order-fields,
}

made_of_none :
    {items : List ItemMessage} {its : List OrderItem}
    → items ≡ []
    → request_items items ≡ some its
    → its ≡ []
unfolding request_items
made_of_none {items = []} e read = ground arith
made_of_none {items = it ∷ items} e read = cc

new_order-filled :
    (now : ℕ) (id customer_id : String) (items : List OrderItem) {o : Order}
    → new_order now id customer_id items ≡ ok o
    → items ≢ []
unfolding new_order
new_order-filled now id customer_id [] new = cc
new_order-filled now id customer_id (it ∷ items) new = λ e. cc

driver_not_empty : {e : OrderError} → e ≡ driver → e ≢ empty_items
driver_not_empty a b = cc

-- A response for a new order, with the items of the request as they came.
pub record IsResponseTo (h : Host) (customer_id : String) (items : List ItemMessage)
    (r : OrderResponse) : Type 0 where
  pub id : r.id ≡ h.new_id
  pub customer : r.customer_id ≡ customer_id
  pub items_back : r.items ≡ items
  pub status : r.status ≡ "CREATED"
  pub version : r.version ≡ pos 1

-- A saved order, with its response.
abbrev pub IsCreated : Host → String → List ItemMessage → OrderDb → Reply × OrderDb → Type 0
IsCreated h customer_id items db out =
    (o : Order) × (out
      ≡ (response (to_order_response o), saved h o order_created (created_payload h.rfc3339 o) db))
    × IsResponseTo h customer_id items (to_order_response o)

created_response :
    (h : Host) (customer_id : String) (items : List ItemMessage) {its : List OrderItem} (o : Order)
    → All (λ (it : ItemMessage). IsInt32 it.quantity) items
    → request_items items ≡ some its
    → (o.id ≡ h.new_id)
      × (o.customer_id ≡ customer_id)
      × (o.items ≡ its)
      × (o.status ≡ created)
      × (o.version ≡ 1)
    → IsResponseTo h customer_id items (to_order_response o)
unfolding to_order_response
created_response h customer_id items {its} o fits read (id, customer, same, status, version) =
    record {
      id = id;
      customer = customer;
      items_back = ap (map item_message) same ∙ map-request_items items {its = its} fits read;
      status = unfold status_text in rw status;
      version = unfold wrap32 in rw version;
    }

-- `CreateOrder` of the server ends in one of four ways, the quantities being values of `int32`: it
-- panics, when an item has no price; it replies InvalidArgument to an empty list of items; or, to
-- priced items, at least one, it replies Internal, or it has saved an order and replies with it,
-- CREATED at version 1 with the items of the request as they came. But for the last the tables are
-- unchanged. The last is the
-- reply to priced items, at least one, when the id is free and no call fails.
pub serve_create_order_replies :
    (h : Host) (customer_id : String) (items : List ItemMessage) (db : OrderDb)
    → All (λ (it : ItemMessage). IsInt32 it.quantity) items
    → let out = serve_create_order h customer_id items db in
      (((affected is_unpriced items ≢ 0) × (out ≡ (panic, db)))
        ⊎ (((items ≡ []) × (out ≡ (failure invalid_argument, db)))
            ⊎ ((items ≢ [])
                × (affected is_unpriced items ≡ 0)
                × ((out ≡ (failure internal, db)) ⊎ IsCreated h customer_id items db out))))
      × (((c : Call) → h.fails c ≡ false)
          → row_at h.new_id db.orders ≡ none
          → items ≢ []
          → affected is_unpriced items ≡ 0
          → (r : OrderResponse) × (out.0 ≡ response r))
unfolding serve_create_order reply_of
serve_create_order_replies h customer_id items db fits = elim (Option-cases (request_items items)) [
  | inl unset ↦ (
    inl (request_items-none items unset, ground arith),
    λ works free filled priced. absurd (request_items-none items unset priced),
  )
  | inr (its, read) ↦
      let (outcome, progress) = create_order_atomic h customer_id its db in
      let back = map-request_items items {its = its} fits read in
      let none_given = λ (e : its ≡ []). sym back ∙ ap (map item_message) e in
      let none_made = λ (e : items ≡ []). made_of_none {items = items} {its = its} e read in
      let priced' = request_items-some items {its = its} read in
      (
        elim outcome [
          | inr (o, new, free, done) ↦ inr (
              inr (
                λ e. new_order-filled h.now h.new_id customer_id its new (none_made e),
                priced',
                inr (
                  o,
                  ground arith,
                  created_response h customer_id items o fits read
                      (new_order-fields h.now h.new_id customer_id its new),
                ),
              ))
          | inl (e, failed, empty_code) ↦ elim (create_order_errors h customer_id its db failed).0 [
            | inl (empty, code) ↦
                inr (inl (none_given empty, unfold map_domain_err in ground arith))
            | inr code ↦ inr (
                inr (
                  λ e. absurd (driver_not_empty code (empty_code (none_made e))),
                  priced',
                  inl (unfold map_domain_err in ground arith),
                ))
          ]
        ],
        λ works free filled priced.
            let (o, done) = progress works free (λ e. filled (none_given e)) in
            (to_order_response o, ground arith),
      )
]

get_order_missing :
    (h : Host) (id : String) (db : OrderDb)
    → ((c : Call) → h.fails c ≡ false)
    → row_at id db.orders ≡ none
    → get_order h id db ≡ err no_rows
unfolding get_order get_by_id
get_order_missing h id db works absent = ground (arith, works select_order)

-- A response with the times and the customer's id as the columns give them back.
unfoldable pub stored_response : Host → OrderResponse → OrderResponse
stored_response h r = record r {
  customer_id = h.uuid r.customer_id;
  created_at = h.timestamptz r.created_at;
  updated_at = h.timestamptz r.updated_at;
}

-- On tables with their keys a read replies as the creation did: what `CreateOrder` replied,
-- `GetOrder` replies under that id, but for the times, which come as far as a TIMESTAMPTZ column
-- keeps them, and the customer's id, which comes in the text of a UUID column, if no call of that
-- read fails and its loop over the items is not cut short. For an id without a row such a read replies Internal.
pub serve_get_order-serve_create_order :
    (h h' : Host) (customer_id : String) (items : List ItemMessage) (db : OrderDb)
    → IsValid db
    → ((c : Call) → h'.fails c ≡ false)
    → h'.cut ≡ none
    → let (reply, db') = serve_create_order h customer_id items db in
      ((r : OrderResponse)
        → reply ≡ response r
        → serve_get_order h' h.new_id db' ≡ response (stored_response h r))
      × ((id : String) → row_at id db.orders ≡ none → serve_get_order h' id db ≡ failure internal)
unfolding serve_get_order serve_create_order reply_of stored_response
serve_get_order-serve_create_order h h' customer_id items db v works whole = (
  λ r replied. elim (Option-cases (request_items items)) [
    | inl unset ↦ absurd (ground arith)
    | inr (its, read) ↦ elim (create_order_atomic h customer_id its db).0 [
      | inl (e, failed, _) ↦ absurd (ground arith)
      | inr (o, new, free, done) ↦
          let found = get_order-create_order h h' customer_id its db {o = o} v done works whole in
          let id : o.id ≡ h.new_id = (new_order-fields h.now h.new_id customer_id its new).0 in
          unfold to_order_response in ground (arith, found, id)
    ]
  ],
  λ id absent. unfold map_domain_err in ground (arith, get_order_missing h' id db works absent),
)

-- ===== src/Orders/Tests/Posting.antt =====
-- The HTTP handler at concrete inputs.
use mini_marketplace.Base.{◌≡◌, ◌≢◌, refl, ◌⊎◌, Option, none, some, false, [], ◌∷◌, arith, text_eq}
use mini_marketplace.Base.Json.{Bytes, garbage, encoded, null}
use mini_marketplace.Base.Int.{pos}
use mini_marketplace.Orders.Domain.{Order}
use mini_marketplace.Orders.Events.{order_created, created_payload}
use mini_marketplace.Orders.Store.{Call}
use mini_marketplace.Orders.Repository.{get_by_id}
use mini_marketplace.Orders.Repository.Atomic.{saved}
use mini_marketplace.Orders.Repository.Valid.{row_at}
use mini_marketplace.Orders.Usecase.{get_order}
use mini_marketplace.Orders.Http.{
  CreateOrderRequest, OrderResponse, order_answer, error_answer, to_order_response,
  handle_create_order, handle_get_order,
}
use mini_marketplace.Orders.Http.Create.{HasTags, IsNewOrder, handle_create_order_answers}
use mini_marketplace.Orders.Tests.Data.{quiet, new_db}

abbrev request : CreateOrderRequest
request = record {
  customer_id = "c1";
  items =
      record { sku = "apple"; name = "Apple"; price = pos 30; currency = "EUR"; quantity = pos 2 }
      ∷ [];
}

-- Every JSON text is read as that request.
abbrev bind : Bytes → Option CreateOrderRequest
bind garbage = none
bind (encoded v) = some request

request-HasTags : HasTags request
request-HasTags = record { filled = λ e. cc; positive = ((omega arith, omega arith), tt) }

bound-HasTags : (b : Bytes) (req : CreateOrderRequest) → bind b ≡ some req → HasTags req
bound-HasTags garbage req e = absurd (ground arith)
bound-HasTags (encoded v) req e =
    let same : request ≡ req = ground arith in rw (← same) request-HasTags

-- A read of an order that is not there answers 404.
missing : handle_get_order quiet "o9" new_db ≡ error_answer 404
unfolding handle_get_order get_order get_by_id text_eq
missing = refl

handle_create_order_answers_example :
    let out = handle_create_order bind quiet (encoded null) new_db in
    (((bind (encoded null) ≡ none) × (out ≡ (error_answer 400, new_db)))
      ⊎ ((req : CreateOrderRequest) × (bind (encoded null) ≡ some req)
          × ((out ≡ (error_answer 500, new_db))
              ⊎ ((o : Order) × (out ≡ (
                order_answer 201 (to_order_response o),
                saved quiet o order_created (created_payload quiet.rfc3339 o) new_db,
              ))
                  × IsNewOrder quiet req (to_order_response o)))))
    × (((c : Call) → quiet.fails c ≡ false)
        → row_at "o2" new_db.orders ≡ none
        → bind (encoded null) ≢ none
        → (r : OrderResponse) × (out.0 ≡ order_answer 201 r))
handle_create_order_answers_example =
    handle_create_order_answers bind quiet (encoded null) new_db bound-HasTags

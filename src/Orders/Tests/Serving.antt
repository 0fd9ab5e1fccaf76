-- ===== src/Orders/Tests/Serving.antt =====
-- The gRPC server at concrete inputs.
use mini_marketplace.Base.{
  String, ◌*◌, ◌/◌, ◌≡◌, ◌≢◌, refl, ◌⊎◌, none, some, false, List, [], ◌∷◌, arith, affected, text_eq,
}
use mini_marketplace.Base.Int.{pos}
use mini_marketplace.Orders.Store.{Call, Host}
use mini_marketplace.Orders.Repository.Valid.{IsValid, row_at}
use mini_marketplace.Orders.Server.{
  request_items, ItemMessage, OrderResponse, response, failure, panic, invalid_argument, internal,
  serve_create_order, serve_get_order,
}
use mini_marketplace.Orders.Server.Replies.{is_unpriced}
use mini_marketplace.Orders.Server.Create.{
  IsCreated, stored_response, serve_create_order_replies, serve_get_order-serve_create_order,
}
use mini_marketplace.Orders.Tests.Data.{quiet, new_db}

abbrev request : List ItemMessage
request =
    record {
      sku = "apple";
      name = "Apple";
      price = some (record { amount = pos 30; currency = "EUR" });
      quantity = pos 2;
    }
    ∷ []

-- A message without a price makes the handler panic.
abbrev unpriced : List ItemMessage
unpriced = record { sku = "apple"; name = "Apple"; price = none; quantity = pos 2 } ∷ []

unpriced_panics : serve_create_order quiet "c1" unpriced new_db ≡ (panic, new_db)
unfolding serve_create_order request_items
unpriced_panics = refl

new_db-keys : IsValid new_db
unfolding text_eq
new_db-keys = record { keys = (refl, tt); owned = (refl, tt) }

serve_create_order_replies_example :
    let out = serve_create_order quiet "c1" request new_db in
    (((affected is_unpriced request ≢ 0) × (out ≡ (panic, new_db)))
      ⊎ (((request ≡ []) × (out ≡ (failure invalid_argument, new_db)))
          ⊎ ((request ≢ [])
              × (affected is_unpriced request ≡ 0)
              × ((out ≡ (failure internal, new_db)) ⊎ IsCreated quiet "c1" request new_db out))))
    × (((c : Call) → quiet.fails c ≡ false)
        → row_at "o2" new_db.orders ≡ none
        → request ≢ []
        → affected is_unpriced request ≡ 0
        → (r : OrderResponse) × (out.0 ≡ response r))
serve_create_order_replies_example =
    serve_create_order_replies quiet "c1" request new_db ((omega arith, omega arith), tt)

-- Its clock is finer than the columns.
abbrev precise : Host
precise = record quiet { now = 1234567; timestamptz = λ t. t / 1000 * 1000 }

serve_get_order-serve_create_order_example :
    let (reply, db') = serve_create_order precise "c1" request new_db in
    ((r : OrderResponse)
      → reply ≡ response r
      → serve_get_order quiet "o2" db' ≡ response (stored_response precise r))
    × ((id : String)
        → row_at id new_db.orders ≡ none
        → serve_get_order quiet id new_db ≡ failure internal)
serve_get_order-serve_create_order_example =
    serve_get_order-serve_create_order precise quiet "c1" request new_db new_db-keys (λ c. refl)
      refl

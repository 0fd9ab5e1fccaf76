-- ===== src/Gateway/Tests.antt =====
-- The gateway at concrete inputs.
mod Posting
use mini_marketplace.Base.{ℕ, ◌+◌, ◌<◌, ◌≡◌, refl, false, some, [], ◌∷◌, ok, arith, text_eq}
use mini_marketplace.Base.Int.{pos}
use mini_marketplace.Orders.Server as Proto
use mini_marketplace.Gateway.{
  OrderView, Visit, order_found, get_order, cache_after, cache_get, cache_set, cache_key,
  read_through, order_view, item_views,
}
use mini_marketplace.Gateway.Fresh.{IsGiven, get_order_fresh}

abbrev stored : Proto.OrderResponse
stored = record {
  id = "o1";
  customer_id = "c1";
  items = [];
  total_cost = some (record { amount = pos 60; currency = "EUR" });
  status = "CREATED";
  version = pos 1;
  created_at = 3;
  updated_at = 3;
}

-- The same order when it is confirmed.
abbrev later : Proto.OrderResponse
later = record stored { status = "CONFIRMED"; version = pos 3 }

abbrev visit : ℕ → Proto.OrderResponse → Visit
visit now resp = record {
  now = now;
  get_fails = false;
  set_fails = false;
  rfc3339 = λ t. "1970-01-01T00:00:03Z";
  reply = ok resp;
}

abbrev view : OrderView
view = record {
  id = "o1";
  customer_id = "c1";
  items = [];
  total_cost = pos 60;
  currency = "EUR";
  status = "CREATED";
  version = pos 1;
  created_at = "1970-01-01T00:00:03Z";
  updated_at = "1970-01-01T00:00:03Z";
}

-- Three ticks later the answer still is the one from the cache.
answered :
    (get_order 5 (visit 13 later) "o1" (cache_after 5 ((visit 10 stored, "o1") ∷ []))).0
    ≡ order_found view
unfolding get_order cache_after cache_get cache_set cache_key read_through order_view item_views
    text_eq
answered = refl

get_order_fresh_example :
    (at : ℕ) × IsGiven ((visit 13 later, "o1") ∷ (visit 10 stored, "o1") ∷ []) "o1" view at
    × (13 < at + 5)
get_order_fresh_example =
    get_order_fresh 5 ((visit 10 stored, "o1") ∷ []) (visit 13 later) "o1" {view = view}
      (omega arith) answered

-- ===== src/Orders/Tests/Data.antt =====
-- Test data: a host on which all calls work, an order, and tables that hold it.
use mini_marketplace.Base.{ℕ, false, none, some, List, [], ◌∷◌}
use mini_marketplace.Base.Int.{pos}
use mini_marketplace.Orders.Domain.{OrderItem, Order, OrderStatus, created, awaiting_stock}
use mini_marketplace.Orders.Events.{
  order_created, order_confirmed, created_payload, confirmed_payload,
}
use mini_marketplace.Orders.Store.{OrderRow, ItemRow, OutboxRow, pending, sent, OrderDb, Host}

abbrev pub quiet : Host
quiet = record {
  now = 7;
  new_id = "o2";
  row_id = "e2";
  rfc3339 = λ t. "1970-01-01T00:00:07Z";
  timestamptz = λ t. t;
  uuid = λ s. s;
  fails = λ c. false;
  cut = none;
}

abbrev pub quiet_hosts : ℕ → Host
quiet_hosts n = quiet

abbrev pub apple : OrderItem
apple = record {
  sku = "apple";
  name = "Apple";
  price = record { amount = pos 30; currency = "EUR" };
  quantity = pos 2;
}

abbrev pub pear : OrderItem
pear = record {
  sku = "pear";
  name = "Pear";
  price = record { amount = pos 50; currency = "EUR" };
  quantity = pos 1;
}

abbrev pub basket : List OrderItem
basket = apple ∷ pear ∷ []

abbrev pub order_row : OrderStatus → ℕ → ℕ → OrderRow
order_row status version updated_at = record {
  id = "o1";
  customer_id = "c1";
  total_amount = pos 60;
  currency = "EUR";
  status = status;
  version = version;
  created_at = 3;
  updated_at = updated_at;
}

abbrev pub apple_row : ItemRow
apple_row = record {
  order_id = "o1";
  sku = "apple";
  name = "Apple";
  price = pos 30;
  currency = "EUR";
  quantity = pos 2;
}

abbrev pub first_order : Order
first_order = record {
  id = "o1";
  customer_id = "c1";
  items = apple ∷ [];
  total_cost = record { amount = pos 60; currency = "EUR" };
  status = created;
  version = 1;
  created_at = 3;
  updated_at = 3;
}

-- the event of the order's creation
abbrev pub created_event : OutboxRow
created_event = record {
  id = "e1";
  aggregate_id = "o1";
  event_type = order_created;
  payload = created_payload (λ t. "1970-01-01T00:00:03Z") first_order;
  status = pending;
  created_at = 3;
  sent_at = none;
}

abbrev pub sent_event : OutboxRow
sent_event = record created_event { status = sent; sent_at = some 5 }

-- the tables with that order in a status
abbrev pub with_order : OrderStatus → ℕ → ℕ → OutboxRow → OrderDb
with_order status version updated_at event = record {
  orders = order_row status version updated_at ∷ [];
  items = apple_row ∷ [];
  outbox = event ∷ [];
}

abbrev pub new_db : OrderDb
new_db = with_order created 1 3 created_event

abbrev pub waiting_db : OrderDb
waiting_db = with_order awaiting_stock 2 5 sent_event

-- the event of a confirmation
abbrev pub confirmed_event : OutboxRow
confirmed_event = record {
  id = "e2";
  aggregate_id = "o1";
  event_type = order_confirmed;
  payload = confirmed_payload "o1";
  status = pending;
  created_at = 7;
  sent_at = none;
}

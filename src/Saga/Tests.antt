-- ===== src/Saga/Tests.antt =====
-- A run of the two services that confirms an order, and the theorem at that run.
mod Progress
use mini_marketplace.Base.{ℕ, ◌≡◌, refl, inl, false, none, List, [], ◌∷◌, In, All, map, text_eq}
use mini_marketplace.Base.Int.{pos, ◌+ℤ◌, ◌-ℤ◌}
use mini_marketplace.Base.Kafka.{Message, fields_of}
use mini_marketplace.Orders.Domain.{
  confirmed, new_order, order_of, transition_to, allows, allowed_transactions, status_eq,
}
use mini_marketplace.Orders.Events.{order_created, created_payload}
use mini_marketplace.Orders.Repository as OrdersRepository
use mini_marketplace.Orders.Repository.{
  save_with_event, save_body, insert_order_row, insert_item_rows, insert_outbox_row, row_of,
  item_row, get_by_id, scan_order, update_status_with_event,
}
use mini_marketplace.Orders.Repository.Valid.{IsValid}
use mini_marketplace.Orders.Usecase.{
  create_order, created_result, prepare, build_status_event, update_loop, update_order_status,
}
use mini_marketplace.Orders.Worker as OrdersWorker
use mini_marketplace.Orders.Consumer.{handle_reserved, stock_reserved_event}
use mini_marketplace.Orders.Tests.Data.{quiet, quiet_hosts, apple}
use mini_marketplace.Inventory.Store as InventoryStore
use mini_marketplace.Inventory.Stock.{reserve}
use mini_marketplace.Inventory.Repository.{
  contains, stock_reserved, reserved_payload, reserve_all, reserve_body, reserve_new, select_stocks,
  check_items, reserve_items, write_stock, put_stock, column_accepts, restocked, conclude, wanted,
}
use mini_marketplace.Inventory.Usecase.{reserve_stock}
use mini_marketplace.Inventory.Consumer.{handle_message, order_created_event}
use mini_marketplace.Inventory.Worker as InventoryWorker
use mini_marketplace.Saga.{
  World, ◌⇒◌, place, publish_orders, publish_answers, confirm, ◌⇒*◌, here, then, IsStart, AllOrders,
  IsExplained,
}
use mini_marketplace.Saga as Saga
use mini_marketplace.Saga.Settled.{reachable-IsExplained}
use mini_marketplace.Saga.Known.{IsKnown, IsOfOrder, AreOfOrders}
use mini_marketplace.Saga.Reserved.{reachable-IsKnown}
use mini_marketplace.Saga.Conserved.{AreDistinct, IsMoved, reachable-IsMoved}

abbrev calm : InventoryStore.Host
calm = record { now = 9; row_id = "e9"; fails = λ c. false; cut = none }

abbrev calm_hosts : ℕ → InventoryStore.Host
calm_hosts n = calm

abbrev pub opening : World
opening = record {
  orders = record { orders = []; items = []; outbox = [] };
  inventory = record {
    stock = record { sku = "apple"; available_qty = pos 5; reserved_qty = pos 1; version = 3 } ∷ [];
    processed_events = [];
    outbox = [];
  };
  order_log = [];
  stock_log = [];
}

abbrev order_tick : OrdersWorker.Tick
order_tick = record {
  host = quiet;
  batch_size = 10;
  locked = λ r. false;
  publish_fails = λ r. false;
  stored = λ r. false;
}

abbrev stock_tick : InventoryWorker.Tick
stock_tick = record {
  host = calm;
  batch_size = 10;
  locked = λ r. false;
  publish_fails = λ r. false;
  stored = λ r. false;
}

abbrev placed : World
placed = record opening { orders = (create_order quiet "c1" (apple ∷ []) opening.orders).1 }

abbrev announced : World
announced = record placed {
  orders = (OrdersWorker.process_batch order_tick placed.orders placed.order_log).1;
  order_log = (OrdersWorker.process_batch order_tick placed.orders placed.order_log).2;
}

abbrev order_message : Message
order_message = record {
  topic = order_created;
  key = "o2";
  value = created_payload quiet.rfc3339 (order_of 7 "o2" "c1" apple []);
}

announced_there : In order_message announced.order_log
unfolding OrdersWorker.process_batch OrdersWorker.fetch_pending OrdersWorker.pending_rows
    create_order new_order save_with_event OrdersWorker.process_records OrdersWorker.after_publish
    text_eq OrdersWorker.message_of
announced_there = inl refl

abbrev reserved : World
reserved = record announced {
  inventory = (handle_message calm_hosts calm_hosts 0 order_message announced.inventory).1;
}

abbrev answered : World
answered = record reserved {
  inventory = (InventoryWorker.process_batch stock_tick reserved.inventory reserved.stock_log).1;
  stock_log = (InventoryWorker.process_batch stock_tick reserved.inventory reserved.stock_log).2;
}

abbrev answer_message : Message
answer_message = record { topic = stock_reserved; key = "o2"; value = reserved_payload "o2" }

answered_there : In answer_message answered.stock_log
unfolding InventoryWorker.process_batch InventoryWorker.fetch_pending InventoryWorker.pending_rows
    handle_message order_created_event created_payload text_eq
    mini_marketplace.Inventory.Consumer.items_of mini_marketplace.Orders.Events.json_items order_of
    mini_marketplace.Inventory.Consumer.item_of mini_marketplace.Orders.Events.json_item
    reserve_stock reserve_all reserve_body contains reserve_new ◌+ℤ◌ ◌-ℤ◌
    mini_marketplace.Base.Json.items_at mini_marketplace.Base.Json.key
    mini_marketplace.Base.Json.num_at mini_marketplace.Base.Json.text_at fields_of
    mini_marketplace.Inventory.Consumer.acknowledge
    mini_marketplace.Inventory.Consumer.event_of_fields
    mini_marketplace.Inventory.Consumer.item_of_fields check_items column_accepts conclude put_stock
    reserve_items reserved_payload restocked select_stocks wanted
    mini_marketplace.Inventory.Repository.wrap_reserve write_stock reserve InventoryStore.outbox_row
    InventoryWorker.finish_batch InventoryWorker.message_of InventoryWorker.process_records
    InventoryWorker.record_of
answered_there = inl refl

abbrev settled : World
settled = record answered {
  orders = (handle_reserved (λ n. quiet_hosts) (λ n k db. db) 0 answer_message answered.orders).1;
}

run : opening ⇒* settled
run = then (place quiet "c1" (apple ∷ [])) (
    then (publish_orders order_tick) (
      then (Saga.reserve_stock calm_hosts calm_hosts 0 order_message announced_there refl) (
        then (publish_answers stock_tick)
          (then (confirm (λ n. quiet_hosts) 0 answer_message answered_there refl) here))))

statuses : map (λ r. r.status) settled.orders.orders ≡ confirmed ∷ []
unfolding handle_reserved reserved_payload text_eq update_order_status update_loop prepare get_by_id
    OrdersWorker.process_batch OrdersWorker.fetch_pending OrdersWorker.pending_rows create_order
    new_order save_with_event OrdersWorker.process_records OrdersWorker.after_publish
    OrdersWorker.transition_to_awaiting_stock OrdersWorker.mark_sent mini_marketplace.Base.Json.key
    mini_marketplace.Base.Json.text_at fields_of mini_marketplace.Orders.Consumer.acknowledge
    stock_reserved_event allowed_transactions allows order_of status_eq transition_to
    insert_item_rows insert_order_row insert_outbox_row row_of save_body OrdersRepository.scan_items
    scan_order OrdersRepository.update_body update_status_with_event build_status_event
    created_result OrdersWorker.finish_batch OrdersWorker.record_of
statuses = refl

reachable-IsExplained_example :
    AllOrders
      (IsExplained settled.inventory.processed_events settled.stock_log)
      settled.orders.orders
reachable-IsExplained_example =
    reachable-IsExplained (record { no_orders = refl; no_answers = refl; nothing_published = refl })
      run

reachable-IsKnown_example :
    All (IsKnown settled.orders.orders) settled.inventory.processed_events
    × AreOfOrders settled.orders
    × All (IsOfOrder settled.orders) settled.order_log
    × IsValid settled.orders
reachable-IsKnown_example =
    reachable-IsKnown
      (record {
        no_events = refl;
        nothing_announced = refl;
        no_marks = refl;
        has_keys = record { keys = tt; owned = tt };
      })
      run

reachable-IsMoved_example :
    AreDistinct settled.inventory.processed_events
    × IsMoved opening.inventory.stock settled.orders settled.inventory
reachable-IsMoved_example =
    reachable-IsMoved
      (record {
        no_events = refl;
        nothing_announced = refl;
        no_marks = refl;
        has_keys = record { keys = tt; owned = tt };
      })
      run

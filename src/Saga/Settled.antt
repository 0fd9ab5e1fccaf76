-- ===== src/Saga/Settled.antt =====
-- What holds in every world that the system reaches: every order has a reason for its status.
use mathlib.Core.Path.{subst}
use mathlib.Core.List.{append-nil}
use mini_marketplace.Base.{
  String, ◌≡◌, true, some, List, [], ◌++◌, All-map, All-In, In-append_left, arith,
}
use mini_marketplace.Base.Kafka.{Message}
use mini_marketplace.Orders.Domain.{
  OrderStatus, created, awaiting_stock, confirmed, cancelled, completed,
}
use mini_marketplace.Orders.Consumer.{stock_reserved_event}
use mini_marketplace.Orders.Store.{OrderRow}
use mini_marketplace.Inventory.Repository.{contains, stock_reserved}
use mini_marketplace.Inventory.Consumer.Answers.{answers_contract}
use mini_marketplace.Saga.{
  World, ◌⇒◌, place, publish_orders, reserve_stock, publish_answers, confirm, cancel, ◌⇒*◌, here,
  then, IsStart, AllOrders, IsExplained,
}
use mini_marketplace.Saga.Orders.{
  create_order-AllOrders, process_batch-AllOrders, handle_reserved-AllOrders,
  handle_failed-AllOrders,
}
use mini_marketplace.Saga.Answers.{
  IsFounded, AreFounded, contains-append, handle_message-AreFounded, process_batch-AreFounded,
}

-- What every step keeps.
record IsSafe (w : World) : Type 0 where
  pub explained : AllOrders (IsExplained w.inventory.processed_events w.stock_log) w.orders.orders
  pub founded : AreFounded w.inventory w.stock_log

-- A reason stays one as marks and messages are added.
IsExplained-append :
    (processed more : List String) (log later : List Message) (s : OrderStatus) (id : String)
    → IsExplained processed log s id
    → IsExplained (processed ++ more) (log ++ later) s id
IsExplained-append processed more log later created id e = tt
IsExplained-append processed more log later awaiting_stock id e = tt
IsExplained-append processed more log later confirmed id e = contains-append id processed more e
IsExplained-append processed more log later completed id e = contains-append id processed more e
IsExplained-append processed more log later cancelled id (m, reason, there, topic, read) =
    (m, reason, In-append_left m log later there, topic, read)

AllOrders-append :
    (processed more : List String) (log later : List Message) (rows : List OrderRow)
    → AllOrders (IsExplained processed log) rows
    → AllOrders (IsExplained (processed ++ more) (log ++ later)) rows
AllOrders-append processed more log later rows e =
    All-map rows (λ r p. IsExplained-append processed more log later r.status r.id p) e

-- The id that order-service reads from a founded message is that of a processed order.
read_founded :
    (processed : List String) (m : Message) (id : String)
    → IsFounded processed m
    → m.topic ≡ stock_reserved
    → stock_reserved_event m.value ≡ some id
    → contains id processed ≡ true
read_founded processed m id f topic read =
    let (id', value, marked) = f topic in
    let told = (answers_contract id' "").0 in
    let same : id' ≡ id = ground arith in rw (← same) marked

⇒-IsSafe : {w w' : World} → w ⇒ w' → IsSafe w → IsSafe w'
⇒-IsSafe (place {w} h customer_id items) s = record {
  explained =
      create_order-AllOrders (IsExplained w.inventory.processed_events w.stock_log) (λ id. tt)
        (λ id. tt) h customer_id items w.orders s.explained;
  founded = s.founded;
}
⇒-IsSafe (publish_orders {w} t) s = record {
  explained =
      process_batch-AllOrders (IsExplained w.inventory.processed_events w.stock_log) (λ id. tt)
        (λ id. tt) t w.orders w.order_log s.explained;
  founded = s.founded;
}
⇒-IsSafe (reserve_stock {w} hosts hosts' n m there topic) s =
    let (founded', (more, grown)) =
      handle_message-AreFounded hosts hosts' n m w.inventory w.stock_log s.founded in
    record {
      explained = rw grown (
          subst
            (λ (log : List Message).
              AllOrders (IsExplained (w.inventory.processed_events ++ more) log) w.orders.orders)
            (append-nil w.stock_log)
            (AllOrders-append w.inventory.processed_events more w.stock_log [] w.orders.orders
              s.explained));
      founded = founded';
    }
⇒-IsSafe (publish_answers {w} t) s =
    let (founded', same, (later, grown)) =
      process_batch-AreFounded t w.inventory w.stock_log s.founded in
    record {
      explained =
          rw (same, grown)
            (subst
              (λ (p : List String).
                AllOrders (IsExplained p (w.stock_log ++ later)) w.orders.orders)
              (append-nil w.inventory.processed_events)
              (AllOrders-append w.inventory.processed_events [] w.stock_log later w.orders.orders
                s.explained));
      founded = founded';
    }
⇒-IsSafe (confirm {w} hosts n m there topic) s =
    let founded_m =
      All-In (IsFounded w.inventory.processed_events) m w.stock_log s.founded.logged there in
    record {
      explained =
          handle_reserved-AllOrders (IsExplained w.inventory.processed_events w.stock_log)
            (λ id. tt) (λ id. tt) hosts n m w.orders
            (λ id read. read_founded w.inventory.processed_events m id founded_m topic read)
            s.explained;
      founded = s.founded;
    }
⇒-IsSafe (cancel {w} hosts n m there topic) s = record {
  explained =
      handle_failed-AllOrders (IsExplained w.inventory.processed_events w.stock_log) (λ id. tt)
        (λ id. tt) hosts n m w.orders (λ event read. (m, event.reason, there, topic, read))
        s.explained;
  founded = s.founded;
}

⇒*-IsSafe : {w w' : World} → w ⇒* w' → IsSafe w → IsSafe w'
⇒*-IsSafe here s = s
⇒*-IsSafe (then step rest) s = ⇒*-IsSafe rest (⇒-IsSafe step s)

start-IsSafe : {w : World} → IsStart w → IsSafe w
start-IsSafe start = record {
  explained = rw (start.no_orders) tt;
  founded = record { stored = rw (start.no_answers) tt; logged = rw (start.nothing_published) tt };
}

-- No order has a status without its reason: from a start without orders, answers and published
-- answers, however the steps of the two services interleave, whichever calls fail in them, and
-- however often and in whatever order messages are handled, every order that is CONFIRMED or
-- COMPLETED is among the orders for which inventory-service has committed a reservation, and every
-- order that is CANCELLED is named by a published `stock.failed` message.
pub reachable-IsExplained :
    {w w' : World}
    → IsStart w
    → w ⇒* w'
    → AllOrders (IsExplained w'.inventory.processed_events w'.stock_log) w'.orders.orders
reachable-IsExplained start steps = (⇒*-IsSafe steps (start-IsSafe start)).explained

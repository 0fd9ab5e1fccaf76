-- ===== src/Saga.antt =====
-- The two services that settle an order, side by side: order-service/internal and
-- inventory-service/internal with their tables, and the topics between them as logs of messages. A
-- message of a topic may be handled at any time and any number of times.
pub mod Orders
pub mod Answers
pub mod Lines
pub mod Known
pub mod Written
pub mod Trace
pub mod Settled
pub mod Reserved
pub mod Conserved
pub mod Placed
pub mod Answered
pub mod Progress
mod Tests
use mini_marketplace.Base.{ℕ, String, ◌≡◌, true, some, List, [], In, All}
use mini_marketplace.Base.Kafka.{Message}
use mini_marketplace.Orders.Domain.{
  OrderItem, OrderStatus, created, awaiting_stock, confirmed, cancelled, completed,
}
use mini_marketplace.Orders.Events.{order_created}
use mini_marketplace.Orders.Store.{OrderDb, OrderRow}
use mini_marketplace.Orders.Store as OrdersStore
use mini_marketplace.Orders.Usecase.{create_order}
use mini_marketplace.Orders.Worker as OrdersWorker
use mini_marketplace.Orders.Consumer.{handle_reserved, handle_failed, stock_failed_event}
use mini_marketplace.Inventory.Store.{InventoryDb}
use mini_marketplace.Inventory.Store as InventoryStore
use mini_marketplace.Inventory.Repository.{contains, stock_reserved, stock_failed}
use mini_marketplace.Inventory.Worker as InventoryWorker
use mini_marketplace.Inventory.Consumer.{handle_message}

pub record World : Type 0 where
  pub orders : OrderDb
  pub inventory : InventoryDb
  pub order_log : List Message
  pub stock_log : List Message

-- A step of the system: one call of a use case, one message handled, or one batch of a worker, with
-- whatever calls of the drivers fail in it. No other writer comes between the read and the write of
-- an `UpdateOrderStatus`.
infix 40 ◌⇒◌ ◌⇒*◌
pub data ◌⇒◌ : World → World → Type 0 where
  place :
      {w : World} (h : OrdersStore.Host) (customer_id : String) (items : List OrderItem)
      → w ⇒ record w { orders = (create_order h customer_id items w.orders).1 }
  publish_orders :
      {w : World} (t : OrdersWorker.Tick)
      → w ⇒ record w {
        orders = (OrdersWorker.process_batch t w.orders w.order_log).1;
        order_log = (OrdersWorker.process_batch t w.orders w.order_log).2;
      }
  reserve_stock :
      {w : World} (hosts hosts' : ℕ → InventoryStore.Host) (n : ℕ) (m : Message)
      → In m w.order_log
      → m.topic ≡ order_created
      → w ⇒ record w { inventory = (handle_message hosts hosts' n m w.inventory).1 }
  publish_answers :
      {w : World} (t : InventoryWorker.Tick)
      → w ⇒ record w {
        inventory = (InventoryWorker.process_batch t w.inventory w.stock_log).1;
        stock_log = (InventoryWorker.process_batch t w.inventory w.stock_log).2;
      }
  confirm :
      {w : World} (hosts : ℕ → ℕ → OrdersStore.Host) (n : ℕ) (m : Message)
      → In m w.stock_log
      → m.topic ≡ stock_reserved
      → w ⇒ record w { orders = (handle_reserved hosts (λ n k db. db) n m w.orders).1 }
  cancel :
      {w : World} (hosts : ℕ → ℕ → OrdersStore.Host) (n : ℕ) (m : Message)
      → In m w.stock_log
      → m.topic ≡ stock_failed
      → w ⇒ record w { orders = (handle_failed hosts (λ n k db. db) n m w.orders).1 }

pub data ◌⇒*◌ : World → World → Type 0 where
  here : {w : World} → w ⇒* w
  then : {w w' w'' : World} → w ⇒ w' → w' ⇒* w'' → w ⇒* w''

-- Nothing is ordered, answered or published yet. The stock and the marks of the inventory, and the
-- other topic, may be anything.
pub record IsStart (w : World) : Type 0 where
  pub no_orders : w.orders.orders ≡ []
  pub no_answers : w.inventory.outbox ≡ []
  pub nothing_published : w.stock_log ≡ []

-- The orders of a table, each with what a predicate says of its status and id.
abbrev pub AllOrders : (OrderStatus → String → Type 0) → List OrderRow → Type 0
AllOrders P = All (λ r. P r.status r.id)

-- Why an order has its status: a CONFIRMED or COMPLETED one is among the orders whose reservation
-- was committed, and a CANCELLED one is named by a `stock.failed` message that was published.
abbrev pub IsExplained : List String → List Message → OrderStatus → String → Type 0
IsExplained processed stock_log created id = Unit
IsExplained processed stock_log awaiting_stock id = Unit
IsExplained processed stock_log confirmed id = contains id processed ≡ true
IsExplained processed stock_log completed id = contains id processed ≡ true
IsExplained processed stock_log cancelled id =
    (m : Message) × (reason : String) × In m stock_log
    × (m.topic ≡ stock_failed)
    × (stock_failed_event m.value ≡ some (record { order_id = id; reason = reason }))

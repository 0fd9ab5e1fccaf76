-- ===== src/Inventory/Store.antt =====
-- The tables of inventory-service/migrations, and what a call takes from outside. A row of `stock`
-- is a `Stock`; its time of update is never read.
use mini_marketplace.Base.{ℕ, String, Bool, Option, List, none}
use mini_marketplace.Base.Json.{Bytes}
use mini_marketplace.Inventory.Stock.{Stock}

pub data Delivery : Type 0 where
  pending sent : Delivery

-- a row of `outbox`
pub record OutboxRow : Type 0 where
  pub id : String
  pub aggregate_id : String
  pub event_type : String
  pub payload : Bytes
  pub status : Delivery
  pub created_at : ℕ
  pub sent_at : Option ℕ

pub record InventoryDb : Type 0 where
  pub stock : List Stock
  pub processed_events : List String
  pub outbox : List OutboxRow

-- The calls of the driver that may fail; `rows_err` is the error that ends a loop over rows.
pub data Call : Type 0 where
  begin commit : Call
  check_processed select_stock scan_row rows_err : Call
  update_stock : ℕ → Call
  insert_outbox insert_processed : Call
  select_pending update_sent : Call

pub record Host : Type 0 where
  pub now : ℕ
  pub row_id : String
  pub fails : Call → Bool
  pub cut : Option ℕ

unfoldable pub outbox_row : Host → String → String → Bytes → OutboxRow
outbox_row h order_id event_type payload = record {
  id = h.row_id;
  aggregate_id = order_id;
  event_type = event_type;
  payload = payload;
  status = pending;
  created_at = h.now;
  sent_at = none;
}

-- ===== src/Orders/Store.antt =====
-- The tables of order-service/migrations, and what a call of the repository takes from outside.
use mini_marketplace.Base.{ℕ, String, Bool, Option, List}
use mini_marketplace.Base.Int.{ℤ}
use mini_marketplace.Base.Json.{Bytes}
use mini_marketplace.Orders.Domain.{OrderStatus}

-- a row of `orders`
pub record OrderRow : Type 0 where
  pub id : String
  pub customer_id : String
  pub total_amount : ℤ
  pub currency : String
  pub status : OrderStatus
  pub version : ℕ
  pub created_at : ℕ
  pub updated_at : ℕ

-- a row of `order_items`; its own id is never read
pub record ItemRow : Type 0 where
  pub order_id : String
  pub sku : String
  pub name : String
  pub price : ℤ
  pub currency : String
  pub quantity : ℤ

-- the column `status` of `outbox`
pub data Delivery : Type 0 where
  pending sent : Delivery

-- a row of `outbox`
pub record OutboxRow : Type 0 where
  pub id : String
  pub aggregate_id : String
  pub event_type : String
  pub payload : Bytes
  pub status : Delivery
  pub created_at : ℕ
  pub sent_at : Option ℕ

pub record OrderDb : Type 0 where
  pub orders : List OrderRow
  pub items : List ItemRow
  pub outbox : List OutboxRow

-- The calls of the driver that may fail; a numbered one is the call for that row of a loop.
pub data Call : Type 0 where
  begin commit : Call
  insert_order close_batch insert_outbox : Call
  insert_item : ℕ → Call
  select_order select_items select_list scan_row : Call
  update_order : Call
  select_pending update_sent update_awaiting count_pending : Call

-- What one call takes from outside: the clock, `uuid.NewString()`, the `gen_random_uuid()` of the
-- outbox row, the text of a time, what a TIMESTAMPTZ column keeps of a time and a UUID column of a
-- text (`uuid.NewString()` is kept as it is), which calls of the driver fail (by a lost connection or by a
-- constraint on a column), and where a loop over rows ends early.
pub record Host : Type 0 where
  pub now : ℕ
  pub new_id : String
  pub row_id : String
  pub rfc3339 : ℕ → String
  pub timestamptz : ℕ → ℕ
  pub uuid : String → String
  pub fails : Call → Bool
  pub cut : Option ℕ

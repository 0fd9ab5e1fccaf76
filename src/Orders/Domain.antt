-- ===== src/Orders/Domain.antt =====
-- order-service/internal/domain/order.go: statuses and their transitions, money, and the order.
-- A time is a number of clock ticks; `time.Now()` is an argument. A version is a number.
pub mod Total
pub mod Machine
use mini_marketplace.Base.{
  ℕ, String, Bool, true, false, List, [], ◌∷◌, ok, err, Result, if◌then◌else◌,
}
use mini_marketplace.Base.Int.{ℤ, pos, ◌+ℤ◌, ◌*ℤ◌, wrap64}

pub data OrderStatus : Type 0 where
  created awaiting_stock confirmed cancelled completed : OrderStatus

-- `==` on statuses
unfoldable pub status_eq : OrderStatus → OrderStatus → Bool
status_eq created created = true
status_eq awaiting_stock awaiting_stock = true
status_eq confirmed confirmed = true
status_eq cancelled cancelled = true
status_eq completed completed = true
status_eq _ _ = false

-- the map `allowedTransactions`
unfoldable pub allowed_transactions : OrderStatus → List OrderStatus
allowed_transactions created = awaiting_stock ∷ []
allowed_transactions awaiting_stock = confirmed ∷ cancelled ∷ []
allowed_transactions confirmed = completed ∷ []
allowed_transactions cancelled = []
allowed_transactions completed = []

-- The errors that the service tells apart: the sentinels `ErrEmptyItems`, `ErrInvalidTransition`
-- and `ErrOptimisticLock`, `pgx.ErrNoRows`, and the errors that are made where they occur.
pub data OrderError : Type 0 where
  empty_items invalid_transition optimistic_lock : OrderError
  no_rows : OrderError
  driver : OrderError
  bad_cursor : OrderError
  no_event_mapping : OrderError
  exceeded_retries : OrderError

pub record Money : Type 0 where
  pub amount : ℤ  -- int64
  pub currency : String

pub record OrderItem : Type 0 where
  pub sku : String
  pub name : String
  pub price : Money
  pub quantity : ℤ  -- int

unfoldable pub new_money : ℤ → String → Money
new_money amount currency = record { amount = amount; currency = currency }

-- `Money.Add`
unfoldable pub add : Money → Money → Money
add m other = record { amount = wrap64 (m.amount +ℤ other.amount); currency = m.currency }

-- `OrderItem.Subtotal`
unfoldable pub subtotal : OrderItem → Money
subtotal i = record { amount = wrap64 (i.price.amount *ℤ i.quantity); currency = i.price.currency }

pub record Order : Type 0 where
  pub id : String
  pub customer_id : String
  pub items : List OrderItem
  pub total_cost : Money
  pub status : OrderStatus
  pub version : ℕ
  pub created_at : ℕ
  pub updated_at : ℕ

-- the loop of `NewOrder`
unfoldable pub add_items : Money → List OrderItem → Money
add_items total [] = total
add_items total (it ∷ items) = add_items (add total (subtotal it)) items

-- the `Order` literal of `NewOrder`, for a first item and the others
unfoldable pub order_of : ℕ → String → String → OrderItem → List OrderItem → Order
order_of now id customer_id it items = record {
  id = id;
  customer_id = customer_id;
  items = it ∷ items;
  total_cost = add_items (record { amount = pos 0; currency = it.price.currency }) (it ∷ items);
  status = created;
  version = 1;
  created_at = now;
  updated_at = now;
}

unfoldable pub new_order : ℕ → String → String → List OrderItem → Result OrderError Order
unfolding order_of
new_order now id customer_id [] = err empty_items
new_order now id customer_id (it ∷ items) = ok (order_of now id customer_id it items)

-- the loop of `TransitionTo` over the allowed statuses
unfoldable pub allows : List OrderStatus → OrderStatus → Bool
allows [] new_status = false
allows (s ∷ allowed) new_status = if status_eq s new_status then true else allows allowed new_status

unfoldable pub transition_to : ℕ → OrderStatus → Order → Result OrderError Order
transition_to now new_status o =
    if allows (allowed_transactions o.status) new_status
    then ok (record o { status = new_status; updated_at = now })
    else err invalid_transition

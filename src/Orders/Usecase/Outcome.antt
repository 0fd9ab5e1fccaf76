-- ===== src/Orders/Usecase/Outcome.antt =====
-- What `UpdateOrderStatus` (order-service/internal/usecase/order_usecase.go) leaves behind when it
-- returns an error.
use mini_marketplace.Base.{ℕ, zero, suc, ◌≤◌, String, ◌≡◌, inl, inr, err, Result-cases, arith}
use mini_marketplace.Orders.Domain.{OrderStatus, OrderError}
use mini_marketplace.Orders.Store.{OrderDb, Host}
use mini_marketplace.Orders.Repository.Atomic.{update_status_with_event_atomic}
use mini_marketplace.Orders.Usecase.{prepare, update_loop, update_order_status}
use mini_marketplace.Orders.Usecase.Status.{drift}

module _ (hosts : ℕ → Host) (others : ℕ → OrderDb → OrderDb) where
  update_loop-err :
      (left n : ℕ) (id : String) (new_status : OrderStatus) (reason : String) (db : OrderDb)
      {x : OrderError} {db' : OrderDb}
      → update_loop hosts others left n id new_status reason db ≡ (err x, db')
      → (k : ℕ) × (k ≤ left) × (db' ≡ drift hosts others n k db)
  unfolding update_loop
  update_loop-err zero n id new_status reason db e = (0, omega arith, ground arith)
  update_loop-err (suc left) n id new_status reason db {x} {db'} e =
      elim (Result-cases (prepare (hosts n) id new_status reason db)) [
        | inr (x, failed) ↦ (0, omega arith, ground arith)
        | inl ((o, event_type, payload), ready) ↦
            elim (update_status_with_event_atomic (hosts n) o event_type payload (others n db)).0 [
              | inl failed ↦ (1, omega arith, ground arith)
              | inr (inl (_, stale)) ↦
                  let (k, small, same) =
                    update_loop-err left (suc n) id new_status reason (others n db) {x = x}
                      {db' = db'} (ground arith) in
                  (suc k, omega arith, same)
              | inr (inr (hit, done)) ↦ absurd (ground arith)
            ]
      ]

-- If `UpdateOrderStatus` returns an error, its own writes have left nothing: the tables are those
-- that the other writers have made of the first ones in at most three attempts.
pub update_order_status_err :
    (hosts : ℕ → Host) (others : ℕ → OrderDb → OrderDb) (id : String) (new_status : OrderStatus)
    (reason : String) (db : OrderDb) {x : OrderError} {db' : OrderDb}
    → update_order_status hosts others id new_status reason db ≡ (err x, db')
    → (k : ℕ) × (k ≤ 3) × (db' ≡ drift hosts others 0 k db)
unfolding update_order_status
update_order_status_err hosts others id new_status reason db e =
    update_loop-err hosts others 3 0 id new_status reason db e

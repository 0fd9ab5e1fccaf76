-- ===== src/Orders/Repository/Atomic.antt =====
-- All or nothing: what the two transactions of
-- order-service/internal/repository/postgres/order_repo.go leave behind, whichever calls fail.
use mini_marketplace.Base.{
  ℕ, suc, ◌+◌, String, ◌≡◌, ◌≢◌, refl, Bool, false, ◌&&◌, none, List, [], ◌∷◌, ◌++◌, map, ok, err,
  ◌⊎◌, inl, inr, Bool-cases, arith, text_eq, first, update, affected, ◌==◌, ◌||◌, if◌then◌else◌,
  is_some,
}
use mathlib.Core.List.{append-nil, append_assoc}
use mini_marketplace.Base.Json.{Bytes}
use mini_marketplace.Orders.Domain.{OrderItem, Order, OrderError, driver, optimistic_lock}
use mini_marketplace.Orders.Store.{
  OrderRow, OrderDb, Call, Host, insert_order, close_batch, insert_outbox, insert_item,
  update_order, commit, begin,
}
use mini_marketplace.Orders.Repository.{
  row_of, item_row, outbox_row, insert_order_row, insert_item_rows, insert_outbox_row, save_body,
  save_with_event, update_body, update_status_with_event,
}

-- The tables with an order, its items and its event.
unfoldable pub saved : Host → Order → String → Bytes → OrderDb → OrderDb
saved h o event_type payload db = record {
  orders = db.orders ++ row_of h o ∷ [];
  items = db.items ++ map (item_row o.id) o.items;
  outbox = db.outbox ++ outbox_row h o.id event_type payload ∷ [];
}

-- Some result of the batch, from the `n`th on, is an error.
item_fails : Host → ℕ → List OrderItem → Bool
item_fails h n [] = false
item_fails h n (it ∷ items) = h.fails (insert_item n) || item_fails h (suc n) items

item_fails_none :
    (h : Host) (n : ℕ) (items : List OrderItem)
    → ((c : Call) → h.fails c ≡ false)
    → item_fails h n items ≡ false
unfolding item_fails
item_fails_none h n [] works = refl
item_fails_none h n (it ∷ items) works =
    ground (arith, works (insert_item n), item_fails_none h (suc n) items works)

insert_item_rows_lem :
    (h : Host) (order_id : String) (n : ℕ) (items : List OrderItem) (db : OrderDb)
    → insert_item_rows h order_id n items db ≡ (
        if item_fails h n items
        then err driver
        else ok (record db { items = db.items ++ map (item_row order_id) items }))
unfolding insert_item_rows item_fails
insert_item_rows_lem h order_id n [] db = rw append-nil
insert_item_rows_lem h order_id n (it ∷ items) db =
    let next : OrderDb = record db { items = db.items ++ item_row order_id it ∷ [] } in
    let e : next.items ++ map (item_row order_id) items
        ≡ db.items ++ map (item_row order_id) (it ∷ items) =
      append_assoc db.items (item_row order_id it ∷ []) (map (item_row order_id) items) in
    ground (arith, insert_item_rows_lem h order_id (suc n) items next, e)

-- A save fails if the id is taken or if a call of the driver fails.
pub save_fails : Host → Order → OrderDb → Bool
save_fails h o db =
    h.fails begin
    || is_some (first (λ r. text_eq r.id o.id) db.orders)
    || h.fails insert_order
    || item_fails h 0 o.items
    || h.fails close_batch
    || h.fails insert_outbox
    || h.fails commit

pub save_with_event_lem :
    (h : Host) (o : Order) (event_type : String) (payload : Bytes) (db : OrderDb)
    → save_with_event h o event_type payload db
      ≡ (if save_fails h o db then (err driver, db) else (ok tt, saved h o event_type payload db))
unfolding save_with_event save_body insert_order_row insert_outbox_row saved save_fails
save_with_event_lem h o event_type payload db =
    let with_row : OrderDb = record db { orders = db.orders ++ row_of h o ∷ [] } in
    ground (arith, insert_item_rows_lem h o.id 0 o.items with_row)

-- `SaveWithEvent` is atomic: whichever calls fail, either it returns an error and no table has
-- changed, or it returns nil, the id was free, and the order, all its items in their order and one
-- PENDING event are there together. It returns nil whenever the id is free and no call fails.
pub save_with_event_atomic :
    (h : Host) (o : Order) (event_type : String) (payload : Bytes) (db : OrderDb)
    → let out = save_with_event h o event_type payload db in
      (((e : OrderError) × (out ≡ (err e, db)))
        ⊎ ((out ≡ (ok tt, saved h o event_type payload db))
            × (first (λ r. text_eq r.id o.id) db.orders ≡ none)))
      × (((c : Call) → h.fails c ≡ false)
          → first (λ r. text_eq r.id o.id) db.orders ≡ none
          → out ≡ (ok tt, saved h o event_type payload db))
unfolding save_fails
save_with_event_atomic h o event_type payload db = (
  elim (Bool-cases (save_fails h o db)) [
    | inl e ↦ inl (driver, rw (save_with_event_lem h o event_type payload db, e))
    | inr e ↦ inr (rw (save_with_event_lem h o event_type payload db, e), ground arith)
  ],
  λ works free. rw (save_with_event_lem h o event_type payload db) (
      ground (
        arith,
        works begin,
        works insert_order,
        works close_batch,
        works insert_outbox,
        works commit,
        item_fails_none h 0 o.items works,
        free,
      )),
)

-- The row that an update by the optimistic lock is meant for.
unfoldable pub stands : Order → OrderRow → Bool
stands o r = text_eq r.id o.id && r.version == o.version

-- The tables after an update of the status.
unfoldable pub moved : Host → Order → String → Bytes → OrderDb → OrderDb
unfolding stands
moved h o event_type payload db = record db {
  orders =
      update (stands o)
        (λ r. record r {
          status = o.status;
          version = r.version + 1;
          updated_at = h.timestamptz h.now;
        })
        db.orders;
  outbox = db.outbox ++ outbox_row h o.id event_type payload ∷ [];
}

-- `UpdateStatusWithEvent` has three outcomes: the error of a call; `ErrOptimisticLock`, when no
-- row has the id at the version that was read; or nil, when there is such a row, and then it has
-- the new status, one version up, and one PENDING event was added. Whatever it returns but nil,
-- no table has changed. With no failing call the first does not occur.
pub update_status_with_event_atomic :
    (h : Host) (o : Order) (event_type : String) (payload : Bytes) (db : OrderDb)
    → let out = update_status_with_event h o event_type payload db in
      ((out ≡ (err driver, db))
        ⊎ (((affected (stands o) db.orders ≡ 0) × (out ≡ (err optimistic_lock, db)))
            ⊎ ((affected (stands o) db.orders ≢ 0)
                × (out ≡ (ok tt, moved h o event_type payload db)))))
      × (((c : Call) → h.fails c ≡ false) → out ≢ (err driver, db))
unfolding update_status_with_event update_body insert_outbox_row moved stands
update_status_with_event_atomic h o event_type payload db = (
  ground arith,
  λ works. ground (arith, works begin, works update_order, works insert_outbox, works commit),
)

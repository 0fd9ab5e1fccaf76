-- ===== src/Orders/Usecase/Status.antt =====
-- `UpdateOrderStatus` under concurrent writers (order-service/internal/usecase/order_usecase.go).
use mini_marketplace.Base.{
  ℕ, zero, suc, ◌+◌, ◌<◌, String, ◌≡◌, ◌≢◌, refl, inl, inr, none, some, [], ◌∷◌, ◌++◌, ok,
  Result-cases, arith, ◌∙◌, text_eq, first_passes, Option, affected,
}
use mini_marketplace.Base.Json.{Bytes}
use mini_marketplace.Orders.Domain.{
  Order, OrderStatus, created, awaiting_stock, confirmed, cancelled, completed,
}
use mini_marketplace.Orders.Domain.Machine.{◌⟶◌}
use mini_marketplace.Orders.Events.{confirmed_payload, cancelled_payload}
use mini_marketplace.Orders.Store.{OrderRow, OrderDb, Host}
use mini_marketplace.Orders.Repository.{outbox_row}
use mini_marketplace.Orders.Repository.Atomic.{moved, stands, update_status_with_event_atomic}
use mini_marketplace.Orders.Repository.Valid.{row_at, row_at-update, IsValid}
use mini_marketplace.Orders.Usecase.{prepare, update_loop, update_order_status, build_status_event}
use mini_marketplace.Orders.Usecase.Attempt.{Prepared, prepare-ok, affected-row}

-- The row of an order whose status was moved.
abbrev pub row_moved : Host → OrderStatus → OrderRow → OrderRow
row_moved h status r = record r {
  status = status;
  version = r.version + 1;
  updated_at = h.timestamptz h.now;
}

row_at-moved :
    (h : Host) (o : Order) (event_type : String) (payload : Bytes) (db : OrderDb) (r : OrderRow)
    → row_at o.id db.orders ≡ some r
    → r.version ≡ o.version
    → row_at o.id (moved h o event_type payload db).orders ≡ some (row_moved h o.status r)
unfolding moved stands
row_at-moved h o event_type payload db r found same =
    rw (row_at-update o.id (stands o) (row_moved h o.status) db.orders (λ r. refl), found)
      (ground (arith, first_passes (λ r. text_eq r.id o.id) db.orders found))

-- The event that tells the other services of a status: its type and its payload.
unfoldable pub announces : OrderStatus → String → String → Option (String × Bytes)
announces confirmed id reason = some ("order.confirmed", confirmed_payload id)
announces cancelled id reason = some ("order.cancelled", cancelled_payload id reason)
announces _ id reason = none

build_status_event-announces :
    (o : Order) (s : OrderStatus) (reason : String) {e : String × Bytes}
    → build_status_event o s reason ≡ ok e
    → announces s o.id reason ≡ some e
unfolding build_status_event announces
build_status_event-announces o confirmed reason h = ground arith
build_status_event-announces o cancelled reason h = ground arith
build_status_event-announces o created reason h = cc
build_status_event-announces o awaiting_stock reason h = cc
build_status_event-announces o completed reason h = cc

-- The writers beside this one: they keep the keys, and no row gets another status at the version
-- that it had.
pub record IsDisciplined (others : ℕ → OrderDb → OrderDb) : Type 0 where
  pub keeps_keys : (n : ℕ) (db : OrderDb) → IsValid db → IsValid (others n db)
  pub versioned :
      (n : ℕ) (db : OrderDb) (id : String) (r r' : OrderRow)
      → row_at id db.orders ≡ some r
      → row_at id (others n db).orders ≡ some r'
      → r'.version ≡ r.version
      → r'.status ≡ r.status

-- What a successful update has done: of the tables `seen` at its write, the order moved along an
-- edge, one version up, and one event was added.
pub record Updated (h : Host) (id : String) (new_status : OrderStatus) (reason : String)
    (seen db' : OrderDb) : Type 0 where
  pub row : OrderRow
  pub before : row_at id seen.orders ≡ some row
  pub edge : row.status ⟶ new_status
  pub after : row_at id db'.orders ≡ some (row_moved h new_status row)
  pub items_kept : db'.items ≡ seen.items
  pub event_type : String
  pub payload : Bytes
  pub event : announces new_status id reason ≡ some (event_type, payload)
  pub event_added : db'.outbox ≡ seen.outbox ++ outbox_row h id event_type payload ∷ []

module _ (hosts : ℕ → Host) (others : ℕ → OrderDb → OrderDb) where
  -- The tables after the others' writes in some attempts, from the `n`th on.
  abbrev pub drift : (n k : ℕ) → OrderDb → OrderDb
  drift n zero db = db
  drift n (suc k) db = drift (suc n) k (others n db)

  attempt-Updated :
      (n : ℕ) (id : String) (new_status : OrderStatus) (reason : String) (db : OrderDb) {o : Order}
      {event_type : String} {payload : Bytes}
      → IsDisciplined others
      → IsValid db
      → Prepared (hosts n) id new_status reason db o event_type payload
      → affected (stands o) (others n db).orders ≢ 0
      → Updated
          (hosts n)
          id
          new_status
          reason
          (others n db)
          (moved (hosts n) o event_type payload (others n db))
  attempt-Updated n id new_status reason db {o} {event_type} {payload} d v p hit =
      let w : OrderDb = others n db in
      let (row, found, version) = affected-row o w.orders (d.keeps_keys n db v).keys hit in
      let same_status : row.status ≡ p.row.status =
        d.versioned n db id p.row row p.found (rw (← p.same_id) found) (version ∙ p.same_version) in
      let after = row_at-moved (hosts n) o event_type payload w row found version in
      record {
        row = row;
        before = rw (← p.same_id) found;
        edge = rw same_status p.allowed;
        after = rw (← p.same_id, ← p.new_status_set) after;
        items_kept = unfold moved in refl;
        event_type = event_type;
        payload = payload;
        event = rw (← p.same_id) (build_status_event-announces o new_status reason p.event);
        event_added = unfold moved in rw (← p.same_id);
      }

  -- A success after at most `left` attempts is a success of one of them.
  update_loop-Updated :
      (left n : ℕ) (id : String) (new_status : OrderStatus) (reason : String) (db : OrderDb)
      {db' : OrderDb}
      → IsDisciplined others
      → IsValid db
      → update_loop hosts others left n id new_status reason db ≡ (ok tt, db')
      → (k : ℕ) × (k < left) × Updated (hosts (n + k)) id new_status reason (drift n (suc k) db) db'
  unfolding update_loop
  update_loop-Updated zero n id new_status reason db d v e = absurd (ground arith)
  update_loop-Updated (suc left) n id new_status reason db {db'} d v e =
      elim (Result-cases (prepare (hosts n) id new_status reason db)) [
        | inr (x, failed) ↦ absurd (ground arith)
        | inl ((o, event_type, payload), ready) ↦
            let p = prepare-ok (hosts n) id new_status reason db ready in
            elim (update_status_with_event_atomic (hosts n) o event_type payload (others n db)).0 [
              | inl failed ↦ absurd (ground arith)
              | inr (inl (_, stale)) ↦
                  let w : OrderDb = others n db in
                  let (k, small, u) =
                    update_loop-Updated left (suc n) id new_status reason w {db' = db'} d
                      (d.keeps_keys n db v) (ground arith) in
                  let shift : n + suc k ≡ suc n + k = omega arith in
                  (suc k, omega arith, rw shift u)
              | inr (inr (hit, done)) ↦
                  let w : OrderDb = others n db in
                  let same : moved (hosts n) o event_type payload w ≡ db' = ground arith in
                  let start : n + 0 ≡ n = omega arith in
                  (
                    0,
                    omega arith,
                    rw (start, ← same) (attempt-Updated n id new_status reason db d v p hit),
                  )
            ]
      ]

-- No update is lost. Let the tables have their keys, and let the other writers keep them and give
-- no row another status at the version it had. If `UpdateOrderStatus` returns nil, then in one of its at most three attempts,
-- on the tables as the other writers had left them, the order stood in a status with an edge to the
-- new one; it now has the new status, one version up, the items are kept, and exactly one event
-- was added, the one that announces the new status with the caller's reason.
pub update_order_status-Updated :
    (hosts : ℕ → Host) (others : ℕ → OrderDb → OrderDb) (id : String) (new_status : OrderStatus)
    (reason : String) (db : OrderDb) {db' : OrderDb}
    → IsDisciplined others
    → IsValid db
    → update_order_status hosts others id new_status reason db ≡ (ok tt, db')
    → (k : ℕ) × (k < 3)
      × Updated (hosts k) id new_status reason (drift hosts others 0 (suc k) db) db'
unfolding update_order_status
update_order_status-Updated hosts others id new_status reason db d v e =
    let (k, small, u) = update_loop-Updated hosts others 3 0 id new_status reason db d v e in
    let start : 0 + k ≡ k = omega arith in (k, small, rw start at u)

-- ===== src/Orders/Usecase/Attempt.antt =====
-- One attempt of `UpdateOrderStatus` (order-service/internal/usecase/order_usecase.go): what the
-- read decides, and which row the write changes.
use mini_marketplace.Base.{
  String, ◌≡◌, ◌≢◌, refl, inl, inr, some, List, [], ◌∷◌, ok, Result-cases, Option-cases, Bool-cases,
  arith, text_eq, text_eq→eq, affected, ◌==◌, ==_iff,
}
use mini_marketplace.Base.Json.{Bytes}
use mini_marketplace.Orders.Domain.{Order, OrderStatus, transition_to}
use mini_marketplace.Orders.Domain.Machine.{◌⟶◌, transition_to-ok}
use mini_marketplace.Orders.Store.{OrderRow, OrderDb, Host}
use mini_marketplace.Orders.Repository.{get_by_id, scan_order}
use mini_marketplace.Orders.Repository.Atomic.{stands}
use mini_marketplace.Orders.Repository.Valid.{row_at, HasKeys}
use mini_marketplace.Orders.Usecase.{build_status_event, prepare}

-- The order that a read returns is the row of that id.
get_by_id-row :
    (h : Host) (id : String) (db : OrderDb) {o : Order}
    → get_by_id h id db ≡ ok o
    → (r : OrderRow) × (row_at id db.orders ≡ some r)
      × (o.id ≡ r.id)
      × (o.version ≡ r.version)
      × (o.status ≡ r.status)
unfolding get_by_id scan_order
get_by_id-row h id db {o} e = elim (Option-cases (row_at id db.orders)) [
  | inl absent ↦ absurd (ground arith)
  | inr (r, found) ↦ (r, found, ground arith, ground arith, ground arith)
]

pub row_at-id :
    (id : String) (rows : List OrderRow) {r : OrderRow} → row_at id rows ≡ some r → r.id ≡ id
row_at-id id [] h = cc
row_at-id id (x ∷ rows) {r} h = elim (Bool-cases (text_eq x.id id)) [
  | inl e ↦ let k : x.id ≡ id = text_eq→eq x.id id e in ground arith
  | inr e ↦ row_at-id id rows {r = r} (ground arith)
]

-- With one row to an id, the row that passes the optimistic lock is the row of that id.
pub affected-row :
    (o : Order) (rows : List OrderRow)
    → HasKeys rows
    → affected (stands o) rows ≢ 0
    → (r : OrderRow) × (row_at o.id rows ≡ some r) × (r.version ≡ o.version)
unfolding stands
affected-row o [] keys h = absurd (h refl)
affected-row o (x ∷ rows) keys h = elim (Bool-cases (text_eq x.id o.id)) [
  | inl e ↦ elim (Bool-cases (x.version == o.version)) [
    | inl v ↦ (x, rw e, (==_iff x.version o.version).0 v)
    | inr v ↦
        let k : x.id ≡ o.id = text_eq→eq x.id o.id e in
        let (r, found, same) = affected-row o rows keys.1 (ground arith) in absurd (ground arith)
  ]
  | inr e ↦
      let (r, found, same) = affected-row o rows keys.1 (ground arith) in (r, rw e found, same)
]

-- What a successful preparation has read and decided.
pub record Prepared (h : Host) (id : String) (new_status : OrderStatus) (reason : String)
    (db : OrderDb) (o : Order) (event_type : String) (payload : Bytes) : Type 0 where
  pub row : OrderRow
  pub found : row_at id db.orders ≡ some row
  pub same_id : o.id ≡ id
  pub same_version : o.version ≡ row.version
  pub new_status_set : o.status ≡ new_status
  pub allowed : row.status ⟶ new_status
  pub event : build_status_event o new_status reason ≡ ok (event_type, payload)

pub prepare-ok :
    (h : Host) (id : String) (new_status : OrderStatus) (reason : String) (db : OrderDb) {o : Order}
    {event_type : String} {payload : Bytes}
    → prepare h id new_status reason db ≡ ok (o, event_type, payload)
    → Prepared h id new_status reason db o event_type payload
unfolding prepare
prepare-ok h id new_status reason db {o} e = elim (Result-cases (get_by_id h id db)) [
  | inr (x, failed) ↦ absurd (ground arith)
  | inl (read, got) ↦ elim (Result-cases (transition_to h.now new_status read)) [
    | inr (x, failed) ↦ absurd (ground arith)
    | inl (next, stepped) ↦ elim (Result-cases (build_status_event next new_status reason)) [
      | inr (x, failed) ↦ absurd (ground arith)
      | inl ((ty, p), built) ↦
          let (row, found, same_id, same_version, same_status) = get_by_id-row h id db got in
          let (edge, set) = transition_to-ok h.now new_status read stepped in
          let key : row.id ≡ id = row_at-id id db.orders found in
          let same : next ≡ o = ground arith in
          record {
            row = row;
            found = found;
            same_id = ground arith;
            same_version = ground arith;
            new_status_set = ground arith;
            allowed = rw same_status at edge;
            event = ground arith;
          }
    ]
  ]
]

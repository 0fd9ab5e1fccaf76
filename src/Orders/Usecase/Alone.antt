-- ===== src/Orders/Usecase/Alone.antt =====
-- The result of `UpdateOrderStatus` (order-service/internal/usecase/order_usecase.go) where nobody
-- interferes and no call fails.
use mini_marketplace.Base.{
  ℕ, suc, String, ◌≡◌, ◌≢◌, refl, ◌⊎◌, inl, inr, none, some, false, List, [], ◌∷◌, ok, err, Result,
  Option-cases, Bool-cases, cut_at, arith, text_eq, ◌∙◌, ap, select, map, ==_iff, affected,
}
use mini_marketplace.Orders.Domain.{
  Order, OrderStatus, created, awaiting_stock, confirmed, cancelled, completed, OrderError, no_rows,
  invalid_transition, no_event_mapping,
}
use mini_marketplace.Orders.Domain.Machine.{◌⟶◌, transition_to-⟶}
use mini_marketplace.Base.Json.{Bytes}
use mini_marketplace.Orders.Events.{
  order_confirmed, order_cancelled, confirmed_payload, cancelled_payload,
}
use mini_marketplace.Orders.Store.{
  OrderRow, OrderDb, Call, Host, scan_row, select_order, select_items,
}
use mini_marketplace.Orders.Repository.{scan_order, scan_item, get_by_id, update_status_with_event}
use mini_marketplace.Orders.Repository.Atomic.{stands, update_status_with_event_atomic}
use mini_marketplace.Orders.Repository.Valid.{row_at}
use mini_marketplace.Orders.Repository.ReadBack.{scan_items_lem}
use mini_marketplace.Orders.Usecase.{prepare, build_status_event, update_loop, update_order_status}
use mini_marketplace.Orders.Usecase.Attempt.{row_at-id}
use mini_marketplace.Orders.Usecase.Status.{announces}

-- A read in which no call fails finds the row of the id, or there is none.
get_by_id_works :
    (h : Host) (id : String) (db : OrderDb)
    → ((c : Call) → h.fails c ≡ false)
    → ((row_at id db.orders ≡ none) × (get_by_id h id db ≡ err no_rows))
      ⊎ ((r : OrderRow) × (o : Order) × (row_at id db.orders ≡ some r)
          × (get_by_id h id db ≡ ok o)
          × (o.id ≡ r.id)
          × (o.version ≡ r.version)
          × (o.status ≡ r.status))
unfolding get_by_id
get_by_id_works h id db works = elim (Option-cases (row_at id db.orders)) [
  | inl absent ↦ inl (absent, ground (arith, works select_order))
  | inr (r, found) ↦
      let rows = cut_at h.cut (select (λ i. text_eq i.order_id id) db.items) in
      inr (
        r,
        scan_order r (map scan_item rows),
        found,
        ground
            (arith, works select_order, works select_items, scan_items_lem h rows (works scan_row)),
        unfold scan_order in refl,
        unfold scan_order in refl,
        unfold scan_order in refl,
      )
]

-- The row of the id passes the optimistic lock at its own version.
row-affected :
    (o : Order) (rows : List OrderRow) {r : OrderRow}
    → row_at o.id rows ≡ some r
    → o.version ≡ r.version
    → affected (stands o) rows ≢ 0
unfolding stands
row-affected o [] found same = absurd (ground arith)
row-affected o (x ∷ rows) {r} found same = elim (Bool-cases (text_eq x.id o.id)) [
  | inl e ↦ ground (arith, ==_iff x.version o.version)
  | inr e ↦ ground (arith, row-affected o rows {r = r})
]

module _ (hosts : ℕ → Host) (others : ℕ → OrderDb → OrderDb) (left n : ℕ) (id : String)
    (new_status : OrderStatus) (reason : String) (db : OrderDb) where
  loop_refused :
      {x : OrderError}
      → prepare (hosts n) id new_status reason db ≡ err x
      → update_loop hosts others (suc left) n id new_status reason db ≡ (err x, db)
  unfolding update_loop
  loop_refused e = rw (e, update_loop)

  loop_done :
      {o : Order} {event_type : String} {payload : Bytes} {db' : OrderDb}
      → prepare (hosts n) id new_status reason db ≡ ok (o, event_type, payload)
      → update_status_with_event (hosts n) o event_type payload (others n db) ≡ (ok tt, db')
      → update_loop hosts others (suc left) n id new_status reason db ≡ (ok tt, db')
  unfolding update_loop
  loop_done e w = ground arith

build_status_event-cases :
    (o : Order) (s : OrderStatus) (reason : String)
    → ((announces s o.id reason ≡ none) × (build_status_event o s reason ≡ err no_event_mapping))
      ⊎ ((announces s o.id reason ≢ none)
          × ((e : String × Bytes) × (build_status_event o s reason ≡ ok e)))
unfolding build_status_event announces
build_status_event-cases o confirmed reason =
    inr (λ e. cc, ((order_confirmed, confirmed_payload o.id), refl))
build_status_event-cases o cancelled reason =
    inr (λ e. cc, ((order_cancelled, cancelled_payload o.id reason), refl))
build_status_event-cases o created reason = inl (refl, refl)
build_status_event-cases o awaiting_stock reason = inl (refl, refl)
build_status_event-cases o completed reason = inl (refl, refl)

-- The same two for a read order: what `TransitionTo` and `buildStatusEvent` make of it.
module _ (h : Host) (id : String) (new_status : OrderStatus) (reason : String) (db : OrderDb)
    (o : Order) (got : get_by_id h id db ≡ ok o) where
  prepare_off :
      ¬ (o.status ⟶ new_status) → prepare h id new_status reason db ≡ err invalid_transition
  unfolding prepare
  prepare_off off = rw got (rw ((transition_to-⟶ h.now new_status o).1 off))

  abbrev stepped : Order
  stepped = record o { status = new_status; updated_at = h.now }

  prepare_on :
      o.status ⟶ new_status
      → ((announces new_status o.id reason ≡ none)
          × (prepare h id new_status reason db ≡ err no_event_mapping))
        ⊎ ((announces new_status o.id reason ≢ none)
            × ((e : String × Bytes) × (prepare h id new_status reason db ≡ ok (stepped, e.0, e.1))))
  unfolding prepare
  prepare_on on =
      let step = (transition_to-⟶ h.now new_status o).0 on in
      elim (build_status_event-cases stepped new_status reason) [
        | inl (silent, e) ↦ inl (silent, rw got (rw step (rw e)))
        | inr (loud, (e, b)) ↦ inr (loud, (e, rw got (rw step (rw b))))
      ]

row_decides :
    (hosts : ℕ → Host) (id : String) (new_status : OrderStatus) (reason : String) (db : OrderDb)
    → ((n : ℕ) (c : Call) → (hosts n).fails c ≡ false)
    → (r : OrderRow) (o : Order) → row_at id db.orders ≡ some r
    → get_by_id (hosts 0) id db ≡ ok o
    → o.id ≡ r.id
    → o.version ≡ r.version
    → o.status ≡ r.status
    → let out = update_loop hosts (λ n d. d) 3 0 id new_status reason db in
      (¬ (r.status ⟶ new_status) → out ≡ (err invalid_transition, db))
      × (r.status ⟶ new_status
          → ((announces new_status id reason ≡ none) × (out ≡ (err no_event_mapping, db)))
            ⊎ ((announces new_status id reason ≢ none) × (out.0 ≡ ok tt)))
row_decides hosts id new_status reason db works r o found got same_id same_version same_status =
    let h : Host = hosts 0 in
    let key : o.id ≡ id = same_id ∙ row_at-id id db.orders found in
    let refused = λ (x : OrderError) (e : prepare h id new_status reason db ≡ err x).
      loop_refused hosts (λ n d. d) 2 0 id new_status reason db e in
    (
      λ off.
          refused invalid_transition
            (prepare_off h id new_status reason db o got (λ e. off (rw same_status at e))),
      λ on. elim (prepare_on h id new_status reason db o got (rw same_status on)) [
        | inl (silent, e) ↦ inl (rw key at silent, refused no_event_mapping e)
        | inr (loud, ((ty, payload), ready)) ↦
            let o' : Order = record o { status = new_status; updated_at = h.now } in
            let (outcome, sound) = update_status_with_event_atomic h o' ty payload db in
            elim outcome [
              | inl failed ↦ absurd (sound (works 0) failed)
              | inr (inl (stale, _)) ↦
                  absurd (row-affected o' db.orders {r = r} (rw key found) same_version stale)
              | inr (inr (hit, done)) ↦ inr (
                rw key at loud,
                ap (λ (x : Result OrderError (Unit {0}) × OrderDb). x.0)
                    (loop_done hosts (λ n d. d) 2 0 id new_status reason db ready done),
              )
            ]
      ],
    )

-- With no other writer and no failing call the outcome is decided by the row of the id:
-- `pgx.ErrNoRows` if there is none, `ErrInvalidTransition` off the edges, the error of
-- `buildStatusEvent` along an edge to a status without an event, and success along the others.
-- Each error leaves the tables as they were.
pub update_order_status_alone :
    (hosts : ℕ → Host) (id : String) (new_status : OrderStatus) (reason : String) (db : OrderDb)
    → ((n : ℕ) (c : Call) → (hosts n).fails c ≡ false)
    → let out = update_order_status hosts (λ n d. d) id new_status reason db in
      (row_at id db.orders ≡ none → out ≡ (err no_rows, db))
      × ((r : OrderRow)
          → row_at id db.orders ≡ some r
          → (¬ (r.status ⟶ new_status) → out ≡ (err invalid_transition, db))
            × (r.status ⟶ new_status
                → ((announces new_status id reason ≡ none) × (out ≡ (err no_event_mapping, db)))
                  ⊎ ((announces new_status id reason ≢ none) × (out.0 ≡ ok tt))))
unfolding update_order_status
update_order_status_alone hosts id new_status reason db works =
    elim (get_by_id_works (hosts 0) id db (works 0)) [
      | inl (absent, missed) ↦ (
        λ none'.
            loop_refused hosts (λ n d. d) 2 0 id new_status reason db (unfold prepare in rw missed),
        λ r found. absurd (ground arith),
      )
      | inr (r', o, there, got, same_id, same_version, same_status) ↦ (
        λ none'. absurd (ground arith),
        λ r found.
            let same : r' ≡ r = ground arith in
            row_decides hosts id new_status reason db works r o found got (rw (← same) same_id)
              (rw (← same) same_version) (rw (← same) same_status),
      )
    ]

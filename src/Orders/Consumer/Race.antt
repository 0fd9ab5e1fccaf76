-- ===== src/Orders/Consumer/Race.antt =====
-- Stock results against the state of the order (order-service/internal/consumer/
-- stock_result_consumer.go): redelivered ones, and ones that come too early.
use mini_marketplace.Base.{
  none, ℕ, ◌+◌, String, ◌≡◌, ◌≢◌, refl, ◌⊎◌, inl, inr, some, false, List, [], ◌∷◌, ok, arith,
  Option-cases, text_eq, first_passes, ◌&&◌,
}
use mini_marketplace.Base.Kafka.{Message, message, consume}
use mini_marketplace.Orders.Domain.{
  OrderStatus, created, awaiting_stock, confirmed, cancelled, completed, status_eq,
}
use mini_marketplace.Orders.Domain.Machine.{◌⟶◌, confirm, cancel}
use mini_marketplace.Orders.Store.{OrderRow, OrderDb, Call, Host}
use mini_marketplace.Orders.Repository.Valid.{IsValid, row_at, row_at-update}
use mini_marketplace.Orders.Usecase.{update_order_status}
use mini_marketplace.Orders.Usecase.Status.{IsDisciplined, update_order_status-Updated, announces}
use mini_marketplace.Orders.Usecase.Alone.{update_order_status_alone}
use mini_marketplace.Orders.Worker.{transition_to_awaiting_stock}
use mini_marketplace.Orders.Consumer.{
  stock_reserved_event, handle_reserved, run_reserved, StockFailedEvent, stock_failed_event,
  handle_failed,
}

abbrev pub nobody : ℕ → OrderDb → OrderDb
nobody n db = db

one_row :
    (id : String) (rows : List OrderRow) (r r' : OrderRow)
    → row_at id rows ≡ some r
    → row_at id rows ≡ some r'
    → r'.status ≡ r.status
one_row id rows r r' e e' = ground arith

nobody-IsDisciplined : IsDisciplined nobody
nobody-IsDisciplined = record {
  keeps_keys = λ n db v. v;
  versioned = λ n db id r r' found found' same. one_row id db.orders r r' found found';
}

not_into : {s : OrderStatus} → s ⟶ confirmed → s ≡ awaiting_stock
not_into confirm = refl

is_awaiting : (s : OrderStatus) → (s ≡ awaiting_stock) ⊎ (s ≢ awaiting_stock)
is_awaiting awaiting_stock = inl refl
is_awaiting created = inr (λ e. cc)
is_awaiting confirmed = inr (λ e. cc)
is_awaiting cancelled = inr (λ e. cc)
is_awaiting completed = inr (λ e. cc)

module _ (hosts : ℕ → ℕ → Host) (works : (n k : ℕ) (c : Call) → (hosts n k).fails c ≡ false) where
  -- A confirmation of an order that cannot be confirmed is acknowledged and changes nothing.
  acknowledged_off :
      (n : ℕ) (m : Message) (db : OrderDb) (id : String) (r : OrderRow)
      → stock_reserved_event m.value ≡ some id
      → row_at id db.orders ≡ some r
      → r.status ≢ awaiting_stock
      → handle_reserved hosts (λ _. nobody) n m db ≡ (ok tt, db)
  unfolding handle_reserved
  acknowledged_off n m db id r read found off =
      let refused =
        ((update_order_status_alone (hosts n) id confirmed "" db (works n)).1 r found).0
          (λ e. off (not_into e)) in
      ground (arith, refused)

  -- An update along an edge to a status that is announced.
  update_order_status-moves :
      (n : ℕ) (id : String) (s : OrderStatus) (reason : String) (db : OrderDb) (r : OrderRow)
      → IsValid db
      → row_at id db.orders ≡ some r
      → r.status ⟶ s
      → announces s id reason ≢ none
      → (db' : OrderDb) × (r' : OrderRow) × (row_at id db'.orders ≡ some r')
        × (r'.status ≡ s)
        × (update_order_status (hosts n) nobody id s reason db ≡ (ok tt, db'))
  update_order_status-moves n id s reason db r v found edge loud =
      let (_, on) = (update_order_status_alone (hosts n) id s reason db (works n)).1 r found in
      elim (on edge) [
        | inl (silent, _) ↦ absurd (loud silent)
        | inr (_, done) ↦
            let out = update_order_status (hosts n) nobody id s reason db in
            let whole : out ≡ (ok tt, out.1) = λ i. (done i, out.1) in
            let (k, small, u) =
              update_order_status-Updated (hosts n) nobody id s reason db {db' = out.1}
                nobody-IsDisciplined v whole in
            (
              out.1,
              record u.row {
                status = s;
                version = u.row.version + 1;
                updated_at = (hosts n k).timestamptz (hosts n k).now;
              },
              u.after,
              refl,
              whole,
            )
      ]

  -- A confirmation of an order that awaits stock confirms it.
  pub handle_reserved-confirms :
      (n : ℕ) (m : Message) (db : OrderDb) (id : String) (r : OrderRow)
      → stock_reserved_event m.value ≡ some id
      → IsValid db
      → row_at id db.orders ≡ some r
      → r.status ≡ awaiting_stock
      → (db' : OrderDb) × (r' : OrderRow) × (row_at id db'.orders ≡ some r')
        × (r'.status ≡ confirmed)
        × (handle_reserved hosts (λ _. nobody) n m db ≡ (ok tt, db'))
  unfolding handle_reserved announces
  handle_reserved-confirms n m db id r read v found waits =
      let (db', r', there, moved, done) =
        update_order_status-moves n id confirmed "" db r v found (rw waits confirm) (λ e. cc) in
      (db', r', there, moved, ground (arith, done))

  -- A refusal of one cancels it.
  pub handle_failed-cancels :
      (n : ℕ) (m : Message) (db : OrderDb) (event : StockFailedEvent) (r : OrderRow)
      → stock_failed_event m.value ≡ some event
      → IsValid db
      → row_at event.order_id db.orders ≡ some r
      → r.status ≡ awaiting_stock
      → (db' : OrderDb) × (r' : OrderRow) × (row_at event.order_id db'.orders ≡ some r')
        × (r'.status ≡ cancelled)
        × (handle_failed hosts (λ _. nobody) n m db ≡ (ok tt, db'))
  unfolding handle_failed announces
  handle_failed-cancels n m db event r read v found waits =
      let (db', r', there, moved, done) =
        update_order_status-moves n event.order_id cancelled event.reason db r v found
          (rw waits cancel) (λ e. cc) in
      (db', r', there, moved, ground (arith, done))

  -- With no failing call and no other writer, on tables with their keys: a stock.reserved
  -- message that was acknowledged once is acknowledged again at every later delivery, and the
  -- second delivery changes nothing: no status, no version, no event.
  pub handle_reserved_idempotent :
      (n n' : ℕ) (m : Message) (db db' : OrderDb)
      → IsValid db
      → handle_reserved hosts (λ _. nobody) n m db ≡ (ok tt, db')
      → handle_reserved hosts (λ _. nobody) n' m db' ≡ (ok tt, db')
  handle_reserved_idempotent n n' m db db' v e =
      elim (Option-cases (stock_reserved_event m.value)) [
        | inl garbled ↦ unfold handle_reserved in ground arith
        | inr (id, read) ↦ elim (Option-cases (row_at id db.orders)) [
          | inl absent ↦
              let missed =
                (update_order_status_alone (hosts n) id confirmed "" db (works n)).0 absent in
              absurd (unfold handle_reserved in ground arith)
          | inr (r, found) ↦ elim (is_awaiting r.status) [
            | inr off ↦
                let first' = acknowledged_off n m db id r read found off in
                let same : db' ≡ db = cc in rw same (acknowledged_off n' m db id r read found off)
            | inl waits ↦
                let (db'', r', found', is_confirmed, first') =
                  handle_reserved-confirms n m db id r read v found waits in
                let same : db' ≡ db'' = cc in
                rw same (acknowledged_off n' m db'' id r' read found' (λ w. ground arith))
          ]
        ]
      ]

  -- With no failing call and no other writer during the handling: a stock.reserved message that
  -- arrives while the order is still CREATED, which the outbox worker allows because it
  -- publishes before its transaction commits, is lost. The loop commits the message and changes
  -- nothing, and the worker's update of the same tables then has the order await stock.
  pub early_result_lost :
      (h : Host) (m : Message) (db : OrderDb) (id : String) (r : OrderRow)
      → stock_reserved_event m.value ≡ some id
      → row_at id db.orders ≡ some r
      → r.status ≡ created
      → (run_reserved hosts (λ _. nobody) (message m ∷ []) db ≡ (db, m ∷ []))
        × (row_at id (transition_to_awaiting_stock h id db).orders
            ≡ some (record r {
              status = awaiting_stock;
              version = r.version + 1;
              updated_at = h.timestamptz h.now;
            }))
  unfolding run_reserved consume transition_to_awaiting_stock
  early_result_lost h m db id r read found early = (
    rw (acknowledged_off 0 m db id r read found (λ e. ground arith)),
    rw
        (
          row_at-update id (λ x. text_eq x.id id && status_eq x.status created)
              (λ x. record x {
                status = awaiting_stock;
                version = x.version + 1;
                updated_at = h.timestamptz h.now;
              })
              db.orders (λ x. refl),
          found,
        )
        (unfold status_eq in ground (arith, first_passes (λ x. text_eq x.id id) db.orders found)),
  )

-- ===== src/Orders/Repository/Valid.antt =====
-- The keys of the tables of order-service/migrations, and reading an order back.
use mini_marketplace.Base.{
  String, ◌≡◌, refl, Bool, true, false, Option, none, some, List, [], ◌∷◌, ◌++◌, map, inl, inr,
  Option-cases, arith, text_eq, text_eq_refl, text_eq_sym, first, update, All, All-append, All-map,
  is_some, if◌then◌else◌, ap, first-append_none, first-append_some, first-update,
}
use mathlib.Core.Option
use mini_marketplace.Base.Json.{Bytes}
use mini_marketplace.Orders.Domain.{OrderItem, Order}
use mini_marketplace.Orders.Store.{OrderRow, ItemRow, OrderDb, Host}
use mini_marketplace.Orders.Repository.{row_of, item_row, save_with_event, update_status_with_event}
use mini_marketplace.Orders.Repository.Atomic.{
  saved, moved, stands, save_with_event_atomic, update_status_with_event_atomic,
}

-- The primary key: the row of an id.
abbrev pub row_at : String → List OrderRow → Option OrderRow
row_at id = first (λ r. text_eq r.id id)

-- No two orders have one id.
abbrev pub HasKeys : List OrderRow → Type 0
HasKeys [] = Unit
HasKeys (r ∷ rows) = (row_at r.id rows ≡ none) × HasKeys rows

-- The primary key of `orders`, and the foreign key of `order_items`.
pub record IsValid (db : OrderDb) : Type 0 where
  pub keys : HasKeys db.orders
  pub owned : All (λ (i : ItemRow). is_some (row_at i.order_id db.orders) ≡ true) db.items

pub row_at-append_self :
    (r : OrderRow) (rows : List OrderRow)
    → row_at r.id rows ≡ none
    → row_at r.id (rows ++ r ∷ []) ≡ some r
row_at-append_self r rows h =
    rw (first-append_none (λ x. text_eq x.id r.id) rows (r ∷ []) h, text_eq_refl r.id)

row_at-append_ne :
    (id : String) (r : OrderRow) (rows : List OrderRow)
    → row_at id rows ≡ none
    → text_eq r.id id ≡ false
    → row_at id (rows ++ r ∷ []) ≡ none
row_at-append_ne id r rows h e = rw (first-append_none (λ x. text_eq x.id id) rows (r ∷ []) h, e)

HasKeys-append :
    (rows : List OrderRow) (r : OrderRow)
    → HasKeys rows
    → row_at r.id rows ≡ none
    → HasKeys (rows ++ r ∷ [])
HasKeys-append [] r h free = (refl, tt)
HasKeys-append (x ∷ rows) r h free = (
  row_at-append_ne x.id r rows h.0 ground (arith, text_eq_sym r.id x.id),
  HasKeys-append rows r h.1 (ground arith),
)

pub row_at-update :
    (id : String) (q : OrderRow → Bool) (f : OrderRow → OrderRow) (rows : List OrderRow)
    → ((r : OrderRow) → (f r).id ≡ r.id)
    → row_at id (update q f rows) ≡ Option.map (λ r. if q r then f r else r) (row_at id rows)
row_at-update id q f rows keep =
    first-update (λ r. text_eq r.id id) q f rows (λ r. ap (λ k. text_eq k id) (keep r))

pub HasKeys-update :
    (q : OrderRow → Bool) (f : OrderRow → OrderRow) (rows : List OrderRow)
    → ((r : OrderRow) → (f r).id ≡ r.id)
    → HasKeys rows
    → HasKeys (update q f rows)
HasKeys-update q f [] keep h = tt
HasKeys-update q f (x ∷ rows) keep h = (
  let same : (if q x then f x else x).id ≡ x.id = ground (arith, keep x) in
      rw (same, row_at-update x.id q f rows keep, h.0) refl,
  HasKeys-update q f rows keep h.1,
)

owned_more :
    (rows more : List OrderRow) (items : List ItemRow)
    → All (λ (i : ItemRow). is_some (row_at i.order_id rows) ≡ true) items
    → All (λ (i : ItemRow). is_some (row_at i.order_id (rows ++ more)) ≡ true) items
owned_more rows more items h = All-map items (λ i e. still_there i e) h
  where
    still_there :
        (i : ItemRow)
        → is_some (row_at i.order_id rows) ≡ true
        → is_some (row_at i.order_id (rows ++ more)) ≡ true
    still_there i e = elim (Option-cases (row_at i.order_id rows)) [
      | inl none' ↦ absurd (ground arith)
      | inr (r, found) ↦ rw (first-append_some (λ r. text_eq r.id i.order_id) rows more found)
    ]

owned_new :
    (id : String) (rows : List OrderRow) (items : List OrderItem)
    → is_some (row_at id rows) ≡ true
    → All (λ (i : ItemRow). is_some (row_at i.order_id rows) ≡ true) (map (item_row id) items)
unfolding item_row
owned_new id rows [] e = tt
owned_new id rows (it ∷ items) e = (e, owned_new id rows items e)

pub saved-IsValid :
    (h : Host) (o : Order) (event_type : String) (payload : Bytes) (db : OrderDb)
    → IsValid db
    → row_at o.id db.orders ≡ none
    → IsValid (saved h o event_type payload db)
unfolding saved row_of
saved-IsValid h o event_type payload db v free = record {
  keys = HasKeys-append db.orders (row_of h o) v.keys free;
  owned =
      All-append _ db.items (map (item_row o.id) o.items) (owned_more _ _ db.items v.owned)
        (owned_new o.id _ o.items (rw (row_at-append_self (row_of h o) db.orders free)));
}

pub owned-update :
    (q : OrderRow → Bool) (f : OrderRow → OrderRow) (rows : List OrderRow) (items : List ItemRow)
    → ((r : OrderRow) → (f r).id ≡ r.id)
    → All (λ (i : ItemRow). is_some (row_at i.order_id rows) ≡ true) items
    → All (λ (i : ItemRow). is_some (row_at i.order_id (update q f rows)) ≡ true) items
owned-update q f rows items keep h = All-map items (λ i e. still_there i e) h
  where
    still_there :
        (i : ItemRow)
        → is_some (row_at i.order_id rows) ≡ true
        → is_some (row_at i.order_id (update q f rows)) ≡ true
    still_there i e = rw (row_at-update i.order_id q f rows keep) (ground arith)

pub moved-IsValid :
    (h : Host) (o : Order) (event_type : String) (payload : Bytes) (db : OrderDb)
    → IsValid db
    → IsValid (moved h o event_type payload db)
unfolding moved
moved-IsValid h o event_type payload db v = record {
  keys = HasKeys-update (stands o) _ db.orders (λ r. refl) v.keys;
  owned = owned-update (stands o) _ db.orders db.items (λ r. refl) v.owned;
}

-- Both writing methods keep the primary key of `orders` and the foreign key of `order_items`,
-- whatever they return.
pub write-IsValid :
    (h : Host) (o : Order) (event_type : String) (payload : Bytes) (db : OrderDb)
    → IsValid db
    → IsValid (save_with_event h o event_type payload db).1
      × IsValid (update_status_with_event h o event_type payload db).1
write-IsValid h o event_type payload db v = (
  elim (save_with_event_atomic h o event_type payload db).0 [
    | inl (e, failed) ↦ rw failed v
    | inr (done, free) ↦ rw done (saved-IsValid h o event_type payload db v free)
  ],
  elim (update_status_with_event_atomic h o event_type payload db).0 [
    | inl failed ↦ rw failed v
    | inr (inl (_, stale)) ↦ rw stale v
    | inr (inr (_, done)) ↦ rw done (moved-IsValid h o event_type payload db v)
  ],
)

-- ===== src/Saga/Conserved.antt =====
-- The stock of inventory-service against the order lines of order-service: two databases that only
-- messages connect.
use mathlib.Core.Option
use mini_marketplace.Base.{
  ℕ, String, ◌≡◌, refl, ap, ◌∙◌, inl, inr, false, Option, none, some, List, [], ◌∷◌, ◌++◌, All,
  All-map, All-In, arith, text_eq, text_eq_sym,
}
use mini_marketplace.Base.Int.{ℤ, ◌+ℤ◌, int_laws}
use mini_marketplace.Base.Kafka.{Message}
use mini_marketplace.Orders.Events.{order_created}
use mini_marketplace.Orders.Store.{OrderDb}
use mini_marketplace.Inventory.Stock.{Stock}
use mini_marketplace.Inventory.Store.{InventoryDb, Host}
use mini_marketplace.Inventory.Repository.{contains}
use mini_marketplace.Inventory.Repository.Levels.{Level, levels, total_of, take_from}
use mini_marketplace.Inventory.Repository.Lines.{take_twice, zero_taken}
use mini_marketplace.Inventory.Usecase.Outcome.{told}
use mini_marketplace.Inventory.Consumer.{handle_message}
use mini_marketplace.Inventory.Consumer.Answers.{handle_message_fates}
use mini_marketplace.Saga.{
  World, ◌⇒◌, place, publish_orders, reserve_stock, publish_answers, confirm, cancel, ◌⇒*◌, here,
  then,
}
use mini_marketplace.Saga.Answers.{process_batch-same}
use mini_marketplace.Saga.Lines.{ordered_by, ordered_by-append, ordered_by-same}
use mini_marketplace.Saga.Known.{IsKnown, IsOfOrder, Keeps}
use mini_marketplace.Saga.Written.{create_order-IsTraced}
use mini_marketplace.Saga.Trace.{
  handle_reserved-IsTraced, handle_failed-IsTraced, process_batch-IsTraced,
}
use mini_marketplace.Saga.Reserved.{IsSilent, IsTrue, ⇒-IsTrue, silent-IsTrue}

-- No id stands twice.
abbrev pub AreDistinct : List String → Type 0
AreDistinct [] = Unit
AreDistinct (id ∷ ids) = (contains id ids ≡ false) × AreDistinct ids

contains-append_ne :
    (x id : String) (ids : List String)
    → contains x ids ≡ false
    → text_eq id x ≡ false
    → contains x (ids ++ id ∷ []) ≡ false
unfolding contains
contains-append_ne x id [] h e = rw e
contains-append_ne x id (y ∷ ids) h e = ground (arith, contains-append_ne x id ids)

AreDistinct-append :
    (id : String) (ids : List String)
    → AreDistinct ids
    → contains id ids ≡ false
    → AreDistinct (ids ++ id ∷ [])
unfolding contains
AreDistinct-append id [] d h = (refl, tt)
AreDistinct-append id (x ∷ ids) d h = (
  contains-append_ne x id ids d.0 ground (arith, text_eq_sym id x),
  AreDistinct-append id ids d.1 (ground arith),
)

-- Every sku's stock has moved, from available to reserved, by what the lines of the processed orders
-- ask for.
abbrev pub IsMoved : List Stock → OrderDb → InventoryDb → Type 0
IsMoved opening orders inventory =
    (k : String)
    → levels inventory.stock k
      ≡ Option.map (take_from (ordered_by k inventory.processed_events orders.items))
          (levels opening k)

-- A write of order-service moves no stock, and its new lines are of no processed order.
kept-IsMoved :
    (opening : List Stock) (db db' : OrderDb) (inventory : InventoryDb)
    → Keeps db db'
    → All (IsKnown db.orders) inventory.processed_events
    → IsMoved opening db inventory
    → IsMoved opening db' inventory
kept-IsMoved opening db db' inventory keeps known moved k =
    let ids = inventory.processed_events in
    rw (ordered_by-same k ids db.items db'.items (All-map ids (λ id p. (keeps id p).1 k) known))
      (moved k)

map_twice :
    (a b : ℤ) (l : Option Level)
    → Option.map (take_from a) (Option.map (take_from b) l) ≡ Option.map (take_from (b +ℤ a)) l
map_twice a b none = refl
map_twice a b (some l) = ap some (take_twice a b l)

handle_message-IsMoved :
    (hosts hosts' : ℕ → Host) (n : ℕ) (m : Message) (opening : List Stock) (orders : OrderDb)
    (db : InventoryDb)
    → m.topic ≡ order_created
    → IsOfOrder orders m
    → AreDistinct db.processed_events
    → IsMoved opening orders db
    → let db' = (handle_message hosts hosts' n m db).1 in
      AreDistinct db'.processed_events × IsMoved opening orders db'
unfolding told ordered_by
handle_message-IsMoved hosts hosts' n m opening orders db topic of_order distinct moved =
    elim (handle_message_fates hosts hosts' n m db) [
      | inl (garbled, same) ↦ rw same (distinct, moved)
      | inr (event, read, inl (db', done, r)) ↦
          let ids = db.processed_events in
          let id = event.order_id in
          rw done (
            rw r.processed (AreDistinct-append id ids distinct r.is_new),
            λ k.
                let asked = (of_order topic event read).1 k in
                let one : ordered_by k (id ∷ []) orders.items ≡ total_of k event.items =
                  rw asked (omega int_laws) in
                r.moved k
                ∙ ap (Option.map (take_from (total_of k event.items))) (moved k)
                ∙ map_twice (total_of k event.items) (ordered_by k ids orders.items)
                    (levels opening k)
                ∙ rw (r.processed, ordered_by-append k ids (id ∷ []) orders.items, one) refl,
          )
      | inr (event, read, inr (inl (reason, done))) ↦ rw done (distinct, moved)
      | inr (event, read, inr (inr (inl (marked, same)))) ↦ rw same (distinct, moved)
      | inr (event, read, inr (inr (inr (e, silent, apart, same)))) ↦ rw same (distinct, moved)
    ]

-- What every step keeps.
record IsConserved (opening : List Stock) (w : World) : Type 0 where
  pub sound : IsTrue w
  pub distinct : AreDistinct w.inventory.processed_events
  pub moved : IsMoved opening w.orders w.inventory

-- A step of order-service.
ordered-IsConserved :
    {w w' : World} (opening : List Stock)
    → w'.inventory ≡ w.inventory
    → Keeps w.orders w'.orders
    → IsTrue w'
    → IsConserved opening w
    → IsConserved opening w'
ordered-IsConserved {w} {w'} opening same keeps t c = record {
  sound = t;
  distinct = rw same (c.distinct);
  moved = rw same (kept-IsMoved opening w.orders w'.orders w.inventory keeps c.sound.known c.moved);
}

⇒-IsConserved :
    {w w' : World} (opening : List Stock) → w ⇒ w' → IsConserved opening w → IsConserved opening w'
⇒-IsConserved opening (place {w} h customer_id items) c =
    let t = c.sound in
    let (_, _, keeps) = create_order-IsTraced h customer_id items w.orders t.stored t.valid in
    ordered-IsConserved opening refl keeps (⇒-IsTrue (place {w = w} h customer_id items) t) c
⇒-IsConserved opening (publish_orders {w} tick) c =
    let t = c.sound in
    let ((_, _, keeps), _) =
      process_batch-IsTraced tick w.orders w.order_log t.stored t.valid t.announced in
    ordered-IsConserved opening refl keeps (⇒-IsTrue (publish_orders {w = w} tick) t) c
⇒-IsConserved opening (reserve_stock {w} hosts hosts' n m there topic) c =
    let (distinct', moved') =
      handle_message-IsMoved hosts hosts' n m opening w.orders w.inventory topic
        (All-In (IsOfOrder w.orders) m w.order_log c.sound.announced there) c.distinct c.moved in
    record {
      sound = ⇒-IsTrue (reserve_stock {w = w} hosts hosts' n m there topic) c.sound;
      distinct = distinct';
      moved = moved';
    }
⇒-IsConserved opening (publish_answers {w} tick) c =
    let (marks, stock) = process_batch-same tick w.inventory w.stock_log in
    record {
      sound = ⇒-IsTrue (publish_answers {w = w} tick) c.sound;
      distinct = rw marks (c.distinct);
      moved = rw (marks, stock) (c.moved);
    }
⇒-IsConserved opening (confirm {w} hosts n m there topic) c =
    let t = c.sound in
    let (_, _, keeps) = handle_reserved-IsTraced hosts n m w.orders t.stored t.valid in
    ordered-IsConserved opening refl keeps (⇒-IsTrue (confirm {w = w} hosts n m there topic) t) c
⇒-IsConserved opening (cancel {w} hosts n m there topic) c =
    let t = c.sound in
    let (_, _, keeps) = handle_failed-IsTraced hosts n m w.orders t.stored t.valid in
    ordered-IsConserved opening refl keeps (⇒-IsTrue (cancel {w = w} hosts n m there topic) t) c

⇒*-IsConserved :
    {w w' : World} (opening : List Stock) → w ⇒* w' → IsConserved opening w → IsConserved opening w'
⇒*-IsConserved opening here c = c
⇒*-IsConserved opening (then step rest) c =
    ⇒*-IsConserved opening rest (⇒-IsConserved opening step c)

silent-IsMoved : {w : World} → IsSilent w → IsMoved w.inventory.stock w.orders w.inventory
unfolding ordered_by
silent-IsMoved {w} silent k = rw silent.no_marks (zero_taken (levels w.inventory.stock k))

-- The two databases agree to the unit: from a start with an empty outbox of order-service, an empty
-- topic of `order.created`, no mark of a processed order and the keys of order-service's tables,
-- however the steps of the two services interleave, whichever calls fail in them, and however often
-- and in whatever order messages are handled, no order is marked as processed twice, and of every
-- sku exactly as much stock has moved from available to reserved as the lines of the processed
-- orders in order-service's table ask for. The sum of the two never changes.
pub reachable-IsMoved :
    {w w' : World}
    → IsSilent w
    → w ⇒* w'
    → AreDistinct w'.inventory.processed_events × IsMoved w.inventory.stock w'.orders w'.inventory
reachable-IsMoved {w} silent steps =
    let start : IsConserved w.inventory.stock w = record {
      sound = silent-IsTrue silent;
      distinct = rw (silent.no_marks) tt;
      moved = silent-IsMoved silent;
    } in
    let c = ⇒*-IsConserved w.inventory.stock steps start in (c.distinct, c.moved)

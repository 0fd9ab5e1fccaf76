-- ===== src/Inventory/Repository/Lines.antt =====
-- The loop of step 4 of `ReserveAll`, line by line
-- (inventory-service/internal/repository/postgres/stock_repo.go).
use mini_marketplace.Base.{
  ℕ, suc, String, ◌≡◌, refl, inl, inr, Option, none, some, List, [], ◌∷◌, ok, arith, Option-cases,
  Bool-cases, Result-cases, text_eq, text_eq→eq, first_passes, update, if◌then◌else◌, ◌∙◌,
}
use mathlib.Core.Option
use mini_marketplace.Base.Int.{ℤ, pos, ◌+ℤ◌, ◌-ℤ◌, int_laws}
use mini_marketplace.Inventory.Stock.{Stock, reserve, reserve-ok}
use mini_marketplace.Inventory.Store.{InventoryDb, Host}
use mini_marketplace.Inventory.Repository.{
  ReservationItem, write_stock, put_stock, reserve_items, restocked,
}
use mini_marketplace.Inventory.Repository.Levels.{
  Level, level_of, row_of, levels, total_of, take_from, Agrees, levels-put_stock, write_stock-ok,
  levels-line,
}

pub take_twice : (a b : ℤ) (l : Level) → take_from a (take_from b l) ≡ take_from (b +ℤ a) l
take_twice a b l =
    let left : (l.available -ℤ b) -ℤ a ≡ l.available -ℤ (b +ℤ a) = omega int_laws in
    let right : (l.reserved +ℤ b) +ℤ a ≡ l.reserved +ℤ (b +ℤ a) = omega int_laws in
    λ i. record { available = left i; reserved = right i }

zero_plus : (a : ℤ) → pos 0 +ℤ a ≡ a
zero_plus a = omega int_laws

-- One line, and then the others.
levels_step :
    (it : ReservationItem) (items : List ReservationItem) (k : String) (l l₁ l' : Option Level)
    → l₁ ≡ (if text_eq it.sku k then Option.map (take_from it.qty) l else l)
    → l' ≡ Option.map (take_from (total_of k items)) l₁
    → l' ≡ Option.map (take_from (total_of k (it ∷ items))) l
unfolding total_of
levels_step it items k none l₁ l' e e' = ground arith
levels_step it items k (some l) l₁ l' e e' = elim (Bool-cases (text_eq it.sku k)) [
  | inl same ↦ ground (arith, take_twice (total_of k items) it.qty l)
  | inr differs ↦ ground (arith, zero_plus (total_of k items))
]

Agrees-step :
    (s s' : Stock) (sku : String) (qty : ℤ) (stocks stock : List Stock)
    → Agrees stocks stock
    → row_of sku stocks ≡ some s
    → levels stock sku ≡ some (level_of s)
    → s'.sku ≡ sku
    → level_of s' ≡ take_from qty (level_of s)
    → Agrees (put_stock sku s' stocks) (update (λ r. text_eq r.sku sku) (restocked s') stock)
Agrees-step s s' sku qty stocks stock agrees found before key after k =
    elim (Bool-cases (text_eq sku k)) [
      | inl e ↦
          let same : sku ≡ k = text_eq→eq sku k e in
          inr (
            ground (
              arith,
              levels-put_stock sku k s' stocks key,
              levels-line s s' qty sku k stock before after,
            ))
      | inr e ↦ elim (agrees k) [
        | inl nothing ↦ inl (ground (arith, levels-put_stock sku k s' stocks key))
        | inr equal ↦ inr (
            ground (
              arith,
              levels-put_stock sku k s' stocks key,
              levels-line s s' qty sku k stock before after,
            ))
      ]
    ]

Agrees-found :
    (sku : String) (s : Stock) (stocks stock : List Stock)
    → Agrees stocks stock
    → row_of sku stocks ≡ some s
    → levels stock sku ≡ some (level_of s)
unfolding levels
Agrees-found sku s stocks stock agrees found = elim (agrees sku) [
  | inl nothing ↦ absurd (ground arith)
  | inr equal ↦ ground arith
]

-- What the loop of step 4 leaves, if it ends.
pub record LinesReserved (items : List ReservationItem) (db db' : InventoryDb) : Type 0 where
  pub moved :
      (k : String)
      → levels db'.stock k ≡ Option.map (take_from (total_of k items)) (levels db.stock k)
  pub processed_kept : db'.processed_events ≡ db.processed_events
  pub outbox_kept : db'.outbox ≡ db.outbox

pub zero_taken : (l : Option Level) → l ≡ Option.map (take_from (pos 0)) l
zero_taken none = refl
zero_taken (some l) =
    let left : l.available ≡ l.available -ℤ pos 0 = omega int_laws in
    let right : l.reserved ≡ l.reserved +ℤ pos 0 = omega int_laws in
    λ i. some (record { available = left i; reserved = right i })

pub reserve_items-LinesReserved :
    (h : Host) (n : ℕ) (stocks : List Stock) (items : List ReservationItem) (db db' : InventoryDb)
    → Agrees stocks db.stock
    → reserve_items h n stocks items db ≡ ok db'
    → LinesReserved items db db'
unfolding reserve_items
reserve_items-LinesReserved h n stocks [] db db' agrees e =
    let same : db ≡ db' = ground arith in
    rw (← same) (record {
      moved = λ k. unfold total_of in zero_taken (levels db.stock k);
      processed_kept = refl;
      outbox_kept = refl;
    })
reserve_items-LinesReserved h n stocks (it ∷ items) db db' agrees e =
    elim (Option-cases (row_of it.sku stocks)) [
      | inl missing ↦ absurd (ground arith)
      | inr (s, found) ↦ elim (Result-cases (reserve it.qty s)) [
        | inr (x, refused) ↦ absurd (ground arith)
        | inl (s', reserved) ↦ elim (Result-cases (write_stock h n s' it.sku db)) [
          | inr (x, failed) ↦ absurd (ground arith)
          | inl (db₁, written) ↦
              let (positive, covered, taken) = reserve-ok it.qty s reserved in
              let here' : s.sku ≡ it.sku =
                text_eq→eq s.sku it.sku (first_passes (λ x. text_eq x.sku it.sku) stocks found) in
              let key : s'.sku ≡ it.sku = ground arith in
              let after : level_of s' ≡ take_from it.qty (level_of s) = ground arith in
              let before : levels db.stock it.sku ≡ some (level_of s) =
                Agrees-found it.sku s stocks db.stock agrees found in
              let (same, _) = write_stock-ok h n s' it.sku db written in
              let rest =
                reserve_items-LinesReserved h (suc n) (put_stock it.sku s' stocks) items db₁ db'
                  (rw same
                    (Agrees-step s s' it.sku it.qty stocks db.stock agrees found before key after))
                  (ground arith) in
              record {
                moved = λ k.
                    levels_step it items k (levels db.stock k) (levels db₁.stock k)
                      (levels db'.stock k)
                      (rw same (levels-line s s' it.qty it.sku k db.stock before after))
                      (rest.moved k);
                processed_kept = rest.processed_kept ∙ rw same;
                outbox_kept = rest.outbox_kept ∙ rw same;
              }
        ]
      ]
    ]

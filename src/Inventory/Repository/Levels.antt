-- ===== src/Inventory/Repository/Levels.antt =====
-- The stock levels as a function of the sku, through the writes of
-- inventory-service/internal/repository/postgres/stock_repo.go.
use mini_marketplace.Base.{
  ℕ, String, ◌≡◌, refl, ◌⊎◌, inl, inr, true, false, Option, none, some, List, [], ◌∷◌, ok, arith,
  Bool-cases, text_eq, text_eq→eq, text_eq_iff, first, update, select, if◌then◌else◌, ◌∙◌,
}
use mathlib.Core.Option
use mini_marketplace.Base.Int.{ℤ, pos, ◌+ℤ◌, ◌-ℤ◌, ◌≤ℤ◌}
use mini_marketplace.Inventory.Stock.{Stock}
use mini_marketplace.Inventory.Store.{InventoryDb, Host}
use mini_marketplace.Inventory.Repository.{
  ReservationItem, wanted, write_stock, put_stock, restocked, column_accepts,
}

-- What is available and what is reserved of a sku.
pub record Level : Type 0 where
  pub available : ℤ
  pub reserved : ℤ

abbrev pub level_of : Stock → Level
level_of s = record { available = s.available_qty; reserved = s.reserved_qty }

abbrev pub row_of : String → List Stock → Option Stock
row_of sku = first (λ s. text_eq s.sku sku)

-- The levels of a table, by sku.
unfoldable pub levels : List Stock → String → Option Level
levels stock sku = Option.map level_of (row_of sku stock)

-- How much of a sku the items ask for, all their lines together.
unfoldable pub total_of : String → List ReservationItem → ℤ
total_of sku [] = pos 0
total_of sku (it ∷ items) = (if text_eq it.sku sku then it.qty else pos 0) +ℤ total_of sku items

-- A level with some of the available stock reserved.
abbrev pub take_from : ℤ → Level → Level
take_from qty l = record { available = l.available -ℤ qty; reserved = l.reserved +ℤ qty }

-- A write to the rows of one sku.
levels-update :
    (sku k : String) (f : Stock → Stock) (stock : List Stock)
    → ((s : Stock) → (f s).sku ≡ s.sku)
    → levels (update (λ r. text_eq r.sku sku) f stock) k ≡ (
        if text_eq sku k then Option.map (λ s. level_of (f s)) (row_of k stock) else levels stock k)
unfolding levels
levels-update sku k f [] keep = ground arith
levels-update sku k f (x ∷ stock) keep = ground (
  arith,
  keep x,
  text_eq_iff x.sku sku,
  text_eq_iff x.sku k,
  text_eq_iff sku k,
  levels-update sku k f stock keep,
)

-- An entry of the map changed through its pointer.
pub levels-put_stock :
    (sku k : String) (s : Stock) (stocks : List Stock)
    → s.sku ≡ sku
    → levels (put_stock sku s stocks) k
      ≡ (if text_eq sku k then Option.map (λ x. level_of s) (row_of k stocks) else levels stocks k)
unfolding levels put_stock
levels-put_stock sku k s [] same = ground arith
levels-put_stock sku k s (x ∷ stocks) same = ground (
  arith,
  text_eq_iff x.sku sku,
  text_eq_iff x.sku k,
  text_eq_iff sku k,
  levels-put_stock sku k s stocks same,
)

-- The map `stocks` has the levels of the table, where it has any.
abbrev pub Agrees : List Stock → List Stock → Type 0
Agrees stocks stock = (k : String) → (levels stocks k ≡ none) ⊎ (levels stocks k ≡ levels stock k)

wanted-sku :
    (items : List ReservationItem) (s t : Stock) → s.sku ≡ t.sku → wanted items s ≡ wanted items t
unfolding wanted
wanted-sku [] s t same = refl
wanted-sku (it ∷ items) s t same = ground (arith, wanted-sku items s t same)

select_unwanted :
    (items : List ReservationItem) (k : String) (x : Stock) (stock : List Stock)
    → text_eq x.sku k ≡ true
    → wanted items x ≡ false
    → row_of k (select (wanted items) stock) ≡ none
select_unwanted items k x [] e w = refl
select_unwanted items k x (y ∷ stock) e w = ground (
  arith,
  text_eq_iff x.sku k,
  text_eq_iff y.sku k,
  wanted-sku items y x,
  select_unwanted items k x stock e w,
)

pub Agrees-select :
    (items : List ReservationItem) (stock : List Stock) → Agrees (select (wanted items) stock) stock
unfolding levels
Agrees-select items [] k = inl refl
Agrees-select items (x ∷ stock) k = elim (Bool-cases (wanted items x)) [
  | inl w ↦ elim (Bool-cases (text_eq x.sku k)) [
    | inl e ↦ inr (ground arith)
    | inr e ↦ elim (Agrees-select items stock k) [
      | inl nothing ↦ inl (ground arith)
      | inr same ↦ inr (ground arith)
    ]
  ]
  | inr w ↦ elim (Bool-cases (text_eq x.sku k)) [
    | inl e ↦ inl (ground (arith, select_unwanted items k x stock e w))
    | inr e ↦ elim (Agrees-select items stock k) [
      | inl nothing ↦ inl (ground arith)
      | inr same ↦ inr (ground arith)
    ]
  ]
]

pub write_stock-ok :
    (h : Host) (n : ℕ) (s : Stock) (sku : String) (db : InventoryDb) {db' : InventoryDb}
    → write_stock h n s sku db ≡ ok db'
    → (db' ≡ record db { stock = update (λ r. text_eq r.sku sku) (restocked s) db.stock })
      × (pos 0 ≤ℤ s.available_qty)
unfolding write_stock column_accepts
write_stock-ok h n s sku db e = (ground arith, ground arith)

levels-row :
    (s s' : Stock) (qty : ℤ) (sku : String) (stock : List Stock)
    → levels stock sku ≡ some (level_of s)
    → level_of s' ≡ take_from qty (level_of s)
    → Option.map (λ r. level_of (restocked s' r)) (row_of sku stock)
      ≡ Option.map (take_from qty) (levels stock sku)
unfolding levels restocked
levels-row s s' qty sku stock before after = ground arith

-- One line of the order: the levels after its write.
pub levels-line :
    (s s' : Stock) (qty : ℤ) (sku k : String) (stock : List Stock)
    → levels stock sku ≡ some (level_of s)
    → level_of s' ≡ take_from qty (level_of s)
    → levels (update (λ r. text_eq r.sku sku) (restocked s') stock) k
      ≡ (if text_eq sku k then Option.map (take_from qty) (levels stock k) else levels stock k)
levels-line s s' qty sku k stock before after =
    levels-update sku k (restocked s') stock (λ r. unfold restocked in refl)
    ∙ elim (Bool-cases (text_eq sku k)) [
      | inl e ↦
          let key : sku ≡ k = text_eq→eq sku k e in
          rw e (rw (← key) (levels-row s s' qty sku stock before after))
      | inr e ↦ rw e
    ]

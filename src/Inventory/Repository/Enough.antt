-- ===== src/Inventory/Repository/Enough.antt =====
-- When `ReserveAll` succeeds (inventory-service/internal/repository/postgres/stock_repo.go).
use mini_marketplace.Base.{
  String, ◌≡◌, refl, Bool, true, false, Option, some, List, [], ◌∷◌, ok, inl, inr, arith, All,
  Bool-cases, Option-cases, text_eq, text_eq_refl, text_eq→eq, select, if◌then◌else◌, ◌∙◌,
}
use mini_marketplace.Base.Int.{ℤ, pos, ◌+ℤ◌, ◌≤ℤ◌, int_laws, ltb_ℤ}
use mini_marketplace.Inventory.Stock.{Stock}
use mini_marketplace.Inventory.Repository.{ReservationItem, wanted, check_items}
use mini_marketplace.Inventory.Repository.Levels.{
  Level, level_of, row_of, levels, total_of, take_from,
}

-- A sku that some line asks for.
unfoldable pub asks : String → List ReservationItem → Bool
asks k [] = false
asks k (it ∷ items) = if text_eq k it.sku then true else asks k items

abbrev pub column_max : ℤ
column_max = pos 2147483647

-- A level within its columns, with room for a total to be reserved.
pub record HasRoom (total : ℤ) (l : Level) : Type 0 where
  pub enough : total ≤ℤ l.available
  pub nonneg : pos 0 ≤ℤ l.reserved
  pub in_column : l.available ≤ℤ column_max
  pub stays_in_column : l.reserved +ℤ total ≤ℤ column_max

-- Every sku that is asked for has room for all its lines together.
abbrev pub HasEnough : List ReservationItem → (String → Option Level) → Type 0
HasEnough items at =
    (k : String)
    → asks k items ≡ true
    → (l : Level) × (at k ≡ some l) × HasRoom (total_of k items) l

abbrev pub ArePositive : List ReservationItem → Type 0
ArePositive = All (λ (it : ReservationItem). pos 1 ≤ℤ it.qty)

pub total_of_nonneg :
    (k : String) (items : List ReservationItem) → ArePositive items → pos 0 ≤ℤ total_of k items
unfolding total_of
total_of_nonneg k [] p = omega arith
total_of_nonneg k (it ∷ items) p = elim (Bool-cases (text_eq it.sku k)) [
  | inl e ↦ rw e (omega (int_laws, total_of_nonneg k items p.1, p.0))
  | inr e ↦ rw e (omega (int_laws, total_of_nonneg k items p.1))
]

-- The room that is left for the other lines once a line is taken.
pub room_left :
    (qty total : ℤ) (l : Level)
    → pos 1 ≤ℤ qty
    → HasRoom (qty +ℤ total) l
    → HasRoom total (take_from qty l)
room_left qty total l p r = record {
  enough = omega (int_laws, r.enough);
  nonneg = omega (int_laws, r.nonneg);
  in_column = omega (int_laws, r.in_column);
  stays_in_column = omega (int_laws, r.stays_in_column);
}

room_less : (qty total : ℤ) (l : Level) → pos 0 ≤ℤ qty → HasRoom (qty +ℤ total) l → HasRoom total l
room_less qty total l p r = record {
  enough = omega (int_laws, r.enough);
  nonneg = r.nonneg;
  in_column = r.in_column;
  stays_in_column = omega (int_laws, r.stays_in_column);
}

-- The amount of one line for a sku.
abbrev line_of : String → ReservationItem → ℤ
line_of k it = if text_eq it.sku k then it.qty else pos 0

line_nonneg : (k : String) (it : ReservationItem) → pos 1 ≤ℤ it.qty → pos 0 ≤ℤ line_of k it
line_nonneg k it p = elim (Bool-cases (text_eq it.sku k)) [
  | inl e ↦ rw e (omega arith)
  | inr e ↦ rw e (omega arith)
]

pub asks_more :
    (k : String) (it : ReservationItem) (items : List ReservationItem)
    → asks k items ≡ true
    → asks k (it ∷ items) ≡ true
unfolding asks
asks_more k it items e = ground arith

pub asks_head :
    (it : ReservationItem) (items : List ReservationItem) → asks it.sku (it ∷ items) ≡ true
unfolding asks
asks_head it items = ground (arith, text_eq_refl it.sku)

-- The first line finds its row, with enough of it.
pub head_found :
    (stocks : List Stock) (it : ReservationItem) (items : List ReservationItem)
    → ArePositive (it ∷ items)
    → HasEnough (it ∷ items) (levels stocks)
    → (s : Stock) × (row_of it.sku stocks ≡ some s)
      × HasRoom (it.qty +ℤ total_of it.sku items) (level_of s)
unfolding levels
head_found stocks it items p enough =
    let (l, found, room) = enough it.sku (asks_head it items) in
    let total : total_of it.sku (it ∷ items) ≡ it.qty +ℤ total_of it.sku items =
      unfold total_of in ground (arith, text_eq_refl it.sku) in
    elim (Option-cases (row_of it.sku stocks)) [
      | inl missing ↦ absurd (ground arith)
      | inr (s, there) ↦
          let same : l ≡ level_of s = ground arith in (s, there, rw (← same, ← total) room)
    ]

pub check_items-ok :
    (stocks : List Stock) (items : List ReservationItem)
    → ArePositive items
    → HasEnough items (levels stocks)
    → check_items stocks items ≡ ok tt
unfolding check_items
check_items-ok stocks [] p enough = refl
check_items-ok stocks (it ∷ items) p enough =
    let (s, there, room) = head_found stocks it items p enough in
    let total = total_of_nonneg it.sku items p.1 in
    let covered : ltb_ℤ s.available_qty it.qty ≡ false =
      let h : it.qty ≤ℤ s.available_qty = omega (int_laws, room.enough, total) in ground arith in
    let rest = check_items-ok stocks items p.1 (λ k e.
      let (l, found, r) = enough k (asks_more k it items e) in
      (
        l,
        found,
        room_less (line_of k it) (total_of k items) l (line_nonneg k it p.0) (unfold total_of in r),
      )) in
    ground (arith, there, covered, rest)

-- The map has the levels of the rows that are asked for.
wanted-asks : (items : List ReservationItem) (s : Stock) → wanted items s ≡ asks s.sku items
unfolding wanted asks
wanted-asks [] s = refl
wanted-asks (it ∷ items) s = ground (arith, wanted-asks items s)

pub levels-select :
    (items : List ReservationItem) (k : String) (stock : List Stock)
    → asks k items ≡ true
    → levels (select (wanted items) stock) k ≡ levels stock k
unfolding levels
levels-select items k [] e = refl
levels-select items k (x ∷ stock) e = elim (Bool-cases (text_eq x.sku k)) [
  | inl same ↦
      let key : x.sku ≡ k = text_eq→eq x.sku k same in
      let w : wanted items x ≡ true = wanted-asks items x ∙ rw key e in ground arith
  | inr differs ↦ ground (arith, levels-select items k stock e)
]

-- ===== src/Orders/Pages/Sorting.antt =====
-- The order of a page, `ORDER BY created_at DESC, id DESC`, and the rows behind a cursor.
use mathlib.Core.Path.{subst}
use mini_marketplace.Base.{
  ℕ, zero, suc, String, ◌≡◌, refl, Bool, true, false, some, List, [], ◌∷◌, arith, if◌then◌else◌,
  text_eq, select, affected, All, get_elem?, drop, Bool-cases, inl, inr, All-map, select_whole,
  text_eq→eq, All-get_elem?, text_eq_refl, text_eq_sym, All-select, All-first-none, length, ap, ◌∙◌,
}
use mini_marketplace.Orders.Store.{OrderRow}
use mini_marketplace.Orders.Repository.Valid.{HasKeys}
use mini_marketplace.Orders.Pages.{CursorText, is_before, insert_newest, sort_newest}
use mini_marketplace.Orders.Pages.Cursor.{IsCursorText}

-- where a row stands in the order
abbrev pub place : OrderRow → ℕ × String
place r = (r.created_at, r.id)

-- Every row is newer than all that follow it.
abbrev pub IsNewestFirst : CursorText → List OrderRow → Type 0
IsNewestFirst t [] = Unit
IsNewestFirst t (r ∷ rows) = All (λ x. is_before t x (place r) ≡ true) rows × IsNewestFirst t rows

-- No two rows have one id.
abbrev pub HasDistinctIds : List OrderRow → Type 0
HasDistinctIds [] = Unit
HasDistinctIds (r ∷ rows) = All (λ x. text_eq r.id x.id ≡ false) rows × HasDistinctIds rows

module _ (t : CursorText) (laws : IsCursorText t) where
  before_trans :
      (a b : OrderRow) (at : ℕ × String)
      → is_before t a (place b) ≡ true
      → is_before t b at ≡ true
      → is_before t a at ≡ true
  unfolding is_before
  before_trans a b at h h' = ground (arith, laws.lt_trans a.id b.id at.1)

  before_irrefl : (a : OrderRow) → is_before t a (place a) ≡ false
  unfolding is_before
  before_irrefl a = ground (arith, laws.lt_irrefl a.id)

  before_asym : (a b : OrderRow) → is_before t a (place b) ≡ true → is_before t b (place a) ≡ false
  before_asym a b h = ground (arith, before_trans a b (place a) h, before_irrefl a)

  before_total :
      (a b : OrderRow)
      → text_eq a.id b.id ≡ false
      → is_before t a (place b) ≡ false
      → is_before t b (place a) ≡ true
  unfolding is_before
  before_total a b apart h =
      ground (arith, laws.lt_total a.id b.id, text_eq→eq a.id b.id, text_eq_refl a.id)

module _ (t : CursorText) where
  All-insert_newest {κ} :
      (P : OrderRow → Type κ) (r : OrderRow) (rows : List OrderRow)
      → P r
      → All P rows
      → All P (insert_newest t r rows)
  unfolding insert_newest
  All-insert_newest P r [] hr h = (hr, tt)
  All-insert_newest P r (x ∷ rows) hr h = elim (Bool-cases (is_before t x (place r))) [
    | inl e ↦ rw e (hr, h)
    | inr e ↦ rw e (h.0, All-insert_newest P r rows hr h.1)
  ]

  pub All-sort_newest {κ} :
      (P : OrderRow → Type κ) (rows : List OrderRow) → All P rows → All P (sort_newest t rows)
  unfolding sort_newest
  All-sort_newest P [] h = tt
  All-sort_newest P (r ∷ rows) h =
      All-insert_newest P r (sort_newest t rows) h.0 (All-sort_newest P rows h.1)

  affected-insert_newest :
      (p : OrderRow → Bool) (r : OrderRow) (rows : List OrderRow)
      → affected p (insert_newest t r rows) ≡ affected p (r ∷ rows)
  unfolding insert_newest
  affected-insert_newest p r [] = refl
  affected-insert_newest p r (x ∷ rows) = ground (arith, affected-insert_newest p r rows)

  -- The sorted rows are the rows: every test counts as many of them.
  pub affected-sort_newest :
      (p : OrderRow → Bool) (rows : List OrderRow)
      → affected p (sort_newest t rows) ≡ affected p rows
  unfolding sort_newest
  affected-sort_newest p [] = refl
  affected-sort_newest p (r ∷ rows) =
      ground (arith, affected-insert_newest p r (sort_newest t rows), affected-sort_newest p rows)

  length-insert_newest :
      (r : OrderRow) (rows : List OrderRow) → length (insert_newest t r rows) ≡ suc (length rows)
  unfolding insert_newest
  length-insert_newest r [] = refl
  length-insert_newest r (x ∷ rows) = ground (arith, length-insert_newest r rows)

  pub length-sort_newest : (rows : List OrderRow) → length (sort_newest t rows) ≡ length rows
  unfolding sort_newest
  length-sort_newest [] = refl
  length-sort_newest (r ∷ rows) =
      length-insert_newest r (sort_newest t rows) ∙ ap suc (length-sort_newest rows)

  insert_newest_head :
      (r : OrderRow) (rows : List OrderRow)
      → All (λ x. is_before t x (place r) ≡ true) rows
      → insert_newest t r rows ≡ r ∷ rows
  unfolding insert_newest
  insert_newest_head r [] h = refl
  insert_newest_head r (x ∷ rows) h = rw (h.0)

module _ (t : CursorText) (laws : IsCursorText t) where
  -- What is older than a row is older than all newer rows.
  All-older :
      (a b : OrderRow) (rows : List OrderRow)
      → is_before t a (place b) ≡ true
      → All (λ x. is_before t x (place a) ≡ true) rows
      → All (λ x. is_before t x (place b) ≡ true) rows
  All-older a b rows h = All-map rows (λ x hx. before_trans t laws x a (place b) hx h)

  insert_newest-IsNewestFirst :
      (r : OrderRow) (rows : List OrderRow)
      → All (λ x. text_eq r.id x.id ≡ false) rows
      → IsNewestFirst t rows
      → IsNewestFirst t (insert_newest t r rows)
  unfolding insert_newest
  insert_newest-IsNewestFirst r [] apart h = (tt, tt)
  insert_newest-IsNewestFirst r (x ∷ rows) apart h = elim (Bool-cases (is_before t x (place r))) [
    | inl e ↦ rw e ((e, All-older x r rows e h.0), h)
    | inr e ↦ rw e (
      All-insert_newest t (λ y. is_before t y (place x) ≡ true) r rows
          (before_total t laws x r (text_eq_sym x.id r.id ∙ apart.0) e) h.0,
      insert_newest-IsNewestFirst r rows apart.1 h.1,
    )
  ]

  pub sort_newest-IsNewestFirst :
      (rows : List OrderRow) → HasDistinctIds rows → IsNewestFirst t (sort_newest t rows)
  unfolding sort_newest
  sort_newest-IsNewestFirst [] h = tt
  sort_newest-IsNewestFirst (r ∷ rows) h =
      insert_newest-IsNewestFirst r (sort_newest t rows)
        (All-sort_newest t (λ x. text_eq r.id x.id ≡ false) rows h.0)
        (sort_newest-IsNewestFirst rows h.1)

  select-insert_newest :
      (q : OrderRow → Bool) (r : OrderRow) (rows : List OrderRow)
      → IsNewestFirst t rows
      → select q (insert_newest t r rows)
        ≡ (if q r then insert_newest t r (select q rows) else select q rows)
  unfolding insert_newest
  select-insert_newest q r [] h = ground arith
  select-insert_newest q r (x ∷ rows) h = elim (Bool-cases (is_before t x (place r))) [
    | inl e ↦ ground (
      arith,
      insert_newest_head t r (select q rows)
          (All-select (λ y. is_before t y (place r) ≡ true) q rows (All-older x r rows e h.0)),
    )
    | inr e ↦ ground (arith, select-insert_newest q r rows h.1)
  ]

  -- The rows of a narrower query stand in the same order.
  pub select-sort_newest :
      (q : OrderRow → Bool) (rows : List OrderRow)
      → HasDistinctIds rows
      → select q (sort_newest t rows) ≡ sort_newest t (select q rows)
  unfolding sort_newest
  select-sort_newest q [] h = refl
  select-sort_newest q (r ∷ rows) h = ground (
    arith,
    select-insert_newest q r (sort_newest t rows) (sort_newest-IsNewestFirst rows h.1),
    select-sort_newest q rows h.1,
  )

  -- Behind the cursor of a row of a sorted list stand the rows that follow it.
  pub select_behind :
      (rows : List OrderRow) (n : ℕ) {e : OrderRow}
      → IsNewestFirst t rows
      → get_elem? rows n ≡ some e
      → select (λ x. is_before t x (place e)) rows ≡ drop (suc n) rows
  select_behind [] n h found = absurd (ground arith)
  select_behind (x ∷ rows) zero {e} h found =
      let same : x ≡ e = ground arith in
      subst (λ e. select (λ y. is_before t y (place e)) (x ∷ rows) ≡ rows) same
        (ground
          (arith, before_irrefl t laws x, select_whole (λ y. is_before t y (place x)) rows h.0))
  select_behind (x ∷ rows) (suc n) {e} h found =
      let older : is_before t e (place x) ≡ true =
        All-get_elem? (λ y. is_before t y (place x) ≡ true) rows n h.0 found in
      ground (arith, before_asym t laws e x older, select_behind rows n {e = e} h.1 found)

-- The keys of a table that answers by its primary key.
pub HasDistinctIds-select :
    (q : OrderRow → Bool) (rows : List OrderRow)
    → HasDistinctIds rows
    → HasDistinctIds (select q rows)
HasDistinctIds-select q [] h = tt
HasDistinctIds-select q (r ∷ rows) h =
    let rest = HasDistinctIds-select q rows h.1 in
    elim (Bool-cases (q r)) [
      | inl e ↦ rw e (All-select (λ x. text_eq r.id x.id ≡ false) q rows h.0, rest)
      | inr e ↦ rw e rest
    ]

-- A table with a primary key has distinct ids.
pub HasKeys-HasDistinctIds : (rows : List OrderRow) → HasKeys rows → HasDistinctIds rows
HasKeys-HasDistinctIds [] h = tt
HasKeys-HasDistinctIds (r ∷ rows) h = (
  All-map rows (λ x e. text_eq_sym r.id x.id ∙ e)
      (All-first-none (λ x. text_eq x.id r.id) rows h.0),
  HasKeys-HasDistinctIds rows h.1,
)

-- ===== src/Base/Lists.antt =====
-- Lists, and tables as lists of rows: SQL's `SELECT`, `UPDATE` and the count of rows affected.
use Prim.Native.Nat.{ℕ, zero, suc, ◌+◌, ◌≤◌, ◌<◌}
use mathlib.Core.Path.{◌≡◌, refl, sym, ap, ◌∙◌, subst}
use mathlib.Core.Bool.{Bool, true, false, not, ◌&&◌}
use mathlib.Core.Logic.{◌≢◌}
use mathlib.Core.Option.{Option, none, some}
use mathlib.Core.List.{List, [], ◌∷◌, ◌++◌}
use native.Mathlib.Omega.{arith}
use mini_marketplace.Base.Tests.{if◌then◌else◌, leb}

module _ {ℓ} {A : Type ℓ} where
  abbrev pub length : List A → ℕ
  length [] = 0
  length (x ∷ xs) = suc (length xs)

  abbrev pub take : ℕ → List A → List A
  take zero xs = []
  take (suc n) [] = []
  take (suc n) (x ∷ xs) = x ∷ take n xs

  abbrev pub drop : ℕ → List A → List A
  drop zero xs = xs
  drop (suc n) [] = []
  drop (suc n) (x ∷ xs) = drop n xs

  abbrev pub get_elem? : List A → ℕ → Option A
  get_elem? [] i = none
  get_elem? (x ∷ xs) zero = some x
  get_elem? (x ∷ xs) (suc i) = get_elem? xs i

  abbrev pub All {κ} : (A → Type κ) → List A → Type κ
  All P [] = Unit
  All P (x ∷ xs) = P x × All P xs

  -- `SELECT ... WHERE test`
  abbrev pub select : (A → Bool) → List A → List A
  select p [] = []
  select p (x ∷ xs) = if p x then x ∷ select p xs else select p xs

  -- `UPDATE ... SET f WHERE test`
  abbrev pub update : (A → Bool) → (A → A) → List A → List A
  update p f [] = []
  update p f (x ∷ xs) = (if p x then f x else x) ∷ update p f xs

  -- the `RowsAffected` of that update
  abbrev pub affected : (A → Bool) → List A → ℕ
  affected p [] = 0
  affected p (x ∷ xs) = if p x then suc (affected p xs) else affected p xs

  -- the first row that passes: `QueryRow`
  abbrev pub first : (A → Bool) → List A → Option A
  first p [] = none
  first p (x ∷ xs) = if p x then some x else first p xs

  -- A read loop `for rows.Next()` that a lost connection ends after `n` rows.
  abbrev pub cut_at : Option ℕ → List A → List A
  cut_at none xs = xs
  cut_at (some n) xs = take n xs

module _ {ℓ} {A : Type ℓ} (key : A → ℕ) where
  -- `ORDER BY key ASC`; rows of one key keep their order
  abbrev pub order_insert : A → List A → List A
  order_insert r [] = r ∷ []
  order_insert r (x ∷ rows) = if leb (key r) (key x) then r ∷ x ∷ rows else x ∷ order_insert r rows

  abbrev pub order_by : List A → List A
  order_by [] = []
  order_by (r ∷ rows) = order_insert r (order_by rows)

module _ {ℓ} {A : Type ℓ} where
  pub length-append : (xs ys : List A) → length (xs ++ ys) ≡ length xs + length ys
  length-append [] ys = omega arith
  length-append (x ∷ xs) ys = omega (arith, length-append xs ys)

  pub All-append {κ} : (P : A → Type κ) (xs ys : List A) → All P xs → All P ys → All P (xs ++ ys)
  All-append P [] ys hx hy = hy
  All-append P (x ∷ xs) ys hx hy = (hx.0, All-append P xs ys hx.1 hy)

  pub select-append :
      (p : A → Bool) (xs ys : List A) → select p (xs ++ ys) ≡ select p xs ++ select p ys
  select-append p [] ys = refl
  select-append p (x ∷ xs) ys = ground (arith, select-append p xs ys)

  pub affected-append :
      (p : A → Bool) (xs ys : List A) → affected p (xs ++ ys) ≡ affected p xs + affected p ys
  affected-append p [] ys = omega arith
  affected-append p (x ∷ xs) ys = ground (arith, affected-append p xs ys)

  -- The rows that pass one test, split by another.
  pub affected-split :
      (p q : A → Bool) (xs : List A)
      → affected (λ x. p x && q x) xs + affected (λ x. p x && not (q x)) xs ≡ affected p xs
  affected-split p q [] = omega arith
  affected-split p q (x ∷ xs) = ground (arith, affected-split p q xs)

  pub affected-take-le :
      (p : A → Bool) (n : ℕ) (xs : List A) → affected p (take n xs) ≤ affected p xs
  affected-take-le p zero xs = omega arith
  affected-take-le p (suc n) [] = omega arith
  affected-take-le p (suc n) (x ∷ xs) = ground (arith, affected-take-le p n xs)

  pub affected_all :
      (p : A → Bool) (xs : List A) → All (λ x. p x ≡ true) xs → affected p xs ≡ length xs
  affected_all p [] h = refl
  affected_all p (x ∷ xs) h = ground (arith, affected_all p xs h.1)

  pub length-update : (p : A → Bool) (f : A → A) (xs : List A) → length (update p f xs) ≡ length xs
  length-update p f [] = refl
  length-update p f (x ∷ xs) = ap suc (length-update p f xs)

  pub length-take-le : (n : ℕ) (xs : List A) → length (take n xs) ≤ n
  length-take-le zero xs = omega arith
  length-take-le (suc n) [] = omega arith
  length-take-le (suc n) (x ∷ xs) = omega (arith, length-take-le n xs)

  -- No row passes, so the update changes nothing.
  pub update_none :
      (p : A → Bool) (f : A → A) (xs : List A) → affected p xs ≡ 0 → update p f xs ≡ xs
  update_none p f [] h = refl
  update_none p f (x ∷ xs) h = ground (arith, update_none p f xs)

  pub first-eq-none→affected : (p : A → Bool) (xs : List A) → first p xs ≡ none → affected p xs ≡ 0
  first-eq-none→affected p [] h = refl
  first-eq-none→affected p (x ∷ xs) h = ground (arith, first-eq-none→affected p xs)

  pub first_passes : (p : A → Bool) (xs : List A) {x : A} → first p xs ≡ some x → p x ≡ true
  first_passes p [] h = cc
  first_passes p (y ∷ ys) {x} h = ground (arith, first_passes p ys {x = x})

  pub take_all : (xs : List A) → take (length xs) xs ≡ xs
  take_all [] = refl
  take_all (x ∷ xs) = ap (◌∷◌ x) (take_all xs)

  pub take_enough : (n : ℕ) (xs : List A) → length xs ≤ n → take n xs ≡ xs
  take_enough zero [] h = refl
  take_enough zero (x ∷ xs) h = absurd (omega arith)
  take_enough (suc n) [] h = refl
  take_enough (suc n) (x ∷ xs) h = ap (◌∷◌ x) (take_enough n xs (omega arith))

  pub take-append-drop : (n : ℕ) (xs : List A) → take n xs ++ drop n xs ≡ xs
  take-append-drop zero xs = refl
  take-append-drop (suc n) [] = refl
  take-append-drop (suc n) (x ∷ xs) = ap (◌∷◌ x) (take-append-drop n xs)

  drop_nil : (n : ℕ) → drop {A = A} n [] ≡ []
  drop_nil zero = refl
  drop_nil (suc n) = refl

  pub drop-drop : (m n : ℕ) (xs : List A) → drop n (drop m xs) ≡ drop (m + n) xs
  drop-drop zero n xs = ap (λ k. drop k xs) (omega arith)
  drop-drop (suc m) n [] = drop_nil n ∙ sym (drop_nil (suc m + n))
  drop-drop (suc m) n (x ∷ xs) =
      drop-drop m n xs
      ∙ ap (λ k. drop k (x ∷ xs)) (let e : suc (m + n) ≡ suc m + n = omega arith in e)

  pub get_elem?-drop : (m i : ℕ) (xs : List A) → get_elem? (drop m xs) i ≡ get_elem? xs (m + i)
  get_elem?-drop zero i xs = ap (get_elem? xs) (omega arith)
  get_elem?-drop (suc m) i [] = refl
  get_elem?-drop (suc m) i (x ∷ xs) =
      get_elem?-drop m i xs
      ∙ ap (get_elem? (x ∷ xs)) (let e : suc (m + i) ≡ suc m + i = omega arith in e)

  pub length-take-drop : (n : ℕ) (xs : List A) → length (take n xs) + length (drop n xs) ≡ length xs
  length-take-drop zero xs = omega arith
  length-take-drop (suc n) [] = omega arith
  length-take-drop (suc n) (x ∷ xs) = omega (arith, length-take-drop n xs)

  -- What a full `take` ends with stands there in the list.
  pub get_elem?-take : (n i : ℕ) (xs : List A) → i < n → get_elem? (take n xs) i ≡ get_elem? xs i
  get_elem?-take zero i xs h = absurd (omega arith)
  get_elem?-take (suc n) i [] h = refl
  get_elem?-take (suc n) zero (x ∷ xs) h = refl
  get_elem?-take (suc n) (suc i) (x ∷ xs) h = get_elem?-take n i xs (omega arith)

  pub All-get_elem? {κ} :
      (P : A → Type κ) (xs : List A) (i : ℕ) {x : A} → All P xs → get_elem? xs i ≡ some x → P x
  All-get_elem? P [] i h e = absurd (ground arith)
  All-get_elem? P (y ∷ ys) zero {x} h e = let same : y ≡ x = ground arith in subst P same h.0
  All-get_elem? P (y ∷ ys) (suc i) {x} h e = All-get_elem? P ys i {x = x} h.1 e

  pub select-and :
      (p q : A → Bool) (xs : List A) → select (λ x. p x && q x) xs ≡ select q (select p xs)
  select-and p q [] = refl
  select-and p q (x ∷ xs) = ground (arith, select-and p q xs)

  pub All-first-none : (p : A → Bool) (xs : List A) → first p xs ≡ none → All (λ x. p x ≡ false) xs
  All-first-none p [] h = tt
  All-first-none p (x ∷ xs) h = (ground arith, All-first-none p xs (ground arith))

  pub get_elem?_found : (xs : List A) (i : ℕ) → i < length xs → (x : A) × (get_elem? xs i ≡ some x)
  get_elem?_found [] i h = absurd (omega arith)
  get_elem?_found (x ∷ xs) zero h = (x, refl)
  get_elem?_found (x ∷ xs) (suc i) h = get_elem?_found xs i (omega arith)

  -- A `take` that comes back short has taken all.
  pub take_short : (n : ℕ) (xs : List A) → length (take n xs) ≢ n → take n xs ≡ xs
  take_short zero xs h = absurd (h refl)
  take_short (suc n) [] h = refl
  take_short (suc n) (x ∷ xs) h = ap (◌∷◌ x) (take_short n xs (λ e. h (ap suc e)))

  pub length-select : (p : A → Bool) (xs : List A) → length (select p xs) ≡ affected p xs
  length-select p [] = refl
  length-select p (x ∷ xs) = ground (arith, length-select p xs)

module _ {ℓ} {A : Type ℓ} (key : A → ℕ) where
  length-order_insert :
      (r : A) (rows : List A) → length (order_insert key r rows) ≡ suc (length rows)
  length-order_insert r [] = refl
  length-order_insert r (x ∷ rows) = ground (arith, length-order_insert r rows)

  pub length-order_by : (rows : List A) → length (order_by key rows) ≡ length rows
  length-order_by [] = refl
  length-order_by (r ∷ rows) =
      length-order_insert r (order_by key rows) ∙ ap suc (length-order_by rows)

  affected-order_insert :
      (p : A → Bool) (r : A) (rows : List A)
      → affected p (order_insert key r rows) ≡ affected p (r ∷ rows)
  affected-order_insert p r [] = refl
  affected-order_insert p r (x ∷ rows) = ground (arith, affected-order_insert p r rows)

  pub affected-order_by :
      (p : A → Bool) (rows : List A) → affected p (order_by key rows) ≡ affected p rows
  affected-order_by p [] = refl
  affected-order_by p (r ∷ rows) =
      affected-order_insert p r (order_by key rows) ∙ ground (arith, affected-order_by p rows)

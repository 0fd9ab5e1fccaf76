-- ===== src/Base/Tables.antt =====
-- Laws of the operations on tables: a first match across appends and updates.
use mathlib.Core.Path.{ap, ◌≡◌, refl, sym, subst}
use mathlib.Core.Bool.{Bool, true, false, ◌&&◌}
use mathlib.Core.Option
use mathlib.Core.Option.{Option, none, some}
use mathlib.Core.List.{List, [], ◌∷◌, ◌++◌, map}
use mathlib.Core.Logic.{◌⊎◌, inl, inr}
use Prim.Native.Nat.{ℕ, zero, suc}
use native.Mathlib.Omega.{arith}
use mini_marketplace.Base.Tests.{if◌then◌else◌, leb, Bool-cases}
use mini_marketplace.Base.Lists.{All, order_insert, order_by, select, update, first, take, cut_at}

module _ {ℓ} {A : Type ℓ} where
  pub first-append_none :
      (p : A → Bool) (xs ys : List A) → first p xs ≡ none → first p (xs ++ ys) ≡ first p ys
  first-append_none p [] ys h = refl
  first-append_none p (x ∷ xs) ys h = ground (arith, first-append_none p xs ys)

  pub first-append_some :
      (p : A → Bool) (xs ys : List A) {x : A} → first p xs ≡ some x → first p (xs ++ ys) ≡ some x
  first-append_some p [] ys h = cc
  first-append_some p (y ∷ xs) ys {x} h = ground (arith, first-append_some p xs ys {x = x})

  pub first-and_none :
      (p q : A → Bool) (xs : List A) → first p xs ≡ none → first (λ x. p x && q x) xs ≡ none
  first-and_none p q [] h = refl
  first-and_none p q (x ∷ xs) h = ground (arith, first-and_none p q xs)

  -- A selection that keeps what `p` looks for.
  pub first-select :
      (p q : A → Bool) (xs : List A)
      → ((x : A) → p x ≡ true → q x ≡ true)
      → first p (select q xs) ≡ first p xs
  first-select p q [] keep = refl
  first-select p q (x ∷ xs) keep = ground (arith, keep x, first-select p q xs keep)

  -- An update that does not touch what `p` tests commutes with the search.
  pub first-update :
      (p q : A → Bool) (f : A → A) (xs : List A)
      → ((x : A) → p (f x) ≡ p x)
      → first p (update q f xs) ≡ Option.map (λ x. if q x then f x else x) (first p xs)
  first-update p q f [] keep = refl
  first-update p q f (x ∷ xs) keep = ground (arith, keep x, first-update p q f xs keep)

  pub select_whole : (p : A → Bool) (xs : List A) → All (λ x. p x ≡ true) xs → select p xs ≡ xs
  select_whole p [] h = refl
  select_whole p (x ∷ xs) h = ground (arith, select_whole p xs h.1)

  pub select_nothing : (p : A → Bool) (xs : List A) → All (λ x. p x ≡ false) xs → select p xs ≡ []
  select_nothing p [] h = refl
  select_nothing p (x ∷ xs) h = ground (arith, select_nothing p xs h.1)

  pub All-map {κ μ} :
      {P : A → Type κ} {Q : A → Type μ} (xs : List A) → ((x : A) → P x → Q x) → All P xs → All Q xs
  All-map [] f h = tt
  All-map (x ∷ xs) f h = (f x h.0, All-map xs f h.1)

module _ {ℓ} {A : Type ℓ} where
  pub All-zip {κ μ} :
      (P : A → Type κ) (Q : A → Type μ) (xs : List A)
      → All P xs
      → All Q xs
      → All (λ x. P x × Q x) xs
  All-zip P Q [] hp hq = tt
  All-zip P Q (x ∷ xs) hp hq = ((hp.0, hq.0), All-zip P Q xs hp.1 hq.1)

  pub All-select {κ} :
      (P : A → Type κ) (p : A → Bool) (xs : List A) → All P xs → All P (select p xs)
  All-select P p [] h = tt
  All-select P p (x ∷ xs) h = elim (Bool-cases (p x)) [
    | inl e ↦ rw e (h.0, All-select P p xs h.1)
    | inr e ↦ rw e (All-select P p xs h.1)
  ]

  pub All-select_passes {κ} :
      (P : A → Type κ) (p : A → Bool) (xs : List A)
      → ((x : A) → p x ≡ true → P x)
      → All P (select p xs)
  All-select_passes P p [] h = tt
  All-select_passes P p (x ∷ xs) h = elim (Bool-cases (p x)) [
    | inl e ↦ rw e (h x e, All-select_passes P p xs h)
    | inr e ↦ rw e (All-select_passes P p xs h)
  ]

  pub All-take {κ} : (P : A → Type κ) (n : ℕ) (xs : List A) → All P xs → All P (take n xs)
  All-take P zero xs h = tt
  All-take P (suc n) [] h = tt
  All-take P (suc n) (x ∷ xs) h = (h.0, All-take P n xs h.1)

  pub All-cut_at {κ} :
      (P : A → Type κ) (o : Option ℕ) (xs : List A) → All P xs → All P (cut_at o xs)
  All-cut_at P none xs h = h
  All-cut_at P (some n) xs h = All-take P n xs h

  pub All-update {κ} :
      (P : A → Type κ) (q : A → Bool) (f : A → A) (xs : List A)
      → ((x : A) → P x → P (f x))
      → All P xs
      → All P (update q f xs)
  All-update P q f [] keep h = tt
  All-update P q f (x ∷ xs) keep h = elim (Bool-cases (q x)) [
    | inl e ↦ (rw e (keep x h.0), All-update P q f xs keep h.1)
    | inr e ↦ (rw e h.0, All-update P q f xs keep h.1)
  ]

  pub All-update_if {κ μ} :
      (P : A → Type κ) (Q : A → Type μ) (q : A → Bool) (f : A → A) (xs : List A)
      → ((x : A) → P x → q x ≡ true → Q (f x))
      → ((x : A) → P x → q x ≡ false → Q x)
      → All P xs
      → All Q (update q f xs)
  All-update_if P Q q f [] on off h = tt
  All-update_if P Q q f (x ∷ xs) on off h = elim (Bool-cases (q x)) [
    | inl e ↦ (rw e (on x h.0 e), All-update_if P Q q f xs on off h.1)
    | inr e ↦ (rw e (off x h.0 e), All-update_if P Q q f xs on off h.1)
  ]

  pub All-map_list {κ μ} :
      {B : Type μ} (P : B → Type κ) (f : A → B) (xs : List A)
      → All (λ x. P (f x)) xs
      → All P (map f xs)
  All-map_list P f [] h = tt
  All-map_list P f (x ∷ xs) h = (h.0, All-map_list P f xs h.1)

module _ {ℓ κ} {A : Type ℓ} (key : A → ℕ) (P : A → Type κ) where
  All-order_insert : (r : A) (rows : List A) → P r → All P rows → All P (order_insert key r rows)
  All-order_insert r [] p h = (p, tt)
  All-order_insert r (x ∷ rows) p h = elim (Bool-cases (leb (key r) (key x))) [
    | inl e ↦ rw e (p, h)
    | inr e ↦ rw e (h.0, All-order_insert r rows p h.1)
  ]

  pub All-order_by : (rows : List A) → All P rows → All P (order_by key rows)
  All-order_by [] h = tt
  All-order_by (r ∷ rows) h = All-order_insert r (order_by key rows) h.0 (All-order_by rows h.1)

module _ {A : Type 0} where
  -- membership, by recursion
  abbrev pub In : A → List A → Type 0
  In a [] = ⊥
  In a (x ∷ xs) = (a ≡ x) ⊎ In a xs

  pub In-append_left : (a : A) (xs ys : List A) → In a xs → In a (xs ++ ys)
  In-append_left a (x ∷ xs) ys (inl e) = inl e
  In-append_left a (x ∷ xs) ys (inr h) = inr (In-append_left a xs ys h)
  In-append_left a [] ys h = absurd h

  pub In-append_right : (a : A) (xs ys : List A) → In a ys → In a (xs ++ ys)
  In-append_right a [] ys h = h
  In-append_right a (x ∷ xs) ys h = inr (In-append_right a xs ys h)

  pub All-In {κ} : (P : A → Type κ) (a : A) (xs : List A) → All P xs → In a xs → P a
  All-In P a (x ∷ xs) h (inl e) = subst P (sym e) h.0
  All-In P a (x ∷ xs) h (inr i) = All-In P a xs h.1 i
  All-In P a [] h i = absurd i

-- The image of every member is among the images.
pub In-map_self {ℓ} :
    {A : Type ℓ} {B : Type 0} (f : A → B) (xs : List A) → All (λ x. In (f x) (map f xs)) xs
In-map_self f [] = tt
In-map_self f (x ∷ xs) = (inl refl, All-map xs (λ y i. inr i) (In-map_self f xs))

pub In-map : {A B : Type 0} (f : A → B) (a : A) (xs : List A) → In a xs → In (f a) (map f xs)
In-map f a [] i = i
In-map f a (x ∷ xs) (inl e) = inl (ap f e)
In-map f a (x ∷ xs) (inr i) = inr (In-map f a xs i)

module _ {A : Type 0} where
  pub In-select : (p : A → Bool) (a : A) (xs : List A) → p a ≡ true → In a xs → In a (select p xs)
  In-select p a [] passes i = i
  In-select p a (x ∷ xs) passes (inl e) = let here : p x ≡ true = rw (← e) passes in rw here (inl e)
  In-select p a (x ∷ xs) passes (inr i) = elim (Bool-cases (p x)) [
    | inl e ↦ rw e (inr (In-select p a xs passes i))
    | inr e ↦ rw e (In-select p a xs passes i)
  ]

module _ {A : Type 0} (key : A → ℕ) (a : A) where
  In-order_insert : (r : A) (rows : List A) → In a (r ∷ rows) → In a (order_insert key r rows)
  In-order_insert r [] i = i
  In-order_insert r (x ∷ rows) i = elim (Bool-cases (leb (key r) (key x))) [
    | inl e ↦ rw e i
    | inr e ↦ rw e (elim i [
      | inl same ↦ inr (In-order_insert r rows (inl same))
      | inr (inl same) ↦ inl same
      | inr (inr later) ↦ inr (In-order_insert r rows (inr later))
    ])
  ]

  pub In-order_by : (rows : List A) → In a rows → In a (order_by key rows)
  In-order_by [] i = i
  In-order_by (r ∷ rows) (inl e) = In-order_insert r (order_by key rows) (inl e)
  In-order_by (r ∷ rows) (inr i) = In-order_insert r (order_by key rows) (inr (In-order_by rows i))

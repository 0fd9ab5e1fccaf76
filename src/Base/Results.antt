-- ===== src/Base/Results.antt =====
-- Go's `(value, error)` as a value: `err e` is a call that returned a non-nil error. Wrapping by
-- `fmt.Errorf("...: %w", err)` keeps what `errors.Is` sees, so it keeps the error here.
use mathlib.Core.Path.{◌≡◌, refl}
use mathlib.Core.Logic.{◌⊎◌, inl, inr}
use mathlib.Core.Bool.{Bool, true, false}

pub data Result {ℓ} (E : Type 0) (A : Type ℓ) : Type ℓ where
  ok : A → Result E A
  err : E → Result E A

infixl 5 ◌>>=◌
abbrev pub ◌>>=◌ {ℓ κ} :
    {E : Type 0} {A : Type ℓ} {B : Type κ} → Result E A → (A → Result E B) → Result E B
ok a >>= f = f a
err e >>= f = err e

-- One call of a driver: `fails` says whether it returns an error.
abbrev pub attempt {ℓ} : {E : Type 0} {A : Type ℓ} → Bool → E → A → Result E A
attempt true e a = err e
attempt false e a = ok a

pub Result-cases {ℓ} :
    {E : Type 0} {A : Type ℓ} (r : Result E A) → ((a : A) × (r ≡ ok a)) ⊎ ((e : E) × (r ≡ err e))
Result-cases (ok a) = inl (a, refl)
Result-cases (err e) = inr (e, refl)

-- A transaction of PostgreSQL over the tables `S`: `Begin`, a body, `Commit`, and `Rollback`
-- deferred on every other way out. What the body wrote counts only if the commit succeeds.
abbrev pub transact {ℓ} :
    {E S : Type 0} {A : Type ℓ} → Bool → Bool → E → (S → Result E (A × S)) → S → Result E A × S
transact true commit_fails e body s = (err e, s)
transact false commit_fails e body s = elim (body s) [
  | err e' ↦ (err e', s)
  | ok (a, s') ↦ elim commit_fails [ true ↦ (err e, s) | false ↦ (ok a, s') ]
]

-- ===== src/Orders/Domain/Machine.antt =====
-- The state machine of an order (order-service/internal/domain/order.go, `TransitionTo`).
use mini_marketplace.Base.{
  ℕ, ◌≡◌, refl, true, ok, err, List, [], ◌∷◌, arith, inl, inr, Bool-cases, Result-cases, ◌⊎◌,
}
use mini_marketplace.Orders.Domain.{
  OrderStatus, created, awaiting_stock, confirmed, cancelled, completed, Order, invalid_transition,
  status_eq, allowed_transactions, allows, transition_to,
}

-- The diagram of the README and of the comments on the statuses.
infix 40 ◌⟶◌ ◌⟶*◌
pub data ◌⟶◌ : OrderStatus → OrderStatus → Type 0 where
  publish : created ⟶ awaiting_stock
  confirm : awaiting_stock ⟶ confirmed
  cancel : awaiting_stock ⟶ cancelled
  complete : confirmed ⟶ completed

pub data ◌⟶*◌ : OrderStatus → OrderStatus → Type 0 where
  here : {s : OrderStatus} → s ⟶* s
  then : {s t u : OrderStatus} → s ⟶ t → t ⟶* u → s ⟶* u

-- `TransitionTo` called with each status of a list, errors ignored.
unfoldable pub drive : ℕ → List OrderStatus → Order → Order
drive now [] o = o
drive now (s ∷ rest) o = elim (transition_to now s o) [
  | ok o' ↦ drive now rest o'
  | err e ↦ drive now rest o
]

pub ruleset edges = (publish, confirm, cancel, complete)

allows→⟶ : (s t : OrderStatus) → allows (allowed_transactions s) t ≡ true → s ⟶ t
unfolding allows allowed_transactions status_eq
allows→⟶ created awaiting_stock h = publish
allows→⟶ awaiting_stock confirmed h = confirm
allows→⟶ awaiting_stock cancelled h = cancel
allows→⟶ confirmed completed h = complete
allows→⟶ _ _ h = cc

⟶→allows : (s t : OrderStatus) → s ⟶ t → allows (allowed_transactions s) t ≡ true
unfolding allows allowed_transactions status_eq
⟶→allows _ _ publish = refl
⟶→allows _ _ confirm = refl
⟶→allows _ _ cancel = refl
⟶→allows _ _ complete = refl

-- `TransitionTo` succeeds exactly along an edge of the diagram; then it sets the status and the
-- time of the update and keeps every other field. Off the edges it returns `ErrInvalidTransition`.
pub transition_to-⟶ :
    (now : ℕ) (t : OrderStatus) (o : Order)
    → ((o.status ⟶ t) → transition_to now t o ≡ ok (record o { status = t; updated_at = now }))
      × (¬ (o.status ⟶ t) → transition_to now t o ≡ err invalid_transition)
unfolding transition_to
transition_to-⟶ now t o = (
  λ e. rw (⟶→allows o.status t e),
  λ n. elim (Bool-cases (allows (allowed_transactions o.status) t)) [
    | inl yes' ↦ absurd (n (allows→⟶ o.status t yes'))
    | inr no' ↦ rw no'
  ],
)

pub transition_to-ok :
    (now : ℕ) (t : OrderStatus) (o : Order) {o' : Order}
    → transition_to now t o ≡ ok o'
    → (o.status ⟶ t) × (o' ≡ record o { status = t; updated_at = now })
unfolding transition_to
transition_to-ok now t o h = elim (Bool-cases (allows (allowed_transactions o.status) t)) [
  | inl e ↦ (allows→⟶ o.status t e, ground arith)
  | inr e ↦ absurd (ground arith)
]

-- Whatever statuses are asked for, in whatever order, the status only moves along the diagram.
drive-⟶* : (now : ℕ) (ts : List OrderStatus) (o : Order) → o.status ⟶* (drive now ts o).status
unfolding drive
drive-⟶* now [] o = here
drive-⟶* now (t ∷ ts) o = elim (Result-cases (transition_to now t o)) [
  | inl (o', e) ↦
      let (edge, same) = transition_to-ok now t o e in
      rw (e, drive) (then (rw same edge) (drive-⟶* now ts o'))
  | inr (x, e) ↦ rw (e, drive) (drive-⟶* now ts o)
]

-- A CANCELLED or a COMPLETED order has no way out.
⟶*_terminal : {s t : OrderStatus} → s ⟶* t → (s ≡ cancelled) ⊎ (s ≡ completed) → t ≡ s
⟶*_terminal here h = refl
⟶*_terminal (then publish p) h = absurd (ground arith)
⟶*_terminal (then confirm p) h = absurd (ground arith)
⟶*_terminal (then cancel p) h = absurd (ground arith)
⟶*_terminal (then complete p) h = absurd (ground arith)

-- A confirmed order is confirmed or completed ever after.
confirmed-⟶* : {s t : OrderStatus} → s ⟶* t → s ≡ confirmed → (t ≡ confirmed) ⊎ (t ≡ completed)
confirmed-⟶* here h = inl h
confirmed-⟶* (then complete p) h = inr (⟶*_terminal p (inr refl))
confirmed-⟶* (then publish p) h = absurd (ground arith)
confirmed-⟶* (then confirm p) h = absurd (ground arith)
confirmed-⟶* (then cancel p) h = absurd (ground arith)

-- However `TransitionTo` is called afterwards, a cancelled or completed order keeps its status,
-- and a confirmed order is never cancelled: it stays confirmed or is completed.
pub drive_outcomes :
    (now : ℕ) (ts : List OrderStatus) (o : Order)
    → ((o.status ≡ cancelled) ⊎ (o.status ≡ completed) → (drive now ts o).status ≡ o.status)
      × (o.status ≡ confirmed
          → ((drive now ts o).status ≡ confirmed) ⊎ ((drive now ts o).status ≡ completed))
drive_outcomes now ts o =
    (λ h. ⟶*_terminal (drive-⟶* now ts o) h, λ h. confirmed-⟶* (drive-⟶* now ts o) h)

-- ===== src/Base/Outbox.antt =====
-- What the rows of an outbox table and the log of what was published have to do with each other,
-- for the outbox workers of the services. A row has an id and a message, and is sent or not; a
-- record is what a worker has read of a row.
use Prim.Native.String.{String}
use mathlib.Core.Path.{◌≡◌, sym, ◌∙◌}
use mathlib.Core.Bool.{Bool, true, false}
use mathlib.Core.Logic.{inl}
use mathlib.Core.List.{List, [], ◌∷◌, ◌++◌, map, append-nil, append_assoc}
use native.Mathlib.Omega.{arith}
use mini_marketplace.Base.Tests.{if◌then◌else◌}
use mini_marketplace.Base.Texts.{text_eq, text_eq_sym}
use mini_marketplace.Base.Lists.{All, update}
use mini_marketplace.Base.Tables.{
  All-map, All-zip, All-update, All-update_if, In, In-append_left, In-append_right,
}
use mini_marketplace.Base.Kafka.{Message}

module _ {R : Type 0} (id_of : R → String) where
  -- The primary key of the table.
  abbrev pub HasOutboxKeys : List R → Type 0
  HasOutboxKeys [] = Unit
  HasOutboxKeys (r ∷ rows) =
      All (λ x. text_eq (id_of x) (id_of r) ≡ false) rows × HasOutboxKeys rows

  -- The ids of a table of rows do not change under an update that keeps them.
  pub HasOutboxKeys-update :
      (q : R → Bool) (f : R → R) (rows : List R)
      → ((r : R) → id_of (f r) ≡ id_of r)
      → HasOutboxKeys rows
      → HasOutboxKeys (update q f rows)
  HasOutboxKeys-update q f [] keep h = tt
  HasOutboxKeys-update q f (x ∷ rows) keep h = (
    All-update (λ y. text_eq (id_of y) (id_of (if q x then f x else x)) ≡ false) q f rows
        (λ y e. rw (keep y) e)
        (All-map rows
          (λ y e.
            let same : id_of (if q x then f x else x) ≡ id_of x = ground (arith, keep x) in
            rw same e)
          h.0),
    HasOutboxKeys-update q f rows keep h.1,
  )

module _ {R : Type 0} (IsSent : R → Type 0) (message : R → Message) where
  -- Every row that is marked sent has its message in the log.
  abbrev pub SentPublished : List Message → List R → Type 0
  SentPublished log = All (λ r. IsSent r → In (message r) log)

  pub SentPublished-log_grows :
      (log more : List Message) (rows : List R)
      → SentPublished log rows
      → SentPublished (log ++ more) rows
  SentPublished-log_grows log more rows s =
      All-map rows (λ r p e. In-append_left (message r) log more (p e)) s

module _ {R C : Type 0} (id_of : R → String) (message : R → Message) (key : C → String)
    (publish : C → Message) where
  -- Whatever row has the id of the record has its message.
  abbrev pub Covers : List R → C → Type 0
  Covers rows c = All (λ r. text_eq (id_of r) (key c) ≡ true → message r ≡ publish c) rows

  -- The records of the rows of a table with its key.
  pub All-Covers :
      (record_of : R → C) (rows : List R)
      → ((r : R) → key (record_of r) ≡ id_of r)
      → ((r : R) → publish (record_of r) ≡ message r)
      → HasOutboxKeys id_of rows
      → All (λ x. Covers rows (record_of x)) rows
  All-Covers record_of [] keyed same h = tt
  All-Covers record_of (r ∷ rows) keyed same h = (
    (
      λ e. sym (same r),
      All-map rows (λ x differs e. absurd (ground (arith, keyed r, differs))) h.0,
    ),
    All-map rows
        (λ x p. (λ e. absurd (ground (arith, keyed x, text_eq_sym (id_of r) (id_of x), p.0)), p.1))
        (All-zip _ _ rows h.0 (All-Covers record_of rows keyed same h.1)),
  )

  -- The rows after the records are marked, one by one.
  abbrev pub mark_all : (R → R) → List C → List R → List R
  mark_all f [] rows = rows
  mark_all f (c ∷ records) rows =
      mark_all f records (update (λ r. text_eq (id_of r) (key c)) f rows)

module _ {R C : Type 0} (id_of : R → String) (IsSent : R → Type 0) (message : R → Message)
    (key : C → String) (publish : C → Message) (f : R → R)
    (keep_id : (r : R) → id_of (f r) ≡ id_of r)
    (keep_message : (r : R) → message (f r) ≡ message r) where
  pub mark_all-HasOutboxKeys :
      (records : List C) (rows : List R)
      → HasOutboxKeys id_of rows
      → HasOutboxKeys id_of (mark_all id_of message key publish f records rows)
  mark_all-HasOutboxKeys [] rows h = h
  mark_all-HasOutboxKeys (c ∷ records) rows h =
      mark_all-HasOutboxKeys records _
        (HasOutboxKeys-update id_of (λ r. text_eq (id_of r) (key c)) f rows keep_id h)

  Covers-update :
      (q : R → Bool) (other : C) (rows : List R)
      → Covers id_of message key publish rows other
      → Covers id_of message key publish (update q f rows) other
  Covers-update q other rows c =
      All-update (λ r. text_eq (id_of r) (key other) ≡ true → message r ≡ publish other) q f rows
        (λ r k e. keep_message r ∙ k (ground (arith, keep_id r))) c

  update-SentPublished :
      (c : C) (rows : List R) (log : List Message)
      → Covers id_of message key publish rows c
      → SentPublished IsSent message log rows
      → SentPublished IsSent message
          (log ++ publish c ∷ [])
          (update (λ r. text_eq (id_of r) (key c)) f rows)
  update-SentPublished c rows log covered s =
      let log' : List Message = log ++ publish c ∷ [] in
      All-update_if
        (λ r.
          (text_eq (id_of r) (key c) ≡ true → message r ≡ publish c)
          × (IsSent r → In (message r) log))
        (λ r. IsSent r → In (message r) log') (λ r. text_eq (id_of r) (key c)) f rows
        (λ r p e _.
          In-append_right (message (f r)) log (publish c ∷ []) (inl (keep_message r ∙ p.0 e)))
        (λ r p e is_sent. In-append_left (message r) log (publish c ∷ []) (p.1 is_sent))
        (All-zip _ _ rows covered s)

  -- Marking the rows of records whose messages were published keeps every sent row's message in
  -- the log.
  pub mark_all-SentPublished :
      (records : List C) (rows : List R) (log : List Message)
      → All (Covers id_of message key publish rows) records
      → SentPublished IsSent message log rows
      → SentPublished IsSent message
          (log ++ map publish records)
          (mark_all id_of message key publish f records rows)
  mark_all-SentPublished [] rows log covered s = rw append-nil s
  mark_all-SentPublished (c ∷ records) rows log covered s =
      rw (← append_assoc log (publish c ∷ []) (map publish records)) (
        mark_all-SentPublished records (update (λ r. text_eq (id_of r) (key c)) f rows)
          (log ++ publish c ∷ [])
          (All-map records (λ other k. Covers-update _ other rows k) covered.1)
          (update-SentPublished c rows log covered.0 s))

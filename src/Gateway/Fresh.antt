-- ===== src/Gateway/Fresh.antt =====
-- How old an answer of the gateway can be (api-gateway/internal/delivery/http/order_handler.go and
-- cache/redis_cache.go).
use mini_marketplace.Base.{
  ℕ, ◌+◌, ◌<◌, ◌≤◌, String, ◌≡◌, refl, ◌⊎◌, inl, inr, true, ◌&&◌, some, List, [], ◌∷◌, ok, arith,
  Bool-cases, Option-cases, Result-cases, All, All-map, All-select, In, first, select, ltb, text_eq,
  text_eq→eq, ◌∙◌, ap, sym, Bool, not,
}
use mathlib.Core.Path.{subst}
use text.Mathlib.TextLemmas.{append_cancel_left}
use mini_marketplace.Orders.Server as Proto
use mini_marketplace.Gateway.{
  OrderView, CacheEntry, Visit, Answer, order_found, order_view, cache_get, cache_set, cache_key,
  read_through, get_order, cache_after,
}

-- A view that order-service gave for an id in one of the requests, at a time.
pub record IsGiven (requests : List (Visit × String)) (id : String) (view : OrderView) (at : ℕ)
    : Type 0 where
  pub visit : Visit
  pub resp : Proto.OrderResponse
  pub asked : In (visit, id) requests
  pub replied : visit.reply ≡ ok resp
  pub viewed : order_view visit.rfc3339 resp ≡ some view
  pub time : visit.now ≡ at

-- An entry of the cache and where it is from.
pub record IsTraced (ttl : ℕ) (requests : List (Visit × String)) (e : CacheEntry) : Type 0 where
  pub id : String
  pub at : ℕ
  pub keyed : e.key ≡ cache_key id
  pub given : IsGiven requests id e.value at
  pub dropped : e.expires ≡ at + ttl

IsTraced-more :
    (ttl : ℕ) (request : Visit × String) (requests : List (Visit × String)) (e : CacheEntry)
    → IsTraced ttl requests e
    → IsTraced ttl (request ∷ requests) e
IsTraced-more ttl request requests e t = record {
  id = t.id;
  at = t.at;
  keyed = t.keyed;
  given = record {
    visit = t.given.visit;
    resp = t.given.resp;
    asked = inr t.given.asked;
    replied = t.given.replied;
    viewed = t.given.viewed;
    time = t.given.time;
  };
  dropped = t.dropped;
}

cache_key_inj : (id id' : String) → cache_key id ≡ cache_key id' → id ≡ id'
unfolding cache_key
cache_key_inj id id' e = append_cancel_left "order:" id id' e

first-All :
    (P : CacheEntry → Type 0) (p : CacheEntry → Bool) (cache : List CacheEntry) {e : CacheEntry}
    → All P cache
    → first p cache ≡ some e
    → P e × (p e ≡ true)
first-All P p [] h found = cc
first-All P p (x ∷ cache) {e} h found = elim (Bool-cases (p x)) [
  | inl passes ↦ let same : x ≡ e = ground arith in rw (← same) (h.0, passes)
  | inr fails ↦ first-All P p cache {e = e} h.1 (ground arith)
]

module _ (ttl : ℕ) (v : Visit) (id : String) (requests : List (Visit × String)) where
  -- What a miss answers and stores.
  read_through-IsGiven :
      (cache : List CacheEntry) {view : OrderView}
      → (read_through ttl v id cache).0 ≡ order_found view
      → IsGiven ((v, id) ∷ requests) id view v.now
  unfolding read_through
  read_through-IsGiven cache {view} e = elim (Result-cases v.reply) [
    | inr (x, refused) ↦ absurd (ground arith)
    | inl (resp, replied) ↦ elim (Option-cases (order_view v.rfc3339 resp)) [
      | inl unset ↦ absurd (ground arith)
      | inr (seen, viewed) ↦
          let same : seen ≡ view = ground arith in
          record {
            visit = v;
            resp = resp;
            asked = inl refl;
            replied = replied;
            viewed = viewed ∙ (λ i. some (same i));
            time = refl;
          }
    ]
  ]

  abbrev fresh_entry : OrderView → CacheEntry
  fresh_entry seen = record { key = cache_key id; value = seen; expires = v.now + ttl }

  -- What a miss leaves in the cache.
  read_through-cases :
      (cache : List CacheEntry)
      → ((read_through ttl v id cache).1 ≡ cache)
        ⊎ ((resp : Proto.OrderResponse) × (seen : OrderView) × (v.reply ≡ ok resp)
            × (order_view v.rfc3339 resp ≡ some seen)
            × ((read_through ttl v id cache).1
                ≡ fresh_entry seen ∷ select (λ e. not (text_eq e.key (cache_key id))) cache))
  unfolding read_through cache_set
  read_through-cases cache = elim (Result-cases v.reply) [
    | inr (x, refused) ↦ inl (ground arith)
    | inl (resp, replied) ↦ elim (Option-cases (order_view v.rfc3339 resp)) [
      | inl unset ↦ inl (ground arith)
      | inr (seen, viewed) ↦ elim (Bool-cases v.set_fails) [
        | inl broken ↦ inl (ground arith)
        | inr stored ↦ inr (resp, seen, replied, viewed, ground arith)
      ]
    ]
  ]

  read_through-IsTraced :
      (cache : List CacheEntry)
      → All (IsTraced ttl ((v, id) ∷ requests)) cache
      → All (IsTraced ttl ((v, id) ∷ requests)) (read_through ttl v id cache).1
  read_through-IsTraced cache h = elim (read_through-cases cache) [
    | inl same ↦ subst (All (IsTraced ttl ((v, id) ∷ requests))) (sym same) h
    | inr (resp, seen, replied, viewed, same) ↦
        let given : IsGiven ((v, id) ∷ requests) id seen v.now = record {
          visit = v;
          resp = resp;
          asked = inl refl;
          replied = replied;
          viewed = viewed;
          time = refl;
        } in
        subst (All (IsTraced ttl ((v, id) ∷ requests))) (sym same) (
          record { id = id; at = v.now; keyed = refl; given = given; dropped = refl },
          All-select (IsTraced ttl ((v, id) ∷ requests)) (λ e. not (text_eq e.key (cache_key id)))
              cache h,
        )
  ]

  -- A request answers from the cache and leaves it, or reads through.
  get_order-cases :
      (cache : List CacheEntry)
      → ((e : CacheEntry) × (first (λ e. text_eq e.key (cache_key id) && ltb v.now e.expires) cache
            ≡ some e)
          × (get_order ttl v id cache ≡ (order_found e.value, cache)))
        ⊎ (get_order ttl v id cache ≡ read_through ttl v id cache)
  unfolding get_order cache_get
  get_order-cases cache = elim (Bool-cases v.get_fails) [
    | inl broken ↦ inr (ground arith)
    | inr works ↦
        elim (Option-cases
          (first (λ e. text_eq e.key (cache_key id) && ltb v.now e.expires) cache)) [
            | inl missing ↦ inr (ground arith)
            | inr (e, found) ↦ inl (e, found, ground arith)
          ]
  ]

  get_order-IsTraced :
      (cache : List CacheEntry)
      → All (IsTraced ttl requests) cache
      → All (IsTraced ttl ((v, id) ∷ requests)) (get_order ttl v id cache).1
  get_order-IsTraced cache h =
      let more = All-map cache (IsTraced-more ttl (v, id) requests) h in
      elim (get_order-cases cache) [
        | inl (e, found, same) ↦
            subst (λ (x : Answer × List CacheEntry). All (IsTraced ttl ((v, id) ∷ requests)) x.1)
              (sym same) more
        | inr same ↦
            subst (λ (x : Answer × List CacheEntry). All (IsTraced ttl ((v, id) ∷ requests)) x.1)
              (sym same) (read_through-IsTraced cache more)
      ]

cache_after-IsTraced :
    (ttl : ℕ) (requests : List (Visit × String))
    → All (IsTraced ttl requests) (cache_after ttl requests)
unfolding cache_after
cache_after-IsTraced ttl [] = tt
cache_after-IsTraced ttl ((v, id) ∷ earlier) =
    get_order-IsTraced ttl v id earlier (cache_after ttl earlier) (cache_after-IsTraced ttl earlier)

-- An order that the gateway answers is one that order-service gave for the same id, in this request
-- or an earlier one, less than the time to live of the cache ago. This holds after any requests
-- for any orders from an empty cache, whichever calls of Redis and of order-service fail.
pub get_order_fresh :
    (ttl : ℕ) (requests : List (Visit × String)) (v : Visit) (id : String) {view : OrderView}
    → 1 ≤ ttl
    → (get_order ttl v id (cache_after ttl requests)).0 ≡ order_found view
    → (at : ℕ) × IsGiven ((v, id) ∷ requests) id view at × (v.now < at + ttl)
get_order_fresh ttl requests v id {view} lives answered =
    let cache = cache_after ttl requests in
    elim (get_order-cases ttl v id requests cache) [
      | inr same ↦ (
        v.now,
        read_through-IsGiven ttl v id requests cache {view = view}
            (ap (λ (x : Answer × List CacheEntry). x.0) (sym same) ∙ answered),
        omega arith,
      )
      | inl (e, found, same) ↦
          let (traced, passes) =
            first-All (IsTraced ttl requests) _ cache {e = e} (cache_after-IsTraced ttl requests)
              found in
          let value : e.value ≡ view = ground arith in
          let key : e.key ≡ cache_key id = text_eq→eq e.key (cache_key id) (ground arith) in
          let t = IsTraced-more ttl (v, id) requests e traced in
          let for_id : t.id ≡ id = cache_key_inj t.id id (sym t.keyed ∙ key) in
          let given =
            subst (λ (w : OrderView). IsGiven ((v, id) ∷ requests) t.id w t.at) value t.given in
          (
            t.at,
            subst (λ (k : String). IsGiven ((v, id) ∷ requests) k view t.at) for_id given,
            ground (arith, t.dropped),
          )
    ]

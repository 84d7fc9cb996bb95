-- ===== src/Ledger/Relabelled.antt =====
-- What a reclassification of an event guarantees.
use nexum_backend.Store.Ensures.{Ensures, read-then}
use nexum_backend.Store.Tables.{find_category, opt_eq}
use nexum_backend.Ledger.Reclassify.{
  find_event, check_reclassification, set_category, ReclassificationRequest,
  ReclassificationResponse, reclassify_block, is_reclassifiable, same_type, write_reclassification,
  reclassify_unless, find_reclassification, retry_reclassification, normalized_reason,
  is_idempotent_match,
}
use nexum_backend.Store.Models.{
  FinancialEvent, Category, CategoryType, EventType, Source, Reclassification,
}
use nexum_backend.Store.Monad.{Db}
use nexum_backend.Prelude.{
  ◌==◌, ◌&&◌, ◌+◌, Option, ℕ, List, Bool, ◌≡◌, none, some, false, ◌≢◌, Option-cases, ◌⊎◌, arith,
  true, not, ◌∷◌, inl, Bool-cases, inr, [], ap, refl, subst₂, sym,
}

-- A category that a user may give to an event: of everybody or his own, active, and of the event's
-- type, which is an income or an expense.
pub record IsAssignable (user_id : ℕ) (event : FinancialEvent) (category : Category) : Type 0 where
  pub permitted : (category.user_id ≡ none) ⊎ (category.user_id ≡ some user_id)
  pub active : category.is_active ≡ true
  pub typed :
      (event.event_type ≡ EventType.income) × (category.kind ≡ some CategoryType.income)
      ⊎ (event.event_type ≡ EventType.expense) × (category.kind ≡ some CategoryType.expense)

-- The user's event had another category and has the new one now; no other event changed, and one
-- audit row says what was changed, by whom and why.
pub record Relabels (user_id event_id : ℕ) (request : ReclassificationRequest) (db : Db)
    (r : ReclassificationResponse) (db' : Db) : Type 0 where
  pub event : FinancialEvent
  pub found : find_event event_id user_id db.events ≡ some event
  pub category : Category
  pub named : find_category request.new_category_id db.categories ≡ some category
  pub assignable : IsAssignable user_id event category
  pub other : event.category_id ≢ some request.new_category_id
  pub fresh : find_reclassification request.idempotency_key db.reclassifications ≡ none
  pub row : r.reclassification ≡ record {
    id = db.next_id;
    financial_event_id = event_id;
    previous_category_id = event.category_id;
    new_category_id = request.new_category_id;
    reclassified_by = user_id;
    source = Source.manual;
    reason = normalized_reason request.reason;
    command_id = request.idempotency_key;
    created_at = db.now;
  }
  pub relabelled :
      find_event event_id user_id db'.events
      ≡ some (record event { category_id = some request.new_category_id })
  pub others :
      (k u : ℕ) → (k == event_id) ≡ false → find_event k u db'.events ≡ find_event k u db.events
  pub tables : db' ≡ record db {
    events = set_category event_id request.new_category_id db.events;
    reclassifications = r.reclassification ∷ db.reclassifications;
    next_id = db.next_id + 1;
  }

-- The key was used for the same request before.
pub record IsRepeated (user_id event_id : ℕ) (request : ReclassificationRequest) (db : Db)
    (r : ReclassificationResponse) : Type 0 where
  pub stored :
      find_reclassification request.idempotency_key db.reclassifications ≡ some r.reclassification
  pub by : r.reclassification.reclassified_by ≡ user_id
  pub event : r.reclassification.financial_event_id ≡ event_id
  pub category : r.reclassification.new_category_id ≡ request.new_category_id

-- A return wrote nothing, or one audit row and the category of its event.
abbrev pub IsRelabelled :
    ℕ → ℕ → ReclassificationRequest → Db → ReclassificationResponse → Db → Type 0
IsRelabelled user_id event_id request db r db' =
    (r.is_retry ≡ true) × (db' ≡ db) × IsRepeated user_id event_id request db r
    ⊎ (r.is_retry ≡ false) × Relabels user_id event_id request db r db'

find_event-ids :
    (k u : ℕ) (rows : List FinancialEvent) (e : FinancialEvent)
    → find_event k u rows ≡ some e
    → e.id ≡ k
unfolding find_event
find_event-ids k u [] e h = ground (arith, h)
find_event-ids k u (x ∷ rows) e h = elim (Bool-cases (x.id == k && x.user_id == u)) [
  | inl c ↦ ground (arith, c, h)
  | inr c ↦ find_event-ids k u rows e (ground (arith, c, h))
]

find_category-id :
    (k : ℕ) (rows : List Category) (c : Category) → find_category k rows ≡ some c → c.id ≡ k
unfolding find_category
find_category-id k [] c h = ground (arith, h)
find_category-id k (x ∷ rows) c h = elim (Bool-cases (x.id == k)) [
  | inl e ↦ ground (arith, e, h)
  | inr e ↦ find_category-id k rows c (ground (arith, e, h))
]

find_event-set_category :
    (k u n : ℕ) (rows : List FinancialEvent) (e : FinancialEvent)
    → find_event k u rows ≡ some e
    → find_event k u (set_category k n rows) ≡ some (record e { category_id = some n })
unfolding find_event set_category
find_event-set_category k u n [] e h = ground (arith, h)
find_event-set_category k u n (x ∷ rows) e h = elim (Bool-cases (x.id == k)) [
  | inl c ↦ elim (Bool-cases (x.user_id == u)) [
    | inl o ↦
        (let same : x ≡ e = ground (arith, c, o, h) in
          rw (c, c, o) (ap (λ (y : FinancialEvent). some (record y { category_id = some n })) same))
    | inr o ↦ rw (c, c, o) (find_event-set_category k u n rows e (ground (arith, c, o, h)))
  ]
  | inr c ↦ rw (c, c) (find_event-set_category k u n rows e (ground (arith, c, h)))
]

find_event-others :
    (j k u n : ℕ) (rows : List FinancialEvent)
    → (j == k) ≡ false
    → find_event j u (set_category k n rows) ≡ find_event j u rows
unfolding find_event set_category
find_event-others j k u n [] h = refl
find_event-others j k u n (x ∷ rows) h = ground (arith, h, find_event-others j k u n rows h)

-- What the check of a category knows when it passes.
abbrev IsChecked : FinancialEvent → ℕ → ReclassificationRequest → Db → Category → Type 0
IsChecked event user_id request db category =
    (is_reclassifiable event.event_type ≡ true)
    × (opt_eq event.category_id request.new_category_id ≡ false)
    × (find_category request.new_category_id db.categories ≡ some category)
    × ((elim category.user_id [ none ↦ false | some owner ↦ not (owner == user_id) ]) ≡ false)
    × (category.is_active ≡ true)
    × (same_type category.kind event.event_type ≡ true)

check_reclassification-IsChecked :
    (event : FinancialEvent) (user_id : ℕ) (request : ReclassificationRequest) (db : Db)
    → Ensures
        (λ category db'. (db' ≡ db) × IsChecked event user_id request db category)
        (check_reclassification event user_id request db)
unfolding check_reclassification
check_reclassification-IsChecked event user_id request db = ground arith

owner_permitted :
    (o : Option ℕ) (u : ℕ)
    → (elim o as (λ _. Bool) [ none ↦ false | some owner ↦ not (owner == u) ]) ≡ false
    → (o ≡ none) ⊎ (o ≡ some u)
owner_permitted none u h = inl refl
owner_permitted (some owner) u h = inr (ap some (ground (arith, h)))

same_type-typed :
    (kind : Option CategoryType) (t : EventType)
    → same_type kind t ≡ true
    → (t ≡ EventType.income) × (kind ≡ some CategoryType.income)
      ⊎ (t ≡ EventType.expense) × (kind ≡ some CategoryType.expense)
same_type-typed (some CategoryType.income) EventType.income h = inl (refl, refl)
same_type-typed (some CategoryType.expense) EventType.expense h = inr (refl, refl)
same_type-typed _ _ h = ground (arith, h)

not_same : (o : Option ℕ) (k : ℕ) → opt_eq o k ≡ false → o ≢ some k
not_same none k h e = ground (arith, e)
not_same (some j) k h e = ground (arith, h, e)

module _ (user_id event_id : ℕ) (request : ReclassificationRequest) (db : Db)
    (event : FinancialEvent) (found : find_event event_id user_id db.events ≡ some event) where
  write_reclassification-Relabels :
      (category : Category)
      → find_reclassification request.idempotency_key db.reclassifications ≡ none
      → IsChecked event user_id request db category
      → Ensures
          (IsRelabelled user_id event_id request db)
          (write_reclassification event category user_id request db)
  unfolding write_reclassification
  write_reclassification-Relabels category fresh c =
      let e_id : event.id ≡ event_id = find_event-ids event_id user_id db.events event found in
      let c_id : category.id ≡ request.new_category_id =
        find_category-id request.new_category_id db.categories category c.2 in
      inr (
        refl,
        record {
          event = event;
          found = found;
          category = category;
          named = c.2;
          assignable = record {
            permitted = owner_permitted category.user_id user_id c.3;
            active = c.4;
            typed = same_type-typed category.kind event.event_type c.5;
          };
          other = not_same event.category_id request.new_category_id c.1;
          fresh = fresh;
          row = rw (e_id, c_id) refl;
          relabelled =
              subst₂
                (λ j c.
                  find_event event_id user_id (set_category j c db.events)
                  ≡ some (record event { category_id = some request.new_category_id }))
                (sym e_id) (sym c_id)
                (find_event-set_category event_id user_id request.new_category_id db.events event
                  found);
          others = λ k u n.
              rw (e_id, c_id) (find_event-others k event_id u request.new_category_id db.events n);
          tables = rw (e_id, c_id) refl;
        },
      )

  unless-IsRelabelled :
      (existing : Option Reclassification)
      → find_reclassification request.idempotency_key db.reclassifications ≡ existing
      → Ensures
          (IsRelabelled user_id event_id request db)
          (reclassify_unless existing event user_id event_id request db)
  unfolding reclassify_unless retry_reclassification is_idempotent_match
  unless-IsRelabelled (some stored) e =
      elim (Bool-cases (
        is_idempotent_match stored user_id event_id request.new_category_id
          (normalized_reason request.reason))) [
            | inl m ↦ rw m (
                inl (
                  refl,
                  refl,
                  record {
                    stored = e;
                    by = ground (arith, m);
                    event = ground (arith, m);
                    category = ground (arith, m);
                  },
                ))
            | inr m ↦ rw m tt
          ]
  unless-IsRelabelled none e =
      read-then (IsChecked event user_id request db) (IsRelabelled user_id event_id request db)
        (check_reclassification event user_id request)
        (λ category. write_reclassification event category user_id request) db
        (check_reclassification-IsChecked event user_id request db)
        λ category c. write_reclassification-Relabels category e c

module _ (user_id event_id : ℕ) (request : ReclassificationRequest) (db : Db) where
  pub reclassify_block-IsRelabelled :
      Ensures
        (IsRelabelled user_id event_id request db)
        (reclassify_block user_id event_id request db)
  unfolding reclassify_block
  reclassify_block-IsRelabelled = elim (Option-cases (find_event event_id user_id db.events)) [
    | inl e ↦ rw e tt
    | inr (event, e) ↦ rw e (
        unless-IsRelabelled user_id event_id request db event e
          (find_reclassification request.idempotency_key db.reclassifications) refl)
  ]

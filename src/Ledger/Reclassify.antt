-- ===== src/Ledger/Reclassify.antt =====
-- `LedgerService.reclassify_event` (app/ledger/service.py).
use nexum_backend.Store.Monad.{
  ◌>>=◌, ◌>>◌, Db, Action, pure, gets, modify, or_raise, raise_if, not_found, conflict, validation,
  forbidden, event_not_found, idempotency_key_reused, event_not_reclassifiable,
  category_already_assigned, category_not_found, category_forbidden, category_inactive,
  category_type_mismatch,
}
use nexum_backend.Store.Models.{
  FinancialEvent, Reclassification, EventType, CategoryType, Category, Source,
}
use nexum_backend.Store.Tables.{find_category, opt_eq, opt_text_eq}
use nexum_backend.Store.Atomic.{savepoint}
use nexum_backend.Transfers.Fx.{is_space}
use nexum_backend.Prelude.{
  ℕ, Bool, Option, Text, List, [], ◌∷◌, true, false, none, some, not, ◌&&◌, ◌==◌, ◌+◌,
  if◌then◌else◌,
}

pub record ReclassificationRequest : Type 0 where
  pub new_category_id : ℕ
  pub reason : Option Text
  pub idempotency_key : ℕ

pub record ReclassificationResponse : Type 0 where
  pub is_retry : Bool
  pub reclassification : Reclassification

-- `str.strip`
unfoldable pub lstrip : Text → Text
lstrip [] = []
lstrip (c ∷ s) = let rest = lstrip s in if is_space c then rest else c ∷ s

unfoldable pub rstrip : Text → Text
rstrip [] = []
rstrip (c ∷ s) = elim (rstrip s) [ [] ↦ (if is_space c then [] else c ∷ []) | x ∷ xs ↦ c ∷ x ∷ xs ]

unfoldable pub normalized_reason : Option Text → Option Text
normalized_reason none = none
normalized_reason (some s) = elim (rstrip (lstrip s)) [ [] ↦ none | c ∷ t ↦ some (c ∷ t) ]

unfoldable pub find_event : ℕ → ℕ → List FinancialEvent → Option FinancialEvent
find_event k user_id [] = none
find_event k user_id (e ∷ rows) =
    let rest = find_event k user_id rows in
    if e.id == k && e.user_id == user_id then some e else rest

unfoldable pub find_reclassification : ℕ → List Reclassification → Option Reclassification
find_reclassification k [] = none
find_reclassification k (r ∷ rows) =
    let rest = find_reclassification k rows in if r.command_id == k then some r else rest

-- `event.category_id = ...` on the row of that id.
unfoldable pub set_category : ℕ → ℕ → List FinancialEvent → List FinancialEvent
set_category k c [] = []
set_category k c (e ∷ rows) =
    (if e.id == k then record e { category_id = some c } else e) ∷ set_category k c rows

abbrev pub is_manual : Source → Bool
is_manual Source.manual = true
is_manual _ = false

unfoldable pub is_idempotent_match : Reclassification → ℕ → ℕ → ℕ → Option Text → Bool
is_idempotent_match r user_id event_id new_category_id reason =
    r.reclassified_by == user_id
    && r.financial_event_id == event_id
    && r.new_category_id == new_category_id
    && opt_text_eq r.reason reason
    && is_manual r.source

-- Whether the event's type can be reclassified, and the category's type is the same.
abbrev pub is_reclassifiable : EventType → Bool
is_reclassifiable EventType.income = true
is_reclassifiable EventType.expense = true
is_reclassifiable _ = false

abbrev pub same_type : Option CategoryType → EventType → Bool
same_type (some CategoryType.income) EventType.income = true
same_type (some CategoryType.expense) EventType.expense = true
same_type _ _ = false

-- The response of a stored reclassification, or the conflict of a key used for something else.
unfoldable pub retry_reclassification :
    Reclassification → ℕ → ℕ → ReclassificationRequest → Action ReclassificationResponse
retry_reclassification found user_id event_id request = do
  raise_if
      (not (
        is_idempotent_match found user_id event_id request.new_category_id
          (normalized_reason request.reason)))
      (conflict idempotency_key_reused)
  pure (record { is_retry = true; reclassification = found })

-- Guards 4 to 6.
unfoldable pub check_reclassification :
    FinancialEvent → ℕ → ReclassificationRequest → Action Category
check_reclassification event user_id request = do
  raise_if (not (is_reclassifiable event.event_type)) (validation event_not_reclassifiable)
  raise_if (opt_eq event.category_id request.new_category_id) (conflict category_already_assigned)
  found ← gets (λ db. find_category request.new_category_id db.categories)
  category ← or_raise found (not_found category_not_found)
  raise_if (elim category.user_id [ none ↦ false | some owner ↦ not (owner == user_id) ])
      (forbidden category_forbidden)
  raise_if (not category.is_active) (validation category_inactive)
  raise_if (not (same_type category.kind event.event_type)) (validation category_type_mismatch)
  pure category

abbrev pub reclassification_row :
    FinancialEvent → Category → ℕ → ReclassificationRequest → Db → Reclassification
reclassification_row event category user_id request db = record {
  id = db.next_id;
  financial_event_id = event.id;
  previous_category_id = event.category_id;
  new_category_id = category.id;
  reclassified_by = user_id;
  source = Source.manual;
  reason = normalized_reason request.reason;
  command_id = request.idempotency_key;
  created_at = db.now;
}

abbrev pub add_reclassification : Reclassification → Db → Db
add_reclassification row db = record db {
  events = set_category row.financial_event_id row.new_category_id db.events;
  reclassifications = row ∷ db.reclassifications;
  next_id = db.next_id + 1;
}

-- The audit row and the new category of the event.
unfoldable pub write_reclassification :
    FinancialEvent → Category → ℕ → ReclassificationRequest → Action ReclassificationResponse
write_reclassification event category user_id request = do
  row ← gets (reclassification_row event category user_id request)
  modify (add_reclassification row)
  pure (record { is_retry = false; reclassification = row })

-- With the reclassification that the key finds under the lock, if any.
unfoldable pub reclassify_unless :
    Option Reclassification
    → FinancialEvent
    → ℕ
    → ℕ
    → ReclassificationRequest
    → Action ReclassificationResponse
reclassify_unless (some found) event user_id event_id request =
    retry_reclassification found user_id event_id request
reclassify_unless none event user_id event_id request = do
  category ← check_reclassification event user_id request
  write_reclassification event category user_id request

unfoldable pub reclassify_block : ℕ → ℕ → ReclassificationRequest → Action ReclassificationResponse
reclassify_block user_id event_id request = do
  found ← gets (λ db. find_event event_id user_id db.events)
  event ← or_raise found (not_found event_not_found)
  existing ← gets (λ db. find_reclassification request.idempotency_key db.reclassifications)
  reclassify_unless existing event user_id event_id request

-- Under the lock the key is looked up before the flush, which therefore meets no duplicate.
unfoldable pub reclassify_event : ℕ → ℕ → ReclassificationRequest → Action ReclassificationResponse
reclassify_event user_id event_id request = savepoint (reclassify_block user_id event_id request)

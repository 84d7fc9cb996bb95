-- ===== src/Ledger/Relabel.antt =====
-- A reclassification leaves the amounts alone.
use nexum_backend.Ledger.Relabelled.{IsRelabelled, reclassify_block-IsRelabelled}
use nexum_backend.Store.Atomic.{savepoint, transaction}
use nexum_backend.Prelude.Int.{ℤ, ◌+ℤ◌}
use nexum_backend.Store.Atomic.{savepoint}
use nexum_backend.Store.Models.{FinancialEvent}
use nexum_backend.Store.Monad.{Db}
use nexum_backend.Prelude.{
  refl, inl, inr, ◌≡◌, ℕ, List, [], ◌∷◌, subst, Bool-cases, sym, ◌==◌, ◌∙◌, ap,
}
use nexum_backend.Ledger.Balance.{Reconciles, ledger_sum, movement}
use nexum_backend.Store.Ensures.{
  Ensures, Ensures-always, Ensures-map, IsAtomic, transaction-IsAtomic, Ensures-transaction,
}
use nexum_backend.Ledger.Reclassify.{
  ReclassificationRequest, ReclassificationResponse, reclassify_event, reclassify_block,
  set_category,
}

ledger_sum-set_category :
    (j k c : ℕ) (rows : List FinancialEvent)
    → ledger_sum j (set_category k c rows) ≡ ledger_sum j rows
unfolding set_category
ledger_sum-set_category j k c [] = refl
ledger_sum-set_category j k c (e ∷ rows) = elim (Bool-cases (e.id == k)) [
  | inl h ↦ rw h (ap (λ (s : ℤ). movement j e +ℤ s) (ledger_sum-set_category j k c rows))
  | inr h ↦ rw h (ap (λ (s : ℤ). movement j e +ℤ s) (ledger_sum-set_category j k c rows))
]

module _ (user_id event_id : ℕ) (request : ReclassificationRequest) (db : Db) where
  -- `reclassify_event` changes nothing on an error. A return is a retry, which changes nothing and
  -- answers with the row stored under the key, for the same user, event and category; or it is a new
  -- reclassification under a free key: the event is the user's, an income or an expense, and had
  -- another category, the new category is stored, everybody's or the user's own, active and of the
  -- event's type; the event has it now, with nothing else about it changed, no event of another id
  -- changed, and one audit row keeps the user, the event, both categories, the reason and the key.
  pub reclassify_event-IsRelabelled :
      IsAtomic db (reclassify_event user_id event_id request db)
      × Ensures
          (IsRelabelled user_id event_id request db)
          (reclassify_event user_id event_id request db)
  unfolding reclassify_event savepoint transaction
  reclassify_event-IsRelabelled = (
    transaction-IsAtomic (reclassify_block user_id event_id request) db,
    Ensures-transaction (IsRelabelled user_id event_id request db)
        (reclassify_block user_id event_id request) db
        (reclassify_block-IsRelabelled user_id event_id request db),
  )

  Reconciles-IsRelabelled :
      (r : ReclassificationResponse) (db' : Db)
      → IsRelabelled user_id event_id request db r db'
      → Reconciles db
      → Reconciles db'
  Reconciles-IsRelabelled r db' (inl old) h = subst Reconciles (sym old.1) h
  Reconciles-IsRelabelled r db' (inr new) h = subst Reconciles (sym new.1.tables) (record {
    at = λ j. h.at j ∙ sym (ledger_sum-set_category j event_id request.new_category_id db.events);
  })

  -- If every balance is the sum of its account's events, then it still is after a call of
  -- `reclassify_event`, however the call ends.
  pub reclassify_event-Reconciles :
      Reconciles db → Reconciles (reclassify_event user_id event_id request db).1
  reclassify_event-Reconciles h =
      Ensures-always Reconciles db (reclassify_event user_id event_id request db) h
        reclassify_event-IsRelabelled.0
        (Ensures-map (IsRelabelled user_id event_id request db) (λ _. Reconciles) _
          reclassify_event-IsRelabelled.1 (λ r db' o. Reconciles-IsRelabelled r db' o h))

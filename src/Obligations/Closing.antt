-- ===== src/Obligations/Closing.antt =====
-- Periods that are closed without a payment: `skip_period` and `cancel_period`
-- (app/obligations/service_v17.py) in the transactions of their routes
-- (app/obligations/router_v17.py). `today` is `financial_date()`.
use nexum_backend.Obligations.SpecificPayment.{is_active_obligation}
use nexum_backend.Obligations.Lifecycle.{
  own_obligation, evaluate_lifecycle, refresh_overdue_periods,
}
use nexum_backend.Store.Atomic.{transaction}
use nexum_backend.Prelude.Int.{ltb_ℤ, pos}
use nexum_backend.Obligations.Payments.{period_with, paid_so_far}
use nexum_backend.Calendar.{Date}
use nexum_backend.Store.Obligations.{
  PeriodStatus, ObligationPeriod, Obligation, skipped, pending_amount_definition, pending_payment,
  overdue,
}
use nexum_backend.Store.Monad.{
  ◌>>=◌, ◌>>◌, Db, Action, raise_if, gets, modify, http, or_raise, period_not_found,
  obligation_inactive, period_not_skippable, pure, period_has_payments, period_not_cancellable,
}
use nexum_backend.Prelude.{◌==◌, ℕ, Bool, update?, true, Option, find?, false, not}

-- The user's obligation, which is active.
unfoldable pub active_obligation : ℕ → ℕ → Action Obligation
active_obligation user_id obligation_id = do
  ob ← own_obligation user_id obligation_id
  raise_if (not (is_active_obligation ob.status)) (http 400 obligation_inactive)
  pure ob

-- A period of the obligation. The id is the primary key.
unfoldable pub period_of : ℕ → ℕ → Action ObligationPeriod
period_of obligation_id period_id = do
  found ← gets (λ db. find? (period_with period_id) db.obligation_periods)
  period ← or_raise found (http 404 period_not_found)
  raise_if (not (period.obligation_id == obligation_id)) (http 404 period_not_found)
  pure period

-- `period.status in (...)` of `skip_period`.
unfoldable pub is_skippable : PeriodStatus → Bool
is_skippable pending_amount_definition = true
is_skippable pending_payment = true
is_skippable overdue = true
is_skippable _ = false

-- `period.status in (...)` of `cancel_period`.
unfoldable pub is_cancellable : PeriodStatus → Bool
is_cancellable pending_amount_definition = true
is_cancellable pending_payment = true
is_cancellable overdue = true
is_cancellable skipped = true
is_cancellable _ = false

abbrev pub with_status : PeriodStatus → ObligationPeriod → ObligationPeriod
with_status status p = record p { status = status }

abbrev pub set_status : ℕ → PeriodStatus → Db → Db
set_status period_id status db = record db {
  obligation_periods = update? (period_with period_id) (with_status status) db.obligation_periods;
}

-- The new status, the completion of the obligation, the refresh, and the period as it is then.
unfoldable pub close_period : ℕ → ℕ → ℕ → PeriodStatus → Date → Action (Option ObligationPeriod)
close_period user_id obligation_id period_id status today = do
  modify (set_status period_id status)
  evaluate_lifecycle obligation_id
  refresh_overdue_periods user_id obligation_id today
  gets (λ db. find? (period_with period_id) db.obligation_periods)

unfoldable pub check_skip : ℕ → ℕ → ℕ → Action (Unit {0})
check_skip user_id obligation_id period_id = do
  ob ← active_obligation user_id obligation_id
  period ← period_of ob.id period_id
  raise_if (not (is_skippable period.status)) (http 422 period_not_skippable)

unfoldable pub check_cancel : ℕ → ℕ → ℕ → Action (Unit {0})
check_cancel user_id obligation_id period_id = do
  ob ← active_obligation user_id obligation_id
  period ← period_of ob.id period_id
  raise_if (ltb_ℤ (pos 0) (paid_so_far period)) (http 422 period_has_payments)
  raise_if (not (is_cancellable period.status)) (http 422 period_not_cancellable)

unfoldable pub skip_obligation_period : ℕ → ℕ → ℕ → Date → Action (Option ObligationPeriod)
skip_obligation_period user_id obligation_id period_id today = transaction do
  check_skip user_id obligation_id period_id
  close_period user_id obligation_id period_id skipped today

unfoldable pub cancel_obligation_period : ℕ → ℕ → ℕ → Date → Action (Option ObligationPeriod)
cancel_obligation_period user_id obligation_id period_id today = transaction do
  check_cancel user_id obligation_id period_id
  close_period user_id obligation_id period_id PeriodStatus.cancelled today

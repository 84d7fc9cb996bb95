-- ===== src/Obligations/Status.antt =====
-- The states of a period: `refresh_overdue` and `skip_period` (app/obligations/period_engine.py).
use nexum_backend.Store.Obligations.{
  ObligationPeriod, PeriodStatus, cancelled, overdue, paid, partially_paid, pending_payment,
  skipped,
}
use nexum_backend.Prelude.{
  ℕ, Option, Bool, true, false, none, some, List, [], ◌∷◌, if◌then◌else◌, ◌==◌, ◌&&◌,
}
use nexum_backend.Prelude.Int.{ℤ, pos, ltb_ℤ}
use nexum_backend.Calendar.{Date, date_ltb}

abbrev pub is_unpaid : PeriodStatus → Bool
is_unpaid pending_payment = true
is_unpaid partially_paid = true
is_unpaid _ = false

abbrev pub is_closed : PeriodStatus → Bool
is_closed paid = true
is_closed skipped = true
is_closed cancelled = true
is_closed _ = false

-- The rows that the query of `refresh_overdue` selects.
abbrev pub is_late : ℕ → Date → ObligationPeriod → Bool
is_late obligation_id current p =
    p.obligation_id == obligation_id && is_unpaid p.status && date_ltb p.due_date current

unfoldable pub refresh_overdue : ℕ → Date → List ObligationPeriod → List ObligationPeriod
refresh_overdue obligation_id current [] = []
refresh_overdue obligation_id current (p ∷ rows) =
    (if is_late obligation_id current p then record p { status = overdue } else p)
    ∷ refresh_overdue obligation_id current rows

unfoldable pub find_period : ℕ → List ObligationPeriod → Option ObligationPeriod
find_period k [] = none
find_period k (p ∷ rows) = let rest = find_period k rows in if p.id == k then some p else rest

unfoldable pub set_skipped : ℕ → List ObligationPeriod → List ObligationPeriod
set_skipped k [] = []
set_skipped k (p ∷ rows) =
    (if p.id == k then record p { status = skipped } else p) ∷ set_skipped k rows

-- How `skip_period` ends.
pub data Skip : Type 0 where
  not_found : Skip
  has_payments : Skip
  wrong_status : PeriodStatus → Skip
  done : List ObligationPeriod → Skip

abbrev pub has_paid : Option ℤ → Bool
has_paid none = false
has_paid (some amount) = ltb_ℤ (pos 0) amount

unfoldable pub skip_period : ℕ → List ObligationPeriod → Skip
skip_period k rows = elim (find_period k rows) [
  | none ↦ not_found
  | some p ↦
      if has_paid p.paid_amount
      then has_payments
      else if is_closed p.status
      then wrong_status p.status
      else done (set_skipped k rows)
]

-- ===== src/Tests/Closing.antt =====
-- A fee is skipped, cancelled, or refreshed when it is late.
use nexum_backend.Obligations.Batch.{
  refresh_due_periods_for_user, refresh_due_periods_for_user-Refreshes,
}
use nexum_backend.Obligations.Written.{Refreshes}
use nexum_backend.Obligations.Lifecycle.{refresh_overdue_periods}
use nexum_backend.Obligations.Lifecycle.{is_done}
use nexum_backend.Obligations.Lifecycle.{evaluate_active}
use nexum_backend.Obligations.Lifecycle.{evaluate_lifecycle}
use nexum_backend.Obligations.Closing.{close_period}
use nexum_backend.Obligations.Closing.{period_of}
use nexum_backend.Obligations.Lifecycle.{own_obligation}
use nexum_backend.Obligations.Closing.{active_obligation}
use nexum_backend.Obligations.Closing.{check_skip}
use nexum_backend.Store.Atomic.{transaction}
use nexum_backend.Store.Monad.{ok}
use nexum_backend.Prelude.Int.{pos}
use nexum_backend.Prelude.{some, ◌≡◌, ◌∷◌, [], refl}
use nexum_backend.Store.Obligations.{skipped, PeriodStatus, overdue}
use nexum_backend.Obligations.Closing.{
  skip_obligation_period, cancel_obligation_period, is_skippable, with_status,
}
use nexum_backend.Store.Ensures.{Ensures}
use nexum_backend.Obligations.Batch.{refresh_each, active_obligations}
use nexum_backend.Obligations.Sync.{
  sync_periods, sync_active, ensure_from, max_sequence, past_end, ensure_period_exists,
  generate_period_key,
}
use nexum_backend.Obligations.Periods.{calculate_period_bounds}
use nexum_backend.Obligations.Status.{refresh_overdue}
use nexum_backend.Calendar.{date_ltb}
use nexum_backend.Prelude.{text_eq}
use nexum_backend.Obligations.Closed.{
  Closes, MaySkip, MayCancel, skip_obligation_period-Closes, cancel_obligation_period-Closes,
}
use nexum_backend.Tests.Payments.{before, due}
use nexum_backend.Tests.Periods.{day}

skip_obligation_period-Closes_example :
    Ensures (Closes 7 5 61 skipped MaySkip before) (skip_obligation_period 7 5 61 (day 2 10) before)
skip_obligation_period-Closes_example = skip_obligation_period-Closes 7 5 61 (day 2 10) before

cancel_obligation_period-Closes_example :
    Ensures
      (Closes 7 5 61 PeriodStatus.cancelled MayCancel before)
      (cancel_obligation_period 7 5 61 (day 2 10) before)
cancel_obligation_period-Closes_example = cancel_obligation_period-Closes 7 5 61 (day 2 10) before

skipped_result :
    (skip_obligation_period 7 5 61 (day 2 10) before).0 ≡ ok (some (with_status skipped due))
unfolding skip_obligation_period transaction check_skip active_obligation own_obligation period_of
    is_skippable close_period evaluate_lifecycle evaluate_active is_done refresh_overdue_periods
skipped_result = refl

-- An overdue period with a payment on it can be skipped, which the same method of the period engine
-- refuses.
skipped_with_payment :
    (skip_obligation_period 7 5 61 (day 2 21) (record before {
      obligation_periods = record due { status = overdue; paid_amount = some (pos 45000) } ∷ [];
    })).0
    ≡ ok (some (record due { status = skipped; paid_amount = some (pos 45000) }))
unfolding skip_obligation_period transaction check_skip active_obligation own_obligation period_of
    is_skippable close_period evaluate_lifecycle evaluate_active is_done refresh_overdue_periods
skipped_with_payment = refl

refresh_due_periods_for_user-Refreshes_example :
    Ensures (λ _ db'. Refreshes before db') (refresh_due_periods_for_user 7 (day 2 21) before)
refresh_due_periods_for_user-Refreshes_example =
    refresh_due_periods_for_user-Refreshes 7 (day 2 21) before

refreshed_late :
    (refresh_due_periods_for_user 7 (day 2 21) before).1.obligation_periods
    ≡ record due { status = overdue } ∷ []
unfolding refresh_due_periods_for_user refresh_each active_obligations sync_periods sync_active
    ensure_from max_sequence past_end ensure_period_exists calculate_period_bounds refresh_overdue
    date_ltb text_eq generate_period_key evaluate_lifecycle evaluate_active is_done
refreshed_late = refl

-- ===== src/Tests/Periods.antt =====
-- A weekly obligation from the last of January 2024, and its periods.
use nexum_backend.Prelude.Int.{pos}
use nexum_backend.Store.Obligations.{
  Obligation, ObligationPeriod, PeriodStatus, overdue, partially_paid, pending_payment, skipped,
  weekly, indefinite, fixed, active,
}
use nexum_backend.Prelude.{
  refl, ◌≡◌, [], ◌∷◌, some, none, ℕ, inl, arith, false, if◌then◌else◌, ◌==◌, codes,
}
use nexum_backend.Calendar.{Date, IsDate, date, date_ltb, days_in_month, next_day}
use nexum_backend.Calendar.Ordinals.{plus_days, toordinal, days_before_month, days_before_year}
use nexum_backend.Obligations.Periods.{calculate_period_bounds, find_sequence_for_date, days_bounds}
use nexum_backend.Obligations.Search.{found_period-IsHeld, IsHeld}
use nexum_backend.Obligations.Status.{
  refresh_overdue, skip_period, find_period, set_skipped, done, has_paid, is_closed,
}
use nexum_backend.Obligations.Transitions.{Marks, refresh_overdue-Marks, skip_period_lem}

abbrev pub day : ℕ → ℕ → Date
day m d = record { year = 2024; month = m; day = d }

abbrev pub rent : Obligation
rent = record {
  id = 5;
  user_id = 7;
  name = codes "rent";
  currency = codes "COP";
  kind = indefinite;
  payment_mode = fixed;
  base_amount = some (pos 90000);
  end_count = none;
  status = active;
  frequency = weekly;
  start_date = some (day 1 31);
  first_due_date = day 2 2;
  end_date = none;
  interval_count = none;
  due_day = none;
  due_month = none;
}

start-IsDate : IsDate (day 1 31)
unfolding days_in_month
start-IsDate = record {
  year_pos = omega arith;
  year_max = omega arith;
  month_pos = omega arith;
  month_max = omega arith;
  day_pos = omega arith;
  day_max = omega arith;
}

ten_days : plus_days (day 1 31) 10 ≡ some (day 2 10)
unfolding plus_days next_day date days_in_month
ten_days = refl

second_week :
    calculate_period_bounds rent (find_sequence_for_date rent (day 2 10))
    ≡ some (day 2 7, day 2 13, day 2 9)
unfolding calculate_period_bounds find_sequence_for_date days_bounds date_ltb toordinal
    days_before_month days_before_year plus_days next_day date days_in_month
second_week = refl

found_period-IsHeld_example : IsHeld (day 2 7) (day 2 10) (day 2 13)
found_period-IsHeld_example =
    found_period-IsHeld rent (day 1 31) (day 2 10) (day 2 7) (day 2 13) (day 2 9) 10 (inl refl) refl
      start-IsDate ten_days second_week

abbrev period : ℕ → PeriodStatus → ObligationPeriod
period i state = record {
  id = i;
  obligation_id = 5;
  period_key = codes "2024-W06-SEQ2";
  sequence_number = 2;
  start_date = day 2 7;
  end_date = day 2 13;
  amount = some (pos 90000);
  currency = codes "COP";
  due_date = day 2 9;
  paid_amount = none;
  status = state;
}

refresh_overdue-Marks_example :
    Marks 5
      (day 2 12)
      (period 1 pending_payment ∷ period 2 partially_paid ∷ [])
      (refresh_overdue 5 (day 2 12) (period 1 pending_payment ∷ period 2 partially_paid ∷ []))
refresh_overdue-Marks_example =
    refresh_overdue-Marks 5 (day 2 12) (period 1 pending_payment ∷ period 2 partially_paid ∷ [])

skipping :
    skip_period 2 (period 1 overdue ∷ period 2 pending_payment ∷ [])
    ≡ done (period 1 overdue ∷ period 2 skipped ∷ [])
unfolding skip_period find_period set_skipped
skipping = refl

skip_period_lem_example :
    (p : ObligationPeriod) × (find_period 2 (period 1 overdue ∷ period 2 pending_payment ∷ [])
      ≡ some p)
    × (has_paid p.paid_amount ≡ false)
    × (is_closed p.status ≡ false)
    × (find_period 1 (period 1 overdue ∷ period 2 skipped ∷ []) ≡ (
        if 2 == 1
        then some (record p { status = skipped })
        else find_period 1 (period 1 overdue ∷ period 2 pending_payment ∷ [])))
skip_period_lem_example =
    skip_period_lem 1 2 (period 1 overdue ∷ period 2 pending_payment ∷ [])
      (period 1 overdue ∷ period 2 skipped ∷ []) skipping

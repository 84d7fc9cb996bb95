-- ===== src/Tests/Sync.antt =====
-- The periods of a weekly obligation, from an empty table.
use nexum_backend.Obligations.Status.{refresh_overdue}
use nexum_backend.Calendar.Ordinals.{
  toordinal, days_before_year, days_before_month, plus_days, minus_days, previous_day,
}
use nexum_backend.Calendar.{date_ltb, days_in_month, next_day, date}
use nexum_backend.Obligations.Periods.{find_sequence_for_date, calculate_period_bounds, days_bounds}
use nexum_backend.Prelude.Int.{pos}
use nexum_backend.Obligations.Resync.{
  Resynced, sync_periods-Distinct, marked, sync_periods-Resynced,
}
use nexum_backend.Obligations.Synced.{Distinct}
use nexum_backend.Obligations.Sync.{
  sync_periods, sync_active, ensure_from, max_sequence, past_end, ensure_period_exists,
  generate_period_key, iso_week, week1_monday, add_period,
}
use nexum_backend.Store.Ensures.{Ensures}
use nexum_backend.Store.Obligations.{ObligationPeriod, pending_payment, overdue}
use nexum_backend.Store.Monad.{Db, ok}
use nexum_backend.Prelude.{
  refl, ◌≡◌, codes, ◌∷◌, some, [], decimal_text, digits_from, two_digits, text_eq,
}
use nexum_backend.Tests.Fixtures.{book}
use nexum_backend.Tests.Periods.{rent, day}

abbrev second : ObligationPeriod
second = record {
  id = 101;
  obligation_id = 5;
  period_key = codes "2024-W06-SEQ2";
  sequence_number = 2;
  start_date = day 2 7;
  end_date = day 2 13;
  due_date = day 2 9;
  amount = some (pos 90000);
  currency = codes "COP";
  paid_amount = some (pos 0);
  status = overdue;
}

abbrev synced : Db
synced = record book {
  obligation_periods =
      record second {
        id = 100;
        period_key = codes "2024-W05-SEQ1";
        sequence_number = 1;
        start_date = day 1 31;
        end_date = day 2 6;
        due_date = day 2 2;
      }
      ∷ second
      ∷ record second {
        id = 102;
        period_key = codes "2024-W07-SEQ3";
        sequence_number = 3;
        start_date = day 2 14;
        end_date = day 2 20;
        due_date = day 2 16;
        status = pending_payment;
      }
      ∷ [];
  next_id = 103;
}

three_weeks : sync_periods rent (day 2 10) book ≡ (ok tt, synced)
unfolding sync_periods sync_active ensure_from max_sequence find_sequence_for_date date_ltb
    toordinal days_before_year days_before_month days_in_month past_end ensure_period_exists
    calculate_period_bounds days_bounds plus_days next_day date refresh_overdue minus_days
    previous_day generate_period_key decimal_text digits_from two_digits iso_week week1_monday
    add_period text_eq
three_weeks = refl

sync_periods-Resynced_example :
    Ensures
      (Resynced rent
        (day 2 10)
        (sync_periods rent (day 2 10))
        (marked rent (day 2 10) rent.status book))
      (sync_periods rent (day 2 10) book)
sync_periods-Resynced_example = sync_periods-Resynced rent (day 2 10) book

sync_periods-Distinct_example :
    Ensures (λ _ db'. Distinct db'.obligation_periods) (sync_periods rent (day 2 10) book)
sync_periods-Distinct_example = sync_periods-Distinct rent (day 2 10) book tt

-- ===== src/Tests/Payments.antt =====
-- A fee that is due once, and a payment of half of it.
use nexum_backend.Obligations.PaymentRetry.{Again, pay_period_route-again}
use nexum_backend.Obligations.Fingerprint.{build_idempotency_fingerprint}
use nexum_backend.Obligations.Status.{refresh_overdue, find_period}
use nexum_backend.Calendar.{days_in_month, date, date_ltb, next_day}
use nexum_backend.Calendar.Ordinals.{days_before_month, days_before_year, toordinal}
use nexum_backend.Decimal.Compare.{positive}
use nexum_backend.Store.Atomic.{transaction, savepoint}
use nexum_backend.Store.Tables.{find_account, set_balance, find_command, find_rate}
use nexum_backend.Ledger.Insert.{
  event_create, check_account_ownership, check_category_ownership, flush_event, recover_event,
  write_event, check_owners, insert_event, record_event,
}
use nexum_backend.Accounts.Repository.{get_by_id, flush_balance, update_balance}
use nexum_backend.Goals.Reserves.{reserve_change, reserved_by_account}
use nexum_backend.Obligations.Periods.{calculate_period_bounds}
use nexum_backend.Obligations.Settlement.{
  check_amount, check_source, settle_across, resolve_settlement,
}
use nexum_backend.Obligations.Sync.{
  generate_period_key, add_period, ensure_period_exists, past_end, ensure_from, max_sequence,
  sync_active, sync_periods,
}
use nexum_backend.Obligations.Lifecycle.{
  is_done, evaluate_active, evaluate_lifecycle, own_obligation, refresh_overdue_periods,
}
use nexum_backend.Obligations.SpecificPayment.{
  pay_period_route, write_payment, check_due, pay_settled, pay_read, pay_active, replays_or,
  pay_locked, pay_checked, pay_specific_period,
}
use nexum_backend.Ledger.Balance.{Reconciles}
use nexum_backend.Obligations.Payments.{
  PaymentData, period_with, find_replay_by_command_id, answer, replay_or, key_replay_or,
  payable_period, paying_account, stored, check_available, flush_payment, stored_rate,
}
use nexum_backend.Store.Obligations.{
  Obligation, ObligationPeriod, partially_paid, pending_payment, Frequency, ObligationKind,
  ObligationPayment,
}
use nexum_backend.Obligations.PaymentBooks.{
  IsPaidUp, Paid, pay_period_route-Paid, pay_period_route-Reconciles,
}
use nexum_backend.Store.Ensures.{Ensures}
use nexum_backend.Prelude.{
  refl, ◌≡◌, [], ◌∷◌, some, none, ℕ, codes, Text, find?, arith, text_eq, upper,
}
use nexum_backend.Prelude.Int.{pos, ◌+ℤ◌, ◌-ℤ◌, neg_ℤ}
use nexum_backend.Decimal.{finite}
use nexum_backend.Store.Monad.{Db, ok}
use nexum_backend.Tests.Fixtures.{books, books-Reconciles}
use nexum_backend.Tests.Periods.{rent, day}

abbrev pub fee : Obligation
fee = record rent { frequency = Frequency.one_time; kind = ObligationKind.one_time }

abbrev pub due : ObligationPeriod
due = record {
  id = 61;
  obligation_id = 5;
  period_key = codes "ONE-TIME";
  sequence_number = 1;
  start_date = day 1 31;
  end_date = day 2 20;
  due_date = day 2 20;
  amount = some (pos 90000);
  currency = codes "COP";
  paid_amount = some (pos 0);
  status = pending_payment;
}

abbrev pub before : Db
before = record books { obligations = fee ∷ []; obligation_periods = due ∷ [] }

-- The command of a key is any function of the user and the key.
abbrev pub command : ℕ → Text → ℕ
command user_id key = 77

abbrev pub half : PaymentData
half = record {
  amount = finite (pos 450) 0;
  currency = some (codes "COP");
  payment_date = none;
  source_account_id = some 1;
  idempotency_key = some (codes "k1");
  source_amount = none;
  source_currency = none;
  quote_id = none;
  rate_snapshot_id = none;
}

pay_period_route-Paid_example :
    Ensures
      (Paid command 7 5 61 half (day 2 10) before)
      (pay_period_route command 7 5 61 half (day 2 10) before)
pay_period_route-Paid_example = pay_period_route-Paid command 7 5 61 half (day 2 10) before

abbrev after : ObligationPeriod
after = record due { paid_amount = some (pos 45000); status = partially_paid }

half_paid :
    find?
      (period_with 61)
      (pay_period_route command 7 5 61 half (day 2 10) before).1.obligation_periods
    ≡ some after
unfolding write_payment check_due pay_settled pay_read pay_active replays_or pay_locked pay_checked
    pay_specific_period pay_period_route find_replay_by_command_id answer replay_or key_replay_or
    payable_period paying_account stored stored_rate check_available flush_payment is_done
    evaluate_active evaluate_lifecycle own_obligation refresh_overdue_periods generate_period_key
    add_period ensure_period_exists past_end ensure_from max_sequence sync_active sync_periods
    check_amount check_source settle_across resolve_settlement calculate_period_bounds
    reserve_change reserved_by_account get_by_id flush_balance update_balance event_create
    check_account_ownership check_category_ownership flush_event recover_event write_event
    check_owners insert_event record_event find_account set_balance find_command find_rate
    transaction savepoint positive days_before_month days_before_year toordinal days_in_month date
    date_ltb next_day refresh_overdue find_period build_idempotency_fingerprint text_eq upper ◌+ℤ◌
    ◌-ℤ◌ neg_ℤ
half_paid = refl

before-IsPaidUp : IsPaidUp before
before-IsPaidUp = record { at = λ k. ground arith }

pay_period_route-Reconciles_example :
    Reconciles (pay_period_route command 7 5 61 half (day 2 10) before).1
    × IsPaidUp (pay_period_route command 7 5 61 half (day 2 10) before).1
pay_period_route-Reconciles_example =
    pay_period_route-Reconciles command 7 5 61 half (day 2 10) before
      (record { at = books-Reconciles.at }) before-IsPaidUp

abbrev payment : ObligationPayment
payment = record {
  id = 101;
  obligation_id = 5;
  obligation_period_id = 61;
  user_id = 7;
  account_id = some 1;
  financial_event_id = some 100;
  amount = 45000;
  currency = codes "COP";
  source_amount = 45000;
  source_currency = codes "COP";
  fx_rate = record { coef = 100000000; places = 8 };
  rate_source = none;
  rate_timestamp = none;
  quote_id = none;
  rate_snapshot_id = none;
  idempotency_key = some (codes "k1");
}

abbrev paid_tables : Db
paid_tables = (pay_period_route command 7 5 61 half (day 2 10) before).1

half_answered :
    pay_period_route command 7 5 61 half (day 2 10) before ≡ (ok (payment, some after), paid_tables)
unfolding write_payment check_due pay_settled pay_read pay_active replays_or pay_locked pay_checked
    pay_specific_period pay_period_route find_replay_by_command_id answer replay_or key_replay_or
    payable_period paying_account stored stored_rate check_available flush_payment is_done
    evaluate_active evaluate_lifecycle own_obligation refresh_overdue_periods generate_period_key
    add_period ensure_period_exists past_end ensure_from max_sequence sync_active sync_periods
    check_amount check_source settle_across resolve_settlement calculate_period_bounds
    reserve_change reserved_by_account get_by_id flush_balance update_balance event_create
    check_account_ownership check_category_ownership flush_event recover_event write_event
    check_owners insert_event record_event find_account set_balance find_command find_rate
    transaction savepoint positive days_before_month days_before_year toordinal days_in_month date
    date_ltb next_day refresh_overdue find_period build_idempotency_fingerprint text_eq upper ◌+ℤ◌
    ◌-ℤ◌ neg_ℤ
half_answered = refl

pay_period_route-again_example :
    Again command 7 5 61 half (day 2 10) before paid_tables (payment, some after)
pay_period_route-again_example =
    pay_period_route-again command 7 5 61 half (day 2 10) before paid_tables (payment, some after)
      tt half_answered

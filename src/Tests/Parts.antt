-- ===== src/Tests/Parts.antt =====
-- The theorems on the ledger, the accounts, numbers and dates at concrete arguments.
use nexum_backend.Store.Tables.{find_account}
use nexum_backend.Store.Ensures.{Ensures}
use nexum_backend.Store.Monad.{ok}
use nexum_backend.Store.Models.{EventType, Source, inflow}
use nexum_backend.Prelude.{◌≡◌, codes, some, none, ◌≤◌, ◌<◌, ◌*◌, ◌+◌, min, arith}
use nexum_backend.Prelude.Int.{pos}
use nexum_backend.Transfers.Guards.{lock_accounts_lem}
use nexum_backend.Transfers.Create.{lock_accounts}
use nexum_backend.Ledger.Effects.{insert_event-Inserts, Inserts}
use nexum_backend.Ledger.Insert.{LedgerEventCreate, insert_event}
use nexum_backend.Accounts.Effects.{update_balance-Shifts, Shifts}
use nexum_backend.Accounts.Repository.{update_balance}
use nexum_backend.Decimal.Modes.{
  round-half_up_bounds, round-half_even_bounds, round, half_up, half_even,
}
use nexum_backend.Calendar.{Date, IsDate, Earlier, days_in_month}
use nexum_backend.Calendar.Months.{add_months_lem, add_months, month_index}
use nexum_backend.Credit.CycleOrder.{cycle_dates_ordered}
use nexum_backend.Credit.CycleDates.{calculate_credit_card_dates}
use nexum_backend.Tests.Fixtures.{book, books, payment}

abbrev deposit : LedgerEventCreate
deposit = record {
  user_id = 7;
  account_id = some 1;
  category_id = some 20;
  event_type = EventType.income;
  direction = inflow;
  amount = pos 3000;
  currency = codes "COP";
  description = none;
  raw_message = none;
  source = Source.api;
  source_message_id = none;
  occurred_at = none;
  command_id = some 61;
  transfer_id = none;
  fingerprint = none;
}

insert_event-Inserts_example : Inserts deposit books (insert_event deposit books)
insert_event-Inserts_example = insert_event-Inserts deposit books

update_balance-Shifts_example :
    Ensures (λ _. Shifts 1 (pos 3000) books) (update_balance 1 (pos 3000) books)
update_balance-Shifts_example = update_balance-Shifts 1 (pos 3000) books

lock_accounts_lem_example :
    lock_accounts (payment 3 1 150) book
    ≡ (ok (find_account 3 book.accounts, find_account 1 book.accounts), book)
lock_accounts_lem_example = lock_accounts_lem (payment 3 1 150) book

round-half_up_bounds_example :
    (2 * (round half_up 7 2 * 2) ≤ 2 * 7 + 2) × (2 * 7 < 2 * (round half_up 7 2 * 2) + 2)
round-half_up_bounds_example = round-half_up_bounds 7 2 (omega arith)

round-half_even_bounds_example :
    (2 * (round half_even 5 2 * 2) ≤ 2 * 5 + 2) × (2 * 5 ≤ 2 * (round half_even 5 2 * 2) + 2)
round-half_even_bounds_example = round-half_even_bounds 5 2 (omega arith)

abbrev eve : Date
eve = record { year = 2024; month = 1; day = 31 }

eve-IsDate : IsDate eve
unfolding days_in_month
eve-IsDate = record {
  year_pos = omega arith;
  year_max = omega arith;
  month_pos = omega arith;
  month_max = omega arith;
  day_pos = omega arith;
  day_max = omega arith;
}

add_months_lem_example :
    (e : Date) × (add_months eve 13 ≡ some e)
    × IsDate e
    × (month_index e ≡ month_index eve + 13)
    × (e.day ≡ min 31 (days_in_month e.year e.month))
add_months_lem_example = add_months_lem eve 13 eve-IsDate (omega arith)

cycle_dates_ordered_example :
    (start : Date) × (end : Date) × (due : Date) × (calculate_credit_card_dates eve 30 5
      ≡ some (start, end, due))
    × Earlier start eve
    × Earlier eve end
    × Earlier end due
cycle_dates_ordered_example =
    cycle_dates_ordered eve 30 5 eve-IsDate (omega arith) (omega arith) (omega arith) (omega arith)

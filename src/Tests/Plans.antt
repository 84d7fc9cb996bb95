-- ===== src/Tests/Plans.antt =====
-- Purchases of 100.00 over three months, and of 0.05 over nine.
use nexum_backend.Credit.CycleDates.{
  calculate_credit_card_dates, clamped, preceding, due_month, following,
}
use nexum_backend.Calendar.{date, days_in_month, next_day, date_ltb}
use nexum_backend.Calendar.Months.{add_months}
use nexum_backend.Decimal.Modes.{round}
use nexum_backend.Decimal.{quantize, rescale, div, mul, fix, digits}
use nexum_backend.Credit.Plan.{build_one, interest_on, split_amount}
use nexum_backend.Prelude.Int.{pos, negsuc, ◌-ℤ◌, ◌+ℤ◌}
use nexum_backend.Credit.Planned.{IsPlan, build_installments-IsPlan}
use nexum_backend.Credit.Plan.{
  CardTerms, Planned, installment_amounts, build_installments, planned, build_from,
}
use nexum_backend.Tests.Periods.{day}
use nexum_backend.Prelude.{◌≡◌, List, some, ◌∷◌, refl, []}

abbrev card : CardTerms
card = record {
  cutoff_day = 20;
  due_day = 5;
  monthly_interest_rate = record { coef = 2; places = 0 };
}

abbrev plan : List Planned
plan =
    planned 3 1 (day 1 15) (day 2 5) (pos 3333) (pos 67)
    ∷ planned 3 2 (day 2 15) (day 3 5) (pos 3333) (pos 67)
    ∷ planned 3 3 (day 3 15) (day 4 5) (pos 3334) (pos 67)
    ∷ []

built : build_installments card (day 1 15) 10000 3 ≡ some plan
unfolding build_installments installment_amounts split_amount interest_on build_one quantize rescale
    div mul fix digits build_from add_months date days_in_month calculate_credit_card_dates clamped
    preceding next_day due_month following date_ltb round ◌-ℤ◌ ◌+ℤ◌
built = refl

build_installments-IsPlan_example : IsPlan card (day 1 15) 10000 2 plan
build_installments-IsPlan_example = build_installments-IsPlan card (day 1 15) 10000 2 plan built

last_is_negative :
    installment_amounts 5 9
    ≡ some (pos 1 ∷ pos 1 ∷ pos 1 ∷ pos 1 ∷ pos 1 ∷ pos 1 ∷ pos 1 ∷ pos 1 ∷ negsuc 2 ∷ [])
unfolding installment_amounts split_amount quantize rescale div fix digits round ◌-ℤ◌ ◌+ℤ◌
last_is_negative = refl

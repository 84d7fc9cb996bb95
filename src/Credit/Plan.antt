-- ===== src/Credit/Plan.antt =====
-- How a purchase is split over months: `_installment_amounts`, `_add_months` and
-- `_build_installments` (app/credit/service.py). `today` is `date.today()`; an amount is in
-- hundredths. `none` is an exception: InvalidOperation, a division by zero or a date that does not
-- exist. The sums are exact, as those of up to 28 digits are.
use nexum_backend.Credit.CycleDates.{calculate_credit_card_dates}
use nexum_backend.Calendar.Months.{add_months}
use nexum_backend.Decimal.Modes.{half_even}
use nexum_backend.Prelude.Int.{ℤ, ◌+ℤ◌, pos, on_magnitude, ◌-ℤ◌, pos_part, neg_part}
use nexum_backend.Calendar.{Date}
use nexum_backend.Credit.Installments.{Installment, pending}
use nexum_backend.Decimal.{Ratio, quantize, div, mul}
use nexum_backend.Prelude.{
  ◌+◌, ◌++◌, List, ℕ, Option, some, none, suc, decimal_text, ◌∷◌, codes, [], replicate, ◌-◌,
  two_digits, zero,
}

-- What an installment is built of, beside its row: the keys are left out.
pub record Planned : Type 0 where
  pub row : Installment
  pub principal_amount : ℤ
  pub scheduled_due_date : Date

-- The terms of a card that its installments depend on; the rate is in percent.
pub record CardTerms : Type 0 where
  pub cutoff_day : ℕ
  pub due_day : ℕ
  pub monthly_interest_rate : Ratio

abbrev pub total_of : List ℤ → ℤ
total_of [] = pos 0
total_of (a ∷ rows) = a +ℤ total_of rows

-- Equal amounts, where the last one takes what rounding leaves.
unfoldable pub split_amount : ℕ → ℕ → ℕ → List ℤ
split_amount quantized base n =
    let first = replicate n (pos base) in first ++ (pos quantized -ℤ total_of first) ∷ []

unfoldable pub installment_amounts : ℕ → ℕ → Option (List ℤ)
installment_amounts amount zero = none
installment_amounts amount (suc n) =
    elim (quantize half_even (record { coef = amount; places = 2 }) 2) [
      | none ↦ none
      | some quantized ↦
          elim (quantize half_even
            (div (record { coef = quantized; places = 2 }) (record { coef = suc n; places = 0 }))
            2) [ none ↦ none | some base ↦ some (split_amount quantized base n) ]
    ]

-- `(principal * (rate / 100)).quantize(0.01)`; the sign is kept.
unfoldable pub interest_on : Ratio → ℤ → Option ℤ
interest_on rate principal =
    elim (quantize half_even
      (mul (record { coef = pos_part principal + neg_part principal; places = 2 })
        (div rate (record { coef = 100; places = 0 })))
      2) [ none ↦ none | some n ↦ some (on_magnitude (λ _. n) principal) ]

abbrev pub planned : ℕ → ℕ → Date → Date → ℤ → ℤ → Planned
planned installments_total index scheduled due principal interest = record {
  row = record {
    installment_number = index;
    installments_total = installments_total;
    interest_amount = interest;
    total_amount = principal +ℤ interest;
    paid_amount = pos 0;
    scheduled_period = decimal_text scheduled.year ++ codes "-" ++ two_digits scheduled.month;
    status = pending;
  };
  principal_amount = principal;
  scheduled_due_date = due;
}

-- The body of the loop.
unfoldable pub build_one : CardTerms → Date → ℕ → ℕ → ℤ → Option Planned
build_one card today installments_total index principal = elim (add_months today (index - 1)) [
  | none ↦ none
  | some scheduled ↦ elim (calculate_credit_card_dates scheduled card.cutoff_day card.due_day) [
    | none ↦ none
    | some dates ↦ elim (interest_on card.monthly_interest_rate principal) [
      | none ↦ none
      | some interest ↦ some (planned installments_total index scheduled dates.2 principal interest)
    ]
  ]
]

abbrev pub add_plan : Option Planned → Option (List Planned) → Option (List Planned)
add_plan none rest = none
add_plan (some p) none = none
add_plan (some p) (some rows) = some (p ∷ rows)

-- From an index on.
unfoldable pub build_from : CardTerms → Date → ℕ → ℕ → List ℤ → Option (List Planned)
build_from card today installments_total index [] = some []
build_from card today installments_total index (principal ∷ amounts) =
    add_plan (build_one card today installments_total index principal)
      (build_from card today installments_total (index + 1) amounts)

unfoldable pub build_installments : CardTerms → Date → ℕ → ℕ → Option (List Planned)
build_installments card today amount installments_total =
    elim (installment_amounts amount installments_total) [
      | none ↦ none
      | some amounts ↦ build_from card today installments_total 1 amounts
    ]

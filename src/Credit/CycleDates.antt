-- ===== src/Credit/CycleDates.antt =====
-- `calculate_credit_card_dates` (app/credit/utils.py).
use nexum_backend.Calendar.{Date, next_day, date_ltb, date, days_in_month}
use nexum_backend.Prelude.{ℕ, ◌+◌, ◌-◌, min, Option, none, some, if◌then◌else◌, ◌==◌, ltb, leb}

-- `date(year, month, min(day, last_day))`
unfoldable pub clamped : ℕ → ℕ → ℕ → Option Date
clamped year month day = date year month (min day (days_in_month year month))

-- The month after and the month before, with the year carried.
unfoldable pub following : ℕ × ℕ → ℕ × ℕ
following (year, month) = if month + 1 == 13 then (year + 1, 1) else (year, month + 1)

unfoldable pub preceding : ℕ × ℕ → ℕ × ℕ
preceding (year, month) = if month - 1 == 0 then (year - 1, 12) else (year, month - 1)

abbrev after : Option Date → Option Date
after none = none
after (some d) = next_day d

-- The first and the last day of the cycle that holds the date. The cut-off of this month ends the
-- cycle if it is not past; `replace` on a day that the month lacks is clamped by the handler.
unfoldable pub cycle_bounds : Date → ℕ → Option Date × Option Date
cycle_bounds current cutoff_day =
    if leb current.day cutoff_day
    then (let start = preceding (current.year, current.month) in
        (after (clamped start.0 start.1 cutoff_day), clamped current.year current.month cutoff_day))
    else (let end = following (current.year, current.month) in
        (after (clamped current.year current.month cutoff_day), clamped end.0 end.1 cutoff_day))

-- The month of the due date: that of the cut-off, or the one after it.
unfoldable pub due_month : Date → ℕ → ℕ → ℕ × ℕ
due_month cycle_end cutoff_day due_day =
    if ltb due_day cutoff_day
    then following (cycle_end.year, cycle_end.month)
    else (cycle_end.year, cycle_end.month)

-- A due date that has passed moves one month on.
unfoldable pub next_due : Date → ℕ × ℕ → ℕ → Option Date
next_due current due due_day = elim (clamped due.0 due.1 due_day) [
  | none ↦ none
  | some d ↦
      if date_ltb d current
      then (let later = following due in clamped later.0 later.1 due_day)
      else some d
]

unfoldable pub calculate_credit_card_dates : Date → ℕ → ℕ → Option (Date × Date × Date)
unfolding cycle_bounds next_due
calculate_credit_card_dates current cutoff_day due_day =
    let bounds = cycle_bounds current cutoff_day in
    elim bounds.0 [
      | none ↦ none
      | some cycle_start ↦ elim bounds.1 [
        | none ↦ none
        | some cycle_end ↦
            elim (next_due current (due_month cycle_end cutoff_day due_day) due_day) [
              | none ↦ none
              | some due ↦ some (cycle_start, cycle_end, due)
            ]
      ]
    ]

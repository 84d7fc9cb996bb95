-- ===== src/Obligations/Periods.antt =====
-- `calculate_period_bounds` and `_find_sequence_for_date` (app/obligations/period_engine.py).
use nexum_backend.Store.Obligations.{
  Obligation, biweekly, daily, monthly, one_time, weekly, yearly, Frequency,
}
use nexum_backend.Prelude.{ℕ, ◌+◌, ◌-◌, ◌*◌, ◌/◌, Option, none, some, min, if◌then◌else◌, ◌==◌}
use nexum_backend.Calendar.{Date, date, date_ltb, days_in_month}
use nexum_backend.Calendar.Months.{add_months}
use nexum_backend.Calendar.Ordinals.{toordinal, days_between, plus_days, shift_days}

-- `value or default` on an optional integer: zero counts as missing.
abbrev pub or_default : Option ℕ → ℕ → ℕ
or_default none default = default
or_default (some n) default = if n == 0 then default else n

-- A start, an end and a due date, each of which may not exist.
abbrev pub all_dates : Option Date → Option Date → Option Date → Option (Date × Date × Date)
all_dates (some a) (some b) (some c) = some (a, b, c)
all_dates _ _ _ = none

abbrev pub first_of_month : Date → Date
first_of_month d = record d { day = 1 }

abbrev pub month_end : Option Date → Option Date
month_end none = none
month_end (some d) = date d.year d.month (days_in_month d.year d.month)

abbrev pub month_start : Option Date → Option Date
month_start none = none
month_start (some d) = date d.year d.month 1

abbrev pub day_in_month : ℕ → Option Date → Option Date
day_in_month day none = none
day_in_month day (some d) = date d.year d.month (min day (days_in_month d.year d.month))

unfoldable pub monthly_bounds : Obligation → Date → ℕ → Option (Date × Date × Date)
monthly_bounds ob start sequence_number =
    let months = (sequence_number - 1) * or_default ob.interval_count 1 in
    let p_start = month_start (add_months (first_of_month start) months) in
    all_dates p_start (month_end p_start) (
      day_in_month (or_default ob.due_day ob.first_due_date.day)
        (add_months (first_of_month ob.first_due_date) months))

unfoldable pub yearly_bounds : Obligation → Date → ℕ → Option (Date × Date × Date)
yearly_bounds ob start sequence_number =
    let years = (sequence_number - 1) * or_default ob.interval_count 1 in
    let due_month = or_default ob.due_month ob.first_due_date.month in
    let due_year = ob.first_due_date.year + years in
    all_dates (date (start.year + years) 1 1) (date (start.year + years) 12 31) (
      date due_year due_month
        (min (or_default ob.due_day ob.first_due_date.day) (days_in_month due_year due_month)))

-- The weekly and the biweekly branch: periods of `unit` times the interval days.
unfoldable pub days_bounds : ℕ → Obligation → Date → ℕ → Option (Date × Date × Date)
days_bounds unit ob start sequence_number =
    let days_per_interval = unit * or_default ob.interval_count 1 in
    elim (plus_days start ((sequence_number - 1) * days_per_interval)) [
      | none ↦ none
      | some p_start ↦
          all_dates (some p_start) (plus_days p_start (days_per_interval - 1))
            (shift_days p_start (days_between ob.first_due_date start))
    ]

-- For a sequence number from 1 on; `none` is the exception of a frequency without bounds, of a
-- missing start or of a date out of range.
unfoldable pub calculate_period_bounds : Obligation → ℕ → Option (Date × Date × Date)
calculate_period_bounds ob sequence_number = elim ob.start_date [
  | none ↦ none
  | some start ↦ elim ob.frequency [
    | monthly ↦ monthly_bounds ob start sequence_number
    | yearly ↦ yearly_bounds ob start sequence_number
    | weekly ↦ days_bounds 7 ob start sequence_number
    | biweekly ↦ days_bounds 14 ob start sequence_number
    | one_time ↦
        some (start, elim ob.end_date [ none ↦ ob.first_due_date | some e ↦ e ], ob.first_due_date)
    | daily ↦ none
    | Frequency.other ↦ none
  ]
]

-- The number of the period from the distance to the start, which is not negative here.
abbrev pub sequence_of : ℕ → ℕ → ℕ
sequence_of distance length = distance / length + 1

unfoldable pub find_sequence_for_date : Obligation → Date → ℕ
find_sequence_for_date ob d = elim ob.start_date [
  | none ↦ 1
  | some start ↦
      if date_ltb d start
      then 1
      else (let interval = or_default ob.interval_count 1 in
          let days_diff = toordinal d - toordinal start in
          elim ob.frequency [
            | monthly ↦
                sequence_of (d.year * 12 + d.month - (start.year * 12 + start.month)) interval
            | yearly ↦ sequence_of (d.year - start.year) interval
            | weekly ↦ sequence_of days_diff (7 * interval)
            | biweekly ↦ sequence_of days_diff (14 * interval)
            | daily ↦ sequence_of days_diff interval
            | one_time ↦ 1
            | Frequency.other ↦ 1
          ])
]

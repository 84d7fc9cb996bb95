-- ===== src/Calendar/Months.antt =====
-- `add_months` (app/obligations/period_engine.py, and `_add_months` of app/credit/service.py).
use nexum_backend.Calendar.{date, Date, IsDate, days_in_month, days_in_month_bounds}
use nexum_backend.Prelude.{◌<◌, ℕ, ◌+◌, ◌-◌, ◌*◌, ◌/◌, ◌%◌, ◌≡◌, refl, Option, some, arith, min}

-- The month that is `months` after the month of `d`, on the same day or the last one there is.
unfoldable pub add_months : Date → ℕ → Option Date
add_months d months =
    let month = d.month - 1 + months in
    let year = d.year + month / 12 in
    let month' = month % 12 + 1 in date year month' (min d.day (days_in_month year month'))

-- Months counted from year zero.
abbrev pub month_index : Date → ℕ
month_index d = d.year * 12 + d.month - 1

pub date-some :
    (y m d : ℕ)
    → IsDate (record { year = y; month = m; day = d })
    → date y m d ≡ some (record { year = y; month = m; day = d })
unfolding date
date-some y m d h = ground arith

shifted :
    (d : Date) (months : ℕ)
    → IsDate d
    → month_index d + months < 120000
    → IsDate (record {
      year = d.year + (d.month - 1 + months) / 12;
      month = (d.month - 1 + months) % 12 + 1;
      day =
          min d.day (
            days_in_month (d.year + (d.month - 1 + months) / 12) ((d.month - 1 + months) % 12 + 1));
    })
shifted d months h r = omega (
  arith,
  days_in_month_bounds (d.year + (d.month - 1 + months) / 12) ((d.month - 1 + months) % 12 + 1),
)

-- `add_months` of a date gives a date while the year stays in range: exactly `months` months
-- later, on a day of that month that is no later than the day asked for.
pub add_months_lem :
    (d : Date) (months : ℕ)
    → IsDate d
    → month_index d + months < 120000
    → (e : Date) × (add_months d months ≡ some e)
      × IsDate e
      × (month_index e ≡ month_index d + months)
      × (e.day ≡ min d.day (days_in_month e.year e.month))
unfolding add_months
add_months_lem d months h r =
    let month = d.month - 1 + months in
    let year = d.year + month / 12 in
    let month' = month % 12 + 1 in
    let e : Date = record {
      year = year;
      month = month';
      day = min d.day (days_in_month year month');
    } in
    let bounds = days_in_month_bounds year month' in
    (
      e,
      date-some year month' (min d.day (days_in_month year month')) (shifted d months h r),
      shifted d months h r,
      omega (arith, h.month_pos, h.year_pos),
      refl,
    )

-- ===== src/Calendar/Order.antt =====
-- The order of dates as an order of numbers.
use nexum_backend.Calendar.{
  Date, next_day, date_ltb, IsDate, days_in_month_bounds, Earlier, date, days_in_month, ltb,
}
use nexum_backend.Prelude.{
  ◌<◌, ◌≤◌, ◌+◌, ◌*◌, ◌≡◌, ◌==◌, ◌&&◌, false, some, ℕ, arith, Bool-cases, inl, inr,
}

-- Dates in order have ranks in order: a day is at most 31 and a month at most 12.
abbrev pub rank : Date → ℕ
rank d = (d.year * 12 + d.month) * 32 + d.day

pub Earlier-rank : (a b : Date) → IsDate a → IsDate b → rank a ≤ rank b → Earlier a b
unfolding date_ltb
Earlier-rank a b ha hb h = record {
  not_after =
      ground (arith, days_in_month_bounds a.year a.month, days_in_month_bounds b.year b.month);
}

pub rank_of_ltb : (a b : Date) → IsDate a → IsDate b → date_ltb a b ≡ false → rank b ≤ rank a
unfolding date_ltb
rank_of_ltb a b ha hb h =
    ground (arith, days_in_month_bounds a.year a.month, days_in_month_bounds b.year b.month)

record IsNextDay (d c s : Date) : Type 0 where
  is_date : IsDate s
  is_next : next_day d ≡ some s
  no_later : rank s ≤ rank c

IsNextDay-within :
    (d c : Date)
    → IsDate d
    → IsDate c
    → rank d < rank c
    → d.day < days_in_month d.year d.month
    → IsNextDay d c (record { year = d.year; month = d.month; day = d.day + 1 })
unfolding next_day date
IsNextDay-within d c hd hc h l = record {
  is_date = omega arith;
  is_next = ground arith;
  no_later = omega arith;
}

pub days_in_month_cong : (y m y' m' : ℕ) → y ≡ y' → m ≡ m' → days_in_month y m ≡ days_in_month y' m'
days_in_month_cong y m y' m' p q = cc

-- A date after the last day of a month is in a later month.
beyond :
    (d c : Date)
    → IsDate d
    → IsDate c
    → rank d < rank c
    → d.day ≡ days_in_month d.year d.month
    → d.year * 12 + d.month < c.year * 12 + c.month
beyond d c hd hc h l = elim (Bool-cases (d.year == c.year && d.month == c.month)) [
  | inl e ↦ ground (arith, days_in_month_cong d.year d.month c.year c.month)
  | inr e ↦ ground (arith, days_in_month_bounds c.year c.month, days_in_month_bounds d.year d.month)
]

IsNextDay-month :
    (d c : Date)
    → IsDate d
    → IsDate c
    → rank d < rank c
    → d.day ≡ days_in_month d.year d.month
    → d.month < 12
    → IsNextDay d c (record { year = d.year; month = d.month + 1; day = 1 })
unfolding next_day date
IsNextDay-month d c hd hc h l m =
    let b = days_in_month_bounds d.year (d.month + 1) in
    let e = days_in_month_bounds c.year c.month in
    record {
      is_date = omega (arith, b);
      is_next = ground (arith, b);
      no_later = ground (arith, e, beyond d c hd hc h l);
    }

IsNextDay-year :
    (d c : Date)
    → IsDate d
    → IsDate c
    → rank d < rank c
    → d.day ≡ days_in_month d.year d.month
    → d.month ≡ 12
    → IsNextDay d c (record { year = d.year + 1; month = 1; day = 1 })
unfolding next_day date
IsNextDay-year d c hd hc h l m =
    let b = days_in_month_bounds (d.year + 1) 1 in
    let e = beyond d c hd hc h l in
    record { is_date = omega (arith, b); is_next = ground (arith, b); no_later = omega arith }

-- The day after `d` is no later than any date after `d`.
pub next_day-le :
    (d c : Date)
    → IsDate d
    → IsDate c
    → rank d < rank c
    → (s : Date) × (next_day d ≡ some s) × IsDate s × (rank s ≤ rank c)
next_day-le d c hd hc h = elim (Bool-cases (ltb d.day (days_in_month d.year d.month))) [
  | inl e ↦
      (let n = IsNextDay-within d c hd hc h (ground arith) in (_, n.is_next, n.is_date, n.no_later))
  | inr e ↦ elim (Bool-cases (ltb d.month 12)) [
    | inl f ↦
        (let n = IsNextDay-month d c hd hc h (ground arith) (ground arith) in
          (_, n.is_next, n.is_date, n.no_later))
    | inr f ↦
        (let n = IsNextDay-year d c hd hc h (ground arith) (ground arith) in
          (_, n.is_next, n.is_date, n.no_later))
  ]
]

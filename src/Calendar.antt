-- ===== src/Calendar.antt =====
-- Python's `date`, as far as the program uses it: construction, days of a month, ordinals and
-- `timedelta`. `none` is the ValueError or OverflowError of a date that does not exist.
pub mod Months
pub mod Order
pub mod Ordinals
use nexum_backend.Prelude.{
  ℕ, ◌+◌, ◌-◌, ◌*◌, ◌/◌, ◌%◌, ◌≤◌, ◌<◌, Bool, true, false, not, ◌&&◌, ◌||◌, Option, none, some, ltb,
  leb, ◌==◌, if◌then◌else◌, arith, ◌≡◌,
}

pub record Date : Type 0 where
  pub year : ℕ
  pub month : ℕ
  pub day : ℕ

abbrev pub is_leap : ℕ → Bool
is_leap y = y % 4 == 0 && (not (y % 100 == 0) || y % 400 == 0)

-- `calendar.monthrange(y, m)[1]`
unfoldable pub days_in_month : ℕ → ℕ → ℕ
days_in_month y m =
    if m == 2
    then (if is_leap y then 29 else 28)
    else if m == 4 || m == 6 || m == 9 || m == 11
    then 30
    else 31

pub days_in_month_bounds : (y m : ℕ) → (28 ≤ days_in_month y m) × (days_in_month y m ≤ 31)
unfolding days_in_month
days_in_month_bounds y m = ground arith

-- The dates that exist.
pub record IsDate (d : Date) : Type 0 where
  pub year_pos : 1 ≤ d.year
  pub year_max : d.year ≤ 9999
  pub month_pos : 1 ≤ d.month
  pub month_max : d.month ≤ 12
  pub day_pos : 1 ≤ d.day
  pub day_max : d.day ≤ days_in_month d.year d.month

-- `date(y, m, d)`
unfoldable pub date : ℕ → ℕ → ℕ → Option Date
date y m d =
    if leb 1 y && leb y 9999 && leb 1 m && leb m 12 && leb 1 d && leb d (days_in_month y m)
    then some (record { year = y; month = m; day = d })
    else none

-- `a < b` compares year, month and day in turn.
unfoldable pub date_ltb : Date → Date → Bool
date_ltb a b =
    ltb a.year b.year
    || a.year == b.year && (ltb a.month b.month || a.month == b.month && ltb a.day b.day)

-- `a <= b` as a proposition: what `not (b < a)` says.
pub record Earlier (a b : Date) : Type 0 where
  pub not_after : (date_ltb b a) ≡ false

-- `d + timedelta(days=1)`
unfoldable pub next_day : Date → Option Date
next_day d =
    if ltb d.day (days_in_month d.year d.month)
    then date d.year d.month (d.day + 1)
    else if ltb d.month 12
    then date d.year (d.month + 1) 1
    else date (d.year + 1) 1 1

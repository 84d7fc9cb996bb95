-- ===== src/Calendar/Ordinals.antt =====
-- `date.toordinal`, differences of dates in days, and `timedelta(days=n)`.
use nexum_backend.Prelude.{
  ℕ, zero, suc, ◌+◌, ◌-◌, ◌*◌, ◌/◌, ◌≤◌, ◌<◌, ◌≡◌, none, some, Option, arith, ltb, inl, inr,
  Bool-cases, if◌then◌else◌, ap, refl, Option-cases, subst,
}
use nexum_backend.Prelude.Int.{ℤ, sub_ℕ, pos, negsuc}
use nexum_backend.Calendar.{
  Date, IsDate, next_day, date, days_in_month, is_leap, days_in_month_bounds,
}
use nexum_backend.Calendar.Order.{rank}

unfoldable pub days_before_month : ℕ → ℕ → ℕ
days_before_month y zero = 0
days_before_month y (suc zero) = 0
days_before_month y (suc (suc m)) = days_before_month y (suc m) + days_in_month y (suc m)

unfoldable pub days_before_year : ℕ → ℕ
days_before_year y = 365 * (y - 1) + (y - 1) / 4 + (y - 1) / 400 - (y - 1) / 100

unfoldable pub toordinal : Date → ℕ
toordinal d = days_before_year d.year + days_before_month d.year d.month + d.day

-- `(a - b).days`
abbrev pub days_between : Date → Date → ℤ
days_between a b = sub_ℕ (toordinal a) (toordinal b)

-- `d + timedelta(days=n)`
unfoldable pub plus_days : Date → ℕ → Option Date
plus_days d zero = some d
plus_days d (suc n) = elim (plus_days d n) [ none ↦ none | some e ↦ next_day e ]

unfoldable pub previous_day : Date → Option Date
previous_day d =
    if ltb 1 d.day
    then date d.year d.month (d.day - 1)
    else if ltb 1 d.month
    then date d.year (d.month - 1) (days_in_month d.year (d.month - 1))
    else date (d.year - 1) 12 31

unfoldable pub minus_days : Date → ℕ → Option Date
minus_days d zero = some d
minus_days d (suc n) = elim (minus_days d n) [ none ↦ none | some e ↦ previous_day e ]

abbrev pub shift_days : Date → ℤ → Option Date
shift_days d (pos n) = plus_days d n
shift_days d (negsuc n) = minus_days d (suc n)

days_before_month-next :
    (y m : ℕ) → 1 ≤ m → days_before_month y (m + 1) ≡ days_before_month y m + days_in_month y m
unfolding days_before_month
days_before_month-next y zero h = omega arith
days_before_month-next y (suc m) h =
    (let same : suc m + 1 ≡ suc (suc m) = omega arith in ap (days_before_month y) same)

days_before_year-next :
    (y : ℕ)
    → 1 ≤ y
    → days_before_year (y + 1) ≡ days_before_year y + (if is_leap y then 366 else 365)
unfolding days_before_year
days_before_year-next y h = ground arith

year_length : (y : ℕ) → days_before_month y 12 + 31 ≡ (if is_leap y then 366 else 365)
unfolding days_before_month days_in_month
year_length y = ground arith

-- The next day is one more, and later.
pub record IsNext (d e : Date) : Type 0 where
  pub is_date : IsDate e
  pub counted : toordinal e ≡ toordinal d + 1
  pub later : rank d < rank e

-- The three ways to a next day.
data Step (d e : Date) : Type 0 where
  within :
      e.year ≡ d.year
      → e.month ≡ d.month
      → e.day ≡ d.day + 1
      → d.day < days_in_month d.year d.month
      → Step d e
  to_month :
      e.year ≡ d.year
      → e.month ≡ d.month + 1
      → e.day ≡ 1
      → d.month < 12
      → d.day ≡ days_in_month d.year d.month
      → Step d e
  to_year :
      e.year ≡ d.year + 1
      → e.month ≡ 1
      → e.day ≡ 1
      → d.month ≡ 12
      → d.day ≡ days_in_month d.year d.month
      → d.year < 9999
      → Step d e

next_day-Step : (d e : Date) → IsDate d → next_day d ≡ some e → Step d e
unfolding next_day date
next_day-Step d e h n = elim (Bool-cases (ltb d.day (days_in_month d.year d.month))) [
  | inl a ↦ within (ground arith) (ground arith) (ground arith) (ground arith)
  | inr a ↦ elim (Bool-cases (ltb d.month 12)) [
    | inl b ↦ to_month (ground arith) (ground arith) (ground arith) (ground arith) (ground arith)
    | inr b ↦
        to_year (ground arith) (ground arith) (ground arith) (ground arith) (ground arith)
          (ground arith)
  ]
]

ordinal_same :
    (d e : Date)
    → e.year ≡ d.year
    → e.month ≡ d.month
    → days_before_month e.year e.month ≡ days_before_month d.year d.month
ordinal_same d e a b = cc

december : (y : ℕ) → days_in_month y 12 ≡ 31
unfolding days_in_month
december y = refl

january : (y : ℕ) → days_before_month y 1 ≡ 0
unfolding days_before_month
january y = refl

IsNext-Step : (d e : Date) → IsDate d → Step d e → IsNext d e
unfolding toordinal
IsNext-Step d e h (within y m p l) = record {
  is_date = record {
    year_pos = omega arith;
    year_max = omega arith;
    month_pos = omega arith;
    month_max = omega arith;
    day_pos = omega arith;
    day_max = rw (y, m) (omega arith);
  };
  counted = rw (y, m) (omega arith);
  later = omega arith;
}
IsNext-Step d e h (to_month y m p l q) = record {
  is_date = omega (arith, days_in_month_bounds e.year e.month);
  counted = rw (y, m) (omega (arith, days_before_month-next d.year d.month h.month_pos));
  later = omega (arith, days_in_month_bounds d.year d.month);
}
IsNext-Step d e h (to_year y m p l q r) = record {
  is_date = omega (arith, days_in_month_bounds e.year e.month);
  counted =
      rw (y, m, p, q, l)
        (omega (
          arith,
          january (d.year + 1),
          december d.year,
          year_length d.year,
          days_before_year-next d.year h.year_pos,
        ));
  later = omega (arith, days_in_month_bounds d.year d.month);
}

pub some_inj : {A : Type 0} {a b : A} → some a ≡ some b → a ≡ b
some_inj p = ground (arith, p)

-- What a count of days from a date reaches.
pub record IsReached (d : Date) (n : ℕ) (e : Date) : Type 0 where
  pub is_date : IsDate e
  pub counted : toordinal e ≡ toordinal d + n
  pub later : rank d ≤ rank e

IsReached-next :
    (d e f : Date) (n : ℕ) → IsReached d n e → next_day e ≡ some f → IsReached d (suc n) f
IsReached-next d e f n r h =
    let s = IsNext-Step e f r.is_date (next_day-Step e f r.is_date h) in
    record { is_date = s.is_date; counted = omega arith; later = omega arith }

-- The date `n` days after a date has an ordinal that is `n` more, and is no earlier.
pub plus_days-IsReached : (d e : Date) (n : ℕ) → IsDate d → plus_days d n ≡ some e → IsReached d n e
unfolding plus_days
plus_days-IsReached d e zero h p =
    subst (IsReached d 0) (some_inj p)
      (record { is_date = h; counted = omega arith; later = omega arith })
plus_days-IsReached d e (suc n) h p = elim (Option-cases (plus_days d n)) [
  | inl q ↦ ground (arith, p, q)
  | inr (f, q) ↦ IsReached-next d f e n (plus_days-IsReached d f n h q) (ground (arith, p, q))
]

pub plus_days-add :
    (d e : Date) (n m : ℕ) → plus_days d n ≡ some e → plus_days d (n + m) ≡ plus_days e m
unfolding plus_days
plus_days-add d e n zero p = (let same : n + 0 ≡ n = omega arith in rw same p)
plus_days-add d e n (suc m) p =
    (let same : n + suc m ≡ suc (n + m) = omega arith in
      rw same (
        ap (λ (o : Option Date). elim o as (λ _. Option Date) [ none ↦ none | some x ↦ next_day x ])
          (plus_days-add d e n m p)))

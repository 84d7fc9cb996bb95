-- ===== src/Credit/CycleOrder.antt =====
-- The order of the dates of a credit card's cycle.
use nexum_backend.Prelude.{
  refl, ◌≡◌, some, ℕ, ◌+◌, ◌*◌, ◌<◌, ◌≤◌, arith, min, ◌-◌, Bool-cases, leb, inl, inr, ◌⊎◌, ltb,
}
use nexum_backend.Calendar.{Date, IsDate, days_in_month, days_in_month_bounds, next_day, Earlier}
use nexum_backend.Calendar.Months.{date-some}
use nexum_backend.Calendar.Order.{days_in_month_cong, rank, next_day-le, Earlier-rank}
use nexum_backend.Credit.CycleDates.{
  clamped, preceding, following, cycle_bounds, next_due, due_month, calculate_credit_card_dates,
}

abbrev clamp : ℕ → ℕ → ℕ → Date
clamp y m d = record { year = y; month = m; day = min d (days_in_month y m) }

record InRange (y m d : ℕ) : Type 0 where
  year_pos : 1 ≤ y
  year_max : y ≤ 9999
  month_pos : 1 ≤ m
  month_max : m ≤ 12
  day_pos : 1 ≤ d

clamp-IsDate : (y m d : ℕ) → InRange y m d → IsDate (clamp y m d)
clamp-IsDate y m d h = omega (arith, days_in_month_bounds y m)

clamped-some : (y m d : ℕ) → InRange y m d → clamped y m d ≡ some (clamp y m d)
unfolding clamped
clamped-some y m d h = date-some y m (min d (days_in_month y m)) (clamp-IsDate y m d h)

-- The month `x` is one of the twelve, `k` months from zero.
record IsMonth (x : ℕ × ℕ) (k : ℕ) : Type 0 where
  counted : x.0 * 12 + x.1 ≡ k
  first : 1 ≤ x.1
  last : x.1 ≤ 12

preceding-IsMonth : (y m : ℕ) → 1 ≤ y → 1 ≤ m → m ≤ 12 → IsMonth (preceding (y, m)) (y * 12 + m - 1)
unfolding preceding
preceding-IsMonth y m hy h l = ground arith

following-IsMonth : (y m : ℕ) → 1 ≤ m → m ≤ 12 → IsMonth (following (y, m)) (y * 12 + m + 1)
unfolding following
following-IsMonth y m h l = ground arith

-- The cycle from the day after `a` to `b`, around the date `c`.
record IsAround (c a b : Date) (k : ℕ) : Type 0 where
  after_date : IsDate a
  before : rank a < rank c
  end_date : IsDate b
  not_past : rank c ≤ rank b
  next_year : b.year ≤ c.year + 1
  end_day : b.day ≡ min k (days_in_month b.year b.month)

IsAround-before :
    (c : Date) (k : ℕ) (x : ℕ × ℕ)
    → IsDate c
    → 2 ≤ c.year
    → 1 ≤ k
    → c.day ≤ k
    → IsMonth x (c.year * 12 + c.month - 1)
    → IsAround c (clamp x.0 x.1 k) (clamp c.year c.month k) k
IsAround-before c k x h y p l m = record {
  after_date = clamp-IsDate x.0 x.1 k (omega arith);
  before = omega (arith, days_in_month_bounds x.0 x.1);
  end_date = clamp-IsDate c.year c.month k (omega arith);
  not_past = omega arith;
  next_year = omega arith;
  end_day = refl;
}

IsAround-after :
    (c : Date) (k : ℕ) (x : ℕ × ℕ)
    → IsDate c
    → c.year ≤ 9997
    → 1 ≤ k
    → k < c.day
    → IsMonth x (c.year * 12 + c.month + 1)
    → IsAround c (clamp c.year c.month k) (clamp x.0 x.1 k) k
IsAround-after c k x h y p l m = record {
  after_date = clamp-IsDate c.year c.month k (omega arith);
  before = omega arith;
  end_date = clamp-IsDate x.0 x.1 k (omega arith);
  not_past = omega (arith, days_in_month_bounds x.0 x.1, days_in_month_bounds c.year c.month);
  next_year = omega arith;
  end_day = refl;
}

-- Both bounds exist, and the date lies between them.
record IsBounded (c : Date) (k : ℕ) : Type 0 where
  start : Date
  end : Date
  is_bounds : cycle_bounds c k ≡ (some start, some end)
  start_date : IsDate start
  started : rank start ≤ rank c
  end_date : IsDate end
  not_past : rank c ≤ rank end
  next_year : end.year ≤ c.year + 1
  end_day : end.day ≡ min k (days_in_month end.year end.month)

IsBounded-IsAround :
    (c a b : Date) (k : ℕ)
    → IsDate c
    → IsAround c a b k
    → cycle_bounds c k ≡ (next_day a, some b)
    → IsBounded c k
IsBounded-IsAround c a b k h r e =
    let (s, found, date, le) = next_day-le a c r.after_date h r.before in
    record {
      start = s;
      end = b;
      is_bounds = grind arith;
      start_date = date;
      started = le;
      end_date = r.end_date;
      not_past = r.not_past;
      next_year = r.next_year;
      end_day = r.end_day;
    }

cycle_bounds-IsBounded :
    (c : Date) (k : ℕ) → IsDate c → 2 ≤ c.year → c.year ≤ 9997 → 1 ≤ k → IsBounded c k
unfolding cycle_bounds
cycle_bounds-IsBounded c k h low high p =
    let here = clamped-some c.year c.month k (omega arith) in
    elim (Bool-cases (leb c.day k)) [
      | inl l ↦
          (let x = preceding (c.year, c.month) in
            let m = preceding-IsMonth c.year c.month (omega arith) h.month_pos h.month_max in
            let there = clamped-some x.0 x.1 k (omega arith) in
            IsBounded-IsAround c (clamp x.0 x.1 k) (clamp c.year c.month k) k h
              (IsAround-before c k x h low p (ground arith) m) (ground arith))
      | inr l ↦
          (let x = following (c.year, c.month) in
            let m = following-IsMonth c.year c.month h.month_pos h.month_max in
            let there = clamped-some x.0 x.1 k (omega arith) in
            IsBounded-IsAround c (clamp c.year c.month k) (clamp x.0 x.1 k) k h
              (IsAround-after c k x h high p (ground arith) m) (ground arith))
    ]

-- A month from that of `e` on, whose due day is no earlier than `e`.
due_month-IsMonth :
    (e : Date) (k due_day : ℕ)
    → IsDate e
    → (IsMonth (due_month e k due_day) (e.year * 12 + e.month) × (k ≤ due_day))
      ⊎ IsMonth (due_month e k due_day) (e.year * 12 + e.month + 1)
unfolding due_month
due_month-IsMonth e k due_day h = elim (Bool-cases (ltb due_day k)) [
  | inl l ↦ inr (ground (arith, following-IsMonth e.year e.month h.month_pos h.month_max))
  | inr l ↦ inl (ground arith, ground arith)
]

record IsDueDate (c e : Date) (k due_day : ℕ) : Type 0 where
  due : Date
  is_due : next_due c (due_month e k due_day) due_day ≡ some due
  due_date : IsDate due
  no_earlier : rank e ≤ rank due

IsDueDate-clamped :
    (c e : Date) (k due_day : ℕ) (x : ℕ × ℕ)
    → IsDate c
    → InRange x.0 x.1 due_day
    → x ≡ due_month e k due_day
    → rank c ≤ rank e
    → rank e ≤ rank (clamp x.0 x.1 due_day)
    → IsDueDate c e k due_day
unfolding next_due
IsDueDate-clamped c e k due_day x hc r is late le =
    let d = clamp x.0 x.1 due_day in
    let date = clamp-IsDate x.0 x.1 due_day r in
    let order = Earlier-rank c d hc date (omega arith) in
    let found = clamped-some x.0 x.1 due_day r in
    let not_passed = order.not_after in
    record { due = d; is_due = ground arith; due_date = date; no_earlier = le }

next_due-IsDueDate :
    (c e : Date) (k due_day : ℕ)
    → IsDate c
    → IsDate e
    → e.year ≤ 9998
    → 1 ≤ due_day
    → e.day ≡ min k (days_in_month e.year e.month)
    → rank c ≤ rank e
    → IsDueDate c e k due_day
next_due-IsDueDate c e k due_day hc he high p end late =
    let x = due_month e k due_day in
    let b = days_in_month_bounds x.0 x.1 in
    let b' = days_in_month_bounds e.year e.month in
    elim (due_month-IsMonth e k due_day he) [
      | inl (m, le) ↦
          IsDueDate-clamped c e k due_day x hc (omega arith) refl late
            (omega (arith, days_in_month_cong x.0 x.1 e.year e.month (omega arith) (omega arith)))
      | inr m ↦ IsDueDate-clamped c e k due_day x hc (omega arith) refl late (omega arith)
    ]

-- For a date of the years 2 to 9997 and days from 1 on, `calculate_credit_card_dates` gives three
-- dates in order: the cycle's start is no later than the date, the date no later than the cycle's
-- end, and the cycle's end no later than the due date.
pub cycle_dates_ordered :
    (current : Date) (cutoff_day due_day : ℕ)
    → IsDate current
    → 2 ≤ current.year
    → current.year ≤ 9997
    → 1 ≤ cutoff_day
    → 1 ≤ due_day
    → (start : Date) × (end : Date) × (due : Date) × (calculate_credit_card_dates current cutoff_day
          due_day
        ≡ some (start, end, due))
      × Earlier start current
      × Earlier current end
      × Earlier end due
unfolding calculate_credit_card_dates
cycle_dates_ordered c k due_day h low high p q =
    let b = cycle_bounds-IsBounded c k h low high p in
    let d =
      next_due-IsDueDate c b.end k due_day h b.end_date (omega arith) q b.end_day b.not_past in
    let bounds = b.is_bounds in
    let found = d.is_due in
    (
      b.start,
      b.end,
      d.due,
      ground arith,
      Earlier-rank b.start c b.start_date h b.started,
      Earlier-rank c b.end h b.end_date b.not_past,
      Earlier-rank b.end d.due b.end_date d.due_date d.no_earlier,
    )

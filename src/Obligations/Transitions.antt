-- ===== src/Obligations/Transitions.antt =====
-- How the states of a period change.
use nexum_backend.Store.Obligations.{
  ObligationPeriod, overdue, skipped, PeriodStatus, pending_payment, partially_paid,
}
use nexum_backend.Prelude.{
  ℕ, refl, ◌≡◌, ◌==◌, false, some, none, [], ◌∷◌, inl, inr, List, Option, if◌then◌else◌, arith,
  Bool-cases, All, Option-cases, ◌∙◌, ap, sym, ◌<◌, true, ◌⊎◌,
}
use nexum_backend.Calendar.{Date, date_ltb}
use nexum_backend.Obligations.Status.{
  done, refresh_overdue, skip_period, find_period, set_skipped, has_paid, is_closed, is_late,
  is_unpaid,
}

not_late :
    (k : ℕ) (current : Date) (p : ObligationPeriod)
    → is_late k current (if is_late k current p then record p { status = overdue } else p) ≡ false
not_late k current p = elim (Bool-cases (is_late k current p)) [
  | inl e ↦ ground (arith, e)
  | inr e ↦ ground (arith, e)
]

-- `a < b` on dates, by year, month and day.
abbrev pub IsBefore : Date → Date → Type 0
IsBefore a b =
    (a.year < b.year)
    ⊎ (a.year ≡ b.year) × ((a.month < b.month) ⊎ (a.month ≡ b.month) × (a.day < b.day))

-- A period of the obligation that awaits payment, in whole or in part, and was due before a day.
pub record IsLate (obligation_id : ℕ) (current : Date) (p : ObligationPeriod) : Type 0 where
  pub owned : p.obligation_id ≡ obligation_id
  pub unpaid : (p.status ≡ pending_payment) ⊎ (p.status ≡ partially_paid)
  pub was_due : IsBefore p.due_date current

-- The late rows become overdue, with nothing else about them changed, and the others stay.
pub data Marks (obligation_id : ℕ) (current : Date)
    : List ObligationPeriod → List ObligationPeriod → Type 0 where
  no_rows : Marks obligation_id current [] []
  marks_late :
      {p : ObligationPeriod} {rows marked : List ObligationPeriod}
      → IsLate obligation_id current p
      → Marks obligation_id current rows marked
      → Marks obligation_id current (p ∷ rows) (record p { status = overdue } ∷ marked)
  leaves :
      {p : ObligationPeriod} {rows marked : List ObligationPeriod}
      → ¬ IsLate obligation_id current p
      → Marks obligation_id current rows marked
      → Marks obligation_id current (p ∷ rows) (p ∷ marked)

date_ltb-IsBefore : (a b : Date) → date_ltb a b ≡ true → IsBefore a b
unfolding date_ltb
date_ltb-IsBefore a b h = ground (arith, h)

IsBefore-date_ltb : (a b : Date) → IsBefore a b → date_ltb a b ≡ true
unfolding date_ltb
IsBefore-date_ltb a b h = ground (arith, h)

unpaid_status :
    (s : PeriodStatus) → is_unpaid s ≡ true → (s ≡ pending_payment) ⊎ (s ≡ partially_paid)
unpaid_status pending_payment h = inl refl
unpaid_status partially_paid h = inr refl
unpaid_status _ h = ground (arith, h)

status_unpaid :
    (s : PeriodStatus) → (s ≡ pending_payment) ⊎ (s ≡ partially_paid) → is_unpaid s ≡ true
status_unpaid s (inl e) = ap is_unpaid e
status_unpaid s (inr e) = ap is_unpaid e

is_late-IsLate :
    (k : ℕ) (current : Date) (p : ObligationPeriod)
    → is_late k current p ≡ true
    → IsLate k current p
is_late-IsLate k current p h = record {
  owned = ground (arith, h);
  unpaid = unpaid_status p.status (ground (arith, h));
  was_due = date_ltb-IsBefore p.due_date current (ground (arith, h));
}

IsLate-is_late :
    (k : ℕ) (current : Date) (p : ObligationPeriod)
    → IsLate k current p
    → is_late k current p ≡ true
IsLate-is_late k current p h = ground (
  arith,
  h.owned,
  status_unpaid p.status h.unpaid,
  IsBefore-date_ltb p.due_date current h.was_due,
)

-- `refresh_overdue` makes overdue the periods of the obligation that await payment, in whole or in
-- part, and were due before the current day; it changes nothing else about them, and no other row.
pub refresh_overdue-Marks :
    (k : ℕ) (current : Date) (rows : List ObligationPeriod)
    → Marks k current rows (refresh_overdue k current rows)
unfolding refresh_overdue
refresh_overdue-Marks k current [] = no_rows
refresh_overdue-Marks k current (p ∷ rows) = elim (Bool-cases (is_late k current p)) [
  | inl e ↦ rw e (marks_late (is_late-IsLate k current p e) (refresh_overdue-Marks k current rows))
  | inr e ↦ rw e (
      leaves (λ l. ground (arith, e, IsLate-is_late k current p l))
        (refresh_overdue-Marks k current rows))
]

-- After it no period of the obligation is late any more.
pub refresh_overdue-All :
    (k : ℕ) (current : Date) (rows : List ObligationPeriod)
    → All (λ p. is_late k current p ≡ false) (refresh_overdue k current rows)
unfolding refresh_overdue
refresh_overdue-All k current [] = tt
refresh_overdue-All k current (p ∷ rows) =
    (not_late k current p, refresh_overdue-All k current rows)

abbrev mark : Option ObligationPeriod → Option ObligationPeriod
mark none = none
mark (some p) = some (record p { status = skipped })

find_period-set_skipped :
    (j k : ℕ) (rows : List ObligationPeriod)
    → find_period j (set_skipped k rows)
      ≡ (if k == j then mark (find_period j rows) else find_period j rows)
unfolding find_period set_skipped
find_period-set_skipped j k [] = ground arith
find_period-set_skipped j k (q ∷ rows) = ground (arith, find_period-set_skipped j k rows)

skipped_found :
    (j k : ℕ) (rows : List ObligationPeriod) (p : ObligationPeriod)
    → find_period k rows ≡ some p
    → find_period j (set_skipped k rows)
      ≡ (if k == j then some (record p { status = skipped }) else find_period j rows)
skipped_found j k rows p h = find_period-set_skipped j k rows ∙ at_key
  where
    at_key :
        (if k == j then mark (find_period j rows) else find_period j rows)
        ≡ (if k == j then some (record p { status = skipped }) else find_period j rows)
    at_key = elim (Bool-cases (k == j)) [
      | inl e ↦ (let same : k ≡ j = ground (arith, e) in rw (← same, h) refl)
      | inr e ↦ rw e refl
    ]

-- A skip that is done was of a period without payments that was not closed; it is skipped after,
-- and every other period is as it was.
pub skip_period_lem :
    (j k : ℕ) (rows rows' : List ObligationPeriod)
    → skip_period k rows ≡ done rows'
    → (p : ObligationPeriod) × (find_period k rows ≡ some p)
      × (has_paid p.paid_amount ≡ false)
      × (is_closed p.status ≡ false)
      × (find_period j rows'
          ≡ (if k == j then some (record p { status = skipped }) else find_period j rows))
unfolding skip_period
skip_period_lem j k rows rows' h = elim (Option-cases (find_period k rows)) [
  | inl e ↦ ground (arith, e, h)
  | inr (p, e) ↦ (
    p,
    e,
    ground (arith, e, h),
    ground (arith, e, h),
    (let done_rows : set_skipped k rows ≡ rows' = ground (arith, e, h) in
        ap (find_period j) (sym done_rows) ∙ skipped_found j k rows p e),
  )
]

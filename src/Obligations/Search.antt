-- ===== src/Obligations/Search.antt =====
-- The period that the search finds for a date is the one that holds it.
use nexum_backend.Store.Obligations.{Obligation, biweekly, weekly}
use nexum_backend.Prelude.{
  ℕ, ◌+◌, ◌-◌, ◌*◌, ◌/◌, ◌≡◌, refl, some, false, arith, Option, ◌<◌, none, ◌%◌, sym, ◌∙◌, ap, ◌⊎◌,
  subst, inl, inr,
}
use nexum_backend.Calendar.{Date, IsDate, date_ltb}
use nexum_backend.Calendar.Order.{Earlier-rank}
use nexum_backend.Calendar.Ordinals.{
  plus_days, plus_days-IsReached, toordinal, plus_days-add, shift_days, days_between, some_inj,
}
use nexum_backend.Obligations.Periods.{
  find_sequence_for_date, or_default, days_bounds, all_dates, calculate_period_bounds,
}

module _ (ob : Obligation) (start d : Date) (n : ℕ) (started : ob.start_date ≡ some start)
    (h : IsDate start) (reached : plus_days start n ≡ some d) where
  not_before : date_ltb d start ≡ false
  not_before =
      (let r = plus_days-IsReached start d n h reached in
        (Earlier-rank start d h r.is_date r.later).not_after)

  days_apart : toordinal d - toordinal start ≡ n
  days_apart = (let r = plus_days-IsReached start d n h reached in omega arith)

  found_weekly :
      ob.frequency ≡ weekly
      → find_sequence_for_date ob d ≡ n / (7 * or_default ob.interval_count 1) + 1
  unfolding find_sequence_for_date
  found_weekly w = rw (started, w, not_before, days_apart) refl

  found_biweekly :
      ob.frequency ≡ biweekly
      → find_sequence_for_date ob d ≡ n / (14 * or_default ob.interval_count 1) + 1
  unfolding find_sequence_for_date
  found_biweekly w = rw (started, w, not_before, days_apart) refl

-- A date lies between two dates: days after the first, and days before the last.
pub record IsHeld (s d e : Date) : Type 0 where
  pub after : ℕ
  pub starts : plus_days s after ≡ some d
  pub before : ℕ
  pub ends : plus_days d before ≡ some e

all_dates-parts :
    (a b c : Option Date) (s e due : Date)
    → all_dates a b c ≡ some (s, e, due)
    → (a ≡ some s) × (b ≡ some e)
all_dates-parts (some a) (some b) (some c) s e due h = ground (arith, h)
all_dates-parts none b c s e due h = ground (arith, h)
all_dates-parts (some a) none c s e due h = ground (arith, h)
all_dates-parts (some a) (some b) none s e due h = ground (arith, h)

days_bounds-parts :
    (unit : ℕ) (ob : Obligation) (start s e due : Date) (q : ℕ)
    → days_bounds unit ob start (q + 1) ≡ some (s, e, due)
    → (plus_days start (q * (unit * or_default ob.interval_count 1)) ≡ some s)
      × (plus_days s (unit * or_default ob.interval_count 1 - 1) ≡ some e)
unfolding days_bounds
days_bounds-parts unit ob start s e due q h =
    let same : q + 1 - 1 ≡ q = omega arith in
    let l = unit * or_default ob.interval_count 1 in
    let h' =
      subst
        (λ x.
          (elim (plus_days start (x * l)) as (λ _. Option (Date × Date × Date)) [
            | none ↦ none
            | some p_start ↦
                all_dates (some p_start) (plus_days p_start (l - 1))
                  (shift_days p_start (days_between ob.first_due_date start))
          ])
          ≡ some (s, e, due))
        same h in
    first_parts (plus_days start (q * l)) (l - 1) h'
  where
    first_parts :
        (o : Option Date) (k : ℕ)
        → (elim o as (λ _. Option (Date × Date × Date)) [
          | none ↦ none
          | some p_start ↦
              all_dates
                (some p_start)
                (plus_days p_start k)
                (shift_days p_start (days_between ob.first_due_date start))
        ])
          ≡ some (s, e, due)
        → (o ≡ some s) × (plus_days s k ≡ some e)
    first_parts none k h = ground (arith, h)
    first_parts (some p) k h =
        let parts =
          all_dates-parts (some p) (plus_days p k)
            (shift_days p (days_between ob.first_due_date start)) s e due h in
        (parts.0, subst (λ x. plus_days x k ≡ some e) (some_inj parts.0) parts.1)

interval_pos : (o : Option ℕ) → 0 < or_default o 1
interval_pos none = omega arith
interval_pos (some n) = ground arith

held :
    (start s d e : Date) (n l : ℕ)
    → 0 < l
    → plus_days start n ≡ some d
    → plus_days start (n / l * l) ≡ some s
    → plus_days s (l - 1) ≡ some e
    → IsHeld s d e
held start s d e n l p reached first last =
    let split : n / l * l + n % l ≡ n = grind arith in
    let rest : n % l + (l - 1 - n % l) ≡ l - 1 = grind arith in
    let starts : plus_days s (n % l) ≡ some d =
      sym (plus_days-add start s (n / l * l) (n % l) first)
      ∙ ap (plus_days start) split
      ∙ reached in
    record {
      after = n % l;
      starts = starts;
      before = l - 1 - n % l;
      ends = sym (plus_days-add s d (n % l) (l - 1 - n % l) starts) ∙ ap (plus_days s) rest ∙ last;
    }

weekly_bounds :
    (ob : Obligation) (start : Date) (k : ℕ)
    → ob.start_date ≡ some start
    → ob.frequency ≡ weekly
    → calculate_period_bounds ob k ≡ days_bounds 7 ob start k
unfolding calculate_period_bounds days_bounds
weekly_bounds ob start k started w = rw (started, w) refl

biweekly_bounds :
    (ob : Obligation) (start : Date) (k : ℕ)
    → ob.start_date ≡ some start
    → ob.frequency ≡ biweekly
    → calculate_period_bounds ob k ≡ days_bounds 14 ob start k
unfolding calculate_period_bounds days_bounds
biweekly_bounds ob start k started w = rw (started, w) refl

IsHeld-in_bounds :
    (unit : ℕ) (ob : Obligation) (start d s e due : Date) (n : ℕ)
    → 0 < unit * or_default ob.interval_count 1
    → plus_days start n ≡ some d
    → days_bounds unit ob start (n / (unit * or_default ob.interval_count 1) + 1) ≡ some (s, e, due)
    → IsHeld s d e
IsHeld-in_bounds unit ob start d s e due n p reached found =
    let l = unit * or_default ob.interval_count 1 in
    let parts = days_bounds-parts unit ob start s e due (n / l) found in
    held start s d e n l p reached parts.0 parts.1

-- For a weekly or biweekly obligation and a date some days after its start, the period whose number
-- the search gives holds the date, whenever the bounds of that period exist: the date is some days
-- after the period's start, and the period's end some days after the date.
pub found_period-IsHeld :
    (ob : Obligation) (start d s e due : Date) (n : ℕ)
    → (ob.frequency ≡ weekly) ⊎ (ob.frequency ≡ biweekly)
    → ob.start_date ≡ some start
    → IsDate start
    → plus_days start n ≡ some d
    → calculate_period_bounds ob (find_sequence_for_date ob d) ≡ some (s, e, due)
    → IsHeld s d e
found_period-IsHeld ob start d s e due n (inl w) started h reached bounds =
    let p = interval_pos ob.interval_count in
    IsHeld-in_bounds 7 ob start d s e due n (omega arith) reached (
      sym (weekly_bounds ob start _ started w)
      ∙ ap (calculate_period_bounds ob) (sym (found_weekly ob start d n started h reached w))
      ∙ bounds)
found_period-IsHeld ob start d s e due n (inr w) started h reached bounds =
    let p = interval_pos ob.interval_count in
    IsHeld-in_bounds 14 ob start d s e due n (omega arith) reached (
      sym (biweekly_bounds ob start _ started w)
      ∙ ap (calculate_period_bounds ob) (sym (found_biweekly ob start d n started h reached w))
      ∙ bounds)

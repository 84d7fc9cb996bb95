-- ===== src/Obligations/Sync.antt =====
-- The periods that exist: `generate_period_key`, `_ensure_period_exists` and `sync_periods`
-- (app/obligations/period_engine.py).
use nexum_backend.Obligations.Status.{refresh_overdue}
use nexum_backend.Prelude.Int.{ℤ, ltb_ℤ, pos}
use nexum_backend.Calendar.Ordinals.{toordinal}
use nexum_backend.Obligations.Periods.{find_sequence_for_date, calculate_period_bounds}
use nexum_backend.Calendar.{Date, date_ltb}
use nexum_backend.Store.Obligations.{
  Frequency, Obligation, PaymentMode, PeriodStatus, ObligationPeriod, overdue, pending_payment,
  pending_amount_definition, ObligationStatus, ObligationKind, fixed, monthly, yearly,
  partial_allowed, weekly, fixed_full_payment, biweekly,
}
use nexum_backend.Store.Monad.{
  ◌>>=◌, ◌>>◌, Action, Db, pure, gets, or_raise, raise_if, integrity, value_error,
  chk_amount_positive, modify,
}
use nexum_backend.Prelude.{
  if◌then◌else◌, ◌==◌, ◌+◌, ◌-◌, ◌/◌, ◌%◌, ◌&&◌, ◌++◌, Bool, Option, ℕ, Text, true, ltb, false,
  decimal_text, some, suc, leb, text_eq, codes, none, two_digits, zero, min, find?, ◌∷◌, [],
}

-- The ordinal of the Monday of the first ISO week of a year: `datetime._isoweek1monday`.
unfoldable pub week1_monday : ℕ → ℕ
week1_monday year =
    let firstday = toordinal (record { year = year; month = 1; day = 1 }) in
    let firstweekday = (firstday + 6) % 7 in
    if ltb 3 firstweekday then firstday - firstweekday + 7 else firstday - firstweekday

-- `d.isocalendar()[1]`
unfoldable pub iso_week : Date → ℕ
iso_week d =
    let today = toordinal d in
    if ltb today (week1_monday d.year)
    then (today - week1_monday (d.year - 1)) / 7 + 1
    else if leb 52 ((today - week1_monday d.year) / 7) && leb (week1_monday (d.year + 1)) today
    then 1
    else (today - week1_monday d.year) / 7 + 1

unfoldable pub generate_period_key : Frequency → Date → ℕ → Text
generate_period_key monthly d sequence_number =
    decimal_text d.year ++ codes "-" ++ two_digits d.month
generate_period_key yearly d sequence_number = decimal_text d.year
generate_period_key weekly d sequence_number =
    decimal_text d.year
    ++ codes "-W"
    ++ two_digits (iso_week d)
    ++ codes "-SEQ"
    ++ decimal_text sequence_number
generate_period_key biweekly d sequence_number =
    decimal_text d.year ++ codes "-BW-SEQ" ++ decimal_text sequence_number
generate_period_key Frequency.one_time d sequence_number = codes "ONE-TIME"
generate_period_key _ d sequence_number =
    decimal_text d.year
    ++ codes "-"
    ++ two_digits d.month
    ++ codes "-"
    ++ decimal_text sequence_number

abbrev pub has_key : ℕ → Text → ObligationPeriod → Bool
has_key obligation_id key p = p.obligation_id == obligation_id && text_eq p.period_key key

abbrev pub is_fixed : PaymentMode → Bool
is_fixed fixed = true
is_fixed partial_allowed = true
is_fixed fixed_full_payment = true
is_fixed PaymentMode.other = false

-- A fixed amount is due at once, and late from the start when its date has passed.
abbrev pub first_status : Bool → Date → Date → PeriodStatus
first_status true due current = if date_ltb due current then overdue else pending_payment
first_status false due current = pending_amount_definition

abbrev pub new_period : Obligation → ℕ → Date → Text → Date → Date → Date → ℕ → ObligationPeriod
new_period ob sequence_number current key p_start p_end p_due fresh = record {
  id = fresh;
  obligation_id = ob.id;
  period_key = key;
  sequence_number = sequence_number;
  start_date = p_start;
  end_date = p_end;
  due_date = p_due;
  amount = if is_fixed ob.payment_mode then ob.base_amount else none;
  currency = ob.currency;
  paid_amount = some (pos 0);
  status = first_status (is_fixed ob.payment_mode) p_due current;
}

-- `chk_amount_positive`
abbrev pub is_negative : Option ℤ → Bool
is_negative none = false
is_negative (some v) = ltb_ℤ v (pos 0)

-- `session.add(new_period)` and the flush.
unfoldable pub add_period :
    Obligation → ℕ → Date → Text → Date × Date × Date → Action ObligationPeriod
add_period ob sequence_number current key bounds = do
  fresh ← gets (λ db. db.next_id)
  let row = new_period ob sequence_number current key bounds.0 bounds.1 bounds.2 fresh
  raise_if (is_negative row.amount) (integrity chk_amount_positive)
  modify (λ db. record db {
    obligation_periods = db.obligation_periods ++ row ∷ [];
    next_id = fresh + 1;
  })
  pure row

unfoldable pub ensure_period_exists : Obligation → ℕ → Date → Action ObligationPeriod
ensure_period_exists ob sequence_number current = do
  bounds ← or_raise (calculate_period_bounds ob sequence_number) value_error
  let key = generate_period_key ob.frequency bounds.0 sequence_number
  existing ← gets (λ db. find? (has_key ob.id key) db.obligation_periods)
  elim existing [ some p ↦ pure p | none ↦ add_period ob sequence_number current key bounds ]

-- The period would start after the end date.
unfoldable pub past_end : Obligation → ℕ → Action Bool
past_end ob sequence_number = elim ob.end_date [
  | none ↦ pure false
  | some e ↦ do
    bounds ← or_raise (calculate_period_bounds ob sequence_number) value_error
    pure (date_ltb e bounds.0)
]

-- The loop from a sequence number on, for at most a count of numbers.
unfoldable pub ensure_from : Obligation → Date → ℕ → ℕ → Action (Unit {0})
ensure_from ob current sequence_number zero = pure tt
ensure_from ob current sequence_number (suc count) = do
  stop ← past_end ob sequence_number
  elim stop [
    | true ↦ pure tt
    | false ↦ do
      ensure_period_exists ob sequence_number current
      ensure_from ob current (suc sequence_number) count
  ]

abbrev pub is_one_time : Obligation → Bool
is_one_time ob = elim ob.frequency [
  | Frequency.one_time ↦ true
  | _ ↦ elim ob.kind [ ObligationKind.one_time ↦ true | _ ↦ false ]
]

unfoldable pub max_sequence : Obligation → Date → ℕ
max_sequence ob current =
    let wanted = if is_one_time ob then 1 else find_sequence_for_date ob current + 1 in
    elim ob.end_count [
      | none ↦ wanted
      | some count ↦ if count == 0 then wanted else min wanted count
    ]

abbrev pub refresh_periods : ℕ → Date → Db → Db
refresh_periods obligation_id current db = record db {
  obligation_periods = refresh_overdue obligation_id current db.obligation_periods;
}

-- The periods of an obligation with a start.
abbrev pub ensure_all : Obligation → Date → Option Date → Action (Unit {0})
ensure_all ob current start = elim start [
  | none ↦ pure tt
  | some _ ↦ ensure_from ob current 1 (max_sequence ob current)
]

unfoldable pub sync_active : Obligation → Date → Action (Unit {0})
sync_active ob current = do
  modify (refresh_periods ob.id current)
  ensure_all ob current ob.start_date

unfoldable pub sync_periods : Obligation → Date → Action (Unit {0})
sync_periods ob current = elim ob.status [
  | ObligationStatus.active ↦ sync_active ob current
  | _ ↦ pure tt
]

-- ===== src/Obligations/Fingerprint.antt =====
-- The fingerprint of a payment request, `build_idempotency_fingerprint` and
-- `validate_idempotency_fingerprint` (app/obligations/settlement.py). An id stands for its text; the
-- amount's text for the decimal that it reads as.
use nexum_backend.Store.Obligations.{Fingerprint, ObligationPayment}
use nexum_backend.Prelude.{
  ℕ, ◌+◌, Bool, Option, Text, [], ◌∷◌, true, false, none, some, not, ◌&&◌, ◌==◌, text_eq, upper,
  List,
}
use nexum_backend.Calendar.{Date}
use nexum_backend.Decimal.{Ratio}
use nexum_backend.Decimal.Compare.{eqb_ratio}
use nexum_backend.Store.Tables.{opt_eq_opt, opt_eq}
use nexum_backend.Store.Monad.{Result, ok, err, http, idempotency_conflict}

-- The arguments of a payment that a retry must repeat.
pub record PaymentRequest : Type 0 where
  pub obligation_id : ℕ
  pub period_id : Option ℕ
  pub strategy : Text
  pub source_account_id : ℕ
  pub amount : Ratio
  pub currency : Text
  pub source_currency : Option Text
  pub quote_id : Option ℕ
  pub rate_snapshot_id : Option ℕ
  pub payment_date : Option Date

-- `source_currency.upper() if source_currency else None`
unfoldable pub upper_or_none : Option Text → Option Text
upper_or_none none = none
upper_or_none (some []) = none
upper_or_none (some (c ∷ s)) = some (upper (c ∷ s))

unfoldable pub build_idempotency_fingerprint : PaymentRequest → Fingerprint
build_idempotency_fingerprint r = record {
  obligation_id = some r.obligation_id;
  period_id = r.period_id;
  strategy = some r.strategy;
  source_account_id = some r.source_account_id;
  amount = some r.amount;
  currency = some (upper r.currency);
  source_currency = upper_or_none r.source_currency;
  quote_id = r.quote_id;
  rate_snapshot_id = r.rate_snapshot_id;
  payment_date = r.payment_date;
}

abbrev pub same_text : Option Text → Text → Bool
same_text none t = false
same_text (some s) t = text_eq s t

abbrev pub same_amount : Option Ratio → Ratio → Bool
same_amount none a = false
same_amount (some b) a = eqb_ratio b a

-- `str(fingerprint.get("currency", "")).upper()`; the key is never null.
abbrev pub same_currency : Option Text → Text → Bool
same_currency none currency = text_eq [] (upper currency)
same_currency (some s) currency = text_eq (upper s) (upper currency)

-- `a and b and a.upper() != b.upper()`: a source currency is compared where both have one.
abbrev pub other_source : Option Text → Option Text → Bool
other_source (some (c ∷ s)) (some (d ∷ t)) = not (text_eq (upper (c ∷ s)) (upper (d ∷ t)))
other_source _ _ = false

abbrev pub date_eq : Date → Date → Bool
date_eq a b = a.year == b.year && a.month == b.month && a.day == b.day

abbrev pub opt_date_eq : Option Date → Option Date → Bool
opt_date_eq none none = true
opt_date_eq (some a) (some b) = date_eq a b
opt_date_eq _ _ = false

abbrev pub conflict_unless : Bool → Result (Unit {0}) → Result (Unit {0})
conflict_unless true rest = rest
conflict_unless false rest = err (http 409 idempotency_conflict)

-- Against a stored fingerprint, check by check.
unfoldable pub validate_fingerprint : Fingerprint → PaymentRequest → Result (Unit {0})
validate_fingerprint f r = conflict_unless (opt_eq f.obligation_id r.obligation_id) (
    conflict_unless (opt_eq_opt f.period_id r.period_id) (
      conflict_unless (same_text f.strategy r.strategy) (
        conflict_unless (opt_eq f.source_account_id r.source_account_id) (
          conflict_unless (same_amount f.amount r.amount) (
            conflict_unless (same_currency f.currency r.currency) (
              conflict_unless (not (other_source f.source_currency r.source_currency)) (
                conflict_unless (opt_eq_opt f.quote_id r.quote_id) (
                  conflict_unless (opt_eq_opt f.rate_snapshot_id r.rate_snapshot_id)
                    (conflict_unless (opt_date_eq f.payment_date r.payment_date) (ok tt))))))))))

-- `if period_id and p.obligation_period_id != period_id`
abbrev pub other_period : Option ℕ → ℕ → Bool
other_period none asked = false
other_period (some k) stored = not (stored == k)

abbrev pub past_matches : ObligationPayment → PaymentRequest → Bool
past_matches p r =
    p.obligation_id == r.obligation_id
    && opt_eq p.account_id r.source_account_id
    && not (other_period r.period_id p.obligation_period_id)
    && text_eq (upper p.currency) (upper r.currency)
    && opt_eq_opt p.quote_id r.quote_id
    && opt_eq_opt p.rate_snapshot_id r.rate_snapshot_id
    && not (other_source r.source_currency (some p.source_currency))

abbrev pub past_sum : List ObligationPayment → ℕ
past_sum [] = 0
past_sum (p ∷ rows) = p.amount + past_sum rows

-- Against the stored payments of the command, in hundredths.
unfoldable pub validate_past :
    List ObligationPayment → List ObligationPayment → PaymentRequest → Result (Unit {0})
validate_past all [] r =
    conflict_unless (eqb_ratio (record { coef = past_sum all; places = 2 }) r.amount) (ok tt)
validate_past all (p ∷ rows) r = conflict_unless (past_matches p r) (validate_past all rows r)

-- The fingerprint decides if there is one, else the payments if there are any.
unfoldable pub validate_idempotency_fingerprint :
    Option Fingerprint → List ObligationPayment → PaymentRequest → Result (Unit {0})
validate_idempotency_fingerprint (some f) payments r = validate_fingerprint f r
validate_idempotency_fingerprint none [] r = ok tt
validate_idempotency_fingerprint none (p ∷ rows) r = validate_past (p ∷ rows) (p ∷ rows) r

-- ===== src/Store/Obligations.antt =====
-- The rows of obligations and their periods (app/obligations/models.py). Amounts are hundredths.
use nexum_backend.Prelude.{ℕ, Option, Text}
use nexum_backend.Prelude.Int.{ℤ}
use nexum_backend.Calendar.{Date}
use nexum_backend.Decimal.{Ratio}

-- `frequency`; `other` stands for any other string.
pub data Frequency : Type 0 where
  monthly yearly weekly biweekly one_time daily other : Frequency

-- `type`; `other` stands for any other string.
pub data ObligationKind : Type 0 where
  one_time end_count end_date indefinite other : ObligationKind

pub data PaymentMode : Type 0 where
  fixed partial_allowed fixed_full_payment other : PaymentMode

pub data ObligationStatus : Type 0 where
  active completed archived cancelled : ObligationStatus

pub record Obligation : Type 0 where
  pub id : ℕ
  pub user_id : ℕ
  pub name : Text
  pub currency : Text
  pub kind : ObligationKind
  pub frequency : Frequency
  pub payment_mode : PaymentMode
  pub base_amount : Option ℤ
  pub start_date : Option Date
  pub first_due_date : Date
  pub end_date : Option Date
  pub end_count : Option ℕ
  pub interval_count : Option ℕ
  pub due_day : Option ℕ
  pub due_month : Option ℕ
  pub status : ObligationStatus

-- app/obligations/enums_v17.py
pub data PeriodStatus : Type 0 where
  pending_amount_definition pending_payment partially_paid paid overdue skipped cancelled :
      PeriodStatus

pub record ObligationPeriod : Type 0 where
  pub id : ℕ
  pub obligation_id : ℕ
  pub period_key : Text
  pub sequence_number : ℕ
  pub start_date : Date
  pub end_date : Date
  pub due_date : Date
  pub amount : Option ℤ
  pub currency : Text
  pub paid_amount : Option ℤ
  pub status : PeriodStatus

-- The amounts of a payment are above zero. `fx_rate` is the rate that the payment was made at.
pub record ObligationPayment : Type 0 where
  pub id : ℕ
  pub obligation_id : ℕ
  pub obligation_period_id : ℕ
  pub user_id : ℕ
  pub account_id : Option ℕ
  pub financial_event_id : Option ℕ
  pub amount : ℕ
  pub currency : Text
  pub source_amount : ℕ
  pub source_currency : Text
  pub fx_rate : Ratio
  pub rate_source : Option Text
  pub rate_timestamp : Option ℕ
  pub quote_id : Option ℕ
  pub rate_snapshot_id : Option ℕ
  pub idempotency_key : Option Text

-- What the metadata of a payment's event keep of its request (`fingerprint`, written by
-- app/obligations/settlement.py); `none` is a missing key or null. An id stands for its text.
pub record Fingerprint : Type 0 where
  pub obligation_id : Option ℕ
  pub period_id : Option ℕ
  pub strategy : Option Text
  pub source_account_id : Option ℕ
  pub amount : Option Ratio
  pub currency : Option Text
  pub source_currency : Option Text
  pub quote_id : Option ℕ
  pub rate_snapshot_id : Option ℕ
  pub payment_date : Option Date

-- ===== src/Store/Models.antt =====
-- The rows of the tables: app/accounts/models.py, app/categories/models.py, app/ledger/models.py,
-- app/transfers/models.py and `ExchangeRate` of app/obligations/models.py. An amount of money is a
-- whole number of hundredths, the scale of the NUMERIC(14, 2) columns.
use nexum_backend.Prelude.{ℕ, Bool, Option, Text}
use nexum_backend.Prelude.Int.{ℤ}
use nexum_backend.Decimal.{Decimal}
use nexum_backend.Store.Obligations.{Fingerprint}

-- app/accounts/enums.py
pub data AccountType : Type 0 where
  bank wallet cash savings : AccountType

pub record Account : Type 0 where
  pub id : ℕ
  pub user_id : Option ℕ
  pub name : Text
  pub kind : AccountType
  pub balance : Option ℤ
  pub currency : Text
  pub is_active : Bool

-- The types that `categories_type_check` allows.
pub data CategoryType : Type 0 where
  income expense credit_card obligation goal transfer system : CategoryType

pub record Category : Type 0 where
  pub id : ℕ
  pub user_id : Option ℕ
  pub kind : Option CategoryType
  pub is_active : Bool
  pub stable_key : Option Text

-- app/ledger/enums.py
pub data EventType : Type 0 where
  income expense goal_contribution obligation_payment : EventType
  credit_card_purchase credit_card_payment manual_adjustment : EventType
  transfer_out transfer_in opening_balance balance_adjustment goal_release : EventType

pub data Direction : Type 0 where
  inflow outflow neutral : Direction

pub data Source : Type 0 where
  backend api pwa manual system : Source

pub record FinancialEvent : Type 0 where
  pub id : ℕ
  pub user_id : ℕ
  pub account_id : Option ℕ
  pub category_id : Option ℕ
  pub event_type : EventType
  pub direction : Direction
  pub amount : ℤ
  pub currency : Text
  pub description : Option Text
  pub raw_message : Option Text
  pub source : Source
  pub occurred_at : ℕ
  pub command_id : Option ℕ
  pub source_message_id : Option ℕ
  pub transfer_id : Option ℕ
  -- The one key of the metadata that a service reads back.
  pub fingerprint : Option Fingerprint

pub record Reclassification : Type 0 where
  pub id : ℕ
  pub financial_event_id : ℕ
  pub previous_category_id : Option ℕ
  pub new_category_id : ℕ
  pub reclassified_by : ℕ
  pub source : Source
  pub reason : Option Text
  pub command_id : ℕ
  pub created_at : ℕ

pub data TransferStatus : Type 0 where
  completed other : TransferStatus

pub record Transfer : Type 0 where
  pub id : ℕ
  pub user_id : ℕ
  pub source_account_id : ℕ
  pub destination_account_id : ℕ
  pub amount : ℤ
  pub currency : Text
  pub target_amount : Option ℤ
  pub target_currency : Option Text
  pub fx_rate : Option Decimal
  pub rate_source : Option Text
  pub rate_timestamp : Option ℕ
  pub rate_snapshot_id : Option ℕ
  pub is_estimated : Bool
  pub description : Option Text
  pub command_id : ℕ
  pub source_message_id : Option ℕ
  pub raw_message : Option Text
  pub status : TransferStatus
  pub created_at : ℕ

pub record ExchangeRate : Type 0 where
  pub id : ℕ
  pub base_currency : Text
  pub quote_currency : Text
  pub rate : Decimal
  pub provider : Text
  pub fetched_at : ℕ
  pub expires_at : ℕ
  pub is_stale : Option Bool

-- `FXQuoteStatus` (app/obligations/enums_v17.py)
pub data QuoteStatus : Type 0 where
  active expired used rejected : QuoteStatus

pub record FxQuote : Type 0 where
  pub id : ℕ
  pub user_id : ℕ
  pub from_currency : Text
  pub to_currency : Text
  pub source_amount : Decimal
  pub target_amount : Decimal
  pub rate : Decimal
  pub provider : Text
  pub rate_timestamp : ℕ
  pub expires_at : ℕ
  pub status : QuoteStatus

-- app/goals/enums.py
pub data GoalTransactionType : Type 0 where
  allocation release adjustment legacy_import : GoalTransactionType

-- A movement of the reserve that a goal has on an account (app/goals/models.py).
pub record GoalTransaction : Type 0 where
  pub id : ℕ
  pub goal_id : ℕ
  pub account_id : ℕ
  pub user_id : ℕ
  pub transaction_type : GoalTransactionType
  pub source_amount : ℕ
  pub source_currency : Text
  pub applied_amount : ℕ
  pub goal_currency : Text
  pub command_id : Option ℕ

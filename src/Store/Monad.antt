-- ===== src/Store/Monad.antt =====
-- A service method: the session's state and exceptions. The state that a raise leaves behind comes
-- back with it, since only `transaction` and `savepoint` undo writes.
use nexum_backend.Prelude.{true, false, ℕ, Bool, Option, none, some, List}
use nexum_backend.Store.Models.{
  Account, Category, FinancialEvent, Reclassification, Transfer, ExchangeRate, FxQuote,
  GoalTransaction,
}
use nexum_backend.Store.Obligations.{Obligation, ObligationPeriod, ObligationPayment}

pub record Db : Type 0 where
  pub accounts : List Account
  pub categories : List Category
  pub events : List FinancialEvent
  pub reclassifications : List Reclassification
  pub transfers : List Transfer
  pub exchange_rates : List ExchangeRate
  pub fx_quotes : List FxQuote
  pub obligations : List Obligation
  pub obligation_periods : List ObligationPeriod
  pub obligation_payments : List ObligationPayment
  pub goal_transactions : List GoalTransaction
  pub next_id : ℕ
  pub now : ℕ

-- What an error says: its `error_code`, or a name for its message where it has none.
pub data Code : Type 0 where
  same_account idempotency_key_reused source_account_not_found : Code
  destination_account_not_found source_account_inactive destination_account_inactive : Code
  account_balance_invalid fx_rate_snapshot_required invalid_fx_rate_snapshot : Code
  fx_rate_snapshot_expired currency_pair_mismatch fx_rate_snapshot_stale invalid_fx_rate : Code
  fx_rate_snapshot_not_allowed cross_currency_overflow cross_currency_underflow : Code
  transfer_integrity_conflict account_not_found account_not_permitted global_account : Code
  category_not_found category_not_permitted category_archived category_type : Code
  fallback_missing fallback_not_global fallback_inactive fallback_type : Code
  idempotent_event_lost event_not_found event_not_reclassifiable : Code
  category_already_assigned category_forbidden category_inactive category_type_mismatch : Code
  account_inactive reserve_inconsistent reserves_exceed_balance : Code
  invalid_amount invalid_amount_precision currency_mismatch below_minimum_amount : Code
  fx_quote_not_found fx_quote_expired invalid_fx_quote cannot_support_positive_slices : Code
  idempotency_conflict missing_idempotency_key source_account_id_required : Code
  obligation_not_found obligation_inactive period_not_found period_amount_not_defined : Code
  period_not_payable account_unavailable payment_exceeds_remaining_amount : Code
  inconsistent_reservation_state insufficient_balance period_not_skippable : Code
  period_has_payments period_not_cancellable no_payable_periods : Code
  oldest_period_requires_amount_definition payment_exceeds_total_remaining_amount : Code
  period_not_variable period_amount_already_defined : Code

-- The constraints of the tables that a flush can violate.
pub data Constraint : Type 0 where
  idx_financial_events_command_id transfers_command_id_key accounts_balance_check : Constraint
  uq_financial_event_reclassifications_command_id chk_amount_positive : Constraint
  ix_obligation_payments_user_idempotency chk_paid_amount_lte_amount : Constraint

-- app/core/errors.py, and the exceptions of pydantic, SQLAlchemy and Python itself.
pub data Error : Type 0 where
  validation conflict not_found forbidden infrastructure : Code → Error
  insufficient_funds account_forbidden account_duplicate : Error
  integrity : Constraint → Error
  invalid_payload numeric_out_of_range value_error type_error invalid_operation : Error
  http : ℕ → Code → Error

pub data Result {ℓ} (A : Type ℓ) : Type ℓ where
  ok : A → Result A
  err : Error → Result A

abbrev pub Action : Type 0 → Type 0
Action A = Db → Result A × Db

module _ {A : Type 0} where
  abbrev pub pure : A → Action A
  pure a db = (ok a, db)

  abbrev pub raise : Error → Action A
  raise e db = (err e, db)

  abbrev pub gets : (Db → A) → Action A
  gets f db = (ok (f db), db)

  abbrev pub lift : Result A → Action A
  lift r db = (r, db)

  -- `if x is None: raise e`
  abbrev pub or_raise : Option A → Error → Action A
  or_raise none e db = (err e, db)
  or_raise (some a) e db = (ok a, db)

infixl 5 ◌>>=◌ ◌>>◌
abbrev pub ◌>>=◌ : {A B : Type 0} → Action A → (A → Action B) → Action B
◌>>=◌ m f db = let (r, db') = m db in elim r [ ok a ↦ f a db' | err e ↦ (err e, db') ]

abbrev pub ◌>>◌ : {A B : Type 0} → Action A → Action B → Action B
m >> k = m >>= λ _. k

-- `if c: raise e`
abbrev pub raise_if : Bool → Error → Action (Unit {0})
raise_if true e db = (err e, db)
raise_if false e db = (ok tt, db)

abbrev pub modify : (Db → Db) → Action (Unit {0})
modify f db = (ok tt, f db)

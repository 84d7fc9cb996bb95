-- ===== src/Accounts/Adjustment.antt =====
-- `create_balance_adjustment` (app/accounts/service.py).
use nexum_backend.Accounts.Repository.{get_by_id, flush_balance}
use nexum_backend.Store.Tables.{opt_eq}
use nexum_backend.Ledger.Insert.{LedgerEventCreate, record_event}
use nexum_backend.Store.Atomic.{transaction}
use nexum_backend.Prelude.Int.{ℤ, eqb_ℤ, pos, ◌-ℤ◌, ltb_ℤ, neg_ℤ}
use nexum_backend.Store.Models.{Account, EventType, inflow, outflow, Source}
use nexum_backend.Accounts.Service.{BalanceAdjustmentCreate, AccountRead, read_account}
use nexum_backend.Store.Monad.{
  ◌>>=◌, ◌>>◌, Action, or_raise, gets, not_found, account_not_found, raise_if, account_forbidden,
  type_error, pure,
}
use nexum_backend.Prelude.{if◌then◌else◌, ℕ, some, none, false, not}

abbrev pub adjustment_event : ℕ → Account → BalanceAdjustmentCreate → ℤ → LedgerEventCreate
adjustment_event user_id account payload diff = record {
  user_id = user_id;
  account_id = some account.id;
  category_id = none;
  event_type = EventType.manual_adjustment;
  direction = if ltb_ℤ (pos 0) diff then inflow else outflow;
  amount = if ltb_ℤ (pos 0) diff then diff else neg_ℤ diff;
  currency = account.currency;
  description = some payload.reason;
  raw_message = none;
  source = Source.api;
  source_message_id = none;
  occurred_at = none;
  command_id = some payload.idempotency_key;
  transfer_id = none;
  fingerprint = none;
}

-- The balance is set, and flushed by the insert's savepoint, before the event is recorded, and what the insert returns is dropped.
unfoldable pub adjust : ℕ → Account → BalanceAdjustmentCreate → ℤ → Action AccountRead
adjust user_id account payload diff = do
  flush_balance account.id (pos payload.target_balance)
  record_event (adjustment_event user_id account payload diff)
  read_account user_id account.id

unfoldable pub adjust_from : ℕ → Account → BalanceAdjustmentCreate → ℤ → Action AccountRead
adjust_from user_id account payload balance =
    if eqb_ℤ (pos payload.target_balance -ℤ balance) (pos 0)
    then read_account user_id account.id
    else adjust user_id account payload (pos payload.target_balance -ℤ balance)

-- The user's active account, with its balance.
unfoldable pub adjustable_account : ℕ → ℕ → Action (Account × ℤ)
adjustable_account user_id account_id = do
  account ← or_raise (← gets (get_by_id account_id false)) (not_found account_not_found)
  raise_if (not (opt_eq account.user_id user_id)) account_forbidden
  balance ← or_raise account.balance type_error
  pure (account, balance)

unfoldable pub adjust_block : ℕ → ℕ → BalanceAdjustmentCreate → Action AccountRead
adjust_block user_id account_id payload = do
  found ← adjustable_account user_id account_id
  adjust_from user_id found.0 payload found.1

unfoldable pub create_balance_adjustment : ℕ → ℕ → BalanceAdjustmentCreate → Action AccountRead
create_balance_adjustment user_id account_id payload =
    transaction (adjust_block user_id account_id payload)

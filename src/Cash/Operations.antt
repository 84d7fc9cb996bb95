-- ===== src/Cash/Operations.antt =====
-- `create_income`, `create_expense` and `_resolve_category_id` (app/cash/service.py).
use nexum_backend.Store.Monad.{
  ◌>>=◌, ◌>>◌, gets, or_raise, not_found, type_error, account_not_found, raise_if,
  category_not_found, infrastructure, fallback_missing, fallback_not_global, forbidden,
  fallback_inactive, insufficient_funds, category_not_permitted, fallback_type,
  account_not_permitted, validation, category_archived, category_type,
}
use nexum_backend.Store.Atomic.{transaction}
use nexum_backend.Store.Tables.{find_account, find_category, find_stable_key, opt_eq}
use nexum_backend.Ledger.Insert.{LedgerEventResult, LedgerEventCreate, record_event}
use nexum_backend.Prelude.Int.{ℤ, ltb_ℤ, ◌-ℤ◌, pos, neg_ℤ}
use nexum_backend.Store.Monad.{Db, Action, pure}
use nexum_backend.Accounts.Repository.{get_by_id, update_balance}
use nexum_backend.Store.Models.{
  FinancialEvent, Account, EventType, CategoryType, Source, Direction, outflow, inflow,
}
use nexum_backend.Prelude.{true, false, none, some, ℕ, Text, Option, Bool, codes, not, ◌==◌}

-- `CashIncomeCreate` and `CashExpenseCreate` (app/cash/schemas.py).
pub record CashCreate : Type 0 where
  pub account_id : ℕ
  pub amount : ℤ
  pub category_id : Option ℕ
  pub description : Option Text
  pub source : Source
  pub source_message_id : Option ℕ
  pub raw_message : Option Text

pub data CashStatus : Type 0 where
  created idempotent_retry : CashStatus

pub record CashResult : Type 0 where
  pub event_id : ℕ
  pub account_id : ℕ
  pub balance_after : Option ℤ
  pub occurred_at : ℕ
  pub status : CashStatus

-- The two kinds of category that cash uses, and `category.type == expected_type`.
pub data CashKind : Type 0 where
  income expense : CashKind

unfoldable pub has_kind : CashKind → Option CategoryType → Bool
has_kind income (some CategoryType.income) = true
has_kind expense (some CategoryType.expense) = true
has_kind _ _ = false

-- The category that the payload names.
unfoldable pub resolve_named : ℕ → ℕ → CashKind → Action ℕ
unfolding has_kind
resolve_named category_id user_id expected = do
  found ← gets (λ db. find_category category_id db.categories)
  category ← or_raise found (not_found category_not_found)
  raise_if (elim category.user_id [ none ↦ false | some owner ↦ not (owner == user_id) ])
      (forbidden category_not_permitted)
  raise_if (not category.is_active) (validation category_archived)
  raise_if (not (has_kind expected category.kind)) (validation category_type)
  pure category_id

-- The global category under a stable key.
unfoldable pub resolve_fallback : Text → CashKind → Action ℕ
unfolding has_kind
resolve_fallback stable_key expected = do
  found ← gets (λ db. find_stable_key stable_key db.categories)
  fallback ← or_raise found (infrastructure fallback_missing)
  raise_if (elim fallback.user_id [ none ↦ false | some _ ↦ true ])
      (infrastructure fallback_not_global)
  raise_if (not fallback.is_active) (infrastructure fallback_inactive)
  raise_if (not (has_kind expected fallback.kind)) (infrastructure fallback_type)
  pure fallback.id

unfoldable pub resolve_category_id : Option ℕ → ℕ → Text → CashKind → Action ℕ
unfolding resolve_named resolve_fallback
resolve_category_id (some category_id) user_id stable_key expected =
    resolve_named category_id user_id expected
resolve_category_id none user_id stable_key expected = resolve_fallback stable_key expected

-- The account of the payload, locked, active and the user's.
unfoldable pub own_account : ℕ → ℕ → Action Account
unfolding get_by_id
own_account account_id user_id = do
  account ← or_raise (← gets (get_by_id account_id false)) (not_found account_not_found)
  raise_if (not (opt_eq account.user_id user_id)) (forbidden account_not_permitted)
  pure account

abbrev pub cash_event : ℕ → CashCreate → ℕ → EventType → Direction → Account → ℕ → LedgerEventCreate
cash_event user_id payload command_id event_type direction account category_id = record {
  user_id = user_id;
  account_id = some payload.account_id;
  category_id = some category_id;
  event_type = event_type;
  direction = direction;
  amount = payload.amount;
  currency = account.currency;
  description = payload.description;
  raw_message = payload.raw_message;
  source = payload.source;
  source_message_id = payload.source_message_id;
  occurred_at = none;
  command_id = some command_id;
  transfer_id = none;
  fingerprint = none;
}

abbrev pub cash_result : CashCreate → FinancialEvent → Option ℤ → CashStatus → CashResult
cash_result payload event balance status = record {
  event_id = event.id;
  account_id = payload.account_id;
  balance_after = balance;
  occurred_at = event.occurred_at;
  status = status;
}

-- The balance of the row after the update.
abbrev pub current_balance : ℕ → Db → Option ℤ
current_balance k db = elim (find_account k db.accounts) [ none ↦ none | some a ↦ a.balance ]

-- After the insert of an income: a retry reports, a new event moves the balance.
unfoldable pub finish_income : CashCreate → Account → LedgerEventResult → Action CashResult
finish_income payload account result = elim result.idempotent [
  | true ↦ pure (cash_result payload result.event account.balance idempotent_retry)
  | false ↦ do
    update_balance account.id payload.amount
    balance ← gets (current_balance account.id)
    pure (cash_result payload result.event balance created)
]

unfoldable pub income_block : ℕ → CashCreate → ℕ → Action CashResult
income_block user_id payload command_id = do
  account ← own_account payload.account_id user_id
  category_id ←
      resolve_category_id payload.category_id user_id (codes "income_uncategorized") income
  result ←
      record_event
        (cash_event user_id payload command_id EventType.income inflow account category_id)
  finish_income payload account result

unfoldable pub create_income : ℕ → CashCreate → ℕ → Action CashResult
create_income user_id payload command_id = transaction (income_block user_id payload command_id)

-- After the insert of an expense: the funds are checked on a new event only.
unfoldable pub finish_expense : CashCreate → Account → LedgerEventResult → Action CashResult
finish_expense payload account result = elim result.idempotent [
  | true ↦ pure (cash_result payload result.event account.balance idempotent_retry)
  | false ↦ do
    before ← or_raise account.balance type_error
    raise_if (ltb_ℤ (before -ℤ payload.amount) (pos 0)) insufficient_funds
    update_balance account.id (neg_ℤ payload.amount)
    balance ← gets (current_balance account.id)
    pure (cash_result payload result.event balance created)
]

unfoldable pub expense_block : ℕ → CashCreate → ℕ → Action CashResult
expense_block user_id payload command_id = do
  account ← own_account payload.account_id user_id
  category_id ←
      resolve_category_id payload.category_id user_id (codes "expense_uncategorized") expense
  result ←
      record_event
        (cash_event user_id payload command_id EventType.expense outflow account category_id)
  finish_expense payload account result

unfoldable pub create_expense : ℕ → CashCreate → ℕ → Action CashResult
create_expense user_id payload command_id = transaction (expense_block user_id payload command_id)

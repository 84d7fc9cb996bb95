-- ===== src/Cash/Books.antt =====
-- What a cash operation does to the ledger and the balances.
use nexum_backend.Cash.Blocks.{
  CashOutcome, cash_block-CashOutcome, finish_income-CashDone, finish_expense-CashDone,
}
use nexum_backend.Ledger.Balance.{Reconciles, Reconciles-Posts}
use nexum_backend.Store.Ensures.{
  Ensures, Ensures-always, transaction-IsAtomic, Ensures-transaction, Ensures-map,
}
use nexum_backend.Store.Models.{EventType, Direction, outflow, inflow}
use nexum_backend.Cash.Operations.{
  CashCreate, CashResult, finish_income, create_expense, finish_expense, create_income,
  income_block, expense_block, expense, income,
}
use nexum_backend.Prelude.{inl, inr, ℕ, subst, codes, sym, refl}
use nexum_backend.Store.Monad.{Db}

module _ (user_id : ℕ) (payload : CashCreate) (command_id : ℕ) (db : Db) where
  -- An income that returned wrote one event of the amount and
  -- moved the account's balance up by it, to no less than zero, or found the command's event and changed nothing.
  pub create_income-CashOutcome :
      Ensures
        (CashOutcome user_id payload command_id EventType.income inflow db)
        (create_income user_id payload command_id db)
  unfolding create_income income_block
  create_income-CashOutcome =
      Ensures-transaction (CashOutcome user_id payload command_id EventType.income inflow db)
        (income_block user_id payload command_id) db
        (cash_block-CashOutcome user_id payload command_id EventType.income inflow
          (codes "income_uncategorized") income finish_income
          (λ account e d. finish_income-CashDone payload account e d) db)

  -- An expense that returned wrote one event of the amount and moved the account's balance down
  -- by it, to no less than zero, or found the command's event and changed nothing.
  pub create_expense-CashOutcome :
      Ensures
        (CashOutcome user_id payload command_id EventType.expense outflow db)
        (create_expense user_id payload command_id db)
  unfolding create_expense expense_block
  create_expense-CashOutcome =
      Ensures-transaction (CashOutcome user_id payload command_id EventType.expense outflow db)
        (expense_block user_id payload command_id) db
        (cash_block-CashOutcome user_id payload command_id EventType.expense outflow
          (codes "expense_uncategorized") expense finish_expense
          (λ account e d. finish_expense-CashDone payload account e d) db)

  Reconciles-CashOutcome :
      (event_type : EventType) (direction : Direction) (r : CashResult) (db' : Db)
      → CashOutcome user_id payload command_id event_type direction db r db'
      → Reconciles db
      → Reconciles db'
  Reconciles-CashOutcome event_type direction r db' (account, category_id, inl posts) h =
      Reconciles-Posts _ payload.account_id _ db db' refl refl posts h
  Reconciles-CashOutcome event_type direction r db' (account, category_id, inr old) h =
      subst Reconciles (sym old.0) h

  -- If every balance is the sum of its account's events, then it still is after a call of
  -- `create_income` and after one of `create_expense`, however the call ends.
  pub cash-Reconciles :
      Reconciles db
      → Reconciles (create_income user_id payload command_id db).1
        × Reconciles (create_expense user_id payload command_id db).1
  unfolding create_income create_expense
  cash-Reconciles h = (
    Ensures-always Reconciles db (create_income user_id payload command_id db) h
        (transaction-IsAtomic (income_block user_id payload command_id) db)
        (Ensures-map _ (λ _. Reconciles) _ create_income-CashOutcome
          (λ r db' o. Reconciles-CashOutcome EventType.income inflow r db' o h)),
    Ensures-always Reconciles db (create_expense user_id payload command_id db) h
        (transaction-IsAtomic (expense_block user_id payload command_id) db)
        (Ensures-map _ (λ _. Reconciles) _ create_expense-CashOutcome
          (λ r db' o. Reconciles-CashOutcome EventType.expense outflow r db' o h)),
  )

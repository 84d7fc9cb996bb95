-- ===== src/Tests/Cash.antt =====
-- The theorems on incomes and expenses at a concrete payload.
use nexum_backend.Ledger.Balance.{Reconciles}
use nexum_backend.Store.Ensures.{Ensures}
use nexum_backend.Prelude.Int.{pos}
use nexum_backend.Cash.Books.{
  cash-Reconciles, create_income-CashOutcome, create_expense-CashOutcome,
}
use nexum_backend.Cash.Blocks.{CashOutcome}
use nexum_backend.Cash.Operations.{create_income, create_expense}
use nexum_backend.Store.Models.{EventType, inflow, outflow}
use nexum_backend.Tests.Fixtures.{books, books-Reconciles, cash}

cash-Reconciles_example :
    Reconciles (create_income 7 (cash (pos 3000)) 61 books).1
    × Reconciles (create_expense 7 (cash (pos 3000)) 61 books).1
cash-Reconciles_example = cash-Reconciles 7 (cash (pos 3000)) 61 books books-Reconciles

create_income-CashOutcome_example :
    Ensures
      (CashOutcome 7 (cash (pos 3000)) 61 EventType.income inflow books)
      (create_income 7 (cash (pos 3000)) 61 books)
create_income-CashOutcome_example = create_income-CashOutcome 7 (cash (pos 3000)) 61 books

create_expense-CashOutcome_example :
    Ensures
      (CashOutcome 7 (cash (pos 3000)) 61 EventType.expense outflow books)
      (create_expense 7 (cash (pos 3000)) 61 books)
create_expense-CashOutcome_example = create_expense-CashOutcome 7 (cash (pos 3000)) 61 books

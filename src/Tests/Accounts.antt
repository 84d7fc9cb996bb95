-- ===== src/Tests/Accounts.antt =====
-- An account is opened with a balance, adjusted and archived.
use nexum_backend.Store.Tables.{find_account, find_command}
use nexum_backend.Accounts.Adjusted.{create_balance_adjustment-Adjusts}
use nexum_backend.Accounts.Adjustment.{create_balance_adjustment}
use nexum_backend.Accounts.Opening.{create_account-Reconciles, set_account-Reconciles}
use nexum_backend.Store.Models.{AccountType}
use nexum_backend.Prelude.{some, codes, ◌≡◌, none, refl, false}
use nexum_backend.Store.Tables.{balance_of}
use nexum_backend.Ledger.Balance.{Reconciles}
use nexum_backend.Accounts.Service.{
  AccountCreate, BalanceAdjustmentCreate, AccountUpdate, Naming, create_account, archive_account,
  restore_account, update_account, normalize_name, collapse_spaces, join_spaced, pieces,
}
use nexum_backend.Store.Ensures.{Ensures}
use nexum_backend.Tests.Fixtures.{books, books-Reconciles}
use nexum_backend.Prelude.Int.{pos}

abbrev names : Naming
names = record { lowered = λ t. t; db_lowered = λ t. t; decomposed = λ t. t; is_mark = λ c. false }

abbrev wallet : AccountCreate
wallet = record {
  name = codes "wallet";
  kind = AccountType.wallet;
  currency = codes "COP";
  initial_balance = pos 300;
}

create_account-Reconciles_example : Reconciles (create_account names 7 wallet 800 books).1
unfolding find_account find_command
create_account-Reconciles_example =
    create_account-Reconciles names 7 wallet 800 books refl refl books-Reconciles

abbrev renaming : AccountUpdate
renaming = record { name = some (codes "daily"); kind = none }

set_account-Reconciles_example :
    Reconciles (archive_account 7 1 books).1
    × Reconciles (restore_account 7 1 books).1
    × Reconciles (update_account names 7 1 renaming books).1
set_account-Reconciles_example = set_account-Reconciles names 7 1 renaming books books-Reconciles

abbrev counted : BalanceAdjustmentCreate
counted = record { target_balance = 450000; reason = codes "counted"; idempotency_key = 801 }

create_balance_adjustment-Adjusts_example :
    Ensures
      (λ _ d. balance_of 1 d.accounts ≡ pos 450000)
      (create_balance_adjustment 7 1 counted books)
    × Reconciles (create_balance_adjustment 7 1 counted books).1
unfolding find_command
create_balance_adjustment-Adjusts_example =
    create_balance_adjustment-Adjusts 7 1 counted books refl books-Reconciles

-- Spaces at the ends go, and one is left between words.
spaces : normalize_name names (codes "  my  wallet ") ≡ codes "my wallet"
unfolding normalize_name collapse_spaces join_spaced pieces
spaces = refl

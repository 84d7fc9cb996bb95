-- ===== src/Accounts/Repository.antt =====
-- `AccountRepository` (app/accounts/repository.py).
use nexum_backend.Prelude.{ℕ, Bool, ◌||◌, Option, none, some, if◌then◌else◌}
use nexum_backend.Prelude.Int.{ℤ, pos, ◌+ℤ◌, ltb_ℤ}
use nexum_backend.Store.Models.{Account}
use nexum_backend.Store.Monad.{
  Db, integrity, type_error, accounts_balance_check, Action, gets, or_raise, raise_if, modify,
  ◌>>=◌, ◌>>◌, numeric_out_of_range,
}
use nexum_backend.Store.Tables.{find_account, set_balance, overflows}

-- `get_by_id` and `get_by_id_for_update`: an archived account is found only if asked for.
unfoldable pub get_by_id : ℕ → Bool → Db → Option Account
get_by_id account_id include_inactive db = elim (find_account account_id db.accounts) [
  | none ↦ none
  | some a ↦ if include_inactive || a.is_active then some a else none
]

-- The flush of a new balance: the column NUMERIC(14, 2) refuses what it cannot hold, and
-- `accounts_balance_check` what is below zero.
unfoldable pub flush_balance : ℕ → ℤ → Action (Unit {0})
flush_balance account_id balance = do
  raise_if (overflows balance) numeric_out_of_range
  raise_if (ltb_ℤ balance (pos 0)) (integrity accounts_balance_check)
  modify (λ db. record db { accounts = set_balance account_id (some balance) db.accounts })

-- `account.balance += amount_diff; flush()` on the row of the session with that id.
unfoldable pub update_balance : ℕ → ℤ → Action (Unit {0})
unfolding flush_balance
update_balance account_id amount_diff = do
  account ← or_raise (← gets (λ db. find_account account_id db.accounts)) type_error
  balance ← or_raise account.balance type_error
  flush_balance account_id (balance +ℤ amount_diff)

-- ===== src/Transfers/Guards.antt =====
-- What the guards of `create_transfer` let through.
use nexum_backend.Prelude.Int.{pos, ◌≤ℤ◌}
use nexum_backend.Store.Tables.{find_account, find_transfer_command, shown}
use nexum_backend.Store.Ensures.{Ensures, IsCheck, bind_ok}
use nexum_backend.Transfers.Fx.{
  convert_same, TransferCreate, convert_cross, convert_with, check_snapshot,
}
use nexum_backend.Accounts.Repository.{get_by_id}
use nexum_backend.Store.Monad.{Db, ok, Result}
use nexum_backend.Transfers.Create.{
  check_accounts, insert_transfer, lock_accounts, convert, check_roles,
}
use nexum_backend.Prelude.{
  false, inl, inr, ℕ, true, min, Bool, ◌≡◌, arith, max, some, ◌∷◌, ◌+◌, ◌⊎◌, ◌<◌, none, Option,
  subst, ap, sym, ◌∙◌,
}
use nexum_backend.Store.Models.{Account, Transfer}

get_by_id_any : (k : ℕ) (db : Db) → get_by_id k true db ≡ find_account k db.accounts
unfolding get_by_id
get_by_id_any k db = ground arith

min-cases : (a b : ℕ) → ((min a b ≡ a) × (max a b ≡ b)) ⊎ ((min a b ≡ b) × (max a b ≡ a) × (b < a))
min-cases a b = omega arith

-- Whatever the order in which the two rows are locked, the source and the destination of the
-- payload each get the row of their own id, and nothing is written.
pub lock_accounts_lem :
    (payload : TransferCreate) (db : Db)
    → lock_accounts payload db ≡ (
      ok (
        find_account payload.source_account_id db.accounts,
        find_account payload.destination_account_id db.accounts,
      ),
      db,
    )
unfolding lock_accounts
lock_accounts_lem payload db =
    elim (min-cases payload.source_account_id payload.destination_account_id) [
      | inl h ↦ rw (h.0, h.1) (ground arith)
      | inr h ↦ rw (h.0, h.1) (ground arith)
    ]

-- The two accounts of a transfer that passes the checks.
pub record Passed (user_id : ℕ) (payload : TransferCreate) (source dest : Account) (db : Db)
    : Type 0 where
  pub source_found : find_account payload.source_account_id db.accounts ≡ some source
  pub dest_found : find_account payload.destination_account_id db.accounts ≡ some dest
  pub source_owned : source.user_id ≡ some user_id
  pub dest_owned : dest.user_id ≡ some user_id
  pub source_active : source.is_active ≡ true
  pub dest_active : dest.is_active ≡ true
  pub funded : pos payload.amount ≤ℤ shown (some source)

check_roles-Passed :
    (user_id : ℕ) (payload : TransferCreate) (db : Db)
    → Ensures
        (λ p db'. (db' ≡ db) × Passed user_id payload p.0 p.1 db)
        (check_roles user_id payload
          (find_account payload.source_account_id db.accounts)
          (find_account payload.destination_account_id db.accounts)
          db)
unfolding check_roles
check_roles-Passed user_id payload db = ground arith

check_accounts_lem :
    (user_id : ℕ) (payload : TransferCreate) (db : Db)
    → check_accounts user_id payload db
      ≡ check_roles user_id payload
          (find_account payload.source_account_id db.accounts)
          (find_account payload.destination_account_id db.accounts)
          db
unfolding check_accounts
check_accounts_lem user_id payload db =
    bind_ok (lock_accounts payload) (λ locked. check_roles user_id payload locked.0 locked.1) db _
      db (lock_accounts_lem payload db)

pub check_accounts-Passed :
    (user_id : ℕ) (payload : TransferCreate) (db : Db)
    → Ensures
        (λ p db'. (db' ≡ db) × Passed user_id payload p.0 p.1 db)
        (check_accounts user_id payload db)
unfolding check_accounts
check_accounts-Passed user_id payload db =
    subst (Ensures _) (sym (check_accounts_lem user_id payload db))
      (check_roles-Passed user_id payload db)

check_roles-pure :
    (user_id : ℕ) (payload : TransferCreate) (s d : Option Account) (db : Db)
    → (check_roles user_id payload s d db).1 ≡ db
unfolding check_roles
check_roles-pure user_id payload s d db = ground arith

pub check_accounts-IsCheck :
    (user_id : ℕ) (payload : TransferCreate) → IsCheck (check_accounts user_id payload)
unfolding check_accounts
check_accounts-IsCheck user_id payload = record {
  at = λ db.
      ap (λ (p : Result (Account × Account) × Db). p.1) (check_accounts_lem user_id payload db)
      ∙ check_roles-pure user_id payload _ _ db;
}

pub convert-IsCheck :
    (payload : TransferCreate) (source dest : Account) → IsCheck (convert payload source dest)
unfolding convert convert_same convert_cross convert_with check_snapshot
convert-IsCheck payload source dest = record { at = λ db. ground arith }

-- How the insert of a transfer ends.
abbrev pub Saves : Transfer → Db → Transfer × Bool → Db → Type 0
Saves row db (saved, true) db' =
    (saved ≡ row)
    × (db' ≡ record db { transfers = row ∷ db.transfers; next_id = db.next_id + 1 })
    × (find_transfer_command row.command_id db.transfers ≡ none)
Saves row db (saved, false) db' =
    (db' ≡ db) × (find_transfer_command row.command_id db.transfers ≡ some saved)

pub insert_transfer-Saves :
    (row : Transfer) (db : Db) → Ensures (Saves row db) (insert_transfer row db)
unfolding insert_transfer
insert_transfer-Saves row db = ground arith

-- ===== src/Accounts/Effects.antt =====
-- What the account repository does to the balances.
use nexum_backend.Prelude.{
  ℕ, ◌≡◌, refl, false, none, some, List, arith, ◌==◌, inl, inr, Option-cases, if◌then◌else◌,
  Bool-cases,
}
use nexum_backend.Prelude.Int.{ℤ, pos, ◌+ℤ◌, ◌≤ℤ◌, ltb_ℤ, int_laws}
use nexum_backend.Store.Models.{Account}
use nexum_backend.Store.Monad.{
  Db, ok, err, type_error, integrity, accounts_balance_check, numeric_out_of_range,
}
use nexum_backend.Store.Ensures.{Ensures}
use nexum_backend.Store.Tables.{
  find_account, set_balance, balance_of, find_account-set_balance, overflows,
}
use nexum_backend.Accounts.Repository.{update_balance}

-- The balance of account `k` moved by `d`, to no less than zero, and nothing else did.
pub record Shifts (k : ℕ) (d : ℤ) (db db' : Db) : Type 0 where
  pub balances :
      (j : ℕ)
      → balance_of j db'.accounts ≡ balance_of j db.accounts +ℤ (if k == j then d else pos 0)
  pub covered : pos 0 ≤ℤ balance_of k db'.accounts
  pub rest : db' ≡ record db { accounts = db'.accounts }

pub balance_of-set :
    (j k : ℕ) (b d : ℤ) (a : Account) (rows : List Account)
    → find_account k rows ≡ some a
    → a.balance ≡ some b
    → balance_of j (set_balance k (some (b +ℤ d)) rows)
      ≡ balance_of j rows +ℤ (if k == j then d else pos 0)
balance_of-set j k b d a rows h hb =
    rw (find_account-set_balance j k (some (b +ℤ d)) rows) (grind int_laws)

module _ (k : ℕ) (d : ℤ) (db : Db) (a : Account) (found : find_account k db.accounts ≡ some a) where
  -- On a row that has a balance: the column and its check constraint decide.
  pub update_balance_found :
      (b : ℤ)
      → a.balance ≡ some b
      → update_balance k d db ≡ (
          if overflows (b +ℤ d)
          then (err numeric_out_of_range, db)
          else if ltb_ℤ (b +ℤ d) (pos 0)
          then (err (integrity accounts_balance_check), db)
          else (ok tt, record db { accounts = set_balance k (some (b +ℤ d)) db.accounts }))
  unfolding update_balance
  update_balance_found b hb = ground arith

  pub update_balance_null : a.balance ≡ none → update_balance k d db ≡ (err type_error, db)
  unfolding update_balance
  update_balance_null hb = ground arith

pub update_balance_missing :
    (k : ℕ) (d : ℤ) (db : Db)
    → find_account k db.accounts ≡ none
    → update_balance k d db ≡ (err type_error, db)
unfolding update_balance
update_balance_missing k d db h = ground arith

shift_found :
    (k : ℕ) (b d : ℤ) (a : Account) (db : Db)
    → find_account k db.accounts ≡ some a
    → a.balance ≡ some b
    → ltb_ℤ (b +ℤ d) (pos 0) ≡ false
    → Shifts k d db (record db { accounts = set_balance k (some (b +ℤ d)) db.accounts })
shift_found k b d a db h hb t = record {
  balances = λ j. balance_of-set j k b d a db.accounts h hb;
  covered = rw (find_account-set_balance k k (some (b +ℤ d)) db.accounts) (ground arith);
  rest = refl;
}

-- A return of `update_balance` moved one balance by the difference, to no less than zero.
pub update_balance-Shifts :
    (k : ℕ) (d : ℤ) (db : Db) → Ensures (λ _. Shifts k d db) (update_balance k d db)
update_balance-Shifts k d db = elim (Option-cases (find_account k db.accounts)) [
  | inl h ↦ rw (update_balance_missing k d db h) tt
  | inr (a, h) ↦ elim (Option-cases a.balance) [
    | inl hb ↦ rw (update_balance_null k d db a h hb) tt
    | inr (b, hb) ↦
        rw (update_balance_found k d db a h b hb) (elim (Bool-cases (overflows (b +ℤ d))) [
          | inl o ↦ rw o tt
          | inr o ↦ elim (Bool-cases (ltb_ℤ (b +ℤ d) (pos 0))) [
            | inl t ↦ rw (o, t) tt
            | inr t ↦ rw (o, t) (shift_found k b d a db h hb t)
          ]
        ])
  ]
]

-- ===== src/Tests/Transfers.antt =====
-- Runs of `create_transfer`, and its theorems on them.
use nexum_backend.Store.Tables.{find_account, find_transfer_command}
use nexum_backend.Store.Monad.{Db, ok}
use nexum_backend.Prelude.Int.{pos, int_laws}
use nexum_backend.Store.Ensures.{IsAtomic, Ensures}
use nexum_backend.Prelude.{refl, ◌≡◌, true, false, none, some, arith, codes}
use nexum_backend.Transfers.Books.{create_transfer-Reconciles, create_transfer-IsMade, IsMade}
use nexum_backend.Transfers.Outcome.{create_transfer-IsAtomic, create_transfer-Outcome, Outcome}
use nexum_backend.Transfers.Retry.{create_transfer-again}
use nexum_backend.Transfers.Progress.{create_transfer_succeeds, IsPayable}
use nexum_backend.Transfers.Create.{create_transfer, TransferResult}
use nexum_backend.Tests.Fixtures.{books, books-Reconciles, payment, account}
use nexum_backend.Ledger.Balance.{Reconciles}

-- A transfer of 25 pesos that the call accepts.
payable :
    IsPayable 7
      (payment 1 2 2500)
      (account 1 500000 (codes "COP"))
      (account 2 1000 (codes "COP"))
      (pos 500000)
      (pos 1000)
      books
unfolding find_account find_transfer_command
payable = record {
  distinct = ground arith;
  fresh = refl;
  source_found = refl;
  dest_found = refl;
  source_owned = refl;
  dest_owned = refl;
  source_active = refl;
  dest_active = refl;
  source_balance = refl;
  dest_balance = refl;
  dest_nonneg = ground arith;
  funded = ground arith;
  source_stored = ground arith;
  room = omega int_laws;
  positive = ground arith;
  in_range = ground arith;
  same_currency = refl;
  iso_code = refl;
  no_snapshot = refl;
}

abbrev first : TransferResult
first = (create_transfer_succeeds 7 (payment 1 2 2500) _ _ _ _ books payable).0

abbrev after_first : Db
after_first = (create_transfer_succeeds 7 (payment 1 2 2500) _ _ _ _ books payable).1

create_transfer-Reconciles_example : Reconciles (create_transfer 7 (payment 1 2 2500) books).1
create_transfer-Reconciles_example =
    create_transfer-Reconciles 7 (payment 1 2 2500) books books-Reconciles

create_transfer-IsMade_example :
    Ensures (IsMade 7 (payment 1 2 2500) books) (create_transfer 7 (payment 1 2 2500) books)
create_transfer-IsMade_example = create_transfer-IsMade 7 (payment 1 2 2500) books

create_transfer-IsAtomic_example : IsAtomic books (create_transfer 7 (payment 1 2 900000) books)
create_transfer-IsAtomic_example = create_transfer-IsAtomic 7 (payment 1 2 900000) books

create_transfer-Outcome_example :
    Ensures (Outcome 7 (payment 1 2 2500) books) (create_transfer 7 (payment 1 2 2500) books)
create_transfer-Outcome_example = create_transfer-Outcome 7 (payment 1 2 2500) books

create_transfer_succeeds_example :
    (r : TransferResult) × (db' : Db) × (create_transfer 7 (payment 1 2 2500) books ≡ (ok r, db'))
    × (r.is_idempotent ≡ false)
    × (r.transfer.command_id ≡ 55)
    × (r.transfer.target_amount ≡ some (pos 2500))
create_transfer_succeeds_example =
    create_transfer_succeeds 7 (payment 1 2 2500) _ _ _ _ books payable

create_transfer-again_example : create_transfer 7 (payment 1 2 2500) after_first ≡ (
  ok (record { transfer = first.transfer; is_idempotent = true; ledger_events = none }),
  after_first,
)
create_transfer-again_example =
    create_transfer-again 7 (payment 1 2 2500) books first after_first
      (create_transfer_succeeds 7 (payment 1 2 2500) _ _ _ _ books payable).2

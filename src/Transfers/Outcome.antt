-- ===== src/Transfers/Outcome.antt =====
-- How `create_transfer` ends.
use nexum_backend.Transfers.Moves.{Settled, settle-Settled}
use nexum_backend.Store.Ensures.{
  Ensures, Ensures-map, Ensures-bind, check-then, IsAtomic, raise_if-IsCheck, Ensures-transaction,
  transaction-IsAtomic,
}
use nexum_backend.Transfers.Guards.{
  Passed, Saves, check_accounts-Passed, convert-IsCheck, insert_transfer-Saves,
}
use nexum_backend.Store.Tables.{find_transfer_command}
use nexum_backend.Transfers.Create.{
  TransferResult, replay, finish_transfer, matches_command, convert, settle, transfer_row,
  transfer_block, create_transfer, transfer_between, check_accounts, insert_transfer,
  transfer_unless,
}
use nexum_backend.Transfers.Fx.{TransferCreate, Conversion}
use nexum_backend.Store.Monad.{Db, ok, gets, ◌>>=◌, Action, raise_if, validation, same_account}
use nexum_backend.Prelude.{
  refl, inl, inr, ◌≡◌, true, false, ℕ, ◌∷◌, ◌+◌, ◌⊎◌, some, Bool-cases, none, Bool, subst₂, sym,
  subst, Option, ◌==◌,
}
use nexum_backend.Store.Models.{Account, Transfer}

abbrev pub add_transfer : Transfer → Db → Db
add_transfer row db = record db { transfers = row ∷ db.transfers; next_id = db.next_id + 1 }

-- A new transfer: checked accounts, a conversion, a command id that was free, and a settlement.
pub record IsNew (user_id : ℕ) (payload : TransferCreate) (db : Db) (r : TransferResult) (db' : Db)
    : Type 0 where
  pub source : Account
  pub dest : Account
  pub fx : Conversion
  pub passed : Passed user_id payload source dest db
  pub converted : convert payload source dest db ≡ (ok fx, db)
  pub free : find_transfer_command payload.command_id db.transfers ≡ none
  pub settled :
      Settled user_id payload source dest fx
        (transfer_row user_id payload source fx db)
        (add_transfer (transfer_row user_id payload source fx db) db)
        r
        db'

-- A replay: the stored transfer of the same command and payload, and no write.
pub record IsReplay (user_id : ℕ) (payload : TransferCreate) (db : Db) (r : TransferResult)
    (db' : Db) : Type 0 where
  pub found : find_transfer_command payload.command_id db.transfers ≡ some r.transfer
  pub matches : matches_command r.transfer user_id payload ≡ true
  pub result : r ≡ record { transfer = r.transfer; is_idempotent = true; ledger_events = none }
  pub unchanged : db' ≡ db

abbrev pub Outcome : ℕ → TransferCreate → Db → TransferResult → Db → Type 0
Outcome user_id payload db r db' =
    IsNew user_id payload db r db' ⊎ IsReplay user_id payload db r db'

module _ (user_id : ℕ) (payload : TransferCreate) (db : Db) where
  replay-IsReplay :
      (existing : Transfer)
      → find_transfer_command payload.command_id db.transfers ≡ some existing
      → Ensures (Outcome user_id payload db) (replay existing user_id payload db)
  unfolding replay
  replay-IsReplay existing found = elim (Bool-cases (matches_command existing user_id payload)) [
    | inl h ↦ rw h (inr (record { found = found; matches = h; result = refl; unchanged = refl }))
    | inr h ↦ rw h tt
  ]

  module _ (source dest : Account) (passed : Passed user_id payload source dest db) where
    finish_new :
        (fx : Conversion)
        → convert payload source dest db ≡ (ok fx, db)
        → find_transfer_command payload.command_id db.transfers ≡ none
        → Ensures (Outcome user_id payload db) (
            settle user_id payload source dest fx
              (transfer_row user_id payload source fx db)
              (add_transfer (transfer_row user_id payload source fx db) db))
    finish_new fx converted free =
        Ensures-map
          (Settled user_id payload source dest fx (transfer_row user_id payload source fx db)
            (add_transfer (transfer_row user_id payload source fx db) db))
          (Outcome user_id payload db) _
          (settle-Settled user_id payload source dest fx (transfer_row user_id payload source fx db)
            (add_transfer (transfer_row user_id payload source fx db) db))
          λ r db' settled. inl (record {
            source = source;
            dest = dest;
            fx = fx;
            passed = passed;
            converted = converted;
            free = free;
            settled = settled;
          })

    finish :
        (fx : Conversion)
        → convert payload source dest db ≡ (ok fx, db)
        → (saved : Transfer × Bool) (d : Db)
        → Saves (transfer_row user_id payload source fx db) db saved d
        → Ensures
            (Outcome user_id payload db)
            (finish_transfer user_id payload source dest fx saved d)
    unfolding finish_transfer
    finish fx converted (saved, true) d h =
        subst₂
          (λ s x. Ensures (Outcome user_id payload db) (settle user_id payload source dest fx s x))
          (sym h.0) (sym h.1) (finish_new fx converted h.2)
    finish fx converted (saved, false) d h =
        subst (λ x. Ensures (Outcome user_id payload db) (replay saved user_id payload x)) (sym h.0)
          (replay-IsReplay saved h.1)

    between : Ensures (Outcome user_id payload db) (transfer_between user_id payload source dest db)
    unfolding transfer_between
    between =
        check-then (Ensures (Outcome user_id payload db)) (convert payload source dest)
          (λ fx. gets (transfer_row user_id payload source fx) >>= λ row.
            insert_transfer row >>= λ saved. finish_transfer user_id payload source dest fx saved)
          db (convert-IsCheck payload source dest) (λ e. tt)
          λ fx converted.
            Ensures-bind (Saves (transfer_row user_id payload source fx db) db)
              (Outcome user_id payload db)
              (insert_transfer (transfer_row user_id payload source fx db))
              (finish_transfer user_id payload source dest fx) db
              (insert_transfer-Saves (transfer_row user_id payload source fx db) db)
              (finish fx converted)

  block : Ensures (Outcome user_id payload db) (transfer_block user_id payload db)
  unfolding transfer_block
  block =
      Ensures-bind (λ p db'. (db' ≡ db) × Passed user_id payload p.0 p.1 db)
        (Outcome user_id payload db) (check_accounts user_id payload)
        (λ accounts. transfer_between user_id payload accounts.0 accounts.1) db
        (check_accounts-Passed user_id payload db)
        λ p d h.
          subst
            (λ x. Ensures (Outcome user_id payload db) (transfer_between user_id payload p.0 p.1 x))
            (sym h.0) (between p.0 p.1 h.1)

  unless :
      (o : Option Transfer)
      → find_transfer_command payload.command_id db.transfers ≡ o
      → Ensures (Outcome user_id payload db) (transfer_unless o user_id payload db)
  unfolding transfer_unless
  unless (some existing) found = replay-IsReplay existing found
  unless none found =
      Ensures-transaction (Outcome user_id payload db) (transfer_block user_id payload) db block

  unless-IsAtomic : (o : Option Transfer) → IsAtomic db (transfer_unless o user_id payload db)
  unfolding transfer_unless replay
  unless-IsAtomic (some existing) = elim (Bool-cases (matches_command existing user_id payload)) [
    | inl h ↦ rw h tt
    | inr h ↦ rw h refl
  ]
  unless-IsAtomic none = transaction-IsAtomic (transfer_block user_id payload) db

  abbrev same_account_check : Action (Unit {0})
  same_account_check =
      raise_if (payload.source_account_id == payload.destination_account_id)
        (validation same_account)

  abbrev rest : Unit {0} → Action TransferResult
  rest _ = gets (λ db. find_transfer_command payload.command_id db.transfers) >>= λ existing.
      transfer_unless existing user_id payload

  -- A call of `create_transfer` that returns has made a new transfer, with checked accounts, the
  -- conversion and a free command id, or has replayed the stored one of the same command.
  pub create_transfer-Outcome :
      Ensures (Outcome user_id payload db) (create_transfer user_id payload db)
  unfolding create_transfer
  create_transfer-Outcome =
      check-then (Ensures (Outcome user_id payload db)) same_account_check rest db
        (raise_if-IsCheck _ _) (λ e. tt)
        (λ _ _. unless (find_transfer_command payload.command_id db.transfers) refl)

  -- A call of `create_transfer` that fails has written nothing.
  pub create_transfer-IsAtomic : IsAtomic db (create_transfer user_id payload db)
  unfolding create_transfer
  create_transfer-IsAtomic =
      check-then (IsAtomic db) same_account_check rest db (raise_if-IsCheck _ _) (λ e. refl)
        (λ _ _. unless-IsAtomic (find_transfer_command payload.command_id db.transfers))

-- ===== src/Transfers/Create.antt =====
-- `create_transfer` (app/transfers/service.py) with the repository's insert.
use nexum_backend.Prelude.{
  ℕ, ◌+◌, Bool, true, false, not, ◌&&◌, ◌||◌, Option, none, some, ◌∷◌, ◌==◌, min, max, text_eq,
  if◌then◌else◌,
}
use nexum_backend.Prelude.Int.{pos, ltb_ℤ, leb_ℤ, eqb_ℤ, neg_ℤ}
use nexum_backend.Store.Models.{
  Account, transfer_out, transfer_in, inflow, outflow, backend, Transfer, completed, TransferStatus,
}
use nexum_backend.Store.Monad.{
  Db, Code, Error, validation, conflict, not_found, integrity, insufficient_funds,
  numeric_out_of_range, same_account, idempotency_key_reused, source_account_not_found,
  destination_account_not_found, source_account_inactive, destination_account_inactive,
  account_balance_invalid, transfer_integrity_conflict, transfers_command_id_key, Action, pure,
  raise, gets, or_raise, raise_if, modify, ◌>>=◌, ◌>>◌,
}
use nexum_backend.Store.Atomic.{transaction, savepoint, catch}
use nexum_backend.Store.Tables.{
  opt_eq, opt_eq_opt, opt_text_eq, find_transfer_command, numeric_limit,
}
use nexum_backend.Ledger.Insert.{LedgerEventCreate, record_event}
use nexum_backend.Accounts.Repository.{get_by_id, update_balance}
use nexum_backend.Transfers.Fx.{TransferCreate, Conversion, convert_cross, convert_same}

pub record TransferResult : Type 0 where
  pub transfer : Transfer
  pub is_idempotent : Bool
  -- the ids of the events out of the source and into the destination
  pub ledger_events : Option (ℕ × ℕ)

abbrev is_completed : TransferStatus → Bool
is_completed completed = true
is_completed _ = false

-- `_matches_command`
unfoldable pub matches_command : Transfer → ℕ → TransferCreate → Bool
matches_command existing user_id payload =
    existing.user_id == user_id
    && existing.source_account_id == payload.source_account_id
    && existing.destination_account_id == payload.destination_account_id
    && eqb_ℤ existing.amount (pos payload.amount)
    && opt_text_eq existing.description payload.description
    && opt_eq_opt existing.source_message_id payload.source_message_id
    && opt_eq_opt existing.rate_snapshot_id payload.rate_snapshot_id
    && opt_text_eq existing.raw_message payload.raw_message
    && is_completed existing.status
    && elim payload.occurred_at [ none ↦ true | some t ↦ existing.created_at == t ]

-- A transfer found under the command id: the stored result again, or a conflict.
unfoldable pub replay : Transfer → ℕ → TransferCreate → Action TransferResult
replay existing user_id payload = do
  raise_if (not (matches_command existing user_id payload)) (conflict idempotency_key_reused)
  pure (record { transfer = existing; is_idempotent = true; ledger_events = none })

-- The two rows are locked in the order of their ids, and then take their roles.
unfoldable pub lock_accounts : TransferCreate → Action (Option Account × Option Account)
unfolding get_by_id
lock_accounts payload = do
  let first_id = min payload.source_account_id payload.destination_account_id
  let second_id = max payload.source_account_id payload.destination_account_id
  first ← gets (get_by_id first_id true)
  second ← gets (get_by_id second_id true)
  let source = if first_id == payload.source_account_id then first else second
  let dest = if first_id == payload.destination_account_id then first else second
  pure (source, dest)

-- `if not account or account.user_id != user_id: raise NotFoundError`
abbrev pub owned : Option Account → ℕ → Code → Action Account
owned account user_id code = do
  row ← or_raise account (not_found code)
  raise_if (not (opt_eq row.user_id user_id)) (not_found code)
  pure row

-- The checks on the two accounts; what passes is the pair.
unfoldable pub check_roles :
    ℕ → TransferCreate → Option Account → Option Account → Action (Account × Account)
check_roles user_id payload source_row dest_row = do
  source ← owned source_row user_id source_account_not_found
  dest ← owned dest_row user_id destination_account_not_found
  raise_if (not source.is_active) (validation source_account_inactive)
  raise_if (not dest.is_active) (validation destination_account_inactive)
  balance ← or_raise source.balance (conflict account_balance_invalid)
  dest_balance ← or_raise dest.balance (conflict account_balance_invalid)
  raise_if (ltb_ℤ balance (pos payload.amount)) insufficient_funds
  pure (source, dest)

unfoldable pub check_accounts : ℕ → TransferCreate → Action (Account × Account)
check_accounts user_id payload = do
  locked ← lock_accounts payload
  check_roles user_id payload locked.0 locked.1

unfoldable pub convert : TransferCreate → Account → Account → Action Conversion
convert payload source dest =
    if text_eq source.currency dest.currency
    then convert_same payload source
    else convert_cross payload source dest

abbrev pub transfer_row : ℕ → TransferCreate → Account → Conversion → Db → Transfer
transfer_row user_id payload source fx db = record {
  id = db.next_id;
  user_id = user_id;
  source_account_id = payload.source_account_id;
  destination_account_id = payload.destination_account_id;
  amount = pos payload.amount;
  currency = source.currency;
  target_amount = some fx.target_amount;
  target_currency = some fx.target_currency;
  fx_rate = fx.fx_rate;
  rate_source = fx.rate_source;
  rate_timestamp = fx.rate_timestamp;
  rate_snapshot_id = fx.rate_snapshot_id;
  is_estimated = false;
  description = payload.description;
  command_id = payload.command_id;
  source_message_id = payload.source_message_id;
  raw_message = payload.raw_message;
  status = completed;
  created_at = elim payload.occurred_at [ none ↦ db.now | some t ↦ t ];
}

-- `session.add(transfer); flush()`, with the unique key of `transfers.command_id`.
unfoldable pub flush_transfer : Transfer → Action Transfer
flush_transfer row = do
  raise_if
      (leb_ℤ numeric_limit row.amount
        || elim row.target_amount [ none ↦ false | some a ↦ leb_ℤ numeric_limit a ])
      numeric_out_of_range
  taken ← gets (λ db. find_transfer_command row.command_id db.transfers)
  raise_if (elim taken [ none ↦ false | some _ ↦ true ]) (integrity transfers_command_id_key)
  modify (λ db. record db { transfers = row ∷ db.transfers; next_id = db.next_id + 1 })
  pure row

-- The handler of IntegrityError in `TransfersRepository.create_transfer`.
unfoldable pub recover_transfer : Transfer → Error → Action (Transfer × Bool)
recover_transfer row (integrity transfers_command_id_key) = do
  found ← gets (λ db. find_transfer_command row.command_id db.transfers)
  existing ← or_raise found (conflict transfer_integrity_conflict)
  pure (existing, false)
recover_transfer row (integrity _) = raise (conflict transfer_integrity_conflict)
recover_transfer row error = raise error

-- `TransfersRepository.create_transfer`, with whether the row that it returns is the new one.
unfoldable pub insert_transfer : Transfer → Action (Transfer × Bool)
unfolding flush_transfer recover_transfer savepoint catch
insert_transfer row =
    catch (do saved ← savepoint (flush_transfer row); pure (saved, true)) (recover_transfer row)

-- `out_event_create`
abbrev pub out_event : ℕ → TransferCreate → Account → Transfer → LedgerEventCreate
out_event user_id payload source saved = record {
  user_id = user_id;
  account_id = some source.id;
  category_id = none;
  event_type = transfer_out;
  direction = outflow;
  amount = pos payload.amount;
  currency = source.currency;
  description = payload.description;
  raw_message = none;
  source = backend;
  source_message_id = payload.source_message_id;
  occurred_at = payload.occurred_at;
  command_id = none;
  transfer_id = some saved.id;
  fingerprint = none;
}

-- `in_event_create`
abbrev pub in_event : ℕ → TransferCreate → Account → Conversion → Transfer → LedgerEventCreate
in_event user_id payload dest fx saved = record {
  user_id = user_id;
  account_id = some dest.id;
  category_id = none;
  event_type = transfer_in;
  direction = inflow;
  amount = fx.target_amount;
  currency = fx.target_currency;
  description = payload.description;
  raw_message = none;
  source = backend;
  source_message_id = payload.source_message_id;
  occurred_at = payload.occurred_at;
  command_id = none;
  transfer_id = some saved.id;
  fingerprint = none;
}

-- The two balances of a new transfer, and its result.
unfoldable pub settle_balances :
    TransferCreate → Account → Account → Conversion → Transfer → ℕ × ℕ → Action TransferResult
settle_balances payload source dest fx saved event_ids = do
  update_balance source.id (neg_ℤ (pos payload.amount))
  update_balance dest.id fx.target_amount
  pure (record { transfer = saved; is_idempotent = false; ledger_events = some event_ids })

-- What follows the insert of a new transfer.
unfoldable pub settle :
    ℕ → TransferCreate → Account → Account → Conversion → Transfer → Action TransferResult
settle user_id payload source dest fx saved = do
  out_result ← record_event (out_event user_id payload source saved)
  in_result ← record_event (in_event user_id payload dest fx saved)
  settle_balances payload source dest fx saved (out_result.event.id, in_result.event.id)

-- What follows the repository's `create_transfer`: `if saved_transfer is not transfer` replays.
unfoldable pub finish_transfer :
    ℕ → TransferCreate → Account → Account → Conversion → Transfer × Bool → Action TransferResult
finish_transfer user_id payload source dest fx (saved, true) =
    settle user_id payload source dest fx saved
finish_transfer user_id payload source dest fx (saved, false) = replay saved user_id payload

-- The block under `uow.transaction()`, once the accounts are checked.
unfoldable pub transfer_between : ℕ → TransferCreate → Account → Account → Action TransferResult
transfer_between user_id payload source dest = do
  fx ← convert payload source dest
  row ← gets (transfer_row user_id payload source fx)
  saved ← insert_transfer row
  finish_transfer user_id payload source dest fx saved

unfoldable pub transfer_block : ℕ → TransferCreate → Action TransferResult
transfer_block user_id payload = do
  accounts ← check_accounts user_id payload
  transfer_between user_id payload accounts.0 accounts.1

-- With the transfer that the command id finds before the transaction, if any.
unfoldable pub transfer_unless : Option Transfer → ℕ → TransferCreate → Action TransferResult
transfer_unless (some existing) user_id payload = replay existing user_id payload
transfer_unless none user_id payload = transaction (transfer_block user_id payload)

unfoldable pub create_transfer : ℕ → TransferCreate → Action TransferResult
create_transfer user_id payload = do
  raise_if (payload.source_account_id == payload.destination_account_id) (validation same_account)
  existing ← gets (λ db. find_transfer_command payload.command_id db.transfers)
  transfer_unless existing user_id payload

-- ===== src/Ledger/Insert.antt =====
-- `LedgerEventCreate` (app/ledger/schemas.py) and `insert_event` with its ownership checks
-- (app/ledger/repository.py).
use nexum_backend.Store.Obligations.{Fingerprint}
use nexum_backend.Prelude.{
  ℕ, ◌+◌, Bool, true, false, not, ◌||◌, Option, none, some, ◌∷◌, ◌==◌, length, Text,
}
use nexum_backend.Prelude.Int.{ℤ, pos, ltb_ℤ, leb_ℤ}
use nexum_backend.Store.Models.{EventType, Direction, Source, FinancialEvent}
use nexum_backend.Store.Monad.{
  Db, Error, forbidden, infrastructure, integrity, invalid_payload, numeric_out_of_range,
  account_not_permitted, global_account, account_not_found, category_not_found,
  category_not_permitted, idempotent_event_lost, idx_financial_events_command_id, Action, pure,
  raise, gets, or_raise, raise_if, modify, ◌>>=◌, ◌>>◌,
}
use nexum_backend.Store.Atomic.{savepoint, catch}
use nexum_backend.Store.Tables.{find_account, find_category, find_command, numeric_limit}

pub record LedgerEventCreate : Type 0 where
  pub user_id : ℕ
  pub account_id : Option ℕ
  pub category_id : Option ℕ
  pub event_type : EventType
  pub direction : Direction
  pub amount : ℤ
  pub currency : Text
  pub description : Option Text
  pub raw_message : Option Text
  pub source : Source
  pub source_message_id : Option ℕ
  pub occurred_at : Option ℕ
  pub command_id : Option ℕ
  pub transfer_id : Option ℕ
  pub fingerprint : Option Fingerprint

pub record LedgerEventResult : Type 0 where
  pub event : FinancialEvent
  pub idempotent : Bool

-- The model's validation: `amount` is above zero and `currency` has three characters.
unfoldable pub event_create : LedgerEventCreate → Action LedgerEventCreate
event_create e = do
  raise_if (not (ltb_ℤ (pos 0) e.amount) || not (length e.currency == 3)) invalid_payload
  pure e

-- `check_account_ownership`: an account of nobody is refused for writes.
unfoldable pub check_account_ownership : ℕ → ℕ → Action (Unit {0})
check_account_ownership account_id user_id = do
  account ← gets (λ db. find_account account_id db.accounts)
  row ← or_raise account (forbidden account_not_found)
  owner ← or_raise row.user_id (forbidden global_account)
  raise_if (not (owner == user_id)) (forbidden account_not_permitted)

-- `check_category_ownership`: a category of nobody is global, and allowed.
unfoldable pub check_category_ownership : ℕ → ℕ → Action (Unit {0})
check_category_ownership category_id user_id = do
  category ← gets (λ db. find_category category_id db.categories)
  row ← or_raise category (forbidden category_not_found)
  raise_if (elim row.user_id [ none ↦ false | some owner ↦ not (owner == user_id) ])
      (forbidden category_not_permitted)

-- `if event_data.account_id:`
abbrev pub when_some : Option ℕ → (ℕ → Action (Unit {0})) → Action (Unit {0})
when_some none f = pure tt
when_some (some k) f = f k

-- The row that the INSERT writes; `occurred_at` falls back on the server's `now()`.
abbrev pub event_row : LedgerEventCreate → Db → FinancialEvent
event_row e db = record {
  id = db.next_id;
  user_id = e.user_id;
  account_id = e.account_id;
  category_id = e.category_id;
  event_type = e.event_type;
  direction = e.direction;
  amount = e.amount;
  currency = e.currency;
  description = e.description;
  raw_message = e.raw_message;
  source = e.source;
  occurred_at = elim e.occurred_at [ none ↦ db.now | some t ↦ t ];
  command_id = e.command_id;
  source_message_id = e.source_message_id;
  transfer_id = e.transfer_id;
  fingerprint = e.fingerprint;
}

-- A command id that is taken violates the partial unique index.
abbrev pub command_taken : Option ℕ → Db → Bool
command_taken none db = false
command_taken (some k) db = elim (find_command k db.events) [ none ↦ false | some _ ↦ true ]

-- `session.add(db_event); flush()`
unfoldable pub flush_event : LedgerEventCreate → Action FinancialEvent
flush_event e = do
  raise_if (leb_ℤ numeric_limit e.amount) numeric_out_of_range
  raise_if (← gets (command_taken e.command_id)) (integrity idx_financial_events_command_id)
  row ← gets (event_row e)
  modify (λ db. record db { events = row ∷ db.events; next_id = db.next_id + 1 })
  pure row

-- The handler of IntegrityError: the event with that command id, if the index was the cause.
unfoldable pub recover_event : LedgerEventCreate → Error → Action LedgerEventResult
recover_event e (integrity idx_financial_events_command_id) = do
  found ← gets (λ db. elim e.command_id [ none ↦ none | some k ↦ find_command k db.events ])
  existing ← or_raise found (infrastructure idempotent_event_lost)
  pure (record { event = existing; idempotent = true })
recover_event e error = raise error

-- Steps 2 to 4 of `insert_event`: the insert under a savepoint, and its handler.
unfoldable pub write_event : LedgerEventCreate → Action LedgerEventResult
unfolding flush_event recover_event savepoint catch
write_event e =
    catch (do row ← savepoint (flush_event e); pure (record { event = row; idempotent = false }))
      (recover_event e)

unfoldable pub check_owners : LedgerEventCreate → Action (Unit {0})
unfolding check_account_ownership check_category_ownership
check_owners e = do
  when_some e.account_id (λ k. check_account_ownership k e.user_id)
  when_some e.category_id (λ k. check_category_ownership k e.user_id)

unfoldable pub insert_event : LedgerEventCreate → Action LedgerEventResult
unfolding check_owners write_event
insert_event e = do check_owners e; write_event e

-- `insert_event(LedgerEventCreate(...))`
unfoldable pub record_event : LedgerEventCreate → Action LedgerEventResult
unfolding event_create
record_event e = do valid ← event_create e; insert_event valid

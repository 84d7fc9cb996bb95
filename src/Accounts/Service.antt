-- ===== src/Accounts/Service.antt =====
-- `AccountService` (app/accounts/service.py), each command in the transaction of its route.
use nexum_backend.Transfers.Fx.{is_space}
use nexum_backend.Goals.Reserves.{reserved_by_account}
use nexum_backend.Accounts.Repository.{get_by_id}
use nexum_backend.Store.Atomic.{transaction}
use nexum_backend.Ledger.Insert.{LedgerEventCreate, record_event}
use nexum_backend.Prelude.Int.{ℤ, ltb_ℤ, pos, ◌-ℤ◌}
use nexum_backend.Store.Tables.{opt_eq, find_account, overflows}
use nexum_backend.Store.Models.{Account, AccountType, EventType, inflow, Source}
use nexum_backend.Store.Monad.{
  ◌>>=◌, ◌>>◌, Action, Db, or_raise, pure, raise_if, gets, modify, validation,
  account_balance_invalid, value_error, not_found, integrity, account_not_found, account_duplicate,
  conflict, accounts_balance_check, account_forbidden, reserve_inconsistent,
  reserves_exceed_balance, numeric_out_of_range,
}
use nexum_backend.Prelude.{
  ◌==◌, ◌&&◌, ◌+◌, Option, Bool, ℕ, Text, some, ◌∷◌, find?, [], text_eq, true, none, update?, false,
  is_empty, not, codes, List, where_, ◌++◌, if◌then◌else◌,
}

-- What the tables of characters give: `str.lower`, `lower` of PostgreSQL, `unicodedata.normalize`
-- under NFD, and whether `unicodedata.category` of a character is Mn.
pub record Naming : Type 0 where
  pub lowered : Text → Text
  pub db_lowered : Text → Text
  pub decomposed : Text → Text
  pub is_mark : ℕ → Bool

abbrev add_word : Text → List Text → List Text
add_word [] words = words
add_word (c ∷ word) words = (c ∷ word) ∷ words

-- The word that a text begins with, and those after it.
unfoldable pub pieces : Text → Text × List Text
pieces [] = ([], [])
pieces (c ∷ s) =
    let rest = pieces s in if is_space c then ([], add_word rest.0 rest.1) else (c ∷ rest.0, rest.1)

-- `" ".join(words)`
unfoldable pub join_spaced : List Text → Text
join_spaced [] = []
join_spaced (word ∷ []) = word
join_spaced (word ∷ next ∷ words) = word ++ b' ' ∷ join_spaced (next ∷ words)

-- `" ".join(text.split())`
unfoldable pub collapse_spaces : Text → Text
collapse_spaces s = join_spaced (add_word (pieces s).0 (pieces s).1)

-- app/core/utils.py; no name is the empty one.
unfoldable pub normalize_name : Naming → Text → Text
normalize_name names [] = []
normalize_name names (c ∷ s) =
    where_ (λ x. not (names.is_mark x)) (names.decomposed (names.lowered (collapse_spaces (c ∷ s))))

unfoldable pub clean_presentation_name : Text → Text
clean_presentation_name [] = []
clean_presentation_name (c ∷ s) = collapse_spaces (c ∷ s)

-- app/accounts/schemas.py
pub record AccountCreate : Type 0 where
  pub name : Text
  pub kind : AccountType
  pub currency : Text
  pub initial_balance : ℤ

pub record AccountUpdate : Type 0 where
  pub name : Option Text
  pub kind : Option AccountType

pub record BalanceAdjustmentCreate : Type 0 where
  pub target_balance : ℕ
  pub reason : Text
  pub idempotency_key : ℕ

pub record AccountRead : Type 0 where
  pub account : Account
  pub available_balance : ℤ

abbrev pub has_name : Naming → ℕ → Text → Account → Bool
has_name names user_id normalized a =
    opt_eq a.user_id user_id && a.is_active && text_eq (names.db_lowered a.name) normalized

-- `check_name_exists` (app/accounts/repository.py)
unfoldable pub check_name_exists : Naming → ℕ → Text → Db → Bool
check_name_exists names user_id normalized db =
    elim (find? (has_name names user_id normalized) db.accounts) [ none ↦ false | some _ ↦ true ]

unfoldable pub set_available_balance : Account → ℤ → Action ℤ
set_available_balance account reserved = do
  balance ← or_raise account.balance (validation account_balance_invalid)
  raise_if (ltb_ℤ reserved (pos 0)) (conflict reserve_inconsistent)
  raise_if (ltb_ℤ (balance -ℤ reserved) (pos 0)) (conflict reserves_exceed_balance)
  pure (balance -ℤ reserved)

-- `_populate_available_balance`, and what a command returns: the row as it is then.
unfoldable pub read_account : ℕ → ℕ → Action AccountRead
read_account user_id account_id = do
  account ←
      or_raise (← gets (λ db. find_account account_id db.accounts)) (not_found account_not_found)
  reserved ← gets (λ db. reserved_by_account account_id user_id db.goal_transactions)
  available ← set_available_balance account reserved
  pure (record { account = account; available_balance = available })

abbrev pub account_row : Naming → ℕ → AccountCreate → ℕ → Account
account_row names user_id payload fresh = record {
  id = fresh;
  user_id = some user_id;
  name = clean_presentation_name payload.name;
  kind = payload.kind;
  balance = some payload.initial_balance;
  currency = payload.currency;
  is_active = true;
}

-- `repository.create`: the insert, the range of the column and its check constraint.
unfoldable pub insert_account : (ℕ → Account) → ℤ → Action ℕ
insert_account row balance = do
  fresh ← gets (λ db. db.next_id)
  raise_if (overflows balance) numeric_out_of_range
  raise_if (ltb_ℤ balance (pos 0)) (integrity accounts_balance_check)
  modify (λ db. record db { accounts = row fresh ∷ db.accounts; next_id = fresh + 1 })
  pure fresh

-- The event of an opening balance; its command is a new UUID.
abbrev pub opening_event : ℕ → AccountCreate → ℕ → ℕ → LedgerEventCreate
opening_event user_id payload account_id command_id = record {
  user_id = user_id;
  account_id = some account_id;
  category_id = none;
  event_type = EventType.opening_balance;
  direction = inflow;
  amount = payload.initial_balance;
  currency = payload.currency;
  description = some (codes "Saldo inicial");
  raw_message = none;
  source = Source.api;
  source_message_id = none;
  occurred_at = none;
  command_id = some command_id;
  transfer_id = none;
  fingerprint = none;
}

-- `if payload.initial_balance > 0`
unfoldable pub open_account : ℕ → AccountCreate → ℕ → ℕ → Action (Unit {0})
open_account user_id payload account_id command_id = elim (ltb_ℤ (pos 0) payload.initial_balance) [
  | true ↦ do record_event (opening_event user_id payload account_id command_id); pure tt
  | false ↦ pure tt
]

unfoldable pub create_block : Naming → ℕ → AccountCreate → ℕ → Action AccountRead
create_block names user_id payload command_id = do
  raise_if (is_empty (normalize_name names payload.name)) value_error
  raise_if (← gets (check_name_exists names user_id (normalize_name names payload.name)))
      account_duplicate
  account_id ← insert_account (account_row names user_id payload) payload.initial_balance
  open_account user_id payload account_id command_id
  read_account user_id account_id

unfoldable pub create_account : Naming → ℕ → AccountCreate → ℕ → Action AccountRead
create_account names user_id payload command_id =
    transaction (create_block names user_id payload command_id)

-- The user's account, archived or not.
unfoldable pub get_account_or_404 : ℕ → ℕ → Action Account
get_account_or_404 user_id account_id = do
  account ← or_raise (← gets (get_by_id account_id true)) (not_found account_not_found)
  raise_if (not (opt_eq account.user_id user_id)) account_forbidden
  pure account

abbrev pub set_account : ℕ → (Account → Account) → Action (Unit {0})
set_account account_id f =
    modify (λ db. record db { accounts = update? (λ a. a.id == account_id) f db.accounts })

abbrev pub set_active : Bool → Account → Account
set_active active a = record a { is_active = active }

-- `archive_account` and `restore_account`
unfoldable pub set_activity : Bool → ℕ → ℕ → Action AccountRead
set_activity active user_id account_id = do
  get_account_or_404 user_id account_id
  set_account account_id (set_active active)
  read_account user_id account_id

unfoldable pub archive_account : ℕ → ℕ → Action AccountRead
archive_account user_id account_id = transaction (set_activity false user_id account_id)

unfoldable pub restore_account : ℕ → ℕ → Action AccountRead
restore_account user_id account_id = transaction (set_activity true user_id account_id)

-- A new name is checked against the others when it is not the old one in disguise.
unfoldable pub check_new_name : Naming → ℕ → Account → Option Text → Action (Unit {0})
check_new_name names user_id account none = pure tt
check_new_name names user_id account (some name) = do
  raise_if (is_empty (normalize_name names name)) value_error
  exists ← gets (check_name_exists names user_id (normalize_name names name))
  raise_if (not (text_eq (normalize_name names account.name) (normalize_name names name)) && exists)
      account_duplicate

abbrev pub apply_update : Naming → AccountUpdate → Account → Account
apply_update names payload a = record a {
  name = elim payload.name [ none ↦ a.name | some name ↦ clean_presentation_name name ];
  kind = elim payload.kind [ none ↦ a.kind | some kind ↦ kind ];
}

unfoldable pub update_block : Naming → ℕ → ℕ → AccountUpdate → Action AccountRead
update_block names user_id account_id payload = do
  account ← get_account_or_404 user_id account_id
  check_new_name names user_id account payload.name
  set_account account_id (apply_update names payload)
  read_account user_id account_id

unfoldable pub update_account : Naming → ℕ → ℕ → AccountUpdate → Action AccountRead
update_account names user_id account_id payload =
    transaction (update_block names user_id account_id payload)

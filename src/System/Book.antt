-- ===== src/System/Book.antt =====
-- The abstract book: what each account holds, and what a command does to it.
use nexum_backend.Obligations.SpecificPayment.{command_for}
use nexum_backend.Obligations.Pays.{Replays, IsOwn}
use nexum_backend.Calendar.{Date}
use nexum_backend.Transfers.Create.{matches_command}
use nexum_backend.Cash.Operations.{CashCreate}
use nexum_backend.System.Commands.{Command, income, expense, transfer, reclassify, pay}
use nexum_backend.Transfers.Target.{calculate_target_amount}
use nexum_backend.Decimal.{Ratio}
use nexum_backend.Obligations.Settling.{IsSettled}
use nexum_backend.Obligations.Settlement.{SettlementResult}
use nexum_backend.Store.Models.{Account, ExchangeRate, FinancialEvent, Transfer}
use nexum_backend.Store.Obligations.{Obligation, ObligationPayment}
use nexum_backend.Prelude.Int.{ℤ, ◌+ℤ◌, neg_ℤ, pos, ◌≤ℤ◌}
use nexum_backend.Obligations.Payments.{PaymentData, settlement_request, stored}
use nexum_backend.Store.Tables.{
  balance_of, find_account, find_rate, find_command, find_transfer_command,
}
use nexum_backend.Transfers.Fx.{TransferCreate, positive_rate}
use nexum_backend.Store.Monad.{Db, ok}
use nexum_backend.Prelude.{
  ◌==◌, if◌then◌else◌, ℕ, ◌≡◌, some, ◌⊎◌, ◌≢◌, Bool, false, true, Text, none,
}

abbrev pub Book : Type 0
Book = ℕ → ℤ

-- The book that the tables show.
abbrev pub shown_book : Db → Book
shown_book db k = balance_of k db.accounts

-- One account gains an amount, which may be negative, and does not end below zero.
pub record Gains (k : ℕ) (d : ℤ) (b b' : Book) : Type 0 where
  pub each : (j : ℕ) → b' j ≡ b j +ℤ (if k == j then d else pos 0)
  pub covered : pos 0 ≤ℤ b' k

-- One account loses an amount that it has, and another gains one.
pub record Passes (s t : ℕ) (a : ℕ) (v : ℤ) (b b' : Book) : Type 0 where
  pub each :
      (j : ℕ)
      → b' j ≡ b j +ℤ ((if s == j then neg_ℤ (pos a) else pos 0) +ℤ (if t == j then v else pos 0))
  pub funded : pos a ≤ℤ b s

-- The amount at the rate of the snapshot that a transfer names.
pub record AtRate (payload : TransferCreate) (db : Db) (target : ℤ) : Type 0 where
  pub snapshot_id : ℕ
  pub named : payload.rate_snapshot_id ≡ some snapshot_id
  pub snapshot : ExchangeRate
  pub found : find_rate snapshot_id db.exchange_rates ≡ some snapshot
  pub rate : Ratio
  pub rated : positive_rate snapshot.rate ≡ some rate
  pub computed : calculate_target_amount payload.amount rate ≡ ok target

-- What the destination of a transfer gains: the amount within one currency, and otherwise the amount
-- at the snapshot's rate.
pub record IsTarget (payload : TransferCreate) (db : Db) (target : ℤ) : Type 0 where
  pub source : Account
  pub dest : Account
  pub source_found : find_account payload.source_account_id db.accounts ≡ some source
  pub dest_found : find_account payload.destination_account_id db.accounts ≡ some dest
  pub amount :
      (source.currency ≡ dest.currency) × (target ≡ pos payload.amount)
      ⊎ (source.currency ≢ dest.currency) × AtRate payload db target

-- What the account of a payment loses: what the settlement of the amount in the account's currency
-- costs it.
pub record IsCost (user_id obligation_id account_id : ℕ) (payload : PaymentData) (db : Db)
    (amount : ℕ) : Type 0 where
  pub obligation : Obligation
  pub account : Account
  pub settlement : SettlementResult
  pub own : IsOwn user_id obligation_id db obligation
  pub account_found : find_account account_id db.accounts ≡ some account
  pub settled :
      IsSettled user_id obligation.currency account.currency
        (settlement_request payload)
        db
        settlement
  pub cost : amount ≡ stored settlement.source_amount

-- The command was carried out before: its event, its transfer or its payment is stored. A
-- reclassification is never for the book.
abbrev pub IsRecorded : Command → Db → Type 0
IsRecorded (income user_id payload command_id) db =
    (e : FinancialEvent) × (find_command command_id db.events ≡ some e)
IsRecorded (expense user_id payload command_id) db =
    (e : FinancialEvent) × (find_command command_id db.events ≡ some e)
IsRecorded (transfer user_id payload) db =
    (t : Transfer) × (find_transfer_command payload.command_id db.transfers ≡ some t)
    × (matches_command t user_id payload ≡ true)
IsRecorded (reclassify user_id event_id request) db = Unit
IsRecorded (pay command_of user_id obligation_id period_id payload today) db =
    (p : ObligationPayment) × Replays user_id none
      (command_for command_of user_id none payload.idempotency_key) payload.idempotency_key db p

-- What a command does to the book, by whether it returns: one that raises does nothing, and one that
-- returns makes the one movement that it is for, unless it was carried out before.
pub data Allowed (db : Db) : Command → Bool → Book → Type 0 where
  raised : {c : Command} → Allowed db c false (shown_book db)
  repeated : {c : Command} → IsRecorded c db → Allowed db c true (shown_book db)
  deposit :
      {b : Book} (user_id : ℕ) (payload : CashCreate) (command_id : ℕ)
      → Gains payload.account_id payload.amount (shown_book db) b
      → Allowed db (income user_id payload command_id) true b
  withdraw :
      {b : Book} (user_id : ℕ) (payload : CashCreate) (command_id : ℕ)
      → Gains payload.account_id (neg_ℤ payload.amount) (shown_book db) b
      → Allowed db (expense user_id payload command_id) true b
  pass :
      {b : Book} (user_id : ℕ) (payload : TransferCreate) (target : ℤ)
      → IsTarget payload db target
      → Passes payload.source_account_id payload.destination_account_id payload.amount target
          (shown_book db)
          b
      → Allowed db (transfer user_id payload) true b
  debit :
      {b : Book} (command_of : ℕ → Text → ℕ) (user_id obligation_id period_id : ℕ)
      (payload : PaymentData) (today : Date) (account_id amount : ℕ)
      → payload.source_account_id ≡ some account_id
      → IsCost user_id obligation_id account_id payload db amount
      → Gains account_id (neg_ℤ (pos amount)) (shown_book db) b
      → Allowed db (pay command_of user_id obligation_id period_id payload today) true b

-- ===== src/Obligations/Payments.antt =====
-- `pay_specific_period` (app/obligations/service_v17.py) in the transaction of its route, and
-- `find_replay_by_command_id` (app/obligations/settlement.py). `command_of` is `uuid.uuid5` of a
-- user and a key; `today` is `financial_date()`.
use nexum_backend.Decimal.Compare.{leb_ratio}
use nexum_backend.Goals.Reserves.{reserved_by_account}
use nexum_backend.Accounts.Repository.{get_by_id}
use nexum_backend.Ledger.Insert.{LedgerEventCreate}
use nexum_backend.Store.Tables.{opt_eq, opt_text_eq}
use nexum_backend.Obligations.Fingerprint.{PaymentRequest, validate_idempotency_fingerprint}
use nexum_backend.Store.Models.{FinancialEvent, Account, EventType, outflow, Source}
use nexum_backend.Calendar.{Date}
use nexum_backend.Prelude.Int.{ℤ, ltb_ℤ, pos, negsuc, ◌-ℤ◌}
use nexum_backend.Obligations.Settlement.{SettlementRequest, SettlementResult}
use nexum_backend.Decimal.{Ratio, Decimal}
use nexum_backend.Store.Obligations.{
  PeriodStatus, ObligationPayment, Obligation, ObligationPeriod, Fingerprint, partially_paid,
  pending_amount_definition, pending_payment, overdue,
}
use nexum_backend.Store.Monad.{
  ◌>>=◌, ◌>>◌, Db, Action, ok, lift, gets, or_raise, raise_if, integrity, http, account_not_found,
  ix_obligation_payments_user_idempotency, period_not_found, inconsistent_reservation_state,
  period_amount_not_defined, account_inactive, chk_paid_amount_lte_amount, period_not_payable,
  account_unavailable, insufficient_balance, modify, pure, numeric_out_of_range,
}
use nexum_backend.Prelude.{
  if◌then◌else◌, ◌==◌, ◌&&◌, ◌+◌, ◌*◌, ◌/◌, ◌^◌, ◌++◌, ℕ, Text, Option, Bool, some, codes, true,
  find?, List, false, ◌∷◌, none, not, [], where_, update?, leb,
}

-- `ObligationPeriodPaymentCreateRequest` (app/obligations/schemas_v17.py).
pub record PaymentData : Type 0 where
  pub amount : Decimal
  pub currency : Option Text
  pub payment_date : Option Date
  pub source_account_id : Option ℕ
  pub idempotency_key : Option Text
  pub source_amount : Option Ratio
  pub source_currency : Option Text
  pub quote_id : Option ℕ
  pub rate_snapshot_id : Option ℕ

pub data Channel : Type 0 where
  manual automatic : Channel

-- What a payment returns: its row, and the period as it is then.
abbrev pub Answer : Type 0
Answer = ObligationPayment × Option ObligationPeriod

abbrev pub or_text : Option Text → Text → Text
or_text none default = default
or_text (some []) default = default
or_text (some (c ∷ s)) default = c ∷ s

abbrev pub is_missing : Option Text → Bool
is_missing none = true
is_missing (some []) = true
is_missing (some (c ∷ s)) = false

abbrev pub is_command : ℕ → ℕ → FinancialEvent → Bool
is_command user_id command_id e = opt_eq e.command_id command_id && e.user_id == user_id

abbrev pub is_paid_by : ℕ → ℕ → ObligationPayment → Bool
is_paid_by user_id event_id p = opt_eq p.financial_event_id event_id && p.user_id == user_id

unfoldable pub find_replay_by_command_id :
    ℕ → ℕ → Db → Option FinancialEvent × List ObligationPayment
find_replay_by_command_id user_id command_id db =
    elim (find? (is_command user_id command_id) db.events) [
      | none ↦ (none, [])
      | some e ↦ (some e, where_ (is_paid_by user_id e.id) db.obligation_payments)
    ]

abbrev pub period_with : ℕ → ObligationPeriod → Bool
period_with k p = p.id == k

unfoldable pub answer : ObligationPayment → Action Answer
answer payment db =
    (ok (payment, find? (period_with payment.obligation_period_id) db.obligation_periods), db)

-- The arguments that a retry is checked by, for the currency that they fall back on.
abbrev pub specific_request : ℕ → ℕ → ℕ → Ratio → Text → PaymentData → PaymentRequest
specific_request obligation_id period_id account_id amount currency payload = record {
  obligation_id = obligation_id;
  period_id = some period_id;
  strategy = codes "specific_period";
  source_account_id = account_id;
  amount = amount;
  currency = or_text payload.currency currency;
  source_currency = payload.source_currency;
  quote_id = payload.quote_id;
  rate_snapshot_id = payload.rate_snapshot_id;
  payment_date = payload.payment_date;
}

-- The first payment of a command that is found, once the request matches it; else the rest.
unfoldable pub replay_or :
    Channel
    → (Text → PaymentRequest)
    → (ObligationPayment → Text)
    → Option FinancialEvent × List ObligationPayment
    → Action Answer
    → Action Answer
replay_or channel request currency (some event, p ∷ rows) rest = elim channel [
  | automatic ↦ answer p
  | manual ↦ do
    lift (validate_idempotency_fingerprint event.fingerprint (p ∷ rows) (request (currency p)))
    answer p
]
replay_or channel request currency (some event, []) rest = rest
replay_or channel request currency (none, rows) rest = rest

abbrev pub keyed : ℕ → Option Text → ObligationPayment → Bool
keyed user_id none p = false
keyed user_id (some key) p = p.user_id == user_id && opt_text_eq p.idempotency_key (some key)

-- A payment under the same key from before commands were stored; else the rest.
unfoldable pub key_replay_or :
    (Text → PaymentRequest) → Option ObligationPayment → Action Answer → Action Answer
key_replay_or request none rest = rest
key_replay_or request (some p) rest = do
  lift (validate_idempotency_fingerprint none (p ∷ []) (request p.currency))
  answer p

abbrev pub is_payable : PeriodStatus → Bool
is_payable pending_payment = true
is_payable partially_paid = true
is_payable overdue = true
is_payable _ = false

abbrev pub needs_amount : PeriodStatus → Bool
needs_amount pending_amount_definition = true
needs_amount _ = false

-- A period of the obligation that has an amount and can be paid. The id is the primary key.
unfoldable pub payable_period : ℕ → ℕ → Action (ObligationPeriod × ℤ)
payable_period obligation_id period_id = do
  found ← gets (λ db. find? (period_with period_id) db.obligation_periods)
  period ← or_raise found (http 404 period_not_found)
  raise_if (not (period.obligation_id == obligation_id)) (http 404 period_not_found)
  amount ← or_raise period.amount (http 422 period_amount_not_defined)
  raise_if (needs_amount period.status) (http 422 period_amount_not_defined)
  raise_if (not (is_payable period.status)) (http 422 period_not_payable)
  pure (period, amount)

-- The user's active account, with its balance.
unfoldable pub paying_account : ℕ → ℕ → Action (Account × ℤ)
paying_account user_id account_id = do
  found ← gets (get_by_id account_id true)
  account ← or_raise found (http 404 account_not_found)
  raise_if (not (opt_eq account.user_id user_id)) (http 404 account_not_found)
  raise_if (not account.is_active) (http 400 account_inactive)
  balance ← or_raise account.balance (http 400 account_unavailable)
  raise_if (ltb_ℤ balance (pos 0)) (http 400 account_unavailable)
  pure (account, balance)

abbrev pub settlement_request : PaymentData → SettlementRequest
settlement_request payload = record {
  amount = payload.amount;
  currency = payload.currency;
  source_currency = payload.source_currency;
  source_amount = payload.source_amount;
  quote_id = payload.quote_id;
  rate_snapshot_id = payload.rate_snapshot_id;
}

-- `amount > limit`, for a limit in hundredths.
abbrev pub exceeds : Ratio → ℤ → Bool
exceeds amount (pos n) = not (leb_ratio amount (record { coef = n; places = 2 }))
exceeds amount (negsuc n) = true

-- An amount as its NUMERIC column keeps it, in hundredths.
unfoldable pub stored : Ratio → ℕ
stored r = (2 * (r.coef * 100) + 10 ^ r.places) / (2 * 10 ^ r.places)

-- A rate as its NUMERIC(15, 6) column keeps it.
unfoldable pub stored_rate : Ratio → Ratio
stored_rate r = record {
  coef = (2 * (r.coef * 10 ^ 6) + 10 ^ r.places) / (2 * 10 ^ r.places);
  places = 6;
}

-- The row of a payment as a query reads it back.
abbrev pub stored_payment : ObligationPayment → ObligationPayment
stored_payment p = record p { fx_rate = stored_rate p.fx_rate }

abbrev pub paid_so_far : ObligationPeriod → ℤ
paid_so_far p = elim p.paid_amount [ none ↦ pos 0 | some v ↦ v ]

-- What the goals have reserved on the account stays on it.
unfoldable pub check_available : ℕ → ℕ → ℤ → Ratio → Action (Unit {0})
check_available account_id user_id balance source_amount = do
  reserved ← gets (λ db. reserved_by_account account_id user_id db.goal_transactions)
  raise_if (ltb_ℤ reserved (pos 0)) (http 409 inconsistent_reservation_state)
  raise_if (exceeds source_amount (balance -ℤ reserved)) (http 400 insufficient_balance)

-- The event of a payment, with the fingerprint of its request.
abbrev pub payment_event :
    ℕ → Account → SettlementResult → Text → ℕ → ℕ → Fingerprint → LedgerEventCreate
payment_event user_id account settlement description now command_id fingerprint = record {
  user_id = user_id;
  account_id = some account.id;
  category_id = none;
  event_type = EventType.obligation_payment;
  direction = outflow;
  amount = pos (stored settlement.source_amount);
  currency = settlement.source_currency;
  description = some description;
  raw_message = none;
  source = Source.backend;
  source_message_id = none;
  occurred_at = some now;
  command_id = some command_id;
  transfer_id = none;
  fingerprint = some fingerprint;
}

abbrev pub payment_row :
    Obligation → ℕ → ℕ → ℕ → SettlementResult → ℕ → ℕ → Option Text → ℕ → ObligationPayment
payment_row ob period_id user_id account_id settlement amount event_id key fresh = record {
  id = fresh;
  obligation_id = ob.id;
  obligation_period_id = period_id;
  user_id = user_id;
  account_id = some account_id;
  financial_event_id = some event_id;
  amount = amount;
  currency = ob.currency;
  source_amount = stored settlement.source_amount;
  source_currency = settlement.source_currency;
  fx_rate = settlement.fx_rate;
  rate_source = settlement.rate_source;
  rate_timestamp = settlement.rate_timestamp;
  quote_id = settlement.quote_id;
  rate_snapshot_id = settlement.rate_snapshot_id;
  idempotency_key = key;
}

-- The period once it is paid `paid` of `amount`.
abbrev pub pay_period : ℤ → ℤ → ObligationPeriod → ObligationPeriod
pay_period amount paid p = record p {
  paid_amount = some paid;
  status = if ltb_ℤ paid amount then partially_paid else PeriodStatus.paid;
}

abbrev pub key_taken : ℕ → Option Text → Db → Bool
key_taken user_id key db = elim (find? (keyed user_id key) db.obligation_payments) [
  | none ↦ false
  | some _ ↦ true
]

-- The flush of a payment and of its period. What it returns is the row of the session, with the rate
-- as it was given.
unfoldable pub flush_payment :
    ObligationPeriod → ℤ → ℤ → (ℕ → ObligationPayment) → Action ObligationPayment
flush_payment period amount paid row = do
  fresh ← gets (λ db. db.next_id)
  raise_if (← gets (key_taken (row fresh).user_id (row fresh).idempotency_key))
      (integrity ix_obligation_payments_user_idempotency)
  raise_if (leb (10 ^ 15) (stored_rate (row fresh).fx_rate).coef) numeric_out_of_range
  raise_if (ltb_ℤ amount paid) (integrity chk_paid_amount_lte_amount)
  modify (λ db. record db {
    obligation_payments = db.obligation_payments ++ stored_payment (row fresh) ∷ [];
    obligation_periods =
        update? (period_with period.id) (pay_period amount paid) db.obligation_periods;
    next_id = fresh + 1;
  })
  pure (row fresh)

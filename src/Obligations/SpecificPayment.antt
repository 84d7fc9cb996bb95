-- ===== src/Obligations/SpecificPayment.antt =====
-- `pay_specific_period` (app/obligations/service_v17.py): the handler, from its parts.
use nexum_backend.Decimal.Compare.{positive}
use nexum_backend.Store.Models.{Account}
use nexum_backend.Store.Atomic.{transaction}
use nexum_backend.Obligations.Lifecycle.{refresh_overdue_periods, own_obligation}
use nexum_backend.Accounts.Repository.{update_balance}
use nexum_backend.Decimal.{Ratio}
use nexum_backend.Obligations.Fingerprint.{build_idempotency_fingerprint, PaymentRequest}
use nexum_backend.Ledger.Insert.{LedgerEventCreate, record_event}
use nexum_backend.Prelude.Int.{ℤ, neg_ℤ, ◌+ℤ◌, pos, ◌-ℤ◌}
use nexum_backend.Obligations.Payments.{
  PaymentData, Channel, paid_so_far, payment_row, Answer, payment_event, is_missing, exceeds,
  specific_request, stored, answer, find_replay_by_command_id, keyed, manual, settlement_request,
  replay_or, key_replay_or, flush_payment, payable_period, check_available, paying_account,
}
use nexum_backend.Calendar.{Date}
use nexum_backend.Obligations.Settlement.{SettlementResult, resolve_settlement}
use nexum_backend.Store.Obligations.{
  ObligationStatus, Fingerprint, ObligationPayment, Obligation, ObligationPeriod,
}
use nexum_backend.Store.Monad.{
  ◌>>=◌, ◌>>◌, Action, raise_if, gets, http, obligation_inactive, missing_idempotency_key,
  idempotency_conflict, payment_exceeds_remaining_amount, or_raise, source_account_id_required,
  invalid_amount,
}
use nexum_backend.Prelude.{
  ◌&&◌, ◌++◌, ℕ, Option, Text, Bool, some, true, List, find?, codes, false, not, none, [],
}

-- What the handler has read when it comes to the money.
pub record Paying : Type 0 where
  pub user_id : ℕ
  pub obligation : Obligation
  pub period : ObligationPeriod
  pub due : ℤ
  pub account : Account
  pub balance : ℤ
  pub payload : PaymentData
  pub asked : Ratio
  pub command_id : ℕ

abbrev pub fingerprint_of : Paying → Fingerprint
fingerprint_of c = build_idempotency_fingerprint (record {
  obligation_id = c.obligation.id;
  period_id = some c.period.id;
  strategy = codes "specific_period";
  source_account_id = c.account.id;
  amount = c.asked;
  currency = c.obligation.currency;
  source_currency = some c.account.currency;
  quote_id = c.payload.quote_id;
  rate_snapshot_id = c.payload.rate_snapshot_id;
  payment_date = c.payload.payment_date;
})

abbrev pub event_of : Paying → SettlementResult → ℕ → LedgerEventCreate
event_of c settlement now =
    payment_event c.user_id c.account settlement
      (codes "Obligation Payment V1.7: " ++ c.obligation.name) now c.command_id (fingerprint_of c)

abbrev pub row_of : Paying → SettlementResult → ℕ → ℕ → ObligationPayment
row_of c settlement event_id fresh =
    payment_row c.obligation c.period.id c.user_id c.account.id settlement
      (stored settlement.applied_amount) event_id c.payload.idempotency_key fresh

abbrev pub paid_after : Paying → SettlementResult → ℤ
paid_after c settlement = paid_so_far c.period +ℤ pos (stored settlement.applied_amount)

-- The debit.
abbrev pub debit_of : SettlementResult → ℤ
debit_of settlement = neg_ℤ (pos (stored settlement.source_amount))

-- The debit, the event, the payment and its period.
unfoldable pub write_payment : Paying → SettlementResult → Action ObligationPayment
write_payment c settlement = do
  update_balance c.account.id (debit_of settlement)
  now ← gets (λ db. db.now)
  result ← record_event (event_of c settlement now)
  raise_if result.idempotent (http 409 idempotency_conflict)
  flush_payment c.period c.due (paid_after c settlement) (row_of c settlement result.event.id)

unfoldable pub check_due : Paying → SettlementResult → Action (Unit {0})
check_due c settlement = do
  raise_if (exceeds settlement.applied_amount (c.due -ℤ paid_so_far c.period))
      (http 422 payment_exceeds_remaining_amount)
  check_available c.account.id c.user_id c.balance settlement.source_amount

-- From the settlement on.
unfoldable pub pay_settled : Paying → Date → SettlementResult → Action Answer
pay_settled c today settlement = do
  check_due c settlement
  payment ← write_payment c settlement
  refresh_overdue_periods c.user_id c.obligation.id today
  answer payment

unfoldable pub pay_read : Paying → Date → Action Answer
pay_read c today = do
  settlement ←
      resolve_settlement c.user_id c.obligation.currency c.account.currency
        (settlement_request c.payload)
  pay_settled c today settlement

abbrev pub is_active_obligation : ObligationStatus → Bool
is_active_obligation ObligationStatus.active = true
is_active_obligation _ = false

-- Under the lock of the obligation, once no earlier payment is found.
unfoldable pub pay_active : ℕ → Obligation → ℕ → ℕ → PaymentData → Ratio → ℕ → Date → Action Answer
pay_active user_id ob period_id account_id payload asked command_id today = do
  raise_if (not (is_active_obligation ob.status)) (http 400 obligation_inactive)
  payable ← payable_period ob.id period_id
  paying ← paying_account user_id account_id
  pay_read
      (record {
        user_id = user_id;
        obligation = ob;
        period = payable.0;
        due = payable.1;
        account = paying.0;
        balance = paying.1;
        payload = payload;
        asked = asked;
        command_id = command_id;
      })
      today

-- The payment under the key, unless the command is overridden.
abbrev pub by_key : ℕ → Option ℕ → Option Text → List ObligationPayment → Option ObligationPayment
by_key user_id none key rows = find? (keyed user_id key) rows
by_key user_id (some _) key rows = none

-- An earlier payment of the command, or of the key, else the rest.
unfoldable pub replays_or :
    ℕ
    → Channel
    → Option ℕ
    → ℕ
    → (Text → PaymentRequest)
    → (ObligationPayment → Text)
    → PaymentData
    → Action Answer
    → Action Answer
replays_or user_id channel override command_id request currency payload rest = do
  found ← gets (find_replay_by_command_id user_id command_id)
  earlier ← gets (λ db. by_key user_id override payload.idempotency_key db.obligation_payments)
  replay_or channel request currency found (key_replay_or request earlier rest)

unfoldable pub pay_locked :
    ℕ → ℕ → ℕ → ℕ → PaymentData → Ratio → Channel → Option ℕ → ℕ → Date → Action Answer
pay_locked user_id obligation_id period_id account_id payload asked channel override command_id
      today =
    do
      ob ← own_obligation user_id obligation_id
      replays_or user_id channel override command_id
          (λ currency. specific_request obligation_id period_id account_id asked currency payload)
          (λ _. ob.currency) payload
          (pay_active user_id ob period_id account_id payload asked command_id today)

abbrev pub command_for : (ℕ → Text → ℕ) → ℕ → Option ℕ → Option Text → ℕ
command_for command_of user_id (some command_id) key = command_id
command_for command_of user_id none none = command_of user_id []
command_for command_of user_id none (some key) = command_of user_id key

unfoldable pub pay_checked :
    ℕ → ℕ → ℕ → ℕ → PaymentData → Ratio → Channel → Option ℕ → ℕ → Date → Action Answer
pay_checked user_id obligation_id period_id account_id payload asked channel override command_id
      today =
    replays_or user_id channel override command_id
      (λ currency. specific_request obligation_id period_id account_id asked currency payload)
      (λ p. p.currency) payload
      (pay_locked user_id obligation_id period_id account_id payload asked channel override
        command_id today)

abbrev pub not_overridden : Option ℕ → Bool
not_overridden none = true
not_overridden (some _) = false

unfoldable pub pay_specific_period :
    (ℕ → Text → ℕ) → ℕ → ℕ → ℕ → PaymentData → Channel → Option ℕ → Date → Action Answer
pay_specific_period command_of user_id obligation_id period_id payload channel override today = do
  raise_if (is_missing payload.idempotency_key && not_overridden override)
      (http 422 missing_idempotency_key)
  account_id ← or_raise payload.source_account_id (http 422 source_account_id_required)
  asked ← or_raise (positive payload.amount) (http 422 invalid_amount)
  pay_checked user_id obligation_id period_id account_id payload asked channel override
      (command_for command_of user_id override payload.idempotency_key) today

-- The route: the handler in a transaction.
unfoldable pub pay_period_route : (ℕ → Text → ℕ) → ℕ → ℕ → ℕ → PaymentData → Date → Action Answer
pay_period_route command_of user_id obligation_id period_id payload today =
    transaction
      (pay_specific_period command_of user_id obligation_id period_id payload manual none today)

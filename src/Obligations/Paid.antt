-- ===== src/Obligations/Paid.antt =====
-- What a payment of a period does.
use nexum_backend.Obligations.Written.{paid_of}
use nexum_backend.Accounts.Repository.{update_balance}
use nexum_backend.Ledger.Effects.{Recorded, add_event, record_event-Recorded}
use nexum_backend.Store.Ensures.{Ensures, Ensures-map, Ensures-bind}
use nexum_backend.Accounts.Effects.{Shifts, update_balance-Shifts}
use nexum_backend.Store.Models.{Account, FinancialEvent}
use nexum_backend.Ledger.Insert.{LedgerEventResult, event_row, record_event}
use nexum_backend.Prelude.Int.{ℤ, ltb_ℤ, ◌+ℤ◌, pos, int_laws}
use nexum_backend.Store.Obligations.{ObligationPeriod, ObligationPayment}
use nexum_backend.Obligations.Settlement.{SettlementResult}
use nexum_backend.Obligations.SpecificPayment.{
  Paying, debit_of, event_of, row_of, paid_after, write_payment,
}
use nexum_backend.Obligations.Payments.{
  flush_payment, period_with, pay_period, paid_so_far, stored_payment,
}
use nexum_backend.Store.Monad.{
  ◌>>=◌, ◌>>◌, Db, Action, gets, raise_if, http, idempotency_conflict, Result,
}
use nexum_backend.Prelude.{
  none, some, false, if◌then◌else◌, ◌==◌, ◌++◌, ◌+◌, ℕ, List, ◌≡◌, ◌∷◌, inl, [], inr, update?,
  arith, find?, ap, subst₂, sym, subst, ◌∙◌, refl, Bool-cases, Option,
}

-- The tables after the writes of a payment, where the accounts are `rows`.
abbrev pub written : Paying → SettlementResult → Db → List Account → Db
written c s db rows = record db {
  accounts = rows;
  events = event_row (event_of c s db.now) db ∷ db.events;
  obligation_payments =
      db.obligation_payments ++ stored_payment (row_of c s db.next_id (db.next_id + 1)) ∷ [];
  obligation_periods =
      update? (period_with c.period.id) (pay_period c.due (paid_after c s)) db.obligation_periods;
  next_id = db.next_id + 1 + 1;
}

-- The debit moves the balance of the account, and the rest is written beside it.
pub record Writes (c : Paying) (s : SettlementResult) (db : Db) (p : ObligationPayment) (db' : Db)
    : Type 0 where
  pub debit : Shifts c.account.id (debit_of s) db (record db { accounts = db'.accounts })
  pub row : p ≡ row_of c s db.next_id (db.next_id + 1)
  pub within : ltb_ℤ c.due (paid_after c s) ≡ false
  pub tables : db' ≡ written c s db db'.accounts

flush_payment-row :
    (period : ObligationPeriod) (amount total : ℤ) (row : ℕ → ObligationPayment) (db : Db)
    → Ensures
        (λ p db'.
          (p ≡ row db.next_id)
          × (ltb_ℤ amount total ≡ false)
          × (db' ≡ record db {
            obligation_payments = db.obligation_payments ++ stored_payment (row db.next_id) ∷ [];
            obligation_periods =
                update? (period_with period.id) (pay_period amount total) db.obligation_periods;
            next_id = db.next_id + 1;
          }))
        (flush_payment period amount total row db)
unfolding flush_payment
flush_payment-row period amount total row db = ground arith

module _ (c : Paying) (s : SettlementResult) (db : Db) where
  abbrev after_event : LedgerEventResult → Action ObligationPayment
  after_event result =
      raise_if result.idempotent (http 409 idempotency_conflict)
      >> flush_payment c.period c.due (paid_after c s) (row_of c s result.event.id)

  abbrev after_debit : Action ObligationPayment
  after_debit = gets (λ db'. db'.now) >>= λ now. record_event (event_of c s now) >>= after_event

  module _ (rows : List Account)
      (debit : Shifts c.account.id (debit_of s) db (record db { accounts = rows })) where
    abbrev debited : Db
    debited = record db { accounts = rows }

    abbrev writing : ℕ → Db → Result ObligationPayment × Db
    writing event_id d = flush_payment c.period c.due (paid_after c s) (row_of c s event_id) d

    flush-Writes :
        Ensures (Writes c s db) (writing db.next_id (add_event (event_of c s db.now) debited))
    flush-Writes =
        Ensures-map _ (Writes c s db) _
          (flush_payment-row c.period c.due (paid_after c s) (row_of c s db.next_id)
            (add_event (event_of c s db.now) debited))
          λ p db' h.
            let same : db'.accounts ≡ rows = ap (λ (x : Db). x.accounts) h.2 in
            record {
              debit =
                  subst (λ r. Shifts c.account.id (debit_of s) db (record db { accounts = r }))
                    (sym same) debit;
              row = h.0;
              within = h.1;
              tables = h.2 ∙ ap (written c s db) (sym same);
            }

    after_event-Writes :
        (result : LedgerEventResult) (d : Db)
        → Recorded (event_of c s db.now) debited result d
        → Ensures (Writes c s db) (after_event result d)
    after_event-Writes result d (inl new) = rw new.0 (
        subst₂ (λ event_id x. Ensures (Writes c s db) (writing event_id x))
          (sym (ap (λ (e : FinancialEvent). e.id) new.1)) (sym new.2) flush-Writes)
    after_event-Writes result d (inr old) = rw old.0 tt

    after_debit-Writes : Ensures (Writes c s db) (after_debit debited)
    after_debit-Writes =
        Ensures-bind (Recorded (event_of c s db.now) debited) (Writes c s db)
          (record_event (event_of c s db.now)) after_event debited
          (record_event-Recorded (event_of c s db.now) debited) after_event-Writes

  pub write_payment-Writes : Ensures (Writes c s db) (write_payment c s db)
  unfolding write_payment
  write_payment-Writes =
      Ensures-bind (λ _. Shifts c.account.id (debit_of s) db) (Writes c s db)
        (update_balance c.account.id (debit_of s)) (λ _. after_debit) db
        (update_balance-Shifts c.account.id (debit_of s) db)
        λ _ d h.
          subst (λ x. Ensures (Writes c s db) (after_debit x)) (sym h.rest)
            (after_debit-Writes d.accounts
              (record { balances = h.balances; covered = h.covered; rest = refl }))

paid_of_other :
    (k j : ℕ) (amount total : ℤ) (rows : List ObligationPeriod)
    → (j == k) ≡ false
    → paid_of k (update? (period_with j) (pay_period amount total) rows) ≡ paid_of k rows
paid_of_other k j amount total [] h = refl
paid_of_other k j amount total (q ∷ rows) h =
    ground (arith, h, paid_of_other k j amount total rows h)

paid_of_self :
    (j : ℕ) (amount total : ℤ) (rows : List ObligationPeriod) (p : ObligationPeriod)
    → find? (period_with j) rows ≡ some p
    → paid_of j (update? (period_with j) (pay_period amount total) rows) ≡ total
paid_of_self j amount total [] p h = cc
paid_of_self j amount total (q ∷ rows) p h = ground (arith, h, paid_of_self j amount total rows p)

pub paid_of-pay :
    (k j : ℕ) (amount d : ℤ) (rows : List ObligationPeriod) (p : ObligationPeriod)
    → find? (period_with j) rows ≡ some p
    → paid_of k (update? (period_with j) (pay_period amount (paid_so_far p +ℤ d)) rows)
      ≡ paid_of k rows +ℤ (if j == k then d else pos 0)
paid_of-pay k j amount d rows p h = elim (Bool-cases (j == k)) [
  | inl e ↦
      (let same : j ≡ k = ground (arith, e) in
        let shown : paid_of j rows ≡ paid_so_far p =
          ap
            (λ (o : Option ObligationPeriod). elim o as (λ _. ℤ) [
              | none ↦ pos 0
              | some q ↦ paid_so_far q
            ])
            h in
        rw (e, ← same)
          (paid_of_self j amount (paid_so_far p +ℤ d) rows p h ∙ ap (λ v. v +ℤ d) (sym shown)))
  | inr e ↦ rw e (paid_of_other k j amount (paid_so_far p +ℤ d) rows e ∙ omega int_laws)
]

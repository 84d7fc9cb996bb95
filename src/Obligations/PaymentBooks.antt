-- ===== src/Obligations/PaymentBooks.antt =====
-- The route of a payment, and what it keeps: the books of the accounts and those of the periods.
use nexum_backend.Store.Ensures.{
  Ensures, Ensures-transaction, check-then, Ensures-always, transaction-IsAtomic, Ensures-map,
  raise_if-IsCheck, or_raise-IsCheck, or_raise_passed, raise_if_passed,
}
use nexum_backend.Decimal.Compare.{positive}
use nexum_backend.Obligations.Payment.{Pays, pay_checked-Pays}
use nexum_backend.Decimal.{Ratio}
use nexum_backend.Ledger.Balance.{Reconciles, Reconciles-Posts}
use nexum_backend.Prelude.Int.{ℤ, pos, ◌+ℤ◌, int_laws}
use nexum_backend.Obligations.Outcome.{IsPaid}
use nexum_backend.Calendar.{Date}
use nexum_backend.Store.Obligations.{ObligationPayment}
use nexum_backend.Obligations.Payments.{
  PaymentData, Answer, stored, manual, is_missing, stored_payment,
}
use nexum_backend.Obligations.Settlement.{SettlementResult}
use nexum_backend.Obligations.Written.{paid_of}
use nexum_backend.Obligations.SpecificPayment.{
  Paying, pay_period_route, pay_specific_period, event_of, pay_checked, debit_of, command_for,
}
use nexum_backend.Store.Monad.{
  ◌>>=◌, Db, or_raise, ok, Action, raise_if, http, missing_idempotency_key,
  source_account_id_required, invalid_amount,
}
use nexum_backend.Prelude.{
  none, some, true, if◌then◌else◌, ◌==◌, ◌&&◌, ◌++◌, ℕ, List, Text, ◌≡◌, ◌∷◌, ◌∙◌, arith, [], ap,
  sym, refl, inl, inr, subst, false,
}

-- What the payments of a period add up to.
abbrev pub payments_sum : ℕ → List ObligationPayment → ℤ
payments_sum k [] = pos 0
payments_sum k (p ∷ rows) =
    (if p.obligation_period_id == k then pos p.amount else pos 0) +ℤ payments_sum k rows

-- Every period is paid what its payments add up to.
pub record IsPaidUp (db : Db) : Type 0 where
  pub at : (k : ℕ) → paid_of k db.obligation_periods ≡ payments_sum k db.obligation_payments

payments_sum-snoc :
    (k : ℕ) (rows : List ObligationPayment) (p : ObligationPayment)
    → payments_sum k (rows ++ p ∷ [])
      ≡ payments_sum k rows +ℤ (if p.obligation_period_id == k then pos p.amount else pos 0)
payments_sum-snoc k [] p = omega int_laws
payments_sum-snoc k (q ∷ rows) p = rw (payments_sum-snoc k rows p) (omega int_laws)

IsPaidUp-IsPaid :
    (c : Paying) (s : SettlementResult) (db db' : Db) (p : ObligationPayment)
    → IsPaid c s db p db'
    → IsPaidUp db
    → IsPaidUp db'
IsPaidUp-IsPaid c s db db' p h u = record {
  at = λ k.
      h.periods k
      ∙ ap (λ v. v +ℤ (if c.period.id == k then pos (stored s.applied_amount) else pos 0)) (u.at k)
      ∙ ap
          (λ (q : ObligationPayment).
            payments_sum k db.obligation_payments
            +ℤ (if q.obligation_period_id == k then pos q.amount else pos 0))
          (sym h.row)
      ∙ sym (payments_sum-snoc k db.obligation_payments (stored_payment p))
      ∙ ap (payments_sum k) (sym h.payments);
}

module _ (command_of : ℕ → Text → ℕ) (user_id obligation_id period_id : ℕ) (payload : PaymentData)
    (today : Date) (db : Db) where
  -- A payment that returns: it was made from the account that the request names, of the amount that
  -- it asks for, or it was there.
  abbrev pub Paid : Answer → Db → Type 0
  Paid r db' =
      (account_id : ℕ) × (asked : Ratio) × (payload.source_account_id ≡ some account_id)
      × (positive payload.amount ≡ some asked)
      × (is_missing payload.idempotency_key ≡ false)
      × Pays user_id obligation_id period_id account_id payload asked manual none
          (command_for command_of user_id none payload.idempotency_key) today db r db'

  abbrev run : ℕ → Ratio → Action Answer
  run account_id asked =
      pay_checked user_id obligation_id period_id account_id payload asked manual none
        (command_for command_of user_id none payload.idempotency_key) today

  given :
      (u : Unit {0})
      → raise_if (is_missing payload.idempotency_key && true) (http 422 missing_idempotency_key) db
        ≡ (ok u, db)
      → is_missing payload.idempotency_key ≡ false
  given u checked =
      (let passed : (is_missing payload.idempotency_key && true) ≡ false =
          raise_if_passed _ (http 422 missing_idempotency_key) db u checked in
        ground (arith, passed))

  -- A payment of a period that returns was either made or found. When it was made, the obligation is
  -- the user's and active, and the payment was settled as `IsSettled` says; one event and the debit of the account record it; the period, and no other, is
  -- paid the applied amount more, to no more than is due; and the account keeps what goals have
  -- reserved on it. When it was found, by the command's event or by the key, nothing was written.
  pub pay_period_route-Paid :
      Ensures Paid (pay_period_route command_of user_id obligation_id period_id payload today db)
  unfolding pay_period_route pay_specific_period
  pay_period_route-Paid =
      Ensures-transaction Paid
        (pay_specific_period command_of user_id obligation_id period_id payload manual none today)
        db
        (check-then (Ensures Paid)
          (raise_if (is_missing payload.idempotency_key && true) (http 422 missing_idempotency_key))
          (λ _.
            or_raise payload.source_account_id (http 422 source_account_id_required)
            >>= λ account_id.
                or_raise (positive payload.amount) (http 422 invalid_amount) >>= run account_id)
          db (raise_if-IsCheck _ _) (λ _. tt)
          λ u checked.
            check-then (Ensures Paid)
              (or_raise payload.source_account_id (http 422 source_account_id_required))
              (λ account_id.
                or_raise (positive payload.amount) (http 422 invalid_amount) >>= run account_id)
              db (or_raise-IsCheck _ _) (λ _. tt)
              λ account_id named.
                check-then (Ensures Paid)
                  (or_raise (positive payload.amount) (http 422 invalid_amount)) (run account_id) db
                  (or_raise-IsCheck _ _) (λ _. tt)
                  λ asked read.
                    Ensures-map _ Paid _
                      (pay_checked-Pays user_id obligation_id period_id account_id payload asked
                        manual none (command_for command_of user_id none payload.idempotency_key)
                        today db)
                      λ r db' h. (
                        account_id,
                        asked,
                        or_raise_passed payload.source_account_id
                            (http 422 source_account_id_required) db account_id named,
                        or_raise_passed (positive payload.amount) (http 422 invalid_amount) db asked
                            read,
                        given u checked,
                        h,
                      ))

  pub kept :
      (P : Db → Type 0)
      → P db
      → ((c : Paying) (s : SettlementResult) (p : ObligationPayment) (db' : Db)
          → IsPaid c s db p db'
          → P db')
      → P (pay_period_route command_of user_id obligation_id period_id payload today db).1
  unfolding pay_period_route
  kept P h made =
      Ensures-always P db
        (pay_period_route command_of user_id obligation_id period_id payload today db) h
        (transaction-IsAtomic
          (pay_specific_period command_of user_id obligation_id period_id payload manual none today)
          db)
        (Ensures-map Paid (λ _ db'. P db') _ pay_period_route-Paid
          (λ r db' paid. by_end r db' paid))
    where
      by_end : (r : Answer) (db' : Db) → Paid r db' → P db'
      by_end r db' (account_id, asked, named, read, given, inl m) =
          made m.reads m.settlement r.0 db' m.is_paid
      by_end r db' (account_id, asked, named, read, given, inr old) = subst P (sym old.0) h

  -- If every balance is the sum of its account's events, and every period is paid what its payments
  -- add up to, then both still hold after a call of the route, however it ends.
  pub pay_period_route-Reconciles :
      Reconciles db
      → IsPaidUp db
      → Reconciles (pay_period_route command_of user_id obligation_id period_id payload today db).1
        × IsPaidUp (pay_period_route command_of user_id obligation_id period_id payload today db).1
  pay_period_route-Reconciles h u = (
    kept Reconciles h (λ c s p db' made.
        Reconciles-Posts (event_of c s db.now) c.account.id (debit_of s) db db' refl refl made.posts
          h),
    kept IsPaidUp u (λ c s p db' made. IsPaidUp-IsPaid c s db db' p made u),
  )

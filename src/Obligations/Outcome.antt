-- ===== src/Obligations/Outcome.antt =====
-- How a payment of a period ends.
use nexum_backend.Obligations.Lifecycle.{refresh_overdue_periods}
use nexum_backend.Store.Ensures.{IsCheck, Ensures, check-then, Ensures-bind}
use nexum_backend.Obligations.Paid.{Writes, paid_of-pay, write_payment-Writes}
use nexum_backend.Calendar.{Date}
use native.Mathlib.Nat.{mul-div-le, mul-le-mul_left}
use nexum_backend.Goals.Reserves.{reserved_by_account}
use nexum_backend.Obligations.Written.{paid_of, Refreshes, refresh_overdue_periods-Refreshes}
use nexum_backend.Store.Tables.{find_account, balance_of}
use nexum_backend.Decimal.Compare.{leb_ratio}
use nexum_backend.Ledger.Balance.{Posts}
use nexum_backend.Store.Obligations.{ObligationPayment}
use nexum_backend.Decimal.{Ratio}
use nexum_backend.Obligations.Settlement.{SettlementResult}
use nexum_backend.Obligations.Payments.{
  stored, exceeds, period_with, is_payable, check_available, answer, Answer, stored_payment,
}
use nexum_backend.Obligations.SpecificPayment.{
  Paying, event_of, debit_of, row_of, paid_after, check_due, pay_settled, write_payment,
}
use nexum_backend.Prelude.Int.{
  ℤ, ltb_ℤ, ◌-ℤ◌, ◌≤ℤ◌, ◌+ℤ◌, neg_ℤ, pos, negsuc, int_laws, pos_part, neg_part, neg_ℤ_parts,
  -ℤ_parts, +ℤ_parts,
}
use nexum_backend.Store.Monad.{◌>>=◌, ◌>>◌, Db, Action}
use nexum_backend.Prelude.{
  some, true, false, if◌then◌else◌, ◌==◌, ◌++◌, ◌+◌, ◌*◌, ◌^◌, ◌≤◌, find?, ◌≡◌, ℕ, arith, ◌∷◌, [],
  leb→le, ◌<◌, refl, Bool-cases, suc, leb, zero, inl, inr, ap, ◌∙◌, subst, sym,
}

-- What the handler has read of the tables.
pub record IsRead (c : Paying) (db : Db) : Type 0 where
  pub period : find? (period_with c.period.id) db.obligation_periods ≡ some c.period
  pub amount : c.period.amount ≡ some c.due
  pub payable : is_payable c.period.status ≡ true
  pub account : find_account c.account.id db.accounts ≡ some c.account
  pub owner : c.account.user_id ≡ some c.user_id
  pub balance : c.account.balance ≡ some c.balance

-- What a payment leaves: its event and the debit that it stands for, its row, and its period paid
-- that much more, to no more than is due. No other period is paid, no reserve is touched, and the
-- account keeps what is reserved on it.
pub record IsPaid (c : Paying) (s : SettlementResult) (db : Db) (p : ObligationPayment) (db' : Db)
    : Type 0 where
  pub posts : Posts (event_of c s db.now) c.account.id (debit_of s) db db'
  pub row : p ≡ row_of c s db.next_id (db.next_id + 1)
  pub payments : db'.obligation_payments ≡ db.obligation_payments ++ stored_payment p ∷ []
  pub within : paid_after c s ≤ℤ c.due
  pub periods :
      (k : ℕ)
      → paid_of k db'.obligation_periods
        ≡ paid_of k db.obligation_periods
          +ℤ (if c.period.id == k then pos (stored s.applied_amount) else pos 0)
  pub reserves : db'.goal_transactions ≡ db.goal_transactions
  pub reserve_kept :
      reserved_by_account c.account.id c.user_id db.goal_transactions
      ≤ℤ balance_of c.account.id db'.accounts

-- An amount that does not exceed a number of hundredths is stored as no more of them.
stored_bound : (q n x b : ℕ) → 0 < b → x ≤ n * b → (2 * b) * q ≤ 2 * x + b → q ≤ n
stored_bound q n x b hb hx hq = elim (Bool-cases (leb q n)) [
  | inl e ↦ ground (arith, e)
  | inr e ↦ (let more : b * (n + 1) ≤ b * q = mul-le-mul_left b (ground (arith, e)) in omega arith)
]

pow_pos : (k : ℕ) → 0 < 10 ^ k
pow_pos zero = omega arith
pow_pos (suc k) = omega (arith, pow_pos k)

stored_le :
    (r : Ratio) (n : ℕ) → leb_ratio r (record { coef = n; places = 2 }) ≡ true → stored r ≤ n
unfolding stored
stored_le r n h =
    stored_bound (stored r) n (r.coef * 100) (10 ^ r.places) (pow_pos r.places)
      (leb→le (r.coef * 100) (n * 10 ^ r.places) h)
      (mul-div-le (2 * (r.coef * 100) + 10 ^ r.places) (2 * 10 ^ r.places))

not_within : (a b : ℤ) → ltb_ℤ b a ≡ false → a ≤ℤ b
not_within a b h = ground (arith, h)

leaves :
    (b r : ℤ) (n k : ℕ)
    → pos_part (b -ℤ r) ≡ n
    → neg_part (b -ℤ r) ≡ 0
    → k ≤ n
    → r ≤ℤ b +ℤ neg_ℤ (pos k)
leaves b r n k p q h =
    omega (int_laws, neg_ℤ_parts (pos k), -ℤ_parts b r, +ℤ_parts b (neg_ℤ (pos k)))

-- What is left after a debit that the limit allows.
debit_leaves :
    (balance reserved : ℤ) (source : Ratio)
    → exceeds source (balance -ℤ reserved) ≡ false
    → reserved ≤ℤ balance +ℤ neg_ℤ (pos (stored source))
debit_leaves balance reserved source h = by_limit (balance -ℤ reserved) refl h
  where
    by_limit :
        (limit : ℤ)
        → balance -ℤ reserved ≡ limit
        → exceeds source limit ≡ false
        → reserved ≤ℤ balance +ℤ neg_ℤ (pos (stored source))
    by_limit (pos n) e h =
        leaves balance reserved n (stored source) (ap pos_part e) (ap neg_part e)
          (stored_le source n (ground (arith, h)))
    by_limit (negsuc n) e h = ground (arith, h)

at_self : (k : ℕ) (d : ℤ) → (if k == k then d else pos 0) ≡ d
at_self k d = ground arith

module _ (c : Paying) (s : SettlementResult) (today : Date) where
  check_due-IsCheck : IsCheck (check_due c s)
  unfolding check_due check_available
  check_due-IsCheck = record { at = λ db. ground arith }

  -- What the check knows when it passes.
  check_due-enough :
      (db : Db)
      → Ensures
          (λ _ _.
            exceeds s.source_amount
              (c.balance -ℤ reserved_by_account c.account.id c.user_id db.goal_transactions)
            ≡ false)
          (check_due c s db)
  unfolding check_due check_available
  check_due-enough db = ground arith

  balance_before : (db : Db) → IsRead c db → balance_of c.account.id db.accounts ≡ c.balance
  balance_before db r = ground (arith, r.account, r.balance)

  Writes-IsPaid :
      (db d db' : Db) (p : ObligationPayment)
      → IsRead c db
      → exceeds s.source_amount
          (c.balance -ℤ reserved_by_account c.account.id c.user_id db.goal_transactions)
        ≡ false
      → Writes c s db p d
      → Refreshes d db'
      → IsPaid c s db p db'
  Writes-IsPaid db d db' p r enough w f =
      let accounts : db'.accounts ≡ d.accounts = ap (λ (x : Db). x.accounts) f.same in
      record {
        posts = record {
          event = ap (λ (x : Db). x.events) f.same ∙ ap (λ (x : Db). x.events) w.tables;
          balances = λ j. ap (balance_of j) accounts ∙ w.debit.balances j;
          covered =
              subst (λ rows. pos 0 ≤ℤ balance_of c.account.id rows) (sym accounts) w.debit.covered;
        };
        row = w.row;
        payments =
            ap (λ (x : Db). x.obligation_payments) f.same
            ∙ ap (λ (x : Db). x.obligation_payments) w.tables
            ∙ ap (λ (q : ObligationPayment). db.obligation_payments ++ stored_payment q ∷ [])
                (sym w.row);
        within = not_within (paid_after c s) c.due w.within;
        periods = λ k.
            f.paid k
            ∙ ap (λ (x : Db). paid_of k x.obligation_periods) w.tables
            ∙ paid_of-pay k c.period.id c.due (pos (stored s.applied_amount)) db.obligation_periods
                c.period r.period;
        reserves =
            ap (λ (x : Db). x.goal_transactions) f.same
            ∙ ap (λ (x : Db). x.goal_transactions) w.tables;
        reserve_kept =
            subst (λ v. reserved_by_account c.account.id c.user_id db.goal_transactions ≤ℤ v)
              (sym (
                ap (balance_of c.account.id) accounts
                ∙ w.debit.balances c.account.id
                ∙ ap (λ v. balance_of c.account.id db.accounts +ℤ v)
                    (at_self c.account.id (debit_of s))
                ∙ ap (λ v. v +ℤ debit_of s) (balance_before db r)))
              (debit_leaves c.balance
                (reserved_by_account c.account.id c.user_id db.goal_transactions) s.source_amount
                enough);
      }

  abbrev after_write : ObligationPayment → Action Answer
  after_write payment = refresh_overdue_periods c.user_id c.obligation.id today >> answer payment

  abbrev after_due : Action Answer
  after_due = write_payment c s >>= after_write

  after_due-IsPaid :
      (db : Db)
      → IsRead c db
      → exceeds s.source_amount
          (c.balance -ℤ reserved_by_account c.account.id c.user_id db.goal_transactions)
        ≡ false
      → Ensures (λ r db'. IsPaid c s db r.0 db') (after_due db)
  unfolding answer
  after_due-IsPaid db r enough =
      Ensures-bind (Writes c s db) (λ a db'. IsPaid c s db a.0 db') (write_payment c s) after_write
        db (write_payment-Writes c s db)
        λ p d w.
          Ensures-bind (λ _ db'. Refreshes d db') (λ a db'. IsPaid c s db a.0 db')
            (refresh_overdue_periods c.user_id c.obligation.id today) (λ _. answer p) d
            (refresh_overdue_periods-Refreshes c.user_id c.obligation.id today d)
            λ _ db' f. Writes-IsPaid db d db' p r enough w f

  pub pay_settled-IsPaid :
      (db : Db) → IsRead c db → Ensures (λ r db'. IsPaid c s db r.0 db') (pay_settled c today s db)
  unfolding pay_settled
  pay_settled-IsPaid db r =
      check-then (Ensures (λ a db'. IsPaid c s db a.0 db')) (check_due c s) (λ _. after_due) db
        check_due-IsCheck (λ _. tt)
        λ u e. after_due-IsPaid db r (
          subst
            (Ensures (λ _ _.
              exceeds s.source_amount
                (c.balance -ℤ reserved_by_account c.account.id c.user_id db.goal_transactions)
              ≡ false))
            e (check_due-enough db))

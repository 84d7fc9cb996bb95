-- ===== src/Obligations/Pays.antt =====
-- `pay_specific_period` as a whole.
use nexum_backend.Obligations.Settling.{IsSettled, resolve_settlement-IsSettled}
use nexum_backend.Obligations.Settlement.{SettlementResult, resolve_settlement}
use nexum_backend.Obligations.Outcome.{IsRead, IsPaid, pay_settled-IsPaid}
use nexum_backend.Store.Tables.{find_account, find_account-id}
use nexum_backend.Obligations.SpecificPayment.{
  Paying, pay_read, pay_active, by_key, pay_settled, is_active_obligation,
}
use nexum_backend.Prelude.Int.{ℤ}
use nexum_backend.Calendar.{Date}
use nexum_backend.Decimal.{Ratio}
use nexum_backend.Store.Obligations.{ObligationPeriod, ObligationPayment, Obligation}
use nexum_backend.Store.Models.{Account, FinancialEvent}
use nexum_backend.Store.Ensures.{
  IsCheck, Ensures, read-then, check-then, Ensures-map, raise_if-IsCheck, raise_if_passed,
}
use nexum_backend.Accounts.Repository.{get_by_id}
use nexum_backend.Obligations.Lifecycle.{own_obligation, has_id}
use nexum_backend.Obligations.Payments.{
  paying_account, payable_period, PaymentData, Answer, is_command, period_with, is_payable,
  is_paid_by, settlement_request,
}
use nexum_backend.Store.Monad.{◌>>=◌, Db, Action, raise_if, http, obligation_inactive}
use nexum_backend.Prelude.{
  none, some, true, ◌==◌, ℕ, Option, Text, arith, ◌≡◌, find?, ==_iff, find?-passes, ◌⊎◌, refl,
  subst, not, sym, subst₂, Bool, false,
}

-- The user's stored obligation of an id.
abbrev pub IsOwn : ℕ → ℕ → Db → Obligation → Type 0
IsOwn u k db ob = (find? (has_id k) db.obligations ≡ some ob) × (ob.user_id ≡ u) × (ob.id ≡ k)

-- A payment that was made: of the amount asked for, from what was read, settled as it should be.
pub record Makes (user_id obligation_id period_id account_id : ℕ) (payload : PaymentData)
    (asked : Ratio) (command_id : ℕ) (db : Db) (p : ObligationPayment) (db' : Db) : Type 0 where
  pub reads : Paying
  pub settlement : SettlementResult
  pub from_db : IsRead reads db
  pub user : reads.user_id ≡ user_id
  pub own : IsOwn user_id obligation_id db reads.obligation
  pub active : is_active_obligation reads.obligation.status ≡ true
  pub obligation : reads.obligation.id ≡ obligation_id
  pub period : reads.period.id ≡ period_id
  pub account : reads.account.id ≡ account_id
  pub request : reads.payload ≡ payload
  pub amount : reads.asked ≡ asked
  pub command : reads.command_id ≡ command_id
  pub settled :
      IsSettled user_id reads.obligation.currency reads.account.currency
        (settlement_request payload)
        db
        settlement
  pub is_paid : IsPaid reads settlement db p db'

-- A payment that was there: the first of the command's event, or the first under the key.
abbrev pub Replays : ℕ → Option ℕ → ℕ → Option Text → Db → ObligationPayment → Type 0
Replays user_id override command_id key db p =
    ((e : FinancialEvent) × (find? (is_command user_id command_id) db.events ≡ some e)
      × (find? (is_paid_by user_id e.id) db.obligation_payments ≡ some p))
    ⊎ (by_key user_id override key db.obligation_payments ≡ some p)

payable_period-IsCheck : (ob k : ℕ) → IsCheck (payable_period ob k)
unfolding payable_period
payable_period-IsCheck ob k = record { at = λ db. ground arith }

abbrev IsPayable : ℕ → Db → ObligationPeriod × ℤ → Type 0
IsPayable k db r =
    (find? (period_with k) db.obligation_periods ≡ some r.0)
    × (r.0.amount ≡ some r.1)
    × (is_payable r.0.status ≡ true)

payable_period-IsPayable :
    (ob k : ℕ) (db : Db) → Ensures (λ r db'. (db' ≡ db) × IsPayable k db r) (payable_period ob k db)
unfolding payable_period
payable_period-IsPayable ob k db = ground arith

abbrev IsPayer : ℕ → ℕ → Db → Account × ℤ → Type 0
IsPayer u k db r =
    (find_account k db.accounts ≡ some r.0) × (r.0.user_id ≡ some u) × (r.0.balance ≡ some r.1)

paying_account-IsPayer :
    (u k : ℕ) (db : Db) → Ensures (λ r db'. (db' ≡ db) × IsPayer u k db r) (paying_account u k db)
unfolding paying_account get_by_id
paying_account-IsPayer u k db = ground arith

pub own_obligation-IsOwn :
    (u k : ℕ) (db : Db) → Ensures (λ ob db'. (db' ≡ db) × IsOwn u k db ob) (own_obligation u k db)
unfolding own_obligation
own_obligation-IsOwn u k db = by_found (find? (has_id k) db.obligations) refl
  where
    by_found :
        (o : Option Obligation)
        → find? (has_id k) db.obligations ≡ o
        → Ensures (λ ob db'. (db' ≡ db) × IsOwn u k db ob) (own_obligation u k db)
    by_found none e = ground (arith, e)
    by_found (some ob) e =
        (let same : (ob.id == k) ≡ true = find?-passes (has_id k) db.obligations ob e in
          ground (arith, e, same))

was_active : (b : Bool) → not b ≡ false → b ≡ true
was_active b h = ground (arith, h)

module _ (user_id obligation_id period_id account_id : ℕ) (payload : PaymentData) (asked : Ratio)
    (command_id : ℕ) (today : Date) (db : Db) where
  abbrev Made : Answer → Db → Type 0
  Made r db' = Makes user_id obligation_id period_id account_id payload asked command_id db r.0 db'

  pay_read-Made :
      (c : Paying)
      → IsRead c db
      → c.user_id ≡ user_id
      → IsOwn user_id obligation_id db c.obligation
      → is_active_obligation c.obligation.status ≡ true
      → c.period.id ≡ period_id
      → c.account.id ≡ account_id
      → c.payload ≡ payload
      → c.asked ≡ asked
      → c.command_id ≡ command_id
      → Ensures Made (pay_read c today db)
  unfolding pay_read
  pay_read-Made c r u o l p a d m e =
      read-then
        (IsSettled c.user_id c.obligation.currency c.account.currency (settlement_request c.payload)
          db)
        Made
        (resolve_settlement c.user_id c.obligation.currency c.account.currency
          (settlement_request c.payload))
        (pay_settled c today) db
        (resolve_settlement-IsSettled c.user_id c.obligation.currency c.account.currency
          (settlement_request c.payload) db)
        λ s settled.
          Ensures-map (λ r db'. IsPaid c s db r.0 db') Made _ (pay_settled-IsPaid c s today db r)
            λ r' db' h. record {
              reads = c;
              settlement = s;
              from_db = r;
              user = u;
              own = o;
              active = l;
              obligation = o.2;
              period = p;
              account = a;
              request = d;
              amount = m;
              command = e;
              settled =
                  subst₂
                    (λ v x.
                      IsSettled v c.obligation.currency c.account.currency (settlement_request x) db
                        s)
                    u d settled;
              is_paid = h;
            }

  module _ (ob : Obligation) (own : IsOwn user_id obligation_id db ob) where
    abbrev reading : ObligationPeriod × ℤ → Account × ℤ → Paying
    reading payable paying = record {
      user_id = user_id;
      obligation = ob;
      period = payable.0;
      due = payable.1;
      account = paying.0;
      balance = paying.1;
      payload = payload;
      asked = asked;
      command_id = command_id;
    }

    reading-Made :
        (payable : ObligationPeriod × ℤ) (paying : Account × ℤ)
        → is_active_obligation ob.status ≡ true
        → IsPayable period_id db payable
        → IsPayer user_id account_id db paying
        → Ensures Made (pay_read (reading payable paying) today db)
    reading-Made payable paying l p a =
        let period : payable.0.id ≡ period_id =
          (==_iff payable.0.id period_id).0
            (find?-passes (period_with period_id) db.obligation_periods payable.0 p.0) in
        let account : paying.0.id ≡ account_id =
          find_account-id account_id paying.0 db.accounts a.0 in
        pay_read-Made (reading payable paying)
          (record {
            period =
                subst (λ k. find? (period_with k) db.obligation_periods ≡ some payable.0)
                  (sym period) p.0;
            amount = p.1;
            payable = p.2;
            account = subst (λ k. find_account k db.accounts ≡ some paying.0) (sym account) a.0;
            owner = a.1;
            balance = a.2;
          })
          refl own l period account refl refl refl

    abbrev with_account : ObligationPeriod × ℤ → Action Answer
    with_account payable =
        paying_account user_id account_id >>= λ paying. pay_read (reading payable paying) today

    pub pay_active-Made :
        Ensures Made (pay_active user_id ob period_id account_id payload asked command_id today db)
    unfolding pay_active
    pay_active-Made =
        check-then (Ensures Made)
          (raise_if (not (is_active_obligation ob.status)) (http 400 obligation_inactive))
          (λ _. payable_period ob.id period_id >>= with_account) db (raise_if-IsCheck _ _) (λ _. tt)
          λ u passed.
            read-then (IsPayable period_id db) Made (payable_period ob.id period_id) with_account db
              (payable_period-IsPayable ob.id period_id db)
              λ payable p.
                read-then (IsPayer user_id account_id db) Made (paying_account user_id account_id)
                  (λ paying. pay_read (reading payable paying) today) db
                  (paying_account-IsPayer user_id account_id db)
                  λ paying a.
                    reading-Made payable paying (was_active _ (raise_if_passed _ _ db u passed)) p a

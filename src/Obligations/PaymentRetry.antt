-- ===== src/Obligations/PaymentRetry.antt =====
-- A payment of a period that is asked for again.
use nexum_backend.Store.Ensures.{Ensures, transaction_ok, bind_ok}
use nexum_backend.Obligations.PaymentBooks.{Paid, pay_period_route-Paid}
use nexum_backend.Calendar.{Date}
use nexum_backend.Store.Models.{FinancialEvent}
use nexum_backend.Obligations.Retries.{IsSame, validate-build-IsSame}
use nexum_backend.Obligations.Pays.{Makes}
use nexum_backend.Decimal.Compare.{eqb_ratio, positive}
use nexum_backend.Obligations.Fingerprint.{
  PaymentRequest, other_source, validate_idempotency_fingerprint,
}
use nexum_backend.Store.Tables.{opt_eq}
use nexum_backend.Ledger.Insert.{event_row}
use nexum_backend.Obligations.Outcome.{IsPaid}
use nexum_backend.Decimal.{Ratio}
use nexum_backend.Obligations.Settlement.{SettlementResult, names_other}
use nexum_backend.Obligations.Payments.{
  find_replay_by_command_id, is_paid_by, PaymentData, specific_request, or_text, Answer, is_command,
  period_with, replay_or, answer, manual, key_replay_or, keyed, is_missing, stored_payment,
}
use nexum_backend.Obligations.SpecificPayment.{
  Paying, event_of, pay_checked, replays_or, fingerprint_of, pay_period_route, pay_specific_period,
  pay_locked, command_for,
}
use nexum_backend.Store.Obligations.{ObligationPayment, ObligationPeriod}
use nexum_backend.Store.Monad.{
  ◌>>=◌, ◌>>◌, Db, ok, Action, Result, lift, or_raise, http, raise_if, invalid_amount,
  source_account_id_required, missing_idempotency_key,
}
use nexum_backend.Prelude.{
  ◌⊎◌, none, some, true, false, ◌==◌, ◌&&◌, ◌++◌, ◌<◌, ℕ, Bool, List, ◌≡◌, All, Option, where_, ◌∷◌,
  [], Text, arith, upper, refl, text_eq_iff, subst, codes, find?, sym, text_eq, ap, ◌∙◌, not, inl,
  inr, subst₂,
}

-- A payment's event is one that was drawn before.
abbrev pub IsOlder : ℕ → ObligationPayment → Type 0
IsOlder next p = elim p.financial_event_id [ none ↦ Unit {0} | some k ↦ k < next ]

where-append_self :
    (p : ObligationPayment → Bool) (xs : List ObligationPayment) (x : ObligationPayment)
    → All (λ y. p y ≡ false) xs
    → p x ≡ true
    → where_ p (xs ++ x ∷ []) ≡ x ∷ []
where-append_self p [] x h t = ground (arith, t)
where-append_self p (y ∷ xs) x h t = ground (arith, h.0, where-append_self p xs x h.1 t)

older-unpaid : (u next : ℕ) (p : ObligationPayment) → IsOlder next p → is_paid_by u next p ≡ false
older-unpaid u next p h = by_event p.financial_event_id h
  where
    by_event :
        (o : Option ℕ)
        → (elim o as (λ _. Type 0) [ none ↦ Unit {0} | some k ↦ k < next ])
        → (opt_eq o next && p.user_id == u) ≡ false
    by_event none h = ground arith
    by_event (some k) h = ground (arith, h)

all_unpaid :
    (u next : ℕ) (rows : List ObligationPayment)
    → All (IsOlder next) rows
    → All (λ p. is_paid_by u next p ≡ false) rows
all_unpaid u next [] h = tt
all_unpaid u next (p ∷ rows) h = (older-unpaid u next p h.0, all_unpaid u next rows h.1)

same_ids : (k u : ℕ) → (k == k && u == u) ≡ true
same_ids k u = ground arith

first_command :
    (c : Paying) (s : SettlementResult) (db : Db)
    → find? (is_command c.user_id c.command_id) (event_row (event_of c s db.now) db ∷ db.events)
      ≡ some (event_row (event_of c s db.now) db)
first_command c s db = rw (same_ids c.command_id c.user_id) refl

-- The event of a payment, and the payment, are found again by the command.
found_again :
    (c : Paying) (s : SettlementResult) (db : Db) (p : ObligationPayment) (db' : Db)
    → IsPaid c s db p db'
    → All (IsOlder db.next_id) db.obligation_payments
    → find_replay_by_command_id c.user_id c.command_id db'
      ≡ (some (event_row (event_of c s db.now) db), stored_payment p ∷ [])
unfolding find_replay_by_command_id
found_again c s db p db' h older =
    let row = event_row (event_of c s db.now) db in
    let here : is_paid_by c.user_id db.next_id (stored_payment p) ≡ true =
      subst (λ (q : ObligationPayment). is_paid_by c.user_id db.next_id q ≡ true) (sym h.row)
        (same_ids db.next_id c.user_id) in
    let event : find? (is_command c.user_id c.command_id) db'.events ≡ some row =
      ap (find? (is_command c.user_id c.command_id)) h.posts.event ∙ first_command c s db in
    let payments : where_ (is_paid_by c.user_id db.next_id) db'.obligation_payments
        ≡ stored_payment p ∷ [] =
      ap (where_ (is_paid_by c.user_id db.next_id)) h.payments
      ∙ where-append_self (is_paid_by c.user_id db.next_id) db.obligation_payments
          (stored_payment p) (all_unpaid c.user_id db.next_id db.obligation_payments older) here in
    ap
      (λ (o : Option FinancialEvent).
        elim o as (λ _. Option FinancialEvent × List ObligationPayment) [
          | none ↦ (none, [])
          | some e ↦ (some e, where_ (is_paid_by c.user_id e.id) db'.obligation_payments)
        ])
      event
    ∙ ap (λ (rows : List ObligationPayment). (some row, rows)) payments

-- The currencies that a request names are those that the settlement checked.
named_same :
    (named : Option Text) (actual : Text)
    → names_other named (upper actual) ≡ false
    → upper (or_text named actual) ≡ upper actual
named_same none actual h = refl
named_same (some []) actual h = refl
named_same (some (x ∷ t)) actual h =
    (text_eq_iff (upper (x ∷ t)) (upper actual)).0 (ground (arith, h))

source_same :
    (actual : Text) (named : Option Text)
    → names_other named (upper actual) ≡ false
    → other_source (some actual) named ≡ false
source_same [] named h = refl
source_same (a ∷ s) none h = refl
source_same (a ∷ s) (some []) h = refl
source_same (a ∷ s) (some (x ∷ t)) h =
    let same : upper (x ∷ t) ≡ upper (a ∷ s) =
      (text_eq_iff (upper (x ∷ t)) (upper (a ∷ s))).0 (ground (arith, h)) in
    let back : text_eq (upper (a ∷ s)) (upper (x ∷ t)) ≡ true =
      (text_eq_iff (upper (a ∷ s)) (upper (x ∷ t))).1 (sym same) in
    ap not back

same_amount_self : (a : Ratio) → eqb_ratio a a ≡ true
same_amount_self a = ground arith

-- What a payment was asked for.
abbrev asked_for : Paying → PaymentRequest
asked_for c = record {
  obligation_id = c.obligation.id;
  period_id = some c.period.id;
  strategy = codes "specific_period";
  source_account_id = c.account.id;
  amount = c.asked;
  currency = c.obligation.currency;
  source_currency = some c.account.currency;
  quote_id = c.payload.quote_id;
  rate_snapshot_id = c.payload.rate_snapshot_id;
  payment_date = c.payload.payment_date;
}

module _ (user_id obligation_id period_id account_id : ℕ) (payload : PaymentData) (asked : Ratio)
    (command_id : ℕ) (db db' : Db) (p : ObligationPayment)
    (m : Makes user_id obligation_id period_id account_id payload asked command_id db p db') where
  abbrev retried : PaymentRequest
  retried = specific_request obligation_id period_id account_id asked p.currency payload

  retried-IsSame : IsSame (asked_for m.reads) retried
  retried-IsSame =
      let c = m.reads in
      let currency : p.currency ≡ c.obligation.currency =
        ap (λ (q : ObligationPayment). q.currency) m.is_paid.row in
      let named : names_other payload.currency (upper c.obligation.currency) ≡ false =
        m.settled.named in
      record {
        obligation = m.obligation;
        period = ap some m.period;
        strategy = refl;
        account = m.account;
        amount = subst (λ a. eqb_ratio c.asked a ≡ true) m.amount (same_amount_self c.asked);
        currency =
            sym (named_same payload.currency c.obligation.currency named)
            ∙ ap (λ t. upper (or_text payload.currency t)) (sym currency);
        source = source_same c.account.currency payload.source_currency m.settled.named_source;
        quote = ap (λ (x : PaymentData). x.quote_id) m.request;
        snapshot = ap (λ (x : PaymentData). x.rate_snapshot_id) m.request;
        date = ap (λ (x : PaymentData). x.payment_date) m.request;
      }

  retried-valid :
      validate_idempotency_fingerprint
        (some (fingerprint_of m.reads))
        (stored_payment p ∷ [])
        retried
      ≡ ok tt
  retried-valid =
      (validate-build-IsSame (asked_for m.reads) retried (stored_payment p ∷ [])).1 retried-IsSame

  abbrev answered : Answer
  answered = (stored_payment p, find? (period_with p.obligation_period_id) db'.obligation_periods)

  -- The check of an earlier payment finds it and accepts the request.
  checked_again :
      (today : Date)
      → All (IsOlder db.next_id) db.obligation_payments
      → pay_checked user_id obligation_id period_id account_id payload asked manual none command_id
          today db'
        ≡ (ok answered, db')
  unfolding pay_checked replays_or replay_or answer
  checked_again today older =
      let otherwise : Action Answer =
        key_replay_or
          (λ currency. specific_request obligation_id period_id account_id asked currency payload)
          (find? (keyed user_id payload.idempotency_key) db'.obligation_payments)
          (pay_locked user_id obligation_id period_id account_id payload asked manual none
            command_id today) in
      let found : find_replay_by_command_id user_id command_id db'
          ≡ (some (event_row (event_of m.reads m.settlement db.now) db), stored_payment p ∷ []) =
        subst₂
          (λ u k.
            find_replay_by_command_id u k db'
            ≡ (some (event_row (event_of m.reads m.settlement db.now) db), stored_payment p ∷ []))
          m.user m.command (found_again m.reads m.settlement db p db' m.is_paid older) in
      ap
        (λ f.
          replay_or manual
            (λ currency. specific_request obligation_id period_id account_id asked currency payload)
            (λ q. q.currency) f otherwise db')
        found
      ∙ ap (λ (v : Result (Unit {0})). (lift v >> answer (stored_payment p)) db') retried-valid

module _ (command_of : ℕ → Text → ℕ) (user_id obligation_id period_id : ℕ) (payload : PaymentData)
    (today : Date) (db db' : Db) (r : Answer) where
  abbrev route : Db → Result Answer × Db
  route = pay_period_route command_of user_id obligation_id period_id payload today

  abbrev checked : ℕ → Ratio → Action Answer
  checked account_id asked =
      pay_checked user_id obligation_id period_id account_id payload asked manual none
        (command_for command_of user_id none payload.idempotency_key) today

  abbrev after_account : ℕ → Action Answer
  after_account account_id =
      or_raise (positive payload.amount) (http 422 invalid_amount) >>= checked account_id

  abbrev after_key : Unit {0} → Action Answer
  after_key _ =
      or_raise payload.source_account_id (http 422 source_account_id_required) >>= after_account

  -- The handler runs its checks, and then looks for the payment.
  to_checked :
      (account_id : ℕ) (asked : Ratio)
      → payload.source_account_id ≡ some account_id
      → positive payload.amount ≡ some asked
      → is_missing payload.idempotency_key ≡ false
      → pay_specific_period command_of user_id obligation_id period_id payload manual none today db'
        ≡ checked account_id asked db'
  unfolding pay_specific_period
  to_checked account_id asked named read given =
      bind_ok
        (raise_if (is_missing payload.idempotency_key && true) (http 422 missing_idempotency_key))
        after_key db' tt db'
        (ap (λ b. raise_if (b && true) (http 422 missing_idempotency_key) db') given)
      ∙ bind_ok (or_raise payload.source_account_id (http 422 source_account_id_required))
          after_account db' account_id db'
          (ap (λ o. or_raise o (http 422 source_account_id_required) db') named)
      ∙ bind_ok (or_raise (positive payload.amount) (http 422 invalid_amount)) (checked account_id)
          db' asked db' (ap (λ o. or_raise o (http 422 invalid_amount) db') read)

  -- The call that follows writes nothing, and answers with the payment that the first call made, its
  -- rate rounded as its column keeps it, or with the payment that the first call found.
  abbrev pub Again : Type 0
  Again =
      (p : ObligationPayment) × (q : Option ObligationPeriod) × (route db' ≡ (ok (p, q), db'))
      × ((p ≡ stored_payment r.0) ⊎ (db' ≡ db) × (p ≡ r.0))

  again_made :
      (account_id : ℕ) (asked : Ratio)
      → payload.source_account_id ≡ some account_id
      → positive payload.amount ≡ some asked
      → is_missing payload.idempotency_key ≡ false
      → All (IsOlder db.next_id) db.obligation_payments
      → Makes user_id obligation_id period_id account_id payload asked
          (command_for command_of user_id none payload.idempotency_key)
          db
          r.0
          db'
      → Again
  unfolding pay_period_route
  again_made account_id asked named read given older m = (
    stored_payment r.0,
    find? (period_with r.0.obligation_period_id) db'.obligation_periods,
    transaction_ok
        (pay_specific_period command_of user_id obligation_id period_id payload manual none today)
        db'
        (stored_payment r.0, find? (period_with r.0.obligation_period_id) db'.obligation_periods)
        db'
        (to_checked account_id asked named read given
          ∙ checked_again user_id obligation_id period_id account_id payload asked
              (command_for command_of user_id none payload.idempotency_key) db db' r.0 m today
              older),
    inl refl,
  )

  -- When every stored payment's event was drawn before, a payment that was made or found, asked for
  -- again, writes nothing and returns the same payment: one that the first call made with its rate
  -- rounded to six places, as its column keeps it, and one that it found as it was.
  pub pay_period_route-again :
      All (IsOlder db.next_id) db.obligation_payments → route db ≡ (ok r, db') → Again
  pay_period_route-again older h = by_end (
      subst (Ensures (Paid command_of user_id obligation_id period_id payload today db)) h
        (pay_period_route-Paid command_of user_id obligation_id period_id payload today db))
    where
      by_end : Paid command_of user_id obligation_id period_id payload today db r db' → Again
      by_end (account_id, asked, named, read, given, inl m) =
          again_made account_id asked named read given older m
      by_end (account_id, asked, named, read, given, inr old) =
          (r.0, r.1, ap route old.0 ∙ h, inr (old.0, refl))

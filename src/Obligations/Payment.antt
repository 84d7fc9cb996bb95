-- ===== src/Obligations/Payment.antt =====
-- The outcome of `pay_specific_period`, and the books after it.
use nexum_backend.Calendar.Ordinals.{some_inj}
use nexum_backend.Obligations.Lifecycle.{own_obligation}
use nexum_backend.Obligations.SpecificPayment.{
  replays_or, by_key, pay_checked, pay_locked, pay_active,
}
use nexum_backend.Obligations.Pays.{Makes, Replays, own_obligation-IsOwn, IsOwn, pay_active-Made}
use nexum_backend.Calendar.{Date}
use nexum_backend.Obligations.Fingerprint.{PaymentRequest, validate_idempotency_fingerprint}
use nexum_backend.Decimal.{Ratio}
use nexum_backend.Store.Models.{FinancialEvent}
use nexum_backend.Store.Ensures.{Ensures, read-then, Ensures-map}
use nexum_backend.Store.Obligations.{ObligationPayment, Obligation}
use nexum_backend.Obligations.Payments.{
  Answer, answer, find_replay_by_command_id, PaymentData, replay_or, key_replay_or, Channel,
  is_command, is_paid_by, automatic, manual, specific_request,
}
use nexum_backend.Store.Monad.{◌>>◌, Db, Result, lift, ok, err, Action}
use nexum_backend.Prelude.{
  none, some, ℕ, ◌≡◌, List, refl, Text, Option, ◌∷◌, find?, ◌⊎◌, inr, [], inl, ◌∙◌, ap, sym, where_,
  arith, subst, where-first,
}

answer-stored :
    (p : ObligationPayment) (db : Db) → Ensures (λ r db'. (db' ≡ db) × (r.0 ≡ p)) (answer p db)
unfolding answer
answer-stored p db = (refl, refl)

-- A replay ends in the payment that it found, or the rest is run.
module _ (Q : Answer → Db → Type 0) (db : Db) where
  Ends : ObligationPayment → Type 0
  Ends p = (r : Answer) → r.0 ≡ p → Q r db

  checked_answer :
      (v : Result (Unit {0})) (p : ObligationPayment) → Ends p → Ensures Q ((lift v >> answer p) db)
  unfolding answer Ends
  checked_answer (ok u) p h = h _ refl
  checked_answer (err e) p h = tt

  key_replay_or-Ensures :
      (request : Text → PaymentRequest) (o : Option ObligationPayment) (rest : Action Answer)
      → ((p : ObligationPayment) → o ≡ some p → Ends p)
      → Ensures Q (rest db)
      → Ensures Q (key_replay_or request o rest db)
  unfolding key_replay_or
  key_replay_or-Ensures request none rest h k = k
  key_replay_or-Ensures request (some p) rest h k =
      checked_answer (validate_idempotency_fingerprint none (p ∷ []) (request p.currency)) p
        (h p refl)

  replay_or-Ensures :
      (channel : Channel) (request : Text → PaymentRequest) (currency : ObligationPayment → Text)
      (found : Option FinancialEvent × List ObligationPayment) (rest : Action Answer)
      → ((e : FinancialEvent) (p : ObligationPayment) (rows : List ObligationPayment)
          → found ≡ (some e, p ∷ rows)
          → Ends p)
      → Ensures Q (rest db)
      → Ensures Q (replay_or channel request currency found rest db)
  unfolding replay_or answer Ends
  replay_or-Ensures automatic request currency (some e, p ∷ rows) rest h k = h e p rows refl _ refl
  replay_or-Ensures manual request currency (some e, p ∷ rows) rest h k =
      checked_answer
        (validate_idempotency_fingerprint e.fingerprint (p ∷ rows) (request (currency p))) p
        (h e p rows refl)
  replay_or-Ensures channel request currency (some e, []) rest h k = k
  replay_or-Ensures channel request currency (none, rows) rest h k = k

found_replay :
    (user_id command_id : ℕ) (db : Db) (e : FinancialEvent) (p : ObligationPayment)
    (rows : List ObligationPayment)
    → find_replay_by_command_id user_id command_id db ≡ (some e, p ∷ rows)
    → (find? (is_command user_id command_id) db.events ≡ some e)
      × (find? (is_paid_by user_id e.id) db.obligation_payments ≡ some p)
unfolding find_replay_by_command_id
found_replay user_id command_id db e p rows h =
    by_event (find? (is_command user_id command_id) db.events) h
  where
    by_event :
        (o : Option FinancialEvent)
        → elim o as (λ _. Option FinancialEvent × List ObligationPayment) [
          | none ↦ (none, [])
          | some f ↦ (some f, where_ (is_paid_by user_id f.id) db.obligation_payments)
        ]
          ≡ (some e, p ∷ rows)
        → (o ≡ some e) × (find? (is_paid_by user_id e.id) db.obligation_payments ≡ some p)
    by_event none h =
        ground (arith, ap (λ (x : Option FinancialEvent × List ObligationPayment). x.0) h)
    by_event (some f) h =
        let same : some f ≡ some e =
          ap (λ (x : Option FinancialEvent × List ObligationPayment). x.0) h in
        (
          same,
          subst
              (λ (x : FinancialEvent).
                find? (is_paid_by user_id x.id) db.obligation_payments ≡ some p)
              (some_inj same)
              (where-first (is_paid_by user_id f.id) db.obligation_payments rows p
                (ap (λ (x : Option FinancialEvent × List ObligationPayment). x.1) h)),
        )

module _ (user_id obligation_id period_id account_id : ℕ) (payload : PaymentData) (asked : Ratio)
    (channel : Channel) (override : Option ℕ) (command_id : ℕ) (today : Date) (db : Db) where
  -- How a payment ends: it was made, or there already and nothing was written.
  abbrev pub Pays : Answer → Db → Type 0
  Pays r db' =
      Makes user_id obligation_id period_id account_id payload asked command_id db r.0 db'
      ⊎ (db' ≡ db) × Replays user_id override command_id payload.idempotency_key db r.0

  replays_or-Pays :
      (request : Text → PaymentRequest) (currency : ObligationPayment → Text) (rest : Action Answer)
      → Ensures Pays (rest db)
      → Ensures Pays
          (replays_or user_id channel override command_id request currency payload rest db)
  unfolding replays_or Ends
  replays_or-Pays request currency rest k =
      replay_or-Ensures Pays db channel request currency
        (find_replay_by_command_id user_id command_id db) _
        (λ e p rows found r same.
          let (event, payment) = found_replay user_id command_id db e p rows found in
          inr (refl, inl (e, event, payment ∙ ap some (sym same))))
        (key_replay_or-Ensures Pays db request
          (by_key user_id override payload.idempotency_key db.obligation_payments) rest
          (λ p found r same. inr (refl, inr (found ∙ ap some (sym same)))) k)

  abbrev under_lock : Obligation → Action Answer
  under_lock ob =
      replays_or user_id channel override command_id
        (λ currency. specific_request obligation_id period_id account_id asked currency payload)
        (λ _. ob.currency) payload
        (pay_active user_id ob period_id account_id payload asked command_id today)

  pay_locked-Pays : Ensures Pays (
      pay_locked user_id obligation_id period_id account_id payload asked channel override
        command_id today db)
  unfolding pay_locked
  pay_locked-Pays =
      read-then (IsOwn user_id obligation_id db) Pays (own_obligation user_id obligation_id)
        under_lock db (own_obligation-IsOwn user_id obligation_id db)
        λ ob same.
          replays_or-Pays
            (λ currency. specific_request obligation_id period_id account_id asked currency payload)
            (λ _. ob.currency)
            (pay_active user_id ob period_id account_id payload asked command_id today)
            (Ensures-map
              (λ r db'.
                Makes user_id obligation_id period_id account_id payload asked command_id db r.0
                  db')
              Pays _
              (pay_active-Made user_id obligation_id period_id account_id payload asked command_id
                today db ob same)
              (λ r db' h. inl h))

  pub pay_checked-Pays : Ensures Pays (
      pay_checked user_id obligation_id period_id account_id payload asked channel override
        command_id today db)
  unfolding pay_checked
  pay_checked-Pays =
      replays_or-Pays
        (λ currency. specific_request obligation_id period_id account_id asked currency payload)
        (λ p. p.currency)
        (pay_locked user_id obligation_id period_id account_id payload asked channel override
          command_id today)
        pay_locked-Pays

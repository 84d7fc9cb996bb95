-- ===== src/Obligations/Retries.antt =====
-- A fingerprint accepts the requests that repeat the one it was built from.
use nexum_backend.Store.Obligations.{ObligationPayment}
use nexum_backend.Calendar.{Date}
use nexum_backend.Store.Tables.{opt_eq_opt}
use nexum_backend.Prelude.{
  refl, ◌≡◌, ◌↔◌, true, false, none, some, ℕ, Text, text_eq, text_eq_iff, upper, upper-upper, arith,
  Option, [], ◌∷◌, not, ◌==◌, ap, sym, ◌∙◌, List,
}
use nexum_backend.Store.Monad.{ok}
use nexum_backend.Decimal.Compare.{eqb_ratio}
use nexum_backend.Obligations.Fingerprint.{
  PaymentRequest, build_idempotency_fingerprint, validate_fingerprint, upper_or_none, other_source,
  opt_date_eq, validate_idempotency_fingerprint,
}

-- Two requests are the same payment: every argument is the same, an amount by value, a currency by
-- its upper case, and a source currency where both name one.
pub record IsSame (a b : PaymentRequest) : Type 0 where
  pub obligation : a.obligation_id ≡ b.obligation_id
  pub period : a.period_id ≡ b.period_id
  pub strategy : a.strategy ≡ b.strategy
  pub account : a.source_account_id ≡ b.source_account_id
  pub amount : eqb_ratio a.amount b.amount ≡ true
  pub currency : upper a.currency ≡ upper b.currency
  pub source : other_source a.source_currency b.source_currency ≡ false
  pub quote : a.quote_id ≡ b.quote_id
  pub snapshot : a.rate_snapshot_id ≡ b.rate_snapshot_id
  pub date : a.payment_date ≡ b.payment_date

-- Writing the source currency in upper case changes no comparison.
other_source-upper : (a b : Option Text) → other_source (upper_or_none a) b ≡ other_source a b
unfolding upper_or_none upper
other_source-upper none b = refl
other_source-upper (some []) b = refl
other_source-upper (some (c ∷ s)) none = refl
other_source-upper (some (c ∷ s)) (some []) = refl
other_source-upper (some (c ∷ s)) (some (d ∷ t)) =
    ap (λ u. not (text_eq u (upper (d ∷ t)))) (upper-upper (c ∷ s))

opt_eq_opt_iff : (a b : Option ℕ) → (opt_eq_opt a b ≡ true) ↔ (a ≡ b)
opt_eq_opt_iff none none = ground arith
opt_eq_opt_iff none (some b) = ground arith
opt_eq_opt_iff (some a) none = ground arith
opt_eq_opt_iff (some a) (some b) = ground arith

opt_date_eq_iff : (a b : Option Date) → (opt_date_eq a b ≡ true) ↔ (a ≡ b)
opt_date_eq_iff none none = ground arith
opt_date_eq_iff none (some b) = ground arith
opt_date_eq_iff (some a) none = ground arith
opt_date_eq_iff (some a) (some b) = ground arith

-- The fingerprint that a request was stored with accepts a request exactly when it is the same
-- payment, whatever payments are stored beside it.
pub validate-build-IsSame :
    (a b : PaymentRequest) (payments : List ObligationPayment)
    → (validate_idempotency_fingerprint (some (build_idempotency_fingerprint a)) payments b ≡ ok tt)
      ↔ IsSame a b
unfolding validate_idempotency_fingerprint validate_fingerprint build_idempotency_fingerprint
validate-build-IsSame a b payments = (
  λ h. record {
    obligation = ground (arith, h);
    period = (opt_eq_opt_iff a.period_id b.period_id).0 (ground (arith, h));
    strategy = (text_eq_iff a.strategy b.strategy).0 (ground (arith, h));
    account = ground (arith, h);
    amount = ground (arith, h);
    currency =
        sym (upper-upper a.currency)
        ∙ (text_eq_iff (upper (upper a.currency)) (upper b.currency)).0 (ground (arith, h));
    source = sym (other_source-upper a.source_currency b.source_currency) ∙ ground (arith, h);
    quote = (opt_eq_opt_iff a.quote_id b.quote_id).0 (ground (arith, h));
    snapshot = (opt_eq_opt_iff a.rate_snapshot_id b.rate_snapshot_id).0 (ground (arith, h));
    date = (opt_date_eq_iff a.payment_date b.payment_date).0 (ground (arith, h));
  },
  λ s.
      let account : (a.source_account_id == b.source_account_id) ≡ true = ground arith in
      let obligation : (a.obligation_id == b.obligation_id) ≡ true = ground arith in
      let currency : text_eq (upper (upper a.currency)) (upper b.currency) ≡ true =
        (text_eq_iff _ _).1 (upper-upper a.currency ∙ s.currency) in
      let source : other_source (upper_or_none a.source_currency) b.source_currency ≡ false =
        other_source-upper a.source_currency b.source_currency ∙ s.source in
      let period = (opt_eq_opt_iff a.period_id b.period_id).1 s.period in
      let strategy = (text_eq_iff a.strategy b.strategy).1 s.strategy in
      let quote = (opt_eq_opt_iff a.quote_id b.quote_id).1 s.quote in
      let snapshot = (opt_eq_opt_iff a.rate_snapshot_id b.rate_snapshot_id).1 s.snapshot in
      let date = (opt_date_eq_iff a.payment_date b.payment_date).1 s.date in
      rw (obligation, period, strategy, account, s.amount, currency, source, quote, snapshot, date)
        refl,
)

-- ===== src/Obligations/Settled.antt =====
-- What a settlement guarantees.
use nexum_backend.Store.Tables.{find_rate}
use nexum_backend.Currency.{round_to_minimum_unit}
use nexum_backend.Store.Models.{FxQuote, QuoteStatus, ExchangeRate}
use nexum_backend.Prelude.{
  ◌≡◌, ◌<◌, true, some, arith, Text, ℕ, false, ◌⊎◌, none, inl, inr, refl, Bool, Option-cases, not,
  text_eq_iff, leb, if◌then◌else◌, text_eq, ◌&&◌, Bool-cases, codes, ap,
}
use nexum_backend.Store.Monad.{Db}
use nexum_backend.Store.Ensures.{Ensures, Ensures-map}
use nexum_backend.Decimal.{Decimal, Ratio, div, mul}
use nexum_backend.Decimal.Compare.{positive, leb_ratio, is_hundredths, distance, eqb_ratio}
use nexum_backend.Obligations.Settlement.{
  check_amount, check_source, quote_amount, max_payment_amount, SettlementResult, SettlementRequest,
  beyond_tolerance, settle_by_snapshot, find_quote,
}

-- An amount that a payment may have.
pub record IsPayment (r : Ratio) : Type 0 where
  pub above_zero : 0 < r.coef
  pub within : leb_ratio r max_payment_amount ≡ true

-- An amount of a payment in hundredths, as the decimal `d` gives it.
abbrev pub IsReadFrom : Decimal → Ratio → Type 0
IsReadFrom d a = IsPayment a × (is_hundredths a ≡ true) × (positive d ≡ some a)

pub check_amount-IsPayment :
    (d : Decimal) (db : Db) → Ensures (λ a db'. (db' ≡ db) × IsReadFrom d a) (check_amount d db)
unfolding check_amount positive
check_amount-IsPayment d db = ground arith

pub quote_amount-IsPayment :
    (d : Decimal) (db : Db) → Ensures (λ a db'. (db' ≡ db) × IsReadFrom d a) (quote_amount d db)
unfolding quote_amount positive
quote_amount-IsPayment d db = ground arith

check_source-IsPayment :
    (a : Ratio) (db : Db) → Ensures (λ _ db'. (db' ≡ db) × IsPayment a) (check_source a db)
unfolding check_source
check_source-IsPayment a db = ground arith

-- `abs(applied - amount) <= max(amount * 0.001, 50.00 COP or 0.01)`, with the limits written out.
abbrev pub IsNear : Ratio → Ratio → Text → Type 0
IsNear applied amount currency =
    (leb_ratio (distance applied amount) (mul amount (record { coef = 1; places = 3 })) ≡ true)
    ⊎ (leb_ratio (distance applied amount)
          (record { coef = if text_eq currency (codes "COP") then 5000 else 1; places = 2 })
        ≡ true)

-- A snapshot for the two currencies that is still good at an instant, and its rate.
pub record IsGoodSnapshot (source_currency obligation_currency : Text) (now : ℕ)
    (applied_rate : Ratio) (snapshot : ExchangeRate) : Type 0 where
  pub alive : now < snapshot.expires_at
  pub base : snapshot.base_currency ≡ source_currency
  pub quote : snapshot.quote_currency ≡ obligation_currency
  pub rate : positive snapshot.rate ≡ some applied_rate

-- A quote of the user for the two currencies that is active and still good at an instant.
pub record IsGoodQuote (user_id : ℕ) (source_currency obligation_currency : Text) (now : ℕ)
    (quote : FxQuote) : Type 0 where
  pub owner : quote.user_id ≡ user_id
  pub alive : now < quote.expires_at
  pub status : quote.status ≡ QuoteStatus.active
  pub from : quote.from_currency ≡ source_currency
  pub to : quote.to_currency ≡ obligation_currency

-- The amounts of a quote fit its rate, on one side at least, and the source amount that the request
-- names, if it names one.
pub record IsFitting (request : SettlementRequest) (source_currency obligation_currency : Text)
    (r : SettlementResult) : Type 0 where
  pub named :
      (elim request.source_amount [ none ↦ true | some asked ↦ eqb_ratio r.source_amount asked ])
      ≡ true
  pub expected_target : Ratio
  pub expected_source : Ratio
  pub to_target :
      round_to_minimum_unit (mul r.source_amount r.fx_rate) obligation_currency
      ≡ some expected_target
  pub to_source :
      round_to_minimum_unit (div r.applied_amount r.fx_rate) source_currency ≡ some expected_source
  pub fits :
      (eqb_ratio r.applied_amount expected_target ≡ true)
      ⊎ (eqb_ratio r.source_amount expected_source ≡ true)

-- What each way across two currencies gives, for a source currency and an amount asked for.
pub record BySnapshot (source_currency obligation_currency : Text) (amount : Ratio) (db : Db)
    (k : ℕ) (r : SettlementResult) : Type 0 where
  pub snapshot : ExchangeRate
  pub found : find_rate k db.exchange_rates ≡ some snapshot
  pub good : IsGoodSnapshot source_currency obligation_currency db.now r.fx_rate snapshot
  pub paid_in : r.source_currency ≡ source_currency
  pub source_pays : IsPayment r.source_amount
  pub applied : r.applied_amount ≡ amount
  pub source : round_to_minimum_unit (div amount r.fx_rate) source_currency ≡ some r.source_amount

pub record ByQuote (user_id : ℕ) (request : SettlementRequest)
    (source_currency obligation_currency : Text) (amount : Ratio) (db : Db) (k : ℕ)
    (r : SettlementResult) : Type 0 where
  pub quote : FxQuote
  pub found : find_quote k db.fx_quotes ≡ some quote
  pub good : IsGoodQuote user_id source_currency obligation_currency db.now quote
  pub paid_in : r.source_currency ≡ source_currency
  pub source_pays : IsPayment r.source_amount
  pub applied_pays : IsPayment r.applied_amount
  pub applied_exact : is_hundredths r.applied_amount ≡ true
  pub rate : positive quote.rate ≡ some r.fx_rate
  pub source : positive quote.source_amount ≡ some r.source_amount
  pub applied : positive quote.target_amount ≡ some r.applied_amount
  pub fitting : IsFitting request source_currency obligation_currency r
  pub near : IsNear r.applied_amount amount obligation_currency

pub beyond_tolerance-IsNear :
    (target amount : Ratio) (currency : Text)
    → beyond_tolerance target amount currency ≡ false
    → IsNear target amount currency
unfolding beyond_tolerance
beyond_tolerance-IsNear target amount currency h =
    elim (Bool-cases (text_eq currency (codes "COP"))) [
      | inl e ↦ rw e (one_of _ _ (ap (λ x. x) (ground (arith, h, e))))
      | inr e ↦ rw e (one_of _ _ (ground (arith, h, e)))
    ]
  where
    one_of : (a b : Bool) → (not a && not b) ≡ false → (a ≡ true) ⊎ (b ≡ true)
    one_of true b h = inl refl
    one_of false b h = inr (ground (arith, h))

module _ (user_id : ℕ) (request : SettlementRequest) (source_currency obligation_currency : Text)
    (amount : Ratio) (db : Db) where
  abbrev AtSnapshot : ExchangeRate → SettlementResult → Type 0
  AtSnapshot snapshot r =
      (leb snapshot.expires_at db.now ≡ false)
      × (text_eq snapshot.base_currency source_currency ≡ true)
      × (text_eq snapshot.quote_currency obligation_currency ≡ true)
      × (positive snapshot.rate ≡ some r.fx_rate)
      × (r.source_currency ≡ source_currency)
      × IsPayment r.source_amount
      × (r.applied_amount ≡ amount)
      × (round_to_minimum_unit (div amount r.fx_rate) source_currency ≡ some r.source_amount)

  settle_at :
      (k : ℕ) (snapshot : ExchangeRate)
      → find_rate k db.exchange_rates ≡ some snapshot
      → Ensures
          (λ r db'. (db' ≡ db) × AtSnapshot snapshot r)
          (settle_by_snapshot source_currency obligation_currency amount k db)
  unfolding settle_by_snapshot check_source
  settle_at k snapshot e = ground (arith, e)

  settle_nowhere :
      (k : ℕ)
      → find_rate k db.exchange_rates ≡ none
      → Ensures
          (λ r db'. (db' ≡ db) × BySnapshot source_currency obligation_currency amount db k r)
          (settle_by_snapshot source_currency obligation_currency amount k db)
  unfolding settle_by_snapshot
  settle_nowhere k e = rw e tt

  AtSnapshot-BySnapshot :
      (k : ℕ) (snapshot : ExchangeRate) (r : SettlementResult)
      → find_rate k db.exchange_rates ≡ some snapshot
      → AtSnapshot snapshot r
      → BySnapshot source_currency obligation_currency amount db k r
  AtSnapshot-BySnapshot k snapshot r e h = record {
    snapshot = snapshot;
    found = e;
    good = record {
      alive = ground (arith, h.0);
      base = (text_eq_iff snapshot.base_currency source_currency).0 h.1;
      quote = (text_eq_iff snapshot.quote_currency obligation_currency).0 h.2;
      rate = h.3;
    };
    paid_in = h.4;
    source_pays = h.5;
    applied = h.6;
    source = h.7;
  }

  pub settle_by_snapshot-BySnapshot :
      (k : ℕ)
      → Ensures
          (λ r db'. (db' ≡ db) × BySnapshot source_currency obligation_currency amount db k r)
          (settle_by_snapshot source_currency obligation_currency amount k db)
  settle_by_snapshot-BySnapshot k = elim (Option-cases (find_rate k db.exchange_rates)) [
    | inl e ↦ settle_nowhere k e
    | inr (snapshot, e) ↦
        Ensures-map (λ r db'. (db' ≡ db) × AtSnapshot snapshot r) _ _ (settle_at k snapshot e)
          λ r db' h. (h.0, AtSnapshot-BySnapshot k snapshot r e h.1)
  ]

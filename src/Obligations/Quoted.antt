-- ===== src/Obligations/Quoted.antt =====
-- What a settlement by a quote guarantees, and one across two currencies.
use nexum_backend.Currency.{round_to_minimum_unit}
use nexum_backend.Store.Models.{FxQuote, QuoteStatus}
use nexum_backend.Prelude.{
  ◌≡◌, true, some, arith, Text, ℕ, false, Option, ◌⊎◌, none, inl, inr, refl, Bool, Option-cases,
  not, text_eq_iff, leb, text_eq, Bool-cases, ◌||◌,
}
use nexum_backend.Store.Monad.{Db, or_raise, http, invalid_fx_quote, ◌>>=◌, ◌>>◌, pure, Action}
use nexum_backend.Store.Ensures.{
  Ensures, check-then, or_raise-IsCheck, read-then, Ensures-map, or_raise_passed,
}
use nexum_backend.Decimal.{Ratio, div, mul}
use nexum_backend.Decimal.Compare.{positive, eqb_ratio}
use nexum_backend.Obligations.Settlement.{
  quote_amount, SettlementResult, SettlementRequest, check_pair, beyond_tolerance, check_quote,
  settle_by_quote, settle_quote, quote_result, settle_across, find_quote, is_active,
}
use nexum_backend.Obligations.Settled.{
  BySnapshot, ByQuote, settle_by_snapshot-BySnapshot, IsReadFrom, quote_amount-IsPayment,
  beyond_tolerance-IsNear,
}

either : (a b : Bool) → (a || b) ≡ true → (a ≡ true) ⊎ (b ≡ true)
either true b h = inl refl
either false b h = inr h

module _ (user_id : ℕ) (request : SettlementRequest) (source_currency obligation_currency : Text)
    (amount : Ratio) (db : Db) where
  -- What the check of a quote's amounts knows when it passes.
  abbrev Fits : Ratio → Ratio → Ratio → Type 0
  Fits rate source target =
      ((elim request.source_amount [ none ↦ true | some asked ↦ eqb_ratio source asked ]) ≡ true)
      × (expected_target : Ratio) × (expected_source : Ratio) × (round_to_minimum_unit
            (mul source rate) obligation_currency
          ≡ some expected_target)
      × (round_to_minimum_unit (div target rate) source_currency ≡ some expected_source)
      × ((eqb_ratio target expected_target || eqb_ratio source expected_source) ≡ true)
      × (beyond_tolerance target amount obligation_currency ≡ false)

  module _ (rate source target : Ratio) where
    abbrev pair_check : Action (Unit {0})
    pair_check = check_pair request source_currency obligation_currency amount rate source target

    abbrev FitsWith : Ratio → Ratio → Type 0
    FitsWith expected_target expected_source =
        ((elim request.source_amount [ none ↦ true | some asked ↦ eqb_ratio source asked ]) ≡ true)
        × ((eqb_ratio target expected_target || eqb_ratio source expected_source) ≡ true)
        × (beyond_tolerance target amount obligation_currency ≡ false)

    check_pair-FitsWith :
        (t u : Ratio)
        → round_to_minimum_unit (mul source rate) obligation_currency ≡ some t
        → round_to_minimum_unit (div target rate) source_currency ≡ some u
        → Ensures (λ _ db'. (db' ≡ db) × FitsWith t u) (pair_check db)
    unfolding check_pair
    check_pair-FitsWith t u e f = ground (arith, e, f)

    no_target :
        round_to_minimum_unit (mul source rate) obligation_currency ≡ none
        → Ensures (λ _ db'. (db' ≡ db) × Fits rate source target) (pair_check db)
    unfolding check_pair
    no_target e =
        elim (Bool-cases (elim request.source_amount [
          | none ↦ false
          | some asked ↦ not (eqb_ratio source asked)
        ])) [ inl c ↦ rw c tt | inr c ↦ rw (c, e) tt ]

    no_source :
        (t : Ratio)
        → round_to_minimum_unit (mul source rate) obligation_currency ≡ some t
        → round_to_minimum_unit (div target rate) source_currency ≡ none
        → Ensures (λ _ db'. (db' ≡ db) × Fits rate source target) (pair_check db)
    unfolding check_pair
    no_source t e f =
        elim (Bool-cases (elim request.source_amount [
          | none ↦ false
          | some asked ↦ not (eqb_ratio source asked)
        ])) [ inl c ↦ rw c tt | inr c ↦ rw (c, e, f) tt ]

    check_pair-Fits : Ensures (λ _ db'. (db' ≡ db) × Fits rate source target) (pair_check db)
    check_pair-Fits =
        elim (Option-cases (round_to_minimum_unit (mul source rate) obligation_currency)) [
          | inl e ↦ no_target e
          | inr (t, e) ↦
              elim (Option-cases (round_to_minimum_unit (div target rate) source_currency)) [
                | inl f ↦ no_source t e f
                | inr (u, f) ↦
                    Ensures-map (λ _ db'. (db' ≡ db) × FitsWith t u) _ _
                      (check_pair-FitsWith t u e f)
                      λ _ db' h. (h.0, (h.1.0, t, u, e, f, h.1.1, h.1.2))
              ]
        ]

  -- What the check of a quote knows when it passes.
  abbrev IsQuote : ℕ → FxQuote → Type 0
  IsQuote k quote =
      (find_quote k db.fx_quotes ≡ some quote)
      × (quote.user_id ≡ user_id)
      × (leb quote.expires_at db.now ≡ false)
      × (is_active quote.status ≡ true)
      × (text_eq quote.from_currency source_currency ≡ true)
      × (text_eq quote.to_currency obligation_currency ≡ true)

  check_quote-IsQuote :
      (k : ℕ)
      → Ensures
          (λ quote db'. (db' ≡ db) × IsQuote k quote)
          (check_quote user_id source_currency obligation_currency k db)
  unfolding check_quote
  check_quote-IsQuote k = ground arith

  active_status : (status : QuoteStatus) → is_active status ≡ true → status ≡ QuoteStatus.active
  active_status QuoteStatus.active h = refl
  active_status _ h = ground (arith, h)

  abbrev Quoted : ℕ → SettlementResult → Db → Type 0
  Quoted k r db' =
      (db' ≡ db) × ByQuote user_id request source_currency obligation_currency amount db k r

  module _ (quote : FxQuote) (rate : Ratio) where
    abbrev after_target : Ratio → Ratio → Action SettlementResult
    after_target source target =
        check_pair request source_currency obligation_currency amount rate source target
        >> pure (quote_result quote source_currency rate source target)

    abbrev after_source : Ratio → Action SettlementResult
    after_source source = quote_amount quote.target_amount >>= after_target source

  module _ (k : ℕ) (quote : FxQuote) (q : IsQuote k quote) (rate : Ratio)
      (rated : positive quote.rate ≡ some rate) where
    quote_result-ByQuote :
        (source target : Ratio)
        → IsReadFrom quote.source_amount source
        → IsReadFrom quote.target_amount target
        → Fits rate source target
        → ByQuote user_id request source_currency obligation_currency amount db k
            (quote_result quote source_currency rate source target)
    quote_result-ByQuote source target a b f = record {
      quote = quote;
      found = q.0;
      good = record {
        owner = q.1;
        alive = ground (arith, q.2);
        status = active_status quote.status q.3;
        from = (text_eq_iff quote.from_currency source_currency).0 q.4;
        to = (text_eq_iff quote.to_currency obligation_currency).0 q.5;
      };
      paid_in = refl;
      source_pays = a.0;
      applied_pays = b.0;
      applied_exact = b.1;
      rate = rated;
      source = a.2;
      applied = b.2;
      fitting = record {
        named = f.0;
        expected_target = f.1;
        expected_source = f.2;
        to_target = f.3;
        to_source = f.4;
        fits = either _ _ f.5;
      };
      near = beyond_tolerance-IsNear target amount obligation_currency f.6;
    }

    after_source-Quoted :
        (source : Ratio)
        → IsReadFrom quote.source_amount source
        → Ensures (Quoted k) (after_source quote rate source db)
    after_source-Quoted source p =
        read-then (IsReadFrom quote.target_amount) (Quoted k) (quote_amount quote.target_amount)
          (after_target quote rate source) db (quote_amount-IsPayment quote.target_amount db)
          λ target t.
            read-then (λ _. Fits rate source target) (Quoted k)
              (check_pair request source_currency obligation_currency amount rate source target)
              (λ _. pure (quote_result quote source_currency rate source target)) db
              (check_pair-Fits rate source target)
              λ _ f. (refl, quote_result-ByQuote source target p t f)

  settle_quote-ByQuote :
      (k : ℕ) (quote : FxQuote)
      → IsQuote k quote
      → Ensures
          (Quoted k)
          (settle_quote request source_currency obligation_currency amount quote db)
  unfolding settle_quote
  settle_quote-ByQuote k quote q =
      check-then (Ensures (Quoted k)) (or_raise (positive quote.rate) (http 422 invalid_fx_quote))
        (λ rate. quote_amount quote.source_amount >>= after_source quote rate) db
        (or_raise-IsCheck _ _) (λ _. tt)
        λ rate e.
          read-then (IsReadFrom quote.source_amount) (Quoted k) (quote_amount quote.source_amount)
            (after_source quote rate) db (quote_amount-IsPayment quote.source_amount db)
            (after_source-Quoted k quote q rate (or_raise_passed _ _ db rate e))

  settle_by_quote-ByQuote :
      (k : ℕ)
      → Ensures
          (Quoted k)
          (settle_by_quote user_id request source_currency obligation_currency amount k db)
  unfolding settle_by_quote
  settle_by_quote-ByQuote k =
      read-then (IsQuote k) (Quoted k) (check_quote user_id source_currency obligation_currency k)
        (settle_quote request source_currency obligation_currency amount) db (check_quote-IsQuote k)
        (settle_quote-ByQuote k)

  abbrev pub Across : Option ℕ → Option ℕ → SettlementResult → Db → Type 0
  Across o p r db' =
      (db' ≡ db)
      × (((k : ℕ) × (o ≡ some k) × BySnapshot source_currency obligation_currency amount db k r)
          ⊎ (o ≡ none)
            × (k : ℕ) × (p ≡ some k)
            × ByQuote user_id request source_currency obligation_currency amount db k r)

  pub settle_across-Across :
      (o p : Option ℕ)
      → Ensures
          (Across o p)
          (settle_across user_id request source_currency obligation_currency amount o p db)
  unfolding settle_across
  settle_across-Across (some k) p =
      Ensures-map
        (λ r db'. (db' ≡ db) × BySnapshot source_currency obligation_currency amount db k r)
        (Across (some k) p) _
        (settle_by_snapshot-BySnapshot user_id request source_currency obligation_currency amount db
          k)
        (λ r db' h. (h.0, inl (k, refl, h.1)))
  settle_across-Across none (some k) =
      Ensures-map (Quoted k) (Across none (some k)) _ (settle_by_quote-ByQuote k)
        (λ r db' h. (h.0, inr (refl, k, refl, h.1)))
  settle_across-Across none none = tt

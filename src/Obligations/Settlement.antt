-- ===== src/Obligations/Settlement.antt =====
-- `resolve_settlement` (app/obligations/settlement.py): what a payment of an obligation costs the
-- account that pays it. The amounts of a result are decimals by value.
use nexum_backend.Store.Monad.{
  ◌>>=◌, ◌>>◌, Action, pure, raise, gets, or_raise, raise_if, http, invalid_operation,
  invalid_amount, invalid_amount_precision, currency_mismatch, below_minimum_amount,
  fx_quote_not_found, fx_quote_expired, invalid_fx_quote, fx_rate_snapshot_required,
  invalid_fx_rate_snapshot, fx_rate_snapshot_expired,
}
use nexum_backend.Store.Models.{FxQuote, QuoteStatus}
use nexum_backend.Store.Tables.{find_rate}
use nexum_backend.Prelude.{
  ℕ, Bool, Option, Text, List, [], ◌∷◌, true, false, none, some, not, ◌&&◌, ◌||◌, ◌==◌, leb,
  text_eq, upper, codes, if◌then◌else◌,
}
use nexum_backend.Decimal.{Decimal, Ratio, mul, div}
use nexum_backend.Decimal.Compare.{positive, leb_ratio, eqb_ratio, distance, is_hundredths}
use nexum_backend.Currency.{round_to_minimum_unit}

pub record SettlementRequest : Type 0 where
  pub amount : Decimal
  pub currency : Option Text
  pub source_currency : Option Text
  pub source_amount : Option Ratio
  pub quote_id : Option ℕ
  pub rate_snapshot_id : Option ℕ

pub record SettlementResult : Type 0 where
  pub source_currency : Text
  pub source_amount : Ratio
  pub applied_amount : Ratio
  pub fx_rate : Ratio
  pub rate_source : Option Text
  pub rate_timestamp : Option ℕ
  pub quote_id : Option ℕ
  pub rate_snapshot_id : Option ℕ

-- 9999999999999.99
abbrev pub max_payment_amount : Ratio
max_payment_amount = record { coef = 999999999999999; places = 2 }

-- `if requested is None or ...`, and the check of the precision.
unfoldable pub check_amount : Decimal → Action Ratio
check_amount requested = do
  amount ← or_raise (positive requested) (http 422 invalid_amount)
  raise_if (not (leb_ratio amount max_payment_amount)) (http 422 invalid_amount)
  raise_if (not (is_hundredths amount)) (http 422 invalid_amount_precision)
  pure amount

-- A currency that the request names is the expected one; an empty one names none.
abbrev pub names_other : Option Text → Text → Bool
names_other none expected = false
names_other (some []) expected = false
names_other (some (c ∷ s)) expected = not (text_eq (upper (c ∷ s)) expected)

-- What a decimal operation of the handler gives, or its InvalidOperation.
abbrev pub computed : Option Ratio → Action Ratio
computed r = or_raise r invalid_operation

-- A source amount is not zero and not above the maximum.
unfoldable pub check_source : Ratio → Action (Unit {0})
check_source source = do
  raise_if (source.coef == 0) (http 422 below_minimum_amount)
  raise_if (not (leb_ratio source max_payment_amount)) (http 422 invalid_amount)

unfoldable pub settle_by_snapshot : Text → Text → Ratio → ℕ → Action SettlementResult
settle_by_snapshot source_currency obligation_currency amount snapshot_id = do
  found ← gets (λ db. find_rate snapshot_id db.exchange_rates)
  snapshot ← or_raise found (http 404 invalid_fx_rate_snapshot)
  raise_if (leb snapshot.expires_at (← gets (λ db. db.now))) (http 422 fx_rate_snapshot_expired)
  raise_if
      (not (text_eq snapshot.base_currency source_currency)
        || not (text_eq snapshot.quote_currency obligation_currency))
      (http 422 invalid_fx_rate_snapshot)
  rate ← or_raise (positive snapshot.rate) (http 422 invalid_fx_rate_snapshot)
  source ← computed (round_to_minimum_unit (div amount rate) source_currency)
  check_source source
  pure (record {
    source_currency = source_currency;
    source_amount = source;
    applied_amount = amount;
    fx_rate = rate;
    rate_source = some snapshot.provider;
    rate_timestamp = some snapshot.fetched_at;
    quote_id = none;
    rate_snapshot_id = some snapshot.id;
  })

unfoldable pub find_quote : ℕ → List FxQuote → Option FxQuote
find_quote k [] = none
find_quote k (q ∷ rows) = let rest = find_quote k rows in if q.id == k then some q else rest

abbrev pub is_active : QuoteStatus → Bool
is_active QuoteStatus.active = true
is_active _ = false

-- `abs(target - requested) > max(requested * 0.001, 50 COP or 0.01)`
unfoldable pub beyond_tolerance : Ratio → Ratio → Text → Bool
beyond_tolerance target requested currency =
    let least : Ratio =
      (if text_eq currency (codes "COP")
        then record { coef = 5000; places = 2 }
        else record { coef = 1; places = 2 }) in
    let share = mul requested (record { coef = 1; places = 3 }) in
    let difference = distance target requested in
    not (leb_ratio difference share) && not (leb_ratio difference least)

-- A stored amount of a quote: positive, at most the maximum and in hundredths.
unfoldable pub quote_amount : Decimal → Action Ratio
quote_amount stored = do
  amount ← or_raise (positive stored) (http 422 invalid_fx_quote)
  raise_if (not (leb_ratio amount max_payment_amount) || not (is_hundredths amount))
      (http 422 invalid_fx_quote)
  pure amount

-- The quote is the user's, alive, and for the two currencies.
unfoldable pub check_quote : ℕ → Text → Text → ℕ → Action FxQuote
check_quote user_id source_currency obligation_currency quote_id = do
  found ← gets (λ db. find_quote quote_id db.fx_quotes)
  quote ← or_raise found (http 404 fx_quote_not_found)
  raise_if (not (quote.user_id == user_id)) (http 404 fx_quote_not_found)
  raise_if (leb quote.expires_at (← gets (λ db. db.now))) (http 422 fx_quote_expired)
  raise_if (not (is_active quote.status)) (http 422 fx_quote_expired)
  raise_if
      (not (text_eq quote.from_currency source_currency)
        || not (text_eq quote.to_currency obligation_currency))
      (http 422 invalid_fx_quote)
  pure quote

-- The quote's amounts fit its rate on one side at least, and the amount asked for.
unfoldable pub check_pair :
    SettlementRequest → Text → Text → Ratio → Ratio → Ratio → Ratio → Action (Unit {0})
check_pair request source_currency obligation_currency amount rate source target = do
  raise_if (elim request.source_amount [ none ↦ false | some asked ↦ not (eqb_ratio source asked) ])
      (http 422 invalid_fx_quote)
  expected_target ← computed (round_to_minimum_unit (mul source rate) obligation_currency)
  expected_source ← computed (round_to_minimum_unit (div target rate) source_currency)
  raise_if (not (eqb_ratio target expected_target) && not (eqb_ratio source expected_source))
      (http 422 invalid_fx_quote)
  raise_if (beyond_tolerance target amount obligation_currency) (http 422 invalid_fx_quote)

abbrev pub quote_result : FxQuote → Text → Ratio → Ratio → Ratio → SettlementResult
quote_result quote source_currency rate source target = record {
  source_currency = source_currency;
  source_amount = source;
  applied_amount = target;
  fx_rate = rate;
  rate_source = some quote.provider;
  rate_timestamp = some quote.rate_timestamp;
  quote_id = some quote.id;
  rate_snapshot_id = none;
}

-- Once the quote is found to be usable.
unfoldable pub settle_quote :
    SettlementRequest → Text → Text → Ratio → FxQuote → Action SettlementResult
settle_quote request source_currency obligation_currency amount quote = do
  rate ← or_raise (positive quote.rate) (http 422 invalid_fx_quote)
  source ← quote_amount quote.source_amount
  target ← quote_amount quote.target_amount
  check_pair request source_currency obligation_currency amount rate source target
  pure (quote_result quote source_currency rate source target)

unfoldable pub settle_by_quote :
    ℕ → SettlementRequest → Text → Text → Ratio → ℕ → Action SettlementResult
settle_by_quote user_id request source_currency obligation_currency amount quote_id = do
  quote ← check_quote user_id source_currency obligation_currency quote_id
  settle_quote request source_currency obligation_currency amount quote

abbrev pub same_currency : Text → Ratio → SettlementResult
same_currency source_currency amount = record {
  source_currency = source_currency;
  source_amount = amount;
  applied_amount = amount;
  fx_rate = record { coef = 100000000; places = 8 };
  rate_source = none;
  rate_timestamp = none;
  quote_id = none;
  rate_snapshot_id = none;
}

-- A snapshot is taken before a quote.
unfoldable pub settle_across :
    ℕ → SettlementRequest → Text → Text → Ratio → Option ℕ → Option ℕ → Action SettlementResult
settle_across user_id request source_currency obligation_currency amount (some snapshot_id)
      quote_id =
    settle_by_snapshot source_currency obligation_currency amount snapshot_id
settle_across user_id request source_currency obligation_currency amount none (some quote_id) =
    settle_by_quote user_id request source_currency obligation_currency amount quote_id
settle_across user_id request source_currency obligation_currency amount none none =
    raise (http 422 fx_rate_snapshot_required)

-- The currencies are those of the obligation and of the account.
unfoldable pub resolve_settlement : ℕ → Text → Text → SettlementRequest → Action SettlementResult
resolve_settlement user_id obligation account request = do
  amount ← check_amount request.amount
  raise_if (names_other request.currency (upper obligation)) (http 422 currency_mismatch)
  raise_if (names_other request.source_currency (upper account)) (http 422 currency_mismatch)
  if text_eq (upper account) (upper obligation)
      then pure (same_currency (upper account) amount)
      else settle_across user_id request (upper account) (upper obligation) amount
          request.rate_snapshot_id request.quote_id

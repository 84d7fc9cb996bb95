-- ===== src/Transfers/Fx.antt =====
-- The currency part of `create_transfer` (app/transfers/service.py): the checks of the rate
-- snapshot, and what a transfer records of the conversion.
use nexum_backend.Prelude.{
  ℕ, Bool, true, false, not, ◌&&◌, ◌||◌, Option, none, some, [], ◌∷◌, leb, ◌==◌, Text, text_eq,
  if◌then◌else◌,
}
use nexum_backend.Prelude.Int.{ℤ, pos}
use nexum_backend.Decimal.{Decimal, finite, Ratio}
use nexum_backend.Store.Models.{Account, ExchangeRate}
use nexum_backend.Store.Monad.{
  validation, not_found, fx_rate_snapshot_required, invalid_fx_rate_snapshot,
  fx_rate_snapshot_expired, currency_pair_mismatch, fx_rate_snapshot_stale, invalid_fx_rate,
  fx_rate_snapshot_not_allowed, Action, pure, gets, lift, or_raise, raise_if, ◌>>=◌, ◌>>◌,
}
use nexum_backend.Store.Tables.{find_rate}
use nexum_backend.Transfers.Target.{calculate_target_amount}

-- `TransferCreate` (app/transfers/schemas.py): `amount` in hundredths, as it has two places.
pub record TransferCreate : Type 0 where
  pub source_account_id : ℕ
  pub destination_account_id : ℕ
  pub amount : ℕ
  pub description : Option Text
  pub rate_snapshot_id : Option ℕ
  pub command_id : ℕ
  pub occurred_at : Option ℕ
  pub source_message_id : Option ℕ
  pub raw_message : Option Text

pub record Conversion : Type 0 where
  pub target_currency : Text
  pub target_amount : ℤ
  pub fx_rate : Option Decimal
  pub rate_source : Option Text
  pub rate_timestamp : Option ℕ
  pub rate_snapshot_id : Option ℕ

-- `str.isspace` of a code point
abbrev pub is_space : ℕ → Bool
is_space c =
    leb 9 c && leb c 13
    || leb 28 c && leb c 32
    || c == 133
    || c == 160
    || c == 5760
    || leb 8192 c && leb c 8202
    || c == 8232
    || c == 8233
    || c == 8239
    || c == 8287
    || c == 12288

-- `not text.strip()`
unfoldable pub is_blank : Text → Bool
is_blank [] = true
is_blank (c ∷ s) = is_space c && is_blank s

-- The rate as a positive finite number: `is_finite()` and `> 0`.
unfoldable pub positive_rate : Decimal → Option Ratio
positive_rate (finite (pos n) places) =
    if n == 0 then none else some (record { coef = n; places = places })
positive_rate _ = none

-- `snapshot.is_stale is not False`
abbrev pub may_be_stale : Option Bool → Bool
may_be_stale none = true
may_be_stale (some b) = b

-- The checks of a snapshot, in their order, and the rate that it gives.
unfoldable pub check_snapshot : ExchangeRate → Account → Account → Action Ratio
unfolding positive_rate
check_snapshot snapshot source dest = do
  raise_if (leb snapshot.expires_at (← gets (λ db. db.now))) (validation fx_rate_snapshot_expired)
  raise_if
      (not (text_eq snapshot.base_currency source.currency)
        || not (text_eq snapshot.quote_currency dest.currency))
      (validation currency_pair_mismatch)
  raise_if (may_be_stale snapshot.is_stale) (validation fx_rate_snapshot_stale)
  raise_if (is_blank snapshot.provider) (validation invalid_fx_rate_snapshot)
  or_raise (positive_rate snapshot.rate) (validation invalid_fx_rate)

abbrev pub conversion_at : Account → ExchangeRate → ℤ → Conversion
conversion_at dest snapshot target = record {
  target_currency = dest.currency;
  target_amount = target;
  fx_rate = some snapshot.rate;
  rate_source = some snapshot.provider;
  rate_timestamp = some snapshot.fetched_at;
  rate_snapshot_id = some snapshot.id;
}

-- The conversion at a snapshot.
unfoldable pub convert_with : TransferCreate → Account → Account → ExchangeRate → Action Conversion
convert_with payload source dest snapshot = do
  rate ← check_snapshot snapshot source dest
  target ← lift (calculate_target_amount payload.amount rate)
  pure (conversion_at dest snapshot target)

-- Between two currencies: the snapshot that the payload names gives the rate.
unfoldable pub convert_cross : TransferCreate → Account → Account → Action Conversion
convert_cross payload source dest = do
  snapshot_id ← or_raise payload.rate_snapshot_id (validation fx_rate_snapshot_required)
  found ← gets (λ db. find_rate snapshot_id db.exchange_rates)
  snapshot ← or_raise found (not_found invalid_fx_rate_snapshot)
  convert_with payload source dest snapshot

-- Within one currency: a snapshot is refused, and the amount arrives as it is.
unfoldable pub convert_same : TransferCreate → Account → Action Conversion
convert_same payload source = do
  raise_if (elim payload.rate_snapshot_id [ none ↦ false | some _ ↦ true ])
      (validation fx_rate_snapshot_not_allowed)
  pure (record {
    target_currency = source.currency;
    target_amount = pos payload.amount;
    fx_rate = none;
    rate_source = none;
    rate_timestamp = none;
    rate_snapshot_id = none;
  })

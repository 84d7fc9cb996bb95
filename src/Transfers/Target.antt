-- ===== src/Transfers/Target.antt =====
-- `_calculate_target_amount`: what arrives in another currency, in hundredths.
use nexum_backend.Prelude.{ℕ, none, some, ltb, ◌==◌, if◌then◌else◌}
use nexum_backend.Prelude.Int.{ℤ, pos}
use nexum_backend.Decimal.{Ratio, mul, quantize}
use nexum_backend.Decimal.Modes.{half_up}
use nexum_backend.Store.Monad.{
  Result, ok, err, validation, cross_currency_overflow, cross_currency_underflow,
}

-- 999999999999.99
abbrev pub max_money : ℕ
max_money = 99999999999999

-- A positive amount in hundredths at a positive rate: the callers have refused all others.
unfoldable pub calculate_target_amount : ℕ → Ratio → Result ℤ
calculate_target_amount source_amount fx_rate =
    elim (quantize half_up (mul (record { coef = source_amount; places = 2 }) fx_rate) 2) [
      | none ↦ err (validation cross_currency_overflow)
      | some target_amount ↦
          if ltb max_money target_amount
          then err (validation cross_currency_overflow)
          else if target_amount == 0
          then err (validation cross_currency_underflow)
          else ok (pos target_amount)
    ]

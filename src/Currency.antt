-- ===== src/Currency.antt =====
-- The least unit of a currency (app/core/currency.py). Amounts are non-negative decimals.
use nexum_backend.Prelude.{Text, codes, text_eq, upper, Option, none, some, if◌then◌else◌}
use nexum_backend.Decimal.{Ratio, mul, div, quantize}
use nexum_backend.Decimal.Modes.{Rounding, half_up, ceiling}

-- `CURRENCY_MINIMUM_UNITS.get(currency.upper(), Decimal("0.01"))`
unfoldable pub get_minimum_unit : Text → Ratio
get_minimum_unit currency =
    if text_eq (upper currency) (codes "COP")
    then record { coef = 5000; places = 2 }
    else record { coef = 1; places = 2 }

-- A whole number of units; `none` is InvalidOperation. No unit of the table is zero.
unfoldable pub round_units : Rounding → Ratio → Text → Option Ratio
round_units mode amount currency =
    let unit = get_minimum_unit currency in
    elim (quantize mode (div amount unit) 0) [
      | none ↦ none
      | some units ↦ some (mul (record { coef = units; places = 0 }) unit)
    ]

unfoldable pub round_to_minimum_unit : Ratio → Text → Option Ratio
round_to_minimum_unit = round_units half_up

unfoldable pub round_up_to_minimum_unit : Ratio → Text → Option Ratio
round_up_to_minimum_unit = round_units ceiling

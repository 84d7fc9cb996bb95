-- ===== src/Prelude/Digits.antt =====
-- Decimal digits: `str(n)` and `f"{n:02d}"`.
use Prim.Native.Nat.{ℕ, zero, suc, ◌+◌, ◌/◌, ◌%◌}
use mathlib.Core.Bool.{true, false}
use mathlib.Core.List.{[], ◌∷◌, ◌++◌}
use nexum_backend.Prelude.Tests.{ltb, if◌then◌else◌}
use nexum_backend.Prelude.Strings.{Text}

-- The digits on fuel: a number has fewer digits than its successor counts.
unfoldable pub digits_from : ℕ → ℕ → Text
digits_from zero n = []
digits_from (suc fuel) n = elim (ltb n 10) [
  | true ↦ (n + b'0') ∷ []
  | false ↦ digits_from fuel (n / 10) ++ (n % 10 + b'0') ∷ []
]

unfoldable pub decimal_text : ℕ → Text
decimal_text n = digits_from (suc n) n

unfoldable pub two_digits : ℕ → Text
two_digits n = if ltb n 10 then b'0' ∷ decimal_text n else decimal_text n

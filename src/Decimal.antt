-- ===== src/Decimal.antt =====
-- Python's `decimal` under its default context (28 digits, ROUND_HALF_EVEN), by value: a finite
-- number is `coef / 10 ^ places`. Two Decimals that are equal as numbers may differ in `places`.
pub mod Compare
pub mod Modes
use nexum_backend.Prelude.{
  ℕ, zero, suc, ◌+◌, ◌-◌, ◌*◌, ◌/◌, ◌%◌, ◌^◌, Bool, true, false, Option, none, some, ltb, leb, ◌==◌,
  if◌then◌else◌,
}
use nexum_backend.Prelude.Int.{ℤ, pos, ltb_ℤ, leb_ℤ}
use Modes.{Rounding, half_even, round}

pub data Decimal : Type 0 where
  finite : ℤ → ℕ → Decimal
  nan : Decimal
  infinite : Bool → Decimal

abbrev pub precision : ℕ
precision = 28

-- The digits of the magnitude; `n` rounds are enough, since each divides by ten.
digits_from : ℕ → ℕ → ℕ
digits_from zero n = 0
digits_from (suc fuel) n = elim (n == 0) [ true ↦ 0 | false ↦ suc (digits_from fuel (n / 10)) ]

unfoldable pub digits : ℕ → ℕ
unfolding digits_from
digits n = digits_from n n

-- A non-negative finite number, for the arithmetic of amounts and rates.
pub record Ratio : Type 0 where
  pub coef : ℕ
  pub places : ℕ

-- `Decimal._fix`: a coefficient of more than 28 digits is rounded to 28.
unfoldable pub fix : Ratio → Ratio
unfolding digits round
fix r =
    let k = digits r.coef - precision in
    if k == 0
    then r
    else (let c = round half_even r.coef (10 ^ k) in
        if leb k r.places
        then record { coef = c; places = r.places - k }
        else record { coef = c * 10 ^ (k - r.places); places = 0 })

unfoldable pub mul : Ratio → Ratio → Ratio
unfolding fix
mul a b = fix (record { coef = a.coef * b.coef; places = a.places + b.places })

-- `a / b` for b ≠ 0: enough digits of the quotient, one more digit that says whether a remainder
-- is left, and the rounding of `fix`. That is the quotient correctly rounded to 28 digits.
unfoldable pub div : Ratio → Ratio → Ratio
unfolding fix
div a b =
    let shift = precision + 1 + digits b.coef in
    let n = a.coef * 10 ^ shift in
    let q = n / b.coef * 10 + (if n % b.coef == 0 then 0 else 1) in
    let places = a.places + shift + 1 in
    if leb b.places places
    then fix (record { coef = q; places = places - b.places })
    else fix (record { coef = q * 10 ^ (b.places - places); places = 0 })

-- The coefficient at `places` places, rounded.
unfoldable pub rescale : Rounding → Ratio → ℕ → ℕ
unfolding round
rescale mode r places =
    if leb r.places places
    then r.coef * 10 ^ (places - r.places)
    else round mode r.coef (10 ^ (r.places - places))

-- `quantize`; `none` is InvalidOperation, a result of more than 28 digits.
unfoldable pub quantize : Rounding → Ratio → ℕ → Option ℕ
unfolding rescale
quantize mode r places =
    let c = rescale mode r places in if ltb c (10 ^ precision) then some c else none

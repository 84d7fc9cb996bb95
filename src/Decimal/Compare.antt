-- ===== src/Decimal/Compare.antt =====
-- Comparison of decimals by value.
use nexum_backend.Prelude.{
  ℕ, ◌+◌, ◌-◌, ◌*◌, ◌^◌, ◌%◌, Bool, true, Option, none, some, leb, ◌==◌, if◌then◌else◌,
}
use nexum_backend.Prelude.Int.{pos}
use nexum_backend.Decimal.{Decimal, Ratio, finite}

-- The coefficient of one at the places of both.
abbrev pub scaled : Ratio → ℕ → ℕ
scaled a places = a.coef * 10 ^ places

abbrev pub leb_ratio : Ratio → Ratio → Bool
leb_ratio a b = leb (scaled a b.places) (scaled b a.places)

abbrev pub eqb_ratio : Ratio → Ratio → Bool
eqb_ratio a b = scaled a b.places == scaled b a.places

-- `|a - b|` at the places of both.
abbrev pub distance : Ratio → Ratio → Ratio
distance a b =
    let x = scaled a b.places in
    let y = scaled b a.places in record { coef = (x - y) + (y - x); places = a.places + b.places }

-- A finite number above zero.
unfoldable pub positive : Decimal → Option Ratio
positive (finite (pos n) places) =
    if n == 0 then none else some (record { coef = n; places = places })
positive _ = none

-- `a.quantize(Decimal("0.01")) == a`: no digit beyond the hundredths.
abbrev pub is_hundredths : Ratio → Bool
is_hundredths a = if leb a.places 2 then true else a.coef % 10 ^ (a.places - 2) == 0

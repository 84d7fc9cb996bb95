-- ===== src/Decimal/Modes.antt =====
-- The rounding modes of `decimal` that the program names, on a quotient of naturals.
use nexum_backend.Prelude.{ℕ, ◌+◌, ◌-◌, ◌*◌, ◌/◌, ◌%◌, ◌≤◌, ◌<◌, arith, ltb, if◌then◌else◌}

pub data Rounding : Type 0 where
  half_up half_even ceiling : Rounding

unfoldable pub round : Rounding → ℕ → ℕ → ℕ
round half_up n d = (2 * n + d) / (2 * d)
round half_even n d =
    let q = n / d in
    let r = n % d in if ltb (2 * r) d then q else if ltb d (2 * r) then q + 1 else q + q % 2
round ceiling n d = (n + (d - 1)) / d

-- Rounding half up is within half a unit of the exact quotient, and below it on no tie.
pub round-half_up_bounds :
    (n d : ℕ)
    → 0 < d
    → (2 * (round half_up n d * d) ≤ 2 * n + d) × (2 * n < 2 * (round half_up n d * d) + d)
unfolding round
round-half_up_bounds n d h = (grind arith, grind arith)

pub round-half_even_bounds :
    (n d : ℕ)
    → 0 < d
    → (2 * (round half_even n d * d) ≤ 2 * n + d) × (2 * n ≤ 2 * (round half_even n d * d) + d)
unfolding round
round-half_even_bounds n d h = (grind arith, grind arith)

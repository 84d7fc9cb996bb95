-- ===== src/Obligations/Allocation.antt =====
-- `reconcile_fifo_source_allocations` (app/obligations/settlement.py). Amounts are whole hundredths:
-- the debit, and what each period is paid.
use nexum_backend.Prelude.{ℕ, ◌+◌, Option, List, [], ◌∷◌, none, some, ◌==◌, ◌||◌, if◌then◌else◌}
use nexum_backend.Prelude.Int.{ℤ, pos, ◌-ℤ◌, leb_ℤ}
use nexum_backend.Decimal.{Ratio, mul, div, quantize}
use nexum_backend.Decimal.Modes.{half_up}
use nexum_backend.Store.Monad.{
  Result, ok, err, http, invalid_operation, cannot_support_positive_slices,
}

abbrev pub hundredths : ℕ → Ratio
hundredths n = record { coef = n; places = 2 }

abbrev pub sum : List ℕ → ℕ
sum [] = 0
sum (x ∷ xs) = x + sum xs

-- `(total_source_amount * amount / total_applied).quantize(0.01, ROUND_HALF_UP)`
unfoldable pub share : ℕ → ℕ → ℕ → Option ℕ
share total_source total_applied amount =
    quantize half_up
      (div (mul (hundredths total_source) (hundredths amount)) (hundredths total_applied)) 2

-- The slice of a row; the last row takes what remains.
unfoldable pub slice : ℕ → ℕ → ℕ → List ℕ → ℤ → Option ℤ
slice total_source total_applied amount [] remaining = some remaining
slice total_source total_applied amount (_ ∷ _) remaining =
    elim (share total_source total_applied amount) [ none ↦ none | some s ↦ some (pos s) ]

-- A slice before those of the rows behind it; it must be above zero.
unfoldable pub keep_slice : ℤ → Result (List ℤ) → Result (List ℤ)
keep_slice source rest =
    if leb_ℤ source (pos 0)
    then err (http 422 cannot_support_positive_slices)
    else elim rest [ ok slices ↦ ok (source ∷ slices) | err e ↦ err e ]

-- The loop over the allocations from a row on.
unfoldable pub slices_from : ℕ → ℕ → List ℕ → ℤ → Result (List ℤ)
slices_from total_source total_applied [] remaining = ok []
slices_from total_source total_applied (amount ∷ rows) remaining =
    elim (slice total_source total_applied amount rows remaining) [
      | none ↦ err invalid_operation
      | some source ↦
          keep_slice source (slices_from total_source total_applied rows (remaining -ℤ source))
    ]

unfoldable pub reconcile_fifo_source_allocations : ℕ → List ℕ → Result (List ℤ)
reconcile_fifo_source_allocations total_source [] = ok []
reconcile_fifo_source_allocations total_source (amount ∷ rows) =
    if sum (amount ∷ rows) == 0 || total_source == 0
    then err (http 422 cannot_support_positive_slices)
    else slices_from total_source (sum (amount ∷ rows)) (amount ∷ rows) (pos total_source)

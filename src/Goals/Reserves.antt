-- ===== src/Goals/Reserves.antt =====
-- `calculate_reserved_by_account` (app/goals/repository.py): allocations less releases.
use nexum_backend.Prelude.{ℕ, ◌==◌, ◌&&◌, if◌then◌else◌, List, [], ◌∷◌, Bool}
use nexum_backend.Prelude.Int.{ℤ, ◌+ℤ◌, pos, neg_ℤ}
use nexum_backend.Store.Models.{GoalTransaction, allocation, legacy_import, release, adjustment}

-- What a movement adds to the reserve; an adjustment is in neither sum.
unfoldable pub reserve_change : GoalTransaction → ℤ
reserve_change t = elim t.transaction_type [
  | allocation ↦ pos t.source_amount
  | legacy_import ↦ pos t.source_amount
  | release ↦ neg_ℤ (pos t.source_amount)
  | adjustment ↦ pos 0
]

abbrev pub is_reserve_of : ℕ → ℕ → GoalTransaction → Bool
is_reserve_of account_id user_id t = t.account_id == account_id && t.user_id == user_id

unfoldable pub reserved_by_account : ℕ → ℕ → List GoalTransaction → ℤ
reserved_by_account account_id user_id [] = pos 0
reserved_by_account account_id user_id (t ∷ rows) =
    (if is_reserve_of account_id user_id t then reserve_change t else pos 0)
    +ℤ reserved_by_account account_id user_id rows

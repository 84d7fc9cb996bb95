-- ===== src/Obligations/Slices.antt =====
-- The slices of a debit.
use nexum_backend.Prelude.{
  ℕ, refl, ◌≡◌, List, [], ◌∷◌, false, none, some, inl, inr, length, arith, Bool-cases, All, Option,
  ◌==◌, ◌||◌, subst, if◌then◌else◌, sym,
}
use nexum_backend.Prelude.Int.{ℤ, pos, ◌+ℤ◌, ◌-ℤ◌, ◌<ℤ◌, int_laws, leb_ℤ}
use nexum_backend.Store.Monad.{
  Result, ok, err, invalid_operation, http, cannot_support_positive_slices,
}
use nexum_backend.Obligations.Allocation.{
  slices_from, slice, reconcile_fifo_source_allocations, sum, keep_slice, share,
}

abbrev pub total : List ℤ → ℤ
total [] = pos 0
total (x ∷ xs) = x +ℤ total xs

-- As many slices as rows, all above zero, that add up to the amount.
pub record IsSplit (rows : List ℕ) (amount : ℤ) (slices : List ℤ) : Type 0 where
  pub as_many : length slices ≡ length rows
  pub positive : All (λ s. pos 0 <ℤ s) slices
  pub adds_up : total slices ≡ amount

abbrev Splits : List ℕ → ℤ → Result (List ℤ) → Type 0
Splits rows amount (ok slices) = IsSplit rows amount slices
Splits rows amount (err e) = Unit {0}

above_zero : (s : ℤ) → leb_ℤ s (pos 0) ≡ false → pos 0 <ℤ s
above_zero s h = ground (arith, h)

Splits-cons :
    (a : ℕ) (rows : List ℕ) (s r : ℤ) (rest : Result (List ℤ))
    → pos 0 <ℤ s
    → Splits rows (r -ℤ s) rest
    → Splits (a ∷ rows) r (elim rest [ ok slices ↦ ok (s ∷ slices) | err e ↦ err e ])
Splits-cons a rows s r (ok slices) p h = record {
  as_many = omega (arith, h.as_many);
  positive = (p, h.positive);
  adds_up = rw h.adds_up (omega int_laws);
}
Splits-cons a rows s r (err e) p h = tt

Splits-keep_slice :
    (a : ℕ) (rows : List ℕ) (s r : ℤ) (rest : Result (List ℤ))
    → Splits rows (r -ℤ s) rest
    → Splits (a ∷ rows) r (keep_slice s rest)
unfolding keep_slice
Splits-keep_slice a rows s r rest h = elim (Bool-cases (leb_ℤ s (pos 0))) [
  | inl e ↦
      subst
        (λ b. Splits (a ∷ rows) r (
          if b
          then err (http 422 cannot_support_positive_slices)
          else elim rest [ ok slices ↦ ok (s ∷ slices) | err e ↦ err e ]))
        (sym e) tt
  | inr e ↦
      subst
        (λ b. Splits (a ∷ rows) r (
          if b
          then err (http 422 cannot_support_positive_slices)
          else elim rest [ ok slices ↦ ok (s ∷ slices) | err e ↦ err e ]))
        (sym e) (Splits-cons a rows s r rest (above_zero s e) h)
]

Splits-nil : (r : ℤ) → Splits [] (r -ℤ r) (ok [])
Splits-nil r = record { as_many = refl; positive = tt; adds_up = omega int_laws }

slices_from-Splits :
    (source applied a : ℕ) (rows : List ℕ) (r : ℤ)
    → Splits (a ∷ rows) r (slices_from source applied (a ∷ rows) r)
unfolding slices_from slice
slices_from-Splits source applied a [] r = Splits-keep_slice a [] r r (ok []) (Splits-nil r)
slices_from-Splits source applied a (b ∷ rows) r =
    by_share (share source applied a) (λ k. slices_from-Splits source applied b rows k)
  where
    by_share :
        (o : Option ℕ)
        → ((k : ℤ) → Splits (b ∷ rows) k (slices_from source applied (b ∷ rows) k))
        → Splits
            (a ∷ b ∷ rows)
            r
            (elim (elim o as (λ _. Option ℤ) [ none ↦ none | some s ↦ some (pos s) ])
              as (λ _. Result (List ℤ)) [
                | none ↦ err invalid_operation
                | some s ↦ keep_slice s (slices_from source applied (b ∷ rows) (r -ℤ s))
              ])
    by_share none rest = tt
    by_share (some s) rest = Splits-keep_slice a (b ∷ rows) (pos s) r _ (rest (r -ℤ pos s))

-- An allocation that is returned gives each period its slice: there are as many slices as periods,
-- every slice is above zero, and they add up to the debit.
pub reconcile_fifo-IsSplit :
    (source a : ℕ) (rows : List ℕ) (slices : List ℤ)
    → reconcile_fifo_source_allocations source (a ∷ rows) ≡ ok slices
    → IsSplit (a ∷ rows) (pos source) slices
unfolding reconcile_fifo_source_allocations
reconcile_fifo-IsSplit source a rows slices h =
    elim (Bool-cases (sum (a ∷ rows) == 0 || source == 0)) [
      | inl e ↦ ground (arith, h, e)
      | inr e ↦
          subst (Splits (a ∷ rows) (pos source)) (given e h)
            (slices_from-Splits source (sum (a ∷ rows)) a rows (pos source))
    ]
  where
    given :
        (sum (a ∷ rows) == 0 || source == 0) ≡ false
        → reconcile_fifo_source_allocations source (a ∷ rows) ≡ ok slices
        → slices_from source (sum (a ∷ rows)) (a ∷ rows) (pos source) ≡ ok slices
    given e h = ground (arith, e, h)

-- ===== src/Credit/Limits.antt =====
-- No row is paid beyond its amount.
use nexum_backend.Credit.Installments.{
  pay_installment_part, apply_payment_to_waterfall, StatementCharge, Installment, pay_charges,
  interest_unpaid, unpaid, pay_pass, pay_step, min_ℤ, is_past, is_current, is_unbilled,
}
use nexum_backend.Prelude.{
  ◌≡◌, List, [], ◌∷◌, Bool, Text, some, inl, inr, Bool-cases, subst, All, arith,
}
use nexum_backend.Prelude.Int.{ℤ, pos, ◌-ℤ◌, ◌≤ℤ◌, int_laws, leb_ℤ, ltb_ℤ}
use nexum_backend.Credit.Waterfall.{given}

-- No more paid than owed, and no more interest than the whole.
pub record IsWithin (inst : Installment) : Type 0 where
  pub paid_max : inst.paid_amount ≤ℤ inst.total_amount
  pub interest_max : inst.interest_amount ≤ℤ inst.total_amount

pub record IsChargeWithin (charge : StatementCharge) : Type 0 where
  pub paid_max : charge.paid_amount ≤ℤ charge.amount

pay_part-IsWithin :
    (part : ℤ) (inst : Installment) (r : ℤ)
    → part ≤ℤ unpaid inst
    → IsWithin inst
    → IsWithin (pay_installment_part part inst r).0
unfolding pay_installment_part
pay_part-IsWithin part inst r le h = record {
  paid_max = grind int_laws;
  interest_max = grind int_laws;
}

module _ (chosen : Installment → Bool) (part : Installment → ℤ)
    (le : (inst : Installment) → IsWithin inst → part inst ≤ℤ unpaid inst) where
  pay_step-IsWithin :
      (inst : Installment) (r : ℤ) → IsWithin inst → IsWithin (pay_step chosen part inst r).0
  unfolding pay_step
  pay_step-IsWithin inst r h = elim (Bool-cases (chosen inst)) [
    | inl e ↦ rw e (pay_part-IsWithin (part inst) inst r (le inst h) h)
    | inr e ↦ rw e h
  ]

  pay_pass-IsWithin :
      (rows : List Installment) (r : ℤ)
      → All IsWithin rows
      → All IsWithin (pay_pass chosen part rows r).0
  unfolding pay_pass
  pay_pass-IsWithin [] r h = h
  pay_pass-IsWithin (inst ∷ rows) r h =
      (pay_step-IsWithin inst r h.0, pay_pass-IsWithin rows (pay_step chosen part inst r).1 h.1)

pay_charges-IsChargeWithin :
    (rows : List StatementCharge) (r : ℤ)
    → All IsChargeWithin rows
    → All IsChargeWithin (pay_charges rows r).0
unfolding pay_charges
pay_charges-IsChargeWithin [] r h = h
pay_charges-IsChargeWithin (charge ∷ rows) r h = elim (Bool-cases (leb_ℤ r (pos 0))) [
  | inl e ↦ rw e h
  | inr e ↦ rw e (
    record { paid_max = grind int_laws },
    pay_charges-IsChargeWithin rows (r -ℤ min_ℤ r (charge.amount -ℤ charge.paid_amount)) h.1,
  )
]

unpaid_le : (inst : Installment) → IsWithin inst → unpaid inst ≤ℤ unpaid inst
unpaid_le inst h = omega arith

interest_unpaid_le : (inst : Installment) → IsWithin inst → interest_unpaid inst ≤ℤ unpaid inst
interest_unpaid_le inst h = grind int_laws

-- A payment that is accepted pays no installment and no charge beyond its amount, if none of them
-- was, and if no installment has more interest than its total.
pub apply_payment-IsWithin :
    (current : Text) (installments : List Installment) (charges : List StatementCharge) (amount : ℤ)
    (installments' : List Installment) (charges' : List StatementCharge)
    → All IsWithin installments
    → All IsChargeWithin charges
    → apply_payment_to_waterfall current installments charges amount
      ≡ some (installments', charges')
    → All IsWithin installments' × All IsChargeWithin charges'
unfolding apply_payment_to_waterfall
apply_payment-IsWithin current rows charges amount rows' charges' h hc e =
    let past = pay_pass (is_past current) unpaid rows amount in
    let w1 = pay_pass-IsWithin (is_past current) unpaid unpaid_le rows amount h in
    let interest = pay_pass (is_current current) interest_unpaid past.0 past.1 in
    let w2 =
      pay_pass-IsWithin (is_current current) interest_unpaid interest_unpaid_le past.0 past.1 w1 in
    let fees = pay_charges charges interest.1 in
    let w3 = pay_charges-IsChargeWithin charges interest.1 hc in
    let billed = pay_pass (is_current current) unpaid interest.0 fees.1 in
    let w4 = pay_pass-IsWithin (is_current current) unpaid unpaid_le interest.0 fees.1 w2 in
    let last = pay_pass (is_unbilled current) unpaid billed.0 billed.1 in
    let w5 = pay_pass-IsWithin (is_unbilled current) unpaid unpaid_le billed.0 billed.1 w4 in
    elim (Bool-cases (ltb_ℤ (pos 0) last.1)) [
      | inl t ↦ ground (arith, t, e)
      | inr t ↦
          subst {A = List Installment × List StatementCharge}
            (λ p. All IsWithin p.0 × All IsChargeWithin p.1)
            (given _ (last.0, fees.0) (rows', charges') t e) (w5, w3)
    ]

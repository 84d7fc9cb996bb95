-- ===== src/Credit/Waterfall.antt =====
-- What the waterfall does with a payment.
use nexum_backend.Prelude.{
  ◌≡◌, List, [], ◌∷◌, Bool, Text, some, false, inl, inr, Bool-cases, arith, ◌+◌, subst,
  if◌then◌else◌, none,
}
use nexum_backend.Prelude.Int.{ℤ, pos, ◌+ℤ◌, ◌-ℤ◌, ◌≤ℤ◌, int_laws, leb_ℤ, pos_part, ltb_ℤ, neg_part}
use nexum_backend.Credit.Installments.{
  Installment, StatementCharge, pay_installment_part, pay_pass, pay_charges,
  apply_payment_to_waterfall, min_ℤ, pay_step, is_past, unpaid, is_current, interest_unpaid,
  is_unbilled,
}

abbrev pub paid_total : List Installment → ℤ
paid_total [] = pos 0
paid_total (inst ∷ rows) = inst.paid_amount +ℤ paid_total rows

abbrev pub charges_paid : List StatementCharge → ℤ
charges_paid [] = pos 0
charges_paid (charge ∷ rows) = charge.paid_amount +ℤ charges_paid rows

abbrev IsSame : ℤ → ℤ → Type 0
IsSame a b = pos_part a + neg_part b ≡ pos_part b + neg_part a

-- A step takes from what remains what it adds to a row, and no more than remains.
record Moves (before after r r' : ℤ) : Type 0 where
  same : IsSame (after +ℤ r') (before +ℤ r)
  left : pos 0 ≤ℤ r → pos 0 ≤ℤ r'

stays : (a r : ℤ) → Moves a a r r
stays a r = record { same = omega arith; left = λ h. h }

pay_part-Moves :
    (part : ℤ) (inst : Installment) (r : ℤ)
    → Moves inst.paid_amount
        (pay_installment_part part inst r).0.paid_amount
        r
        (pay_installment_part part inst r).1
unfolding pay_installment_part
pay_part-Moves part inst r = record { same = grind int_laws; left = grind int_laws }

pay_step-Moves :
    (chosen : Installment → Bool) (part : Installment → ℤ) (inst : Installment) (r : ℤ)
    → Moves inst.paid_amount
        (pay_step chosen part inst r).0.paid_amount
        r
        (pay_step chosen part inst r).1
unfolding pay_step
pay_step-Moves chosen part inst r = elim (Bool-cases (chosen inst)) [
  | inl e ↦ rw e (pay_part-Moves (part inst) inst r)
  | inr e ↦ rw e (stays _ _)
]

-- Steps one after the other.
Moves-both :
    (a a' b b' r r' r'' : ℤ) → Moves a a' r r' → Moves b b' r' r'' → Moves (a +ℤ b) (a' +ℤ b') r r''
Moves-both a a' b b' r r' r'' m n = record { same = omega int_laws; left = λ h. n.left (m.left h) }

Moves-next : (a b c r r' r'' : ℤ) → Moves a b r r' → Moves b c r' r'' → Moves a c r r''
Moves-next a b c r r' r'' m n = record { same = omega int_laws; left = λ h. n.left (m.left h) }

pay_pass-Moves :
    (chosen : Installment → Bool) (part : Installment → ℤ) (rows : List Installment) (r : ℤ)
    → Moves
        (paid_total rows)
        (paid_total (pay_pass chosen part rows r).0)
        r
        (pay_pass chosen part rows r).1
unfolding pay_pass
pay_pass-Moves chosen part [] r = stays _ _
pay_pass-Moves chosen part (inst ∷ rows) r =
    Moves-both _ _ _ _ _ _ _ (pay_step-Moves chosen part inst r)
      (pay_pass-Moves chosen part rows (pay_step chosen part inst r).1)

pay_charges-Moves :
    (rows : List StatementCharge) (r : ℤ)
    → Moves (charges_paid rows) (charges_paid (pay_charges rows r).0) r (pay_charges rows r).1
unfolding pay_charges
pay_charges-Moves [] r = stays _ _
pay_charges-Moves (charge ∷ rows) r = elim (Bool-cases (leb_ℤ r (pos 0))) [
  | inl e ↦ rw e (stays _ _)
  | inr e ↦ rw e (
      Moves-both _ _ _ _ _ _ _ (charge_step charge r)
        (pay_charges-Moves rows (r -ℤ min_ℤ r (charge.amount -ℤ charge.paid_amount))))
]
  where
    charge_step :
        (c : StatementCharge) (r : ℤ)
        → Moves c.paid_amount
            (c.paid_amount +ℤ min_ℤ r (c.amount -ℤ c.paid_amount))
            r
            (r -ℤ min_ℤ r (c.amount -ℤ c.paid_amount))
    charge_step c r = record { same = omega int_laws; left = grind int_laws }

not_positive : (a : ℤ) → ltb_ℤ (pos 0) a ≡ false → a ≤ℤ pos 0
not_positive a t = ground (arith, t)

-- Two passes around the charges, with nothing left over.
spread_total :
    (a b c f g r s t u : ℤ)
    → Moves a b r s
    → Moves f g s t
    → Moves b c t u
    → pos 0 ≤ℤ u
    → u ≤ℤ pos 0
    → c +ℤ g ≡ a +ℤ f +ℤ r
spread_total a b c f g r s t u m n o h k = omega int_laws

pub given :
    {A : Type 0} (c : Bool) (x y : A) → c ≡ false → (if c then none else some x) ≡ some y → x ≡ y
given c x y t e = ground (arith, t, e)

-- A payment that is accepted is spread in full: what the rows have been paid in total grows by
-- exactly the amount of the payment.
pub apply_payment_conserves :
    (current : Text) (installments : List Installment) (charges : List StatementCharge) (amount : ℤ)
    (installments' : List Installment) (charges' : List StatementCharge)
    → pos 0 ≤ℤ amount
    → apply_payment_to_waterfall current installments charges amount
      ≡ some (installments', charges')
    → paid_total installments' +ℤ charges_paid charges'
      ≡ paid_total installments +ℤ charges_paid charges +ℤ amount
unfolding apply_payment_to_waterfall
apply_payment_conserves current rows charges amount rows' charges' h e =
    let past = pay_pass (is_past current) unpaid rows amount in
    let m1 = pay_pass-Moves (is_past current) unpaid rows amount in
    let interest = pay_pass (is_current current) interest_unpaid past.0 past.1 in
    let m2 = pay_pass-Moves (is_current current) interest_unpaid past.0 past.1 in
    let fees = pay_charges charges interest.1 in
    let m3 = pay_charges-Moves charges interest.1 in
    let billed = pay_pass (is_current current) unpaid interest.0 fees.1 in
    let m4 = pay_pass-Moves (is_current current) unpaid interest.0 fees.1 in
    let m5 = pay_pass-Moves (is_unbilled current) unpaid billed.0 billed.1 in
    let last = pay_pass (is_unbilled current) unpaid billed.0 billed.1 in
    let left = m5.left (m4.left (m3.left (m2.left (m1.left h)))) in
    elim (Bool-cases (ltb_ℤ (pos 0) last.1)) [
      | inl t ↦ ground (arith, t, e)
      | inr t ↦
          subst {A = List Installment × List StatementCharge}
            (λ p.
              paid_total p.0 +ℤ charges_paid p.1
              ≡ paid_total rows +ℤ charges_paid charges +ℤ amount)
            (given _ (last.0, fees.0) (rows', charges') t e)
            (spread_total _ _ _ _ _ _ _ _ _ (Moves-next _ _ _ _ _ _ m1 m2) m3
              (Moves-next _ _ _ _ _ _ m4 m5) left (not_positive _ t))
    ]

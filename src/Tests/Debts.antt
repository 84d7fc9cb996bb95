-- ===== src/Tests/Debts.antt =====
-- A payment over one late installment, one of this month and a charge.
use nexum_backend.Prelude.{refl, ◌≡◌, [], ◌∷◌, some, ℕ, codes, List, All, arith, text_eq, String}
use nexum_backend.Prelude.Int.{pos, ◌+ℤ◌, ◌-ℤ◌}
use nexum_backend.Credit.Installments.{
  Installment, StatementCharge, DebtStatus, pending, paid, partial, apply_payment_to_waterfall,
  pay_pass, pay_step, pay_installment_part, pay_charges, text_ltb,
}
use nexum_backend.Credit.Waterfall.{apply_payment_conserves, paid_total, charges_paid}
use nexum_backend.Credit.Limits.{apply_payment-IsWithin, IsWithin, IsChargeWithin}

abbrev installment : String → ℕ → ℕ → DebtStatus → Installment
installment period total now state = record {
  installment_number = 1;
  installments_total = 3;
  interest_amount = pos 100;
  total_amount = pos total;
  paid_amount = pos now;
  scheduled_period = codes period;
  status = state;
}

abbrev charge : ℕ → DebtStatus → StatementCharge
charge now state = record { amount = pos 500; paid_amount = pos now; status = state }

abbrev owed : List Installment
owed = installment "2024-01" 2000 500 partial ∷ installment "2024-02" 2000 0 pending ∷ []

abbrev settled : List Installment
settled = installment "2024-01" 2000 2000 paid ∷ installment "2024-02" 2000 400 partial ∷ []

abbrev fees : List StatementCharge
fees = charge 0 pending ∷ []

abbrev fees_paid : List StatementCharge
fees_paid = charge 500 paid ∷ []

-- 1500 to the late one, 100 of interest, the charge, and 300 of this month's principal.
spread :
    apply_payment_to_waterfall (codes "2024-02") owed fees (pos 2400) ≡ some (settled, fees_paid)
unfolding apply_payment_to_waterfall pay_pass pay_step pay_installment_part pay_charges text_ltb
    text_eq ◌+ℤ◌ ◌-ℤ◌
spread = refl

apply_payment_conserves_example :
    paid_total settled +ℤ charges_paid fees_paid ≡ paid_total owed +ℤ charges_paid fees +ℤ pos 2400
apply_payment_conserves_example =
    apply_payment_conserves (codes "2024-02") owed fees (pos 2400) settled fees_paid (omega arith)
      spread

owed-IsWithin : All IsWithin owed
owed-IsWithin = (
  record { paid_max = omega arith; interest_max = omega arith },
  (record { paid_max = omega arith; interest_max = omega arith }, tt),
)

fees-IsChargeWithin : All IsChargeWithin fees
fees-IsChargeWithin = (record { paid_max = omega arith }, tt)

apply_payment-IsWithin_example : All IsWithin settled × All IsChargeWithin fees_paid
apply_payment-IsWithin_example =
    apply_payment-IsWithin (codes "2024-02") owed fees (pos 2400) settled fees_paid owed-IsWithin
      fees-IsChargeWithin spread

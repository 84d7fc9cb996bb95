-- ===== src/Credit/Installments.antt =====
-- The rows of a card's debt (app/credit/models.py) and how a payment is spread over them:
-- `_apply_payment_to_waterfall` of app/credit/service.py.
use nexum_backend.Prelude.{
  ℕ, Bool, Option, Text, text_eq, List, [], ◌∷◌, true, false, none, some, ltb, ◌==◌, ◌&&◌, ◌||◌,
  if◌then◌else◌,
}
use nexum_backend.Prelude.Int.{ℤ, pos, ◌+ℤ◌, ◌-ℤ◌, ltb_ℤ, leb_ℤ}

pub data DebtStatus : Type 0 where
  pending partial paid : DebtStatus

pub record Installment : Type 0 where
  pub installment_number : ℕ
  pub installments_total : ℕ
  pub interest_amount : ℤ
  pub total_amount : ℤ
  pub paid_amount : ℤ
  pub scheduled_period : Text
  pub status : DebtStatus

pub record StatementCharge : Type 0 where
  pub amount : ℤ
  pub paid_amount : ℤ
  pub status : DebtStatus

-- `a < b` on strings: by code points, and a proper prefix is less.
unfoldable pub text_ltb : Text → Text → Bool
text_ltb [] [] = false
text_ltb [] (_ ∷ _) = true
text_ltb (_ ∷ _) [] = false
text_ltb (a ∷ s) (b ∷ t) = let rest = text_ltb s t in ltb a b || a == b && rest

abbrev pub min_ℤ : ℤ → ℤ → ℤ
min_ℤ a b = if leb_ℤ a b then a else b

abbrev pub max_ℤ : ℤ → ℤ → ℤ
max_ℤ a b = if leb_ℤ a b then b else a

-- The status after a payment: `paid` once the total is reached, `partial` above zero.
abbrev pub status_after : ℤ → ℤ → DebtStatus → DebtStatus
status_after total paid_now old =
    if leb_ℤ total paid_now then paid else if ltb_ℤ (pos 0) paid_now then partial else old

-- `pay_installment_part`, with what remains of the payment.
unfoldable pub pay_installment_part : ℤ → Installment → ℤ → Installment × ℤ
pay_installment_part part inst remaining =
    if leb_ℤ remaining (pos 0) || leb_ℤ part (pos 0)
    then (inst, remaining)
    else (let applied = min_ℤ remaining part in
        let now = inst.paid_amount +ℤ applied in
        (
          record inst {
            paid_amount = now;
            status = status_after inst.total_amount now inst.status;
          },
          remaining -ℤ applied,
        ))

-- The body of a loop over the installments: the ones that `chosen` picks are paid the part that
-- `part` gives.
unfoldable pub pay_step :
    (Installment → Bool) → (Installment → ℤ) → Installment → ℤ → Installment × ℤ
pay_step chosen part inst remaining =
    if chosen inst then pay_installment_part (part inst) inst remaining else (inst, remaining)

unfoldable pub pay_pass :
    (Installment → Bool) → (Installment → ℤ) → List Installment → ℤ → List Installment × ℤ
pay_pass chosen part [] remaining = ([], remaining)
pay_pass chosen part (inst ∷ rows) remaining =
    let step = pay_step chosen part inst remaining in
    let rest = pay_pass chosen part rows step.1 in (step.0 ∷ rest.0, rest.1)

-- The loop over the charges, which stops once nothing remains.
unfoldable pub pay_charges : List StatementCharge → ℤ → List StatementCharge × ℤ
pay_charges [] remaining = ([], remaining)
pay_charges (charge ∷ rows) remaining =
    let applied = min_ℤ remaining (charge.amount -ℤ charge.paid_amount) in
    let now = charge.paid_amount +ℤ applied in
    let rest = pay_charges rows (remaining -ℤ applied) in
    if leb_ℤ remaining (pos 0) then (charge ∷ rows, remaining) else (
      record charge { paid_amount = now; status = status_after charge.amount now charge.status }
          ∷ rest.0,
      rest.1,
    )

abbrev pub unpaid : Installment → ℤ
unpaid inst = inst.total_amount -ℤ inst.paid_amount

abbrev pub interest_unpaid : Installment → ℤ
interest_unpaid inst = max_ℤ (pos 0) (inst.interest_amount -ℤ inst.paid_amount)

abbrev pub is_past : Text → Installment → Bool
is_past current inst = text_ltb inst.scheduled_period current

abbrev pub is_current : Text → Installment → Bool
is_current current inst = text_eq inst.scheduled_period current

abbrev pub is_unbilled : Text → Installment → Bool
is_unbilled current inst = text_ltb current inst.scheduled_period && inst.installments_total == 1

-- The passes in order, on the pending rows of the card; `none` is InvalidPaymentAmountError.
unfoldable pub apply_payment_to_waterfall :
    Text
    → List Installment
    → List StatementCharge
    → ℤ
    → Option (List Installment × List StatementCharge)
apply_payment_to_waterfall current installments charges amount =
    let past = pay_pass (is_past current) unpaid installments amount in
    let interest = pay_pass (is_current current) interest_unpaid past.0 past.1 in
    let fees = pay_charges charges interest.1 in
    let billed = pay_pass (is_current current) unpaid interest.0 fees.1 in
    let unbilled = pay_pass (is_unbilled current) unpaid billed.0 billed.1 in
    if ltb_ℤ (pos 0) unbilled.1 then none else some (unbilled.0, fees.0)

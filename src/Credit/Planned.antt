-- ===== src/Credit/Planned.antt =====
-- The plan of a purchase adds up to it.
use nexum_backend.Calendar.Ordinals.{some_inj}
use nexum_backend.Decimal.{quantize, div, rescale}
use nexum_backend.Decimal.Modes.{half_even, Rounding}
use nexum_backend.Credit.Installments.{pending}
use nexum_backend.Calendar.{Date}
use nexum_backend.Prelude.Int.{ℤ, pos, ◌+ℤ◌, ◌-ℤ◌, int_laws}
use nexum_backend.Credit.Plan.{
  installment_amounts, CardTerms, Planned, build_from, total_of, build_installments, split_amount,
  build_one, add_plan,
}
use nexum_backend.Prelude.{
  ◌+◌, ◌++◌, List, ℕ, ◌≡◌, suc, Option, ◌∷◌, length, [], some, none, replicate, All, ap, ◌∙◌,
  length-append, length-replicate, refl, arith, subst, subst₂,
}

abbrev pub principal_total : List Planned → ℤ
principal_total [] = pos 0
principal_total (p ∷ rows) = p.principal_amount +ℤ principal_total rows

-- An installment is numbered, unpaid and pending, and asks its principal with its interest.
abbrev pub IsFresh : ℕ → Planned → Type 0
IsFresh installments_total p =
    (p.row.installments_total ≡ installments_total)
    × (p.row.paid_amount ≡ pos 0)
    × (p.row.status ≡ pending)
    × (p.row.total_amount ≡ p.principal_amount +ℤ p.row.interest_amount)

abbrev pub IsNumbered : ℕ → List Planned → Type 0
IsNumbered n [] = Unit
IsNumbered n (p ∷ rows) = (p.row.installment_number ≡ n) × IsNumbered (n + 1) rows

total_of-snoc : (rows : List ℤ) (a : ℤ) → total_of (rows ++ (a -ℤ total_of rows) ∷ []) ≡ a
total_of-snoc rows a = go rows a (total_of rows) ∙ omega int_laws
  where
    go : (xs : List ℤ) (a t : ℤ) → total_of (xs ++ (a -ℤ t) ∷ []) ≡ total_of xs +ℤ (a -ℤ t)
    go [] a t = omega int_laws
    go (x ∷ xs) a t = ap (λ v. x +ℤ v) (go xs a t) ∙ omega int_laws

-- The amounts are as many as asked and add up to the amount.
record Splits (amount n : ℕ) (rows : List ℤ) : Type 0 where
  total : total_of rows ≡ pos amount
  count : length rows ≡ suc n

split_amount-Splits : (amount base n : ℕ) → Splits amount n (split_amount amount base n)
unfolding split_amount
split_amount-Splits amount base n =
    let first = replicate n (pos base) in
    record {
      total = total_of-snoc first (pos amount);
      count = length-append first _ ∙ ap (λ k. k + 1) (length-replicate n _) ∙ omega arith;
    }

-- An amount in hundredths is quantized to itself.
quantize_hundredths :
    (mode : Rounding) (amount q : ℕ)
    → quantize mode (record { coef = amount; places = 2 }) 2 ≡ some q
    → q ≡ amount
unfolding quantize rescale
quantize_hundredths mode amount q h = ground (arith, h)

module _ (amount n : ℕ) (rows : List ℤ) where
  abbrev base_of : ℕ → Option ℕ
  base_of q =
      quantize half_even
        (div (record { coef = q; places = 2 }) (record { coef = suc n; places = 0 })) 2

  abbrev of_base : ℕ → Option ℕ → Option (List ℤ)
  of_base q o = elim o [ none ↦ none | some base ↦ some (split_amount q base n) ]

  by_base : (q : ℕ) (o : Option ℕ) → q ≡ amount → of_base q o ≡ some rows → Splits amount n rows
  by_base q none same h = ground (arith, h)
  by_base q (some base) same h =
      subst₂ (λ a r. Splits a n r) same (some_inj h) (split_amount-Splits q base n)

  by_quantized :
      (o : Option ℕ)
      → quantize half_even (record { coef = amount; places = 2 }) 2 ≡ o
      → (elim o as (λ _. Option (List ℤ)) [ none ↦ none | some q ↦ of_base q (base_of q) ])
        ≡ some rows
      → Splits amount n rows
  by_quantized none e h = ground (arith, h)
  by_quantized (some q) e h = by_base q (base_of q) (quantize_hundredths half_even amount q e) h

  installment_amounts-Splits : installment_amounts amount (suc n) ≡ some rows → Splits amount n rows
  unfolding installment_amounts
  installment_amounts-Splits h =
      by_quantized (quantize half_even (record { coef = amount; places = 2 }) 2) refl h

-- The plan for a list of amounts, from an index on.
pub record Plans (installments_total index : ℕ) (amounts : List ℤ) (rows : List Planned)
    : Type 0 where
  pub total : principal_total rows ≡ total_of amounts
  pub count : length rows ≡ length amounts
  pub numbered : IsNumbered index rows
  pub fresh : All (IsFresh installments_total) rows

abbrev Holds : ℕ → ℕ → List ℤ → Option (List Planned) → Type 0
Holds n index amounts none = Unit
Holds n index amounts (some rows) = Plans n index amounts rows

-- The installment of an index asks its amount.
abbrev HoldsOne : ℕ → ℕ → ℤ → Option Planned → Type 0
HoldsOne n index a none = Unit
HoldsOne n index a (some p) =
    (p.principal_amount ≡ a) × (p.row.installment_number ≡ index) × IsFresh n p

module _ (card : CardTerms) (today : Date) (n : ℕ) where
  build_one-HoldsOne : (index : ℕ) (a : ℤ) → HoldsOne n index a (build_one card today n index a)
  unfolding build_one
  build_one-HoldsOne index a = ground arith

  add_plan-Holds :
      (index : ℕ) (a : ℤ) (amounts : List ℤ) (o : Option Planned) (rest : Option (List Planned))
      → HoldsOne n index a o
      → Holds n (index + 1) amounts rest
      → Holds n index (a ∷ amounts) (add_plan o rest)
  add_plan-Holds index a amounts none rest one h = tt
  add_plan-Holds index a amounts (some p) none one h = tt
  add_plan-Holds index a amounts (some p) (some rows) one h = record {
    total = ap (λ v. v +ℤ principal_total rows) one.0 ∙ ap (λ v. a +ℤ v) h.total;
    count = ap suc h.count;
    numbered = (one.1, h.numbered);
    fresh = (one.2, h.fresh);
  }

  build_from-Holds :
      (index : ℕ) (amounts : List ℤ) → Holds n index amounts (build_from card today n index amounts)
  unfolding build_from
  build_from-Holds index [] = record { total = refl; count = refl; numbered = tt; fresh = tt }
  build_from-Holds index (a ∷ amounts) =
      add_plan-Holds index a amounts (build_one card today n index a)
        (build_from card today n (index + 1) amounts) (build_one-HoldsOne index a)
        (build_from-Holds (index + 1) amounts)

module _ (card : CardTerms) (today : Date) (amount n : ℕ) where
  -- What a purchase over at least one month is split into, where its dates exist.
  pub record IsPlan (rows : List Planned) : Type 0 where
    pub total : principal_total rows ≡ pos amount
    pub count : length rows ≡ suc n
    pub numbered : IsNumbered 1 rows
    pub fresh : All (IsFresh (suc n)) rows

  -- When the plan of a purchase over at least one month is built, so that its dates exist and no
  -- decimal operation fails, it has as many installments as asked, numbered from one, each unpaid, pending and asking its principal with its interest; their principals add up to
  -- the amount of the purchase.
  pub build_installments-IsPlan :
      (rows : List Planned) → build_installments card today amount (suc n) ≡ some rows → IsPlan rows
  unfolding build_installments
  build_installments-IsPlan rows h = by_amounts (installment_amounts amount (suc n)) refl h
    where
      by_amounts :
          (o : Option (List ℤ))
          → installment_amounts amount (suc n) ≡ o
          → (elim o as (λ _. Option (List Planned)) [
            | none ↦ none
            | some amounts ↦ build_from card today (suc n) 1 amounts
          ])
            ≡ some rows
          → IsPlan rows
      by_amounts none e h = ground (arith, h)
      by_amounts (some amounts) e h =
          let held : Holds (suc n) 1 amounts (some rows) =
            subst (Holds (suc n) 1 amounts) h (build_from-Holds card today (suc n) 1 amounts) in
          let split = installment_amounts-Splits amount n amounts e in
          record {
            total = held.total ∙ split.total;
            count = held.count ∙ split.count;
            numbered = held.numbered;
            fresh = held.fresh;
          }

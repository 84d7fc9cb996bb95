-- ===== src/System/Targets.antt =====
-- What the conversion of a transfer gives its destination.
use nexum_backend.Store.Tables.{find_rate}
use nexum_backend.System.Book.{AtRate}
use nexum_backend.Transfers.Target.{calculate_target_amount}
use nexum_backend.Decimal.{Ratio}
use nexum_backend.Store.Ensures.{
  Ensures, read-then, Ensures-map, check-then, or_raise-IsCheck, or_raise_passed,
}
use nexum_backend.Prelude.Int.{ℤ, pos}
use nexum_backend.Transfers.Create.{convert}
use nexum_backend.Store.Monad.{
  Db, Result, lift, ok, ◌>>=◌, pure, err, or_raise, not_found, invalid_fx_rate_snapshot, validation,
  fx_rate_snapshot_required, gets,
}
use nexum_backend.Store.Models.{Account, ExchangeRate}
use nexum_backend.Transfers.Fx.{
  TransferCreate, convert_same, convert_cross, check_snapshot, convert_with, Conversion,
  positive_rate, conversion_at,
}
use nexum_backend.Prelude.{
  ◌≡◌, Bool-cases, some, ◌⊎◌, arith, text_eq, inl, ◌≢◌, text_eq_iff, inr, refl,
}

-- The conversion of a transfer.
abbrev pub IsConverted : TransferCreate → Account → Account → Db → ℤ → Type 0
IsConverted payload source dest db target =
    (source.currency ≡ dest.currency) × (target ≡ pos payload.amount)
    ⊎ (source.currency ≢ dest.currency) × AtRate payload db target

module _ (payload : TransferCreate) (source dest : Account) (db : Db) where
  abbrev Rated : ExchangeRate → Conversion → Db → Type 0
  Rated snapshot fx _ =
      (rate : Ratio) × (positive_rate snapshot.rate ≡ some rate)
      × (calculate_target_amount payload.amount rate ≡ ok fx.target_amount)

  at_rate_given :
      (snapshot : ExchangeRate) (rate : Ratio) (v : Result ℤ)
      → positive_rate snapshot.rate ≡ some rate
      → calculate_target_amount payload.amount rate ≡ v
      → Ensures
          (Rated snapshot)
          ((lift v >>= λ target. pure (conversion_at dest snapshot target)) db)
  at_rate_given snapshot rate (ok target) e f = (rate, e, f)
  at_rate_given snapshot rate (err x) e f = tt

  check_snapshot-IsRate :
      (snapshot : ExchangeRate)
      → Ensures
          (λ rate db'. (db' ≡ db) × (positive_rate snapshot.rate ≡ some rate))
          (check_snapshot snapshot source dest db)
  unfolding check_snapshot
  check_snapshot-IsRate snapshot = ground arith

  convert_with-Rated :
      (snapshot : ExchangeRate)
      → Ensures (Rated snapshot) (convert_with payload source dest snapshot db)
  unfolding convert_with
  convert_with-Rated snapshot =
      read-then (λ rate. positive_rate snapshot.rate ≡ some rate) (Rated snapshot)
        (check_snapshot snapshot source dest)
        (λ rate. lift (calculate_target_amount payload.amount rate) >>= λ target.
          pure (conversion_at dest snapshot target))
        db (check_snapshot-IsRate snapshot)
        λ rate e. at_rate_given snapshot rate (calculate_target_amount payload.amount rate) e refl

  convert_cross-AtRate :
      Ensures (λ fx _. AtRate payload db fx.target_amount) (convert_cross payload source dest db)
  unfolding convert_cross
  convert_cross-AtRate =
      check-then (Ensures (λ fx _. AtRate payload db fx.target_amount))
        (or_raise payload.rate_snapshot_id (validation fx_rate_snapshot_required))
        (λ k. gets (λ d. find_rate k d.exchange_rates) >>= λ found.
          or_raise found (not_found invalid_fx_rate_snapshot) >>= convert_with payload source dest)
        db (or_raise-IsCheck _ _) (λ _. tt)
        λ k e.
          check-then (Ensures (λ fx _. AtRate payload db fx.target_amount))
            (or_raise (find_rate k db.exchange_rates) (not_found invalid_fx_rate_snapshot))
            (convert_with payload source dest) db (or_raise-IsCheck _ _) (λ _. tt)
            λ snapshot f. Ensures-map (Rated snapshot) _ _ (convert_with-Rated snapshot) λ fx _ r.
              record {
                snapshot_id = k;
                named = or_raise_passed _ _ db k e;
                snapshot = snapshot;
                found = or_raise_passed _ _ db snapshot f;
                rate = r.0;
                rated = r.1;
                computed = r.2;
              }

  convert_same-amount :
      Ensures
        (λ (fx : Conversion) _. fx.target_amount ≡ pos payload.amount)
        (convert_same payload source db)
  unfolding convert_same
  convert_same-amount = ground arith

  pub convert-IsConverted :
      Ensures
        (λ fx _. IsConverted payload source dest db fx.target_amount)
        (convert payload source dest db)
  unfolding convert
  convert-IsConverted = elim (Bool-cases (text_eq source.currency dest.currency)) [
    | inl e ↦ rw e (
        Ensures-map (λ (fx : Conversion) _. fx.target_amount ≡ pos payload.amount) _ _
          convert_same-amount λ fx _ h. inl ((text_eq_iff source.currency dest.currency).0 e, h))
    | inr e ↦ rw e (
        Ensures-map (λ fx _. AtRate payload db fx.target_amount) _ _ convert_cross-AtRate
          λ fx _ h.
            inr
              ((λ same. ground (arith, e, (text_eq_iff source.currency dest.currency).1 same)), h))
  ]

-- ===== src/Transfers/Retry.antt =====
-- Calling `create_transfer` again with the same command.
use nexum_backend.Transfers.Target.{calculate_target_amount}
use nexum_backend.Transfers.Outcome.{IsNew, Outcome, create_transfer-Outcome}
use nexum_backend.Store.Ensures.{Ensures, Ensures-map, Ensures-bind, Ensures-any}
use nexum_backend.Transfers.Create.{
  matches_command, convert, transfer_row, TransferResult, create_transfer, transfer_unless, replay,
}
use nexum_backend.Store.Monad.{Db, lift, ◌>>=◌, pure, ok}
use nexum_backend.Transfers.Fx.{
  TransferCreate, convert_same, Conversion, convert_cross, convert_with, check_snapshot,
  conversion_at,
}
use nexum_backend.Store.Models.{ExchangeRate, Account, Transfer}
use nexum_backend.Store.Tables.{
  find_rate, opt_text_eq, opt_eq_opt, opt_text_eq_iff, find_transfer_command,
}
use nexum_backend.Prelude.{
  none, some, [], ◌∷◌, refl, inl, inr, ◌≡◌, true, false, Option, ℕ, Text, text_eq, List, some,
  text_eq_iff, arith, ◌∷◌, Bool-cases, Option-cases, sym, ◌∙◌, ap, subst, ◌==◌,
}

text_eq_refl : (s : Text) → text_eq s s ≡ true
text_eq_refl s = (text_eq_iff s s).1 refl

opt_text_eq_refl : (s : Option Text) → opt_text_eq s s ≡ true
opt_text_eq_refl s = (opt_text_eq_iff s s).1 refl

opt_eq_opt_refl : (o : Option ℕ) → opt_eq_opt o o ≡ true
opt_eq_opt_refl none = refl
opt_eq_opt_refl (some k) = ground arith

find_rate-id :
    (k : ℕ) (r : ExchangeRate) (rows : List ExchangeRate) → find_rate k rows ≡ some r → r.id ≡ k
unfolding find_rate
find_rate-id k r [] h = cc
find_rate-id k r (x ∷ rows) h = ground (arith, find_rate-id k r rows)

module _ (user_id : ℕ) (payload : TransferCreate) (db : Db) (source dest : Account) where
  abbrev KeepsSnapshot : Conversion → Db → Type 0
  KeepsSnapshot fx _ = fx.rate_snapshot_id ≡ payload.rate_snapshot_id

  convert_same-KeepsSnapshot : Ensures KeepsSnapshot (convert_same payload source db)
  unfolding convert_same
  convert_same-KeepsSnapshot = elim (Option-cases payload.rate_snapshot_id) [
    | inl e ↦ rw e refl
    | inr (k, e) ↦ rw e tt
  ]

  convert_with-snapshot :
      (rate : ExchangeRate)
      → Ensures
          (λ fx _. fx.rate_snapshot_id ≡ some rate.id)
          (convert_with payload source dest rate db)
  unfolding convert_with
  convert_with-snapshot rate =
      Ensures-bind (λ _ _. Unit {0}) (λ fx _. fx.rate_snapshot_id ≡ some rate.id)
        (check_snapshot rate source dest)
        (λ ratio. lift (calculate_target_amount payload.amount ratio) >>= λ target.
          pure (conversion_at dest rate target))
        db (Ensures-any (check_snapshot rate source dest db))
        λ ratio d _.
          Ensures-bind (λ _ _. Unit {0}) (λ fx _. fx.rate_snapshot_id ≡ some rate.id)
            (lift (calculate_target_amount payload.amount ratio))
            (λ target. pure (conversion_at dest rate target)) d
            (Ensures-any (lift (calculate_target_amount payload.amount ratio) d))
            λ target d' _. refl

  cross_found :
      (k : ℕ) (rate : ExchangeRate)
      → payload.rate_snapshot_id ≡ some k
      → find_rate k db.exchange_rates ≡ some rate
      → Ensures KeepsSnapshot (convert_cross payload source dest db)
  unfolding convert_cross convert_with
  cross_found k rate e found =
      rw (e, found)
        (Ensures-map (λ fx _. fx.rate_snapshot_id ≡ some rate.id) _ _ (convert_with-snapshot rate)
          (λ fx d h. h ∙ ap some (find_rate-id k rate db.exchange_rates found)))

  convert_cross-KeepsSnapshot : Ensures KeepsSnapshot (convert_cross payload source dest db)
  unfolding convert_cross
  convert_cross-KeepsSnapshot = elim (Option-cases payload.rate_snapshot_id) [
    | inl e ↦ rw e tt
    | inr (k, e) ↦ elim (Option-cases (find_rate k db.exchange_rates)) [
      | inl f ↦ rw (e, f) tt
      | inr (rate, f) ↦ cross_found k rate e f
    ]
  ]

  -- A conversion records the snapshot that was asked for.
  convert-KeepsSnapshot : Ensures KeepsSnapshot (convert payload source dest db)
  unfolding convert
  convert-KeepsSnapshot = elim (Bool-cases (text_eq source.currency dest.currency)) [
    | inl e ↦ rw e convert_same-KeepsSnapshot
    | inr e ↦ rw e convert_cross-KeepsSnapshot
  ]

  matches_new :
      (fx : Conversion)
      → fx.rate_snapshot_id ≡ payload.rate_snapshot_id
      → matches_command (transfer_row user_id payload source fx db) user_id payload ≡ true
  unfolding matches_command
  matches_new fx h = ground (
    arith,
    opt_text_eq_refl payload.description,
    opt_text_eq_refl payload.raw_message,
    opt_eq_opt_refl payload.source_message_id,
    opt_eq_opt_refl payload.rate_snapshot_id,
  )

-- What a call leaves under its command id.
abbrev IsStored : ℕ → TransferCreate → TransferResult → Db → Type 0
IsStored user_id payload r db' =
    (find_transfer_command payload.command_id db'.transfers ≡ some r.transfer)
    × (matches_command r.transfer user_id payload ≡ true)

find_head :
    (k : ℕ) (t : Transfer) (rows : List Transfer)
    → t.command_id ≡ k
    → find_transfer_command k (t ∷ rows) ≡ some t
unfolding find_transfer_command
find_head k t rows h = ground arith

module _ (user_id : ℕ) (payload : TransferCreate) (db : Db) (r : TransferResult) (db' : Db) where
  IsStored-IsNew : IsNew user_id payload db r db' → IsStored user_id payload r db'
  IsStored-IsNew n =
      let row = transfer_row user_id payload n.source n.fx db in
      let made : r.transfer ≡ row = ap (λ (x : TransferResult). x.transfer) n.settled.result in
      let keeps : n.fx.rate_snapshot_id ≡ payload.rate_snapshot_id =
        subst (Ensures (KeepsSnapshot user_id payload db n.source n.dest)) n.converted
          (convert-KeepsSnapshot user_id payload db n.source n.dest) in
      (
        ap (λ (x : Db). find_transfer_command payload.command_id x.transfers) n.settled.rest
            ∙ find_head payload.command_id row db.transfers refl
            ∙ ap some (sym made),
        ap (λ t. matches_command t user_id payload) made
            ∙ matches_new user_id payload db n.source n.dest n.fx keeps,
      )

  IsStored-Outcome : Outcome user_id payload db r db' → IsStored user_id payload r db'
  IsStored-Outcome (inl n) = IsStored-IsNew n
  IsStored-Outcome (inr p) = (
    ap (λ (x : Db). find_transfer_command payload.command_id x.transfers) p.unchanged ∙ p.found,
    p.matches,
  )

  replays :
      IsStored user_id payload r db'
      → (payload.source_account_id == payload.destination_account_id) ≡ false
      → create_transfer user_id payload db'
        ≡ (ok (record { transfer = r.transfer; is_idempotent = true; ledger_events = none }), db')
  unfolding create_transfer transfer_unless replay
  replays (found, matches) ne = rw (ne, found, matches) refl

  same_ids_refused :
      create_transfer user_id payload db ≡ (ok r, db')
      → (payload.source_account_id == payload.destination_account_id) ≡ false
  unfolding create_transfer
  same_ids_refused h =
      elim (Bool-cases (payload.source_account_id == payload.destination_account_id)) [
        | inr e ↦ e
        | inl e ↦ ground (arith, e, h)
      ]

  -- A call that returned can be made again with the same command and payload: the second call
  -- returns the same transfer, marked as a replay, and changes nothing.
  pub create_transfer-again :
      create_transfer user_id payload db ≡ (ok r, db')
      → create_transfer user_id payload db'
        ≡ (ok (record { transfer = r.transfer; is_idempotent = true; ledger_events = none }), db')
  create_transfer-again h =
      replays
        (IsStored-Outcome (
          subst (Ensures (Outcome user_id payload db)) h
            (create_transfer-Outcome user_id payload db)))
        (same_ids_refused h)

-- ===== src/Transfers/Books.antt =====
-- The balances and the ledger after a transfer.
use nexum_backend.Transfers.Moves.{moved}
use nexum_backend.Store.Tables.{shown, balance_of, find_account-id}
use nexum_backend.Transfers.Outcome.{
  Outcome, IsNew, create_transfer-IsAtomic, create_transfer-Outcome,
}
use nexum_backend.Prelude.Int.{pos, ◌≤ℤ◌, ℤ, ◌+ℤ◌, +ℤ_front_two}
use nexum_backend.Ledger.Balance.{Reconciles, ledger_sum}
use nexum_backend.Transfers.Create.{TransferResult, create_transfer}
use nexum_backend.Store.Ensures.{Ensures, Ensures-map, Ensures-always}
use nexum_backend.Store.Monad.{Db}
use nexum_backend.Transfers.Fx.{TransferCreate}
use nexum_backend.Prelude.{inl, inr, ◌≡◌, true, false, ℕ, subst, ◌∙◌, ap, sym, subst₂, some, ◌⊎◌}

module _ (user_id : ℕ) (payload : TransferCreate) (db : Db) where
  -- The ledger gains what the balances gain.
  Reconciles-new :
      {r : TransferResult} {db' : Db}
      → IsNew user_id payload db r db'
      → Reconciles db
      → Reconciles db'
  Reconciles-new n h = record {
    at = λ j.
        n.settled.balances j
        ∙ ap (λ b. b +ℤ moved payload n.source.id n.dest.id n.fx.target_amount j) (h.at j)
        ∙ sym (+ℤ_front_two _ _ _)
        ∙ ap (ledger_sum j) (sym n.settled.events);
  }

  Reconciles-Outcome :
      (r : TransferResult) (db' : Db)
      → Outcome user_id payload db r db'
      → Reconciles db
      → Reconciles db'
  Reconciles-Outcome r db' (inl n) h = Reconciles-new n h
  Reconciles-Outcome r db' (inr p) h = subst Reconciles (sym p.unchanged) h

  -- If every balance is the sum of its account's events, then it still is after a call of
  -- `create_transfer`, however the call ends.
  pub create_transfer-Reconciles : Reconciles db → Reconciles (create_transfer user_id payload db).1
  create_transfer-Reconciles h =
      Ensures-always Reconciles db (create_transfer user_id payload db) h
        (create_transfer-IsAtomic user_id payload db)
        (Ensures-map (Outcome user_id payload db) (λ _. Reconciles) _
          (create_transfer-Outcome user_id payload db) (λ r db' o. Reconciles-Outcome r db' o h))

  -- What a new transfer leaves in the accounts.
  pub record Transferred (r : TransferResult) (db' : Db) : Type 0 where
    pub funded : pos payload.amount ≤ℤ balance_of payload.source_account_id db.accounts
    pub target : ℤ
    pub recorded : r.transfer.target_amount ≡ some target
    pub balances :
        (j : ℕ)
        → balance_of j db'.accounts
          ≡ balance_of j db.accounts
            +ℤ moved payload payload.source_account_id payload.destination_account_id target j

  pub IsNew-funded :
      {r : TransferResult} {db' : Db}
      → IsNew user_id payload db r db'
      → pos payload.amount ≤ℤ balance_of payload.source_account_id db.accounts
  IsNew-funded n =
      subst (λ o. pos payload.amount ≤ℤ shown o) (sym n.passed.source_found) n.passed.funded

  pub IsNew-balances :
      {r : TransferResult} {db' : Db} (n : IsNew user_id payload db r db') (j : ℕ)
      → balance_of j db'.accounts
        ≡ balance_of j db.accounts
          +ℤ moved payload payload.source_account_id payload.destination_account_id
              n.fx.target_amount j
  IsNew-balances {r} {db'} n j =
      subst₂
        (λ s d.
          balance_of j db'.accounts
          ≡ balance_of j db.accounts +ℤ moved payload s d n.fx.target_amount j)
        (find_account-id payload.source_account_id n.source db.accounts n.passed.source_found)
        (find_account-id payload.destination_account_id n.dest db.accounts n.passed.dest_found)
        (n.settled.balances j)

  Transferred-new :
      (r : TransferResult) (db' : Db) → IsNew user_id payload db r db' → Transferred r db'
  Transferred-new r db' n = record {
    funded = IsNew-funded n;
    target = n.fx.target_amount;
    recorded = ap (λ (x : TransferResult). x.transfer.target_amount) n.settled.result;
    balances = IsNew-balances n;
  }

  -- A new transfer, or a replay that wrote nothing.
  abbrev pub IsMade : TransferResult → Db → Type 0
  IsMade r db' =
      (r.is_idempotent ≡ false) × Transferred r db' ⊎ (r.is_idempotent ≡ true) × (db' ≡ db)

  IsMade-Outcome : (r : TransferResult) (db' : Db) → Outcome user_id payload db r db' → IsMade r db'
  IsMade-Outcome r db' (inl n) =
      inl (ap (λ (x : TransferResult). x.is_idempotent) n.settled.result, Transferred-new r db' n)
  IsMade-Outcome r db' (inr p) =
      inr (ap (λ (x : TransferResult). x.is_idempotent) p.result, p.unchanged)

  -- A call that returns either made the transfer, and then the source had at least the amount and
  -- loses it, the destination gains the recorded target amount and no other account moves, or it
  -- replayed one, and then nothing changed.
  pub create_transfer-IsMade : Ensures IsMade (create_transfer user_id payload db)
  create_transfer-IsMade =
      Ensures-map (Outcome user_id payload db) IsMade _ (create_transfer-Outcome user_id payload db)
        IsMade-Outcome

-- ===== src/Transfers/Moves.antt =====
-- What a new transfer does: two events and two balances.
use nexum_backend.Accounts.Repository.{update_balance}
use nexum_backend.Accounts.Effects.{Shifts, update_balance-Shifts}
use nexum_backend.Store.Tables.{balance_of}
use nexum_backend.Store.Ensures.{Ensures, Ensures-bind, Ensures-map}
use nexum_backend.Ledger.Effects.{add_event, record_event-new}
use nexum_backend.Ledger.Insert.{event_row, record_event}
use nexum_backend.Store.Monad.{Db, ◌>>=◌, pure}
use nexum_backend.Transfers.Create.{settle, TransferResult, in_event, out_event, settle_balances}
use nexum_backend.Prelude.Int.{ℤ, neg_ℤ, pos, ◌+ℤ◌, +ℤ_assoc}
use nexum_backend.Transfers.Fx.{TransferCreate, Conversion}
use nexum_backend.Store.Models.{Account, FinancialEvent, Transfer}
use nexum_backend.Prelude.{refl, ℕ, if◌then◌else◌, ◌==◌, ◌≡◌, ◌∷◌, false, some, ◌∙◌, ap}

-- The movement of account `j` in a transfer.
abbrev pub moved : TransferCreate → ℕ → ℕ → ℤ → ℕ → ℤ
moved payload source_id dest_id target j =
    (if source_id == j then neg_ℤ (pos payload.amount) else pos 0)
    +ℤ (if dest_id == j then target else pos 0)

module _ (user_id : ℕ) (payload : TransferCreate) (source dest : Account) (fx : Conversion)
    (saved : Transfer) where
  abbrev pub out_row : Db → FinancialEvent
  out_row db = event_row (out_event user_id payload source saved) db

  abbrev pub in_row : Db → FinancialEvent
  in_row db =
      event_row (in_event user_id payload dest fx saved)
        (add_event (out_event user_id payload source saved) db)

  -- The state after the two inserts of `settle`.
  abbrev pub recorded : Db → Db
  recorded db =
      add_event (in_event user_id payload dest fx saved)
        (add_event (out_event user_id payload source saved) db)

  -- Two movements, and no other write.
  pub record Moved (ids : ℕ × ℕ) (db : Db) (r : TransferResult) (db' : Db) : Type 0 where
    pub balances :
        (j : ℕ)
        → balance_of j db'.accounts
          ≡ balance_of j db.accounts +ℤ moved payload source.id dest.id fx.target_amount j
    pub rest : db' ≡ record db { accounts = db'.accounts }
    pub result : r ≡ record { transfer = saved; is_idempotent = false; ledger_events = some ids }

  -- A settled transfer: its two events on top of the ledger, its two movements, and no other write.
  pub record Settled (db : Db) (r : TransferResult) (db' : Db) : Type 0 where
    pub events : db'.events ≡ in_row db ∷ out_row db ∷ db.events
    pub balances :
        (j : ℕ)
        → balance_of j db'.accounts
          ≡ balance_of j db.accounts +ℤ moved payload source.id dest.id fx.target_amount j
    pub rest : db' ≡ record (recorded db) { accounts = db'.accounts }
    pub result : r ≡ record {
      transfer = saved;
      is_idempotent = false;
      ledger_events = some ((out_row db).id, (in_row db).id);
    }

  Shifts-twice :
      (ids : ℕ × ℕ) (db d1 d2 : Db)
      → Shifts source.id (neg_ℤ (pos payload.amount)) db d1
      → Shifts dest.id fx.target_amount d1 d2
      → Moved ids db
          (record { transfer = saved; is_idempotent = false; ledger_events = some ids })
          d2
  Shifts-twice ids db d1 d2 h1 h2 = record {
    balances = λ j. rw (h2.balances j, h1.balances j) (+ℤ_assoc _ _ _);
    rest = h2.rest ∙ ap (λ (d : Db). record d { accounts = d2.accounts }) h1.rest;
    result = refl;
  }

  settle_balances-Moved :
      (ids : ℕ × ℕ) (db : Db)
      → Ensures (Moved ids db) (settle_balances payload source dest fx saved ids db)
  unfolding settle_balances
  settle_balances-Moved ids db =
      Ensures-bind (λ _. Shifts source.id (neg_ℤ (pos payload.amount)) db) (Moved ids db)
        (update_balance source.id (neg_ℤ (pos payload.amount)))
        (λ _. update_balance dest.id fx.target_amount >>= λ _. pure _) db
        (update_balance-Shifts source.id (neg_ℤ (pos payload.amount)) db)
        λ _ d1 h1.
          Ensures-bind (λ _. Shifts dest.id fx.target_amount d1) (Moved ids db)
            (update_balance dest.id fx.target_amount) (λ _. pure _) d1
            (update_balance-Shifts dest.id fx.target_amount d1)
            λ _ d2 h2. Shifts-twice ids db d1 d2 h1 h2

  Settled-Moved :
      (out_id in_id : ℕ) (db d : Db)
      → out_id ≡ (out_row db).id
      → in_id ≡ (in_row db).id
      → d ≡ recorded db
      → (r : TransferResult) (db' : Db) → Moved (out_id, in_id) d r db'
      → Settled db r db'
  Settled-Moved out_id in_id db d p q e r db' m = record {
    events = ap (λ (x : Db). x.events) m.rest ∙ ap (λ (x : Db). x.events) e;
    balances = λ j.
        m.balances j
        ∙ ap
            (λ (x : Db).
              balance_of j x.accounts +ℤ moved payload source.id dest.id fx.target_amount j)
            e;
    rest = m.rest ∙ ap (λ (x : Db). record x { accounts = db'.accounts }) e;
    result = m.result ∙ (λ i. record {
      transfer = saved;
      is_idempotent = false;
      ledger_events = some (p i, q i);
    });
  }

  -- A settlement that returns is complete: both events and both movements.
  pub settle-Settled :
      (db : Db) → Ensures (Settled db) (settle user_id payload source dest fx saved db)
  unfolding settle
  settle-Settled db =
      Ensures-bind
        (λ r d.
          (r.event ≡ out_row db) × (d ≡ add_event (out_event user_id payload source saved) db))
        (Settled db) (record_event (out_event user_id payload source saved))
        (λ out_result. record_event (in_event user_id payload dest fx saved) >>= λ in_result.
          settle_balances payload source dest fx saved (out_result.event.id, in_result.event.id))
        db (record_event-new (out_event user_id payload source saved) db refl)
        λ out_result d1 h1.
          Ensures-bind
            (λ r d.
              (r.event ≡ event_row (in_event user_id payload dest fx saved) d1)
              × (d ≡ add_event (in_event user_id payload dest fx saved) d1))
            (Settled db) (record_event (in_event user_id payload dest fx saved))
            (λ in_result.
              settle_balances payload source dest fx saved
                (out_result.event.id, in_result.event.id))
            d1 (record_event-new (in_event user_id payload dest fx saved) d1 refl)
            λ in_result d2 h2.
              Ensures-map (Moved (out_result.event.id, in_result.event.id) d2) (Settled db) _
                (settle_balances-Moved (out_result.event.id, in_result.event.id) d2)
                (Settled-Moved out_result.event.id in_result.event.id db d2
                  (ap (λ (x : FinancialEvent). x.id) h1.0)
                  (ap (λ (x : FinancialEvent). x.id) h2.0 ∙ ap (λ (x : Db). x.next_id) h1.1)
                  (h2.1 ∙ ap (add_event (in_event user_id payload dest fx saved)) h1.1))

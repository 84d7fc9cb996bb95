-- ===== src/Ledger/Balance.antt =====
-- The movement of an account that the ledger's events add up to.
use nexum_backend.Ledger.Insert.{LedgerEventCreate, event_row}
use nexum_backend.Prelude.{ℕ, ◌≡◌, List, [], ◌∷◌, if◌then◌else◌, some, ◌==◌, ◌∙◌, ap, sym, refl}
use nexum_backend.Prelude.Int.{ℤ, pos, ◌+ℤ◌, neg_ℤ, ◌≤ℤ◌, +ℤ_comm}
use nexum_backend.Store.Models.{Direction, inflow, outflow, neutral, FinancialEvent}
use nexum_backend.Store.Monad.{Db}
use nexum_backend.Store.Tables.{opt_eq, balance_of}

-- What an event does to the balance of its account.
abbrev pub signed : Direction → ℤ → ℤ
signed inflow amount = amount
signed outflow amount = neg_ℤ amount
signed neutral amount = pos 0

abbrev pub movement : ℕ → FinancialEvent → ℤ
movement k e = if opt_eq e.account_id k then signed e.direction e.amount else pos 0

abbrev pub ledger_sum : ℕ → List FinancialEvent → ℤ
ledger_sum k [] = pos 0
ledger_sum k (e ∷ events) = movement k e +ℤ ledger_sum k events

-- Every balance is the sum of the account's events.
pub record Reconciles (db : Db) : Type 0 where
  pub at : (k : ℕ) → balance_of k db.accounts ≡ ledger_sum k db.events

-- One event, and the movement of its account that it records: no balance is below zero after.
pub record Posts (e : LedgerEventCreate) (k : ℕ) (d : ℤ) (db db' : Db) : Type 0 where
  pub event : db'.events ≡ event_row e db ∷ db.events
  pub balances :
      (j : ℕ)
      → balance_of j db'.accounts ≡ balance_of j db.accounts +ℤ (if k == j then d else pos 0)
  pub covered : pos 0 ≤ℤ balance_of k db'.accounts

-- An event that moves its account as it says keeps the books.
pub Reconciles-Posts :
    (e : LedgerEventCreate) (k : ℕ) (d : ℤ) (db db' : Db)
    → e.account_id ≡ some k
    → signed e.direction e.amount ≡ d
    → Posts e k d db db'
    → Reconciles db
    → Reconciles db'
Reconciles-Posts e k d db db' he hd p h = record {
  at = λ j.
      p.balances j
      ∙ ap (λ b. b +ℤ (if k == j then d else pos 0)) (h.at j)
      ∙ +ℤ_comm _ _
      ∙ ap (λ m. m +ℤ ledger_sum j db.events) (sym (same_movement j))
      ∙ ap (ledger_sum j) (sym p.event);
}
  where
    same_movement : (j : ℕ) → movement j (event_row e db) ≡ (if k == j then d else pos 0)
    same_movement j = rw (he, hd) refl

-- ===== src/System/Runs.antt =====
-- What a run of commands can reach.
use nexum_backend.Obligations.SpecificPayment.{event_of, debit_of}
use nexum_backend.Obligations.PaymentBooks.{kept}
use nexum_backend.Ledger.Relabel.{reclassify_event-Reconciles}
use nexum_backend.Transfers.Books.{create_transfer-Reconciles}
use nexum_backend.Cash.Books.{cash-Reconciles}
use nexum_backend.Ledger.Balance.{Reconciles, Reconciles-Posts}
use nexum_backend.System.Commands.{perform, Command, income, expense, transfer, reclassify, pay}
use nexum_backend.Store.Monad.{Db}
use nexum_backend.Prelude.{refl}

-- The second tables are those of the first after some commands.
pub data Reaches : Db → Db → Type 0 where
  here : {db : Db} → Reaches db db
  after : {db db' : Db} (c : Command) → Reaches (perform c db) db' → Reaches db db'

perform-Reconciles : (c : Command) (db : Db) → Reconciles db → Reconciles (perform c db)
unfolding perform
perform-Reconciles (income user_id payload command_id) db h =
    (cash-Reconciles user_id payload command_id db h).0
perform-Reconciles (expense user_id payload command_id) db h =
    (cash-Reconciles user_id payload command_id db h).1
perform-Reconciles (transfer user_id payload) db h = create_transfer-Reconciles user_id payload db h
perform-Reconciles (reclassify user_id event_id request) db h =
    reclassify_event-Reconciles user_id event_id request db h
perform-Reconciles (pay command_of user_id obligation_id period_id payload today) db h =
    kept command_of user_id obligation_id period_id payload today db Reconciles h (λ c s p db' made.
      Reconciles-Posts (event_of c s db.now) c.account.id (debit_of s) db db' refl refl made.posts
        h)

-- From tables in which every balance is the sum of its account's events, every run of incomes,
-- expenses, transfers, reclassifications and payments leads to tables in which it is.
pub Reaches-Reconciles : (db db' : Db) → Reaches db db' → Reconciles db → Reconciles db'
Reaches-Reconciles db _ here h = h
Reaches-Reconciles db db' (after c r) h =
    Reaches-Reconciles (perform c db) db' r (perform-Reconciles c db h)

-- ===== src/System/Commands.antt =====
-- The commands of the modelled services that can move an account, one after the other.
use nexum_backend.Obligations.SpecificPayment.{pay_period_route}
use nexum_backend.Calendar.{Date}
use nexum_backend.Transfers.Create.{create_transfer}
use nexum_backend.Obligations.Payments.{PaymentData}
use nexum_backend.Ledger.Reclassify.{ReclassificationRequest, reclassify_event}
use nexum_backend.Transfers.Fx.{TransferCreate}
use nexum_backend.Cash.Operations.{CashCreate, create_income, create_expense}
use nexum_backend.Store.Monad.{Db, Result, ok, err}
use nexum_backend.Prelude.{ℕ, Text, Bool, true, false}

pub data Command : Type 0 where
  income : ℕ → CashCreate → ℕ → Command
  expense : ℕ → CashCreate → ℕ → Command
  transfer : ℕ → TransferCreate → Command
  reclassify : ℕ → ℕ → ReclassificationRequest → Command
  pay : (ℕ → Text → ℕ) → ℕ → ℕ → ℕ → PaymentData → Date → Command

-- The tables after a command, whether it returns or raises.
unfoldable pub perform : Command → Db → Db
perform (income user_id payload command_id) db = (create_income user_id payload command_id db).1
perform (expense user_id payload command_id) db = (create_expense user_id payload command_id db).1
perform (transfer user_id payload) db = (create_transfer user_id payload db).1
perform (reclassify user_id event_id request) db = (reclassify_event user_id event_id request db).1
perform (pay command_of user_id obligation_id period_id payload today) db =
    (pay_period_route command_of user_id obligation_id period_id payload today db).1

abbrev pub is_ok : {A : Type 0} → Result A × Db → Bool
is_ok (ok a, db) = true
is_ok (err e, db) = false

-- Whether a command returns.
unfoldable pub completes : Command → Db → Bool
completes (income user_id payload command_id) db =
    is_ok (create_income user_id payload command_id db)
completes (expense user_id payload command_id) db =
    is_ok (create_expense user_id payload command_id db)
completes (transfer user_id payload) db = is_ok (create_transfer user_id payload db)
completes (reclassify user_id event_id request) db =
    is_ok (reclassify_event user_id event_id request db)
completes (pay command_of user_id obligation_id period_id payload today) db =
    is_ok (pay_period_route command_of user_id obligation_id period_id payload today db)

-- ===== src/System/Refinement.antt =====
-- Every command does to the abstract book what it is for.
use nexum_backend.System.Commands.{Command, pay}
use nexum_backend.Obligations.Pays.{Makes}
use nexum_backend.Store.Obligations.{ObligationPayment}
use nexum_backend.Obligations.SpecificPayment.{command_for}
use nexum_backend.Decimal.{Ratio}
use nexum_backend.Transfers.Outcome.{Outcome}
use nexum_backend.Store.Ensures.{Ensures}
use nexum_backend.Calendar.{Date}
use nexum_backend.Obligations.Payments.{PaymentData}
use nexum_backend.Store.Monad.{Db}
use nexum_backend.Prelude.{ℕ, Text, none}

module _ (command_of : ℕ → Text → ℕ) (user_id obligation_id period_id : ℕ) (payload : PaymentData)
    (today : Date) (db : Db) where
  abbrev payment_command : Command
  payment_command = pay command_of user_id obligation_id period_id payload today

  abbrev IsPaymentMade : ℕ → Ratio → ObligationPayment → Db → Type 0
  IsPaymentMade account_id asked p db' =
      Makes user_id obligation_id period_id account_id payload asked
        (command_for command_of user_id none payload.idempotency_key) db p db'

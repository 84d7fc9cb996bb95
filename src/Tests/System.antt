-- ===== src/Tests/System.antt =====
-- An income, a transfer and a payment, one after the other.
use nexum_backend.System.Runs.{Reaches-Reconciles, after, here}
use nexum_backend.System.Commands.{Command, perform, income, transfer, pay}
use nexum_backend.Ledger.Balance.{Reconciles}
use nexum_backend.Tests.Fixtures.{books-Reconciles, cash, payment}
use nexum_backend.Tests.Payments.{before, half, command}
use nexum_backend.Tests.Periods.{day}
use nexum_backend.Prelude.Int.{pos}

abbrev salary : Command
salary = income 7 (cash (pos 2500)) 90

abbrev savings_transfer : Command
savings_transfer = transfer 7 (payment 1 2 2000)

abbrev fee_payment : Command
fee_payment = pay command 7 5 61 half (day 2 10)

Reaches-Reconciles_example :
    Reconciles (perform fee_payment (perform savings_transfer (perform salary before)))
Reaches-Reconciles_example =
    Reaches-Reconciles before
      (perform fee_payment (perform savings_transfer (perform salary before)))
      (after salary (after savings_transfer (after fee_payment here)))
      (record { at = books-Reconciles.at })

-- ===== src/Lib.antt =====
-- Verification of the Nexum backend, a personal finance API: accounts, a ledger of events, cash,
-- transfers between accounts, credit cards and recurring obligations.
--
-- The services of app/ are methods on a database session. The model is explicit state passing: a
-- `Db` (Store/Monad) holds the tables as lists of rows, an action takes a `Db` to a result or an
-- error with the `Db` that is left, and only `transaction` and `savepoint` (Store/Atomic, after
-- app/core/uow.py and `session.begin_nested`) undo writes. Commands run one after the other: the
-- row locks of the program (SELECT FOR UPDATE) serialise them, so a lock is a read here.
--
-- Which file models which part:
--   Prelude      tests, lists, texts as lists of code points, integers
--   Decimal      the arithmetic of Python's decimal: precision 28, quantize, rounding modes
--   Store        rows (app/accounts/models.py, app/ledger/models.py, app/categories/models.py,
--                app/transfers/models.py), the monad, transactions, lookups, postconditions
--   Ledger       `LedgerRepository.insert_event` (app/ledger/repository.py) and its schema;
--                `reclassify_event` (app/ledger/service.py)
--   Accounts     `AccountRepository` (app/accounts/repository.py) and the commands of
--                `AccountService` (app/accounts/service.py); `str.lower`, PostgreSQL's `lower` and
--                the tables of unicodedata that names are compared by are arguments
--   Transfers    `TransfersService.create_transfer` (app/transfers/service.py), with the
--                repository (app/transfers/repository.py) and the conversion at a rate snapshot
--   Cash         `CashService` (app/cash/service.py)
--   Calendar     Python's dates, `add_months` (app/obligations/period_engine.py)
--   Credit       `calculate_credit_card_dates` (app/credit/utils.py), the waterfall of a payment and
--                the installments of a purchase, `_apply_payment_to_waterfall` and
--                `_build_installments` (app/credit/service.py)
--   Currency     the least unit of a currency (app/core/currency.py)
--   Obligations  the period engine (app/obligations/period_engine.py): bounds, search, states; the
--                settlement of a payment (app/obligations/settlement.py): what it costs the account,
--                the slices of a debit, and the fingerprint that a retry is checked against; the
--                payment, the skipping and the cancelling of a period, their routes, and its
--                completion (app/obligations/service_v17.py, app/obligations/router_v17.py). `uuid.uuid5`, which makes the command of a key, is
--                an argument, as is the day that `financial_date()` gives
--   Goals        what goals reserve on an account (app/goals/repository.py)
--   System       the commands of these services, their runs, and the abstract book that they refine:
--                what each account holds, and what each command does to it
--   Tests        concrete data, and the theorems applied to it
--
-- Money is a whole number of hundredths, the scale of the NUMERIC(14, 2) columns; amounts with
-- more decimals, which the database would round, are outside the model. A balance that its column
-- cannot hold is an error, as is a payment's rate of more than nine whole digits; that rate is kept
-- rounded to six places. Sums of hundredths are exact, which those of up to 28 digits are. Keys that the program
-- draws as UUIDs are natural numbers, fresh ones from a counter; instants are natural numbers, and
-- one clock reading serves a whole call. The counting of digits in Decimal runs on fuel, the
-- number itself, which is more than it has digits.
--
-- Not modelled: HTTP routers and schemas beyond the fields that the services use, concurrency
-- within one command, commit failures, SQL reports, the language model client, authentication.
pub mod Prelude
pub mod Decimal
pub mod Currency
pub mod Store
pub mod Ledger
pub mod Accounts
pub mod Transfers
pub mod Cash
pub mod Calendar
pub mod Credit
pub mod Goals
pub mod Obligations
pub mod System
pub mod Tests

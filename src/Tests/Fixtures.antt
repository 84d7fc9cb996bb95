-- ===== src/Tests/Fixtures.antt =====
-- Two accounts in pesos, one in dollars and one archived, with a fresh dollar rate.
use nexum_backend.Cash.Operations.{CashCreate}
use nexum_backend.Ledger.Balance.{Reconciles, ledger_sum}
use nexum_backend.Store.Tables.{find_account, balance_of}
use nexum_backend.Prelude.{
  ℕ, true, false, some, none, [], ◌∷◌, codes, Text, arith, ◌≡◌, refl, Bool-cases, ◌==◌, inl, subst,
  inr,
}
use nexum_backend.Prelude.Int.{pos, ℤ, ◌+ℤ◌}
use nexum_backend.Decimal.{finite}
use nexum_backend.Store.Models.{
  Account, bank, ExchangeRate, FinancialEvent, CategoryType, Category, EventType, inflow, Source,
}
use nexum_backend.Store.Monad.{Db}
use nexum_backend.Transfers.Fx.{TransferCreate}

abbrev pub account : ℕ → ℕ → Text → Account
account i b c = record {
  id = i;
  user_id = some 7;
  name = codes "main";
  kind = bank;
  balance = some (pos b);
  currency = c;
  is_active = true;
}

abbrev pub rate : ExchangeRate
rate = record {
  id = 40;
  base_currency = codes "USD";
  quote_currency = codes "COP";
  rate = finite (pos 400025) 2;
  provider = codes "dolarapi";
  fetched_at = 900;
  expires_at = 1200;
  is_stale = some false;
}

abbrev pub book : Db
book = record {
  accounts =
      account 1 500000 (codes "COP")
      ∷ account 2 1000 (codes "COP")
      ∷ account 3 20000 (codes "USD")
      ∷ record (account 4 900 (codes "COP")) { is_active = false }
      ∷ [];
  categories = [];
  events = [];
  reclassifications = [];
  transfers = [];
  exchange_rates = rate ∷ [];
  fx_quotes = [];
  obligations = [];
  obligation_periods = [];
  obligation_payments = [];
  goal_transactions = [];
  next_id = 100;
  now = 1000;
}

abbrev pub payment : ℕ → ℕ → ℕ → TransferCreate
payment s d x = record {
  source_account_id = s;
  destination_account_id = d;
  amount = x;
  description = none;
  rate_snapshot_id = none;
  command_id = 55;
  occurred_at = none;
  source_message_id = none;
  raw_message = none;
}

-- The row of an opening balance, and the books of two accounts that an opening balance and an
-- income explain.
abbrev pub opening : ℕ → ℕ → ℕ → FinancialEvent
opening i k b = record {
  id = i;
  user_id = 7;
  account_id = some k;
  category_id = none;
  event_type = EventType.opening_balance;
  direction = inflow;
  amount = pos b;
  currency = codes "COP";
  description = none;
  raw_message = none;
  source = Source.system;
  occurred_at = 500;
  command_id = none;
  source_message_id = none;
  transfer_id = none;
  fingerprint = none;
}

abbrev pub category : ℕ → CategoryType → Text → Category
category i kind key = record {
  id = i;
  user_id = none;
  kind = some kind;
  is_active = true;
  stable_key = some key;
}

abbrev pub books : Db
books = record {
  accounts = account 1 500000 (codes "COP") ∷ account 2 1000 (codes "COP") ∷ [];
  categories =
      category 20 CategoryType.income (codes "income_uncategorized")
      ∷ category 21 CategoryType.expense (codes "expense_uncategorized")
      ∷ [];
  events = opening 31 2 1000 ∷ record (opening 30 1 500000) { event_type = EventType.income } ∷ [];
  reclassifications = [];
  transfers = [];
  exchange_rates = [];
  fx_quotes = [];
  obligations = [];
  obligation_periods = [];
  obligation_payments = [];
  goal_transactions = [];
  next_id = 100;
  now = 1000;
}

pub books-Reconciles : Reconciles books
unfolding find_account ◌+ℤ◌
books-Reconciles = record {
  at = λ k. elim (Bool-cases (1 == k)) [
    | inl e ↦ (let same : 1 ≡ k = ground arith in subst explained same refl)
    | inr e ↦ elim (Bool-cases (2 == k)) [
      | inl f ↦ (let same : 2 ≡ k = ground arith in subst explained same refl)
      | inr f ↦ rw (e, f) refl
    ]
  ];
}
  where
    explained : ℕ → Type 0
    explained k = balance_of k books.accounts ≡ ledger_sum k books.events

abbrev pub cash : ℤ → CashCreate
cash x = record {
  account_id = 1;
  amount = x;
  category_id = none;
  description = none;
  source = Source.api;
  source_message_id = none;
  raw_message = none;
}

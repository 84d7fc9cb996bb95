-- ===== src/Store/Tables.antt =====
-- Queries by key, and the row updates of the session's identity map.
use nexum_backend.Prelude.{
  ℕ, ◌≡◌, Bool, true, false, Option, none, some, List, [], ◌∷◌, arith, ◌==◌, Text, text_eq,
  text_eq_iff, ◌↔◌, if◌then◌else◌, ◌||◌,
}
use nexum_backend.Store.Models.{Account, Category, FinancialEvent, Transfer, ExchangeRate}
use nexum_backend.Prelude.Int.{ℤ, pos, leb_ℤ, negsuc}

-- 10 ^ 14 hundredths are out of the range of NUMERIC(14, 2).
abbrev pub numeric_limit : ℤ
numeric_limit = pos 100000000000000

-- Whether a number of hundredths overflows its column, on either side.
abbrev pub overflows : ℤ → Bool
overflows v = leb_ℤ numeric_limit v || leb_ℤ v (negsuc 99999999999999)

abbrev pub opt_eq : Option ℕ → ℕ → Bool
opt_eq none k = false
opt_eq (some j) k = j == k

-- `a == b` on two optional ids
abbrev pub opt_eq_opt : Option ℕ → Option ℕ → Bool
opt_eq_opt none none = true
opt_eq_opt (some j) (some k) = j == k
opt_eq_opt _ _ = false

abbrev pub opt_text_eq : Option Text → Option Text → Bool
opt_text_eq none none = true
opt_text_eq (some s) (some t) = text_eq s t
opt_text_eq _ _ = false

-- SELECT ... FROM accounts WHERE id = key
unfoldable pub find_account : ℕ → List Account → Option Account
find_account k [] = none
find_account k (a ∷ rows) = if a.id == k then some a else find_account k rows

-- UPDATE accounts SET balance = v WHERE id = key
unfoldable pub set_balance : ℕ → Option ℤ → List Account → List Account
set_balance k v [] = []
set_balance k v (a ∷ rows) =
    if a.id == k then record a { balance = v } ∷ rows else a ∷ set_balance k v rows

unfoldable pub find_category : ℕ → List Category → Option Category
find_category k [] = none
find_category k (c ∷ rows) = if c.id == k then some c else find_category k rows

unfoldable pub find_stable_key : Text → List Category → Option Category
find_stable_key k [] = none
find_stable_key k (c ∷ rows) =
    if opt_text_eq c.stable_key (some k) then some c else find_stable_key k rows

-- SELECT ... FROM financial_events WHERE command_id = key
unfoldable pub find_command : ℕ → List FinancialEvent → Option FinancialEvent
find_command k [] = none
find_command k (e ∷ rows) = if opt_eq e.command_id k then some e else find_command k rows

unfoldable pub find_transfer_command : ℕ → List Transfer → Option Transfer
find_transfer_command k [] = none
find_transfer_command k (t ∷ rows) =
    if t.command_id == k then some t else find_transfer_command k rows

unfoldable pub find_rate : ℕ → List ExchangeRate → Option ExchangeRate
find_rate k [] = none
find_rate k (r ∷ rows) = if r.id == k then some r else find_rate k rows

-- The row that a key finds has that key.
pub find_account-id :
    (k : ℕ) (a : Account) (rows : List Account) → find_account k rows ≡ some a → a.id ≡ k
unfolding find_account
find_account-id k b [] h = cc
find_account-id k b (a ∷ rows) h = ground (arith, find_account-id k b rows)

abbrev pub with_balance : Option ℤ → Option Account → Option Account
with_balance v none = none
with_balance v (some a) = some (record a { balance = v })

-- An update reaches the row with its key, and no other.
pub find_account-set_balance :
    (j k : ℕ) (v : Option ℤ) (rows : List Account)
    → find_account j (set_balance k v rows)
      ≡ (if j == k then with_balance v (find_account j rows) else find_account j rows)
unfolding find_account set_balance
find_account-set_balance j k v [] = ground arith
find_account-set_balance j k v (a ∷ rows) = ground (arith, find_account-set_balance j k v rows)

pub opt_text_eq_iff : (s t : Option Text) → (opt_text_eq s t ≡ true) ↔ (s ≡ t)
opt_text_eq_iff none none = ground arith
opt_text_eq_iff none (some t) = ground arith
opt_text_eq_iff (some s) none = ground arith
opt_text_eq_iff (some s) (some t) = ground (arith, text_eq_iff s t)

-- The balance that the table shows for a key, zero where it shows none.
abbrev pub shown : Option Account → ℤ
shown none = pos 0
shown (some a) = elim a.balance [ none ↦ pos 0 | some v ↦ v ]

abbrev pub balance_of : ℕ → List Account → ℤ
balance_of k rows = shown (find_account k rows)

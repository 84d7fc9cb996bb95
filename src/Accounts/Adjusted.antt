-- ===== src/Accounts/Adjusted.antt =====
-- What an adjustment of a balance leaves.
use nexum_backend.Accounts.Effects.{balance_of-set}
use nexum_backend.Accounts.Opening.{Ensures-check, read_account-IsCheck, in_transaction}
use nexum_backend.Ledger.Effects.{add_event, Recorded, record_event-Recorded}
use nexum_backend.Store.Ensures.{Ensures, Ensures-bind, Ensures-transaction, read-then, Ensures-map}
use nexum_backend.Ledger.Balance.{signed, Reconciles, ledger_sum}
use nexum_backend.Ledger.Insert.{command_taken, LedgerEventResult, record_event}
use nexum_backend.Store.Tables.{
  balance_of, find_account, find_account-id, set_balance, find_account-set_balance, shown,
}
use nexum_backend.Store.Models.{Account}
use nexum_backend.Accounts.Repository.{get_by_id, flush_balance}
use nexum_backend.Accounts.Service.{BalanceAdjustmentCreate, read_account, AccountRead}
use nexum_backend.Accounts.Adjustment.{
  adjustable_account, adjustment_event, adjust, adjust_from, adjust_block,
  create_balance_adjustment,
}
use nexum_backend.Prelude.Int.{
  ℤ, ◌+ℤ◌, eqb_ℤ, ◌-ℤ◌, pos, int_laws, ltb_ℤ, +ℤ_comm, pos_part, neg_part,
}
use nexum_backend.Store.Monad.{◌>>◌, Db, Action}
use nexum_backend.Prelude.{
  if◌then◌else◌, ◌==◌, none, some, true, false, ℕ, ◌≡◌, Bool-cases, arith, subst, ap, ◌∙◌, sym, inl,
  inr, refl, Option,
}

-- The balance is the target, and every balance is the sum of its account's events.
abbrev pub Adjusts : ℕ → ℕ → Db → Type 0
Adjusts account_id target db' = (balance_of account_id db'.accounts ≡ pos target) × Reconciles db'

abbrev IsAdjustable : ℕ → Db → Account × ℤ → Type 0
IsAdjustable k db p = (find_account k db.accounts ≡ some p.0) × (p.0.balance ≡ some p.1)

adjustable_account-IsAdjustable :
    (u k : ℕ) (db : Db)
    → Ensures (λ p db'. (db' ≡ db) × IsAdjustable k db p) (adjustable_account u k db)
unfolding adjustable_account get_by_id
adjustable_account-IsAdjustable u k db = ground arith

-- The event of a difference moves the account by it.
signed_difference :
    (u : ℕ) (a : Account) (payload : BalanceAdjustmentCreate) (d : ℤ)
    → signed (adjustment_event u a payload d).direction (adjustment_event u a payload d).amount ≡ d
signed_difference u a payload d = elim (Bool-cases (ltb_ℤ (pos 0) d)) [
  | inl e ↦ rw e refl
  | inr e ↦ rw e (omega int_laws)
]

difference : (target b : ℤ) → b +ℤ (target -ℤ b) ≡ target
difference target b = omega int_laws

no_difference : (target : ℕ) (b : ℤ) → eqb_ℤ (pos target -ℤ b) (pos 0) ≡ true → b ≡ pos target
no_difference target b h =
    (let equal : pos target -ℤ b ≡ pos 0 = ground (arith, h) in
      let p = ap pos_part equal in let n = ap neg_part equal in omega int_laws)

module _ (user_id account_id : ℕ) (payload : BalanceAdjustmentCreate) (db : Db)
    (free : command_taken (some payload.idempotency_key) db ≡ false) (r : Reconciles db)
    (account : Account) (balance : ℤ) (found : IsAdjustable account_id db (account, balance)) where
  abbrev diff : ℤ
  diff = pos payload.target_balance -ℤ balance

  abbrev set : Db
  set = record db {
    accounts = set_balance account.id (some (pos payload.target_balance)) db.accounts;
  }

  same_id : account.id ≡ account_id
  same_id = find_account-id account_id account db.accounts found.0

  here : find_account account.id db.accounts ≡ some account
  here = subst (λ k. find_account k db.accounts ≡ some account) (sym same_id) found.0

  set_balances :
      (j : ℕ)
      → balance_of j set.accounts
        ≡ balance_of j db.accounts +ℤ (if account.id == j then diff else pos 0)
  set_balances j =
      ap (λ v. balance_of j (set_balance account.id (some v) db.accounts))
        (sym (difference (pos payload.target_balance) balance))
      ∙ balance_of-set j account.id balance diff account db.accounts here found.1

  adjusted-Reconciles : Reconciles (add_event (adjustment_event user_id account payload diff) set)
  adjusted-Reconciles = record {
    at = λ j.
        set_balances j
        ∙ ap (λ b. b +ℤ (if account.id == j then diff else pos 0)) (r.at j)
        ∙ +ℤ_comm _ _
        ∙ ap (λ m. m +ℤ ledger_sum j db.events)
            (ap (λ d. if account.id == j then d else pos 0)
              (sym (signed_difference user_id account payload diff)));
  }

  target_shown : balance_of account_id set.accounts ≡ pos payload.target_balance
  target_shown =
      subst (λ k. balance_of k set.accounts ≡ pos payload.target_balance) same_id
        (rw
          (
            find_account-set_balance account.id account.id (some (pos payload.target_balance))
                db.accounts,
            here,
          )
          (ground arith))

  after_record-Adjusts :
      (result : LedgerEventResult) (d : Db)
      → Recorded (adjustment_event user_id account payload diff) set result d
      → Adjusts account_id payload.target_balance d
  after_record-Adjusts result d (inl new) =
      subst (Adjusts account_id payload.target_balance) (sym new.2)
        (target_shown, adjusted-Reconciles)
  after_record-Adjusts result d (inr old) = ground (arith, old.2, free)

  abbrev after_set : Action AccountRead
  after_set =
      record_event (adjustment_event user_id account payload diff)
      >> read_account user_id account.id

  after_set-Adjusts : Ensures (λ _ d. Adjusts account_id payload.target_balance d) (after_set set)
  after_set-Adjusts =
      Ensures-bind (Recorded (adjustment_event user_id account payload diff) set)
        (λ _ d. Adjusts account_id payload.target_balance d)
        (record_event (adjustment_event user_id account payload diff))
        (λ _. read_account user_id account.id) set
        (record_event-Recorded (adjustment_event user_id account payload diff) set)
        λ result d recorded.
          Ensures-check (Adjusts account_id payload.target_balance)
            (read_account user_id account.id) d (read_account-IsCheck user_id account.id)
            (after_record-Adjusts result d recorded)

  flush_balance-set :
      Ensures (λ _ d. d ≡ set) (flush_balance account.id (pos payload.target_balance) db)
  unfolding flush_balance
  flush_balance-set = ground arith

  adjust-Adjusts :
      Ensures
        (λ _ d. Adjusts account_id payload.target_balance d)
        (adjust user_id account payload diff db)
  unfolding adjust
  adjust-Adjusts =
      Ensures-bind (λ _ d. d ≡ set) (λ _ d. Adjusts account_id payload.target_balance d)
        (flush_balance account.id (pos payload.target_balance)) (λ _. after_set) db
        flush_balance-set
        λ _ d same.
          subst (λ x. Ensures (λ _ y. Adjusts account_id payload.target_balance y) (after_set x))
            (sym same) after_set-Adjusts

  same_shown :
      balance ≡ pos payload.target_balance
      → balance_of account_id db.accounts ≡ pos payload.target_balance
  same_shown e =
      ap shown found.0
      ∙ ap (λ (o : Option ℤ). elim o as (λ _. ℤ) [ none ↦ pos 0 | some x ↦ x ]) found.1
      ∙ e

  pub adjust_from-Adjusts :
      Ensures
        (λ _ d. Adjusts account_id payload.target_balance d)
        (adjust_from user_id account payload balance db)
  unfolding adjust_from
  adjust_from-Adjusts = elim (Bool-cases (eqb_ℤ diff (pos 0))) [
    | inl e ↦ rw e (
        Ensures-check (Adjusts account_id payload.target_balance) (read_account user_id account.id)
          db (read_account-IsCheck user_id account.id)
          (same_shown (no_difference payload.target_balance balance e), r))
    | inr e ↦ rw e adjust-Adjusts
  ]

module _ (user_id account_id : ℕ) (payload : BalanceAdjustmentCreate) (db : Db)
    (free : command_taken (some payload.idempotency_key) db ≡ false) (r : Reconciles db) where
  adjust_block-Adjusts :
      Ensures
        (λ _ d. Adjusts account_id payload.target_balance d)
        (adjust_block user_id account_id payload db)
  unfolding adjust_block
  adjust_block-Adjusts =
      read-then (IsAdjustable account_id db) (λ _ d. Adjusts account_id payload.target_balance d)
        (adjustable_account user_id account_id) (λ p. adjust_from user_id p.0 payload p.1) db
        (adjustable_account-IsAdjustable user_id account_id db)
        λ p found. adjust_from-Adjusts user_id account_id payload db free r p.0 p.1 found

  -- If every balance is the sum of its account's events and the key is new, then an adjustment that
  -- returns has set the balance to its target, and however the call ends every balance is still the
  -- sum of its account's events.
  pub create_balance_adjustment-Adjusts :
      Ensures
        (λ _ d. balance_of account_id d.accounts ≡ pos payload.target_balance)
        (create_balance_adjustment user_id account_id payload db)
      × Reconciles (create_balance_adjustment user_id account_id payload db).1
  unfolding create_balance_adjustment
  create_balance_adjustment-Adjusts = (
    Ensures-transaction (λ _ d. balance_of account_id d.accounts ≡ pos payload.target_balance)
        (adjust_block user_id account_id payload) db
        (Ensures-map (λ _ d. Adjusts account_id payload.target_balance d) _ _ adjust_block-Adjusts
          (λ _ d h. h.0)),
    in_transaction (adjust_block user_id account_id payload) db r (
        Ensures-map (λ _ d. Adjusts account_id payload.target_balance d) _ _ adjust_block-Adjusts
          (λ _ d h. h.1)),
  )

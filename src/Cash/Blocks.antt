-- ===== src/Cash/Blocks.antt =====
-- How the blocks of `create_income` and `create_expense` end.
use nexum_backend.Accounts.Repository.{update_balance}
use nexum_backend.Ledger.Balance.{Posts, signed}
use nexum_backend.Accounts.Effects.{Shifts, update_balance-Shifts}
use nexum_backend.Store.Tables.{find_account, balance_of, find_command, find_account-id}
use nexum_backend.Ledger.Effects.{add_event, Recorded, record_event-Recorded}
use nexum_backend.Prelude.Int.{ℤ, ◌+ℤ◌, pos, neg_ℤ, ltb_ℤ, ◌-ℤ◌}
use nexum_backend.Store.Ensures.{
  IsCheck, Ensures, Ensures-bind, check-then, Ensures-map, raise_if-IsCheck,
}
use nexum_backend.Store.Models.{Account, FinancialEvent, EventType, Direction}
use nexum_backend.Ledger.Insert.{LedgerEventCreate, LedgerEventResult, record_event}
use nexum_backend.Cash.Operations.{
  resolve_category_id, own_account, CashCreate, resolve_named, resolve_fallback, CashKind,
  CashResult, finish_income, current_balance, cash_result, created, finish_expense, cash_event,
}
use nexum_backend.Prelude.{
  inl, inr, ◌≡◌, false, none, some, ℕ, Option, Text, arith, ◌⊎◌, ap, ◌∙◌, if◌then◌else◌, ◌==◌,
  Option-cases, subst,
}
use nexum_backend.Store.Monad.{◌>>=◌, Db, gets, pure, Action, raise_if, insufficient_funds}

-- An operation that returned either posted its event or found the command's event.
abbrev pub CashDone : LedgerEventCreate → ℕ → ℤ → Db → CashResult → Db → Type 0
CashDone e k d db r db' =
    Posts e k d db db'
    ⊎ (db' ≡ db)
      × ((event : FinancialEvent) × (elim e.command_id [
        | none ↦ none
        | some c ↦ find_command c db.events
      ]
            ≡ some event))

own_account-IsCheck : (k u : ℕ) → IsCheck (own_account k u)
unfolding own_account
own_account-IsCheck k u = record { at = λ db. ground arith }

own_account-id :
    (k u : ℕ) (db : Db)
    → Ensures (λ a _. (find_account k db.accounts ≡ some a)) (own_account k u db)
unfolding own_account
own_account-id k u db = ground arith

resolve_named-pure : (k u : ℕ) (kind : CashKind) (db : Db) → (resolve_named k u kind db).1 ≡ db
unfolding resolve_named
resolve_named-pure k u kind db = ground arith

resolve_fallback-pure : (t : Text) (kind : CashKind) (db : Db) → (resolve_fallback t kind db).1 ≡ db
unfolding resolve_fallback
resolve_fallback-pure t kind db = ground arith

resolve_category_id-IsCheck :
    (o : Option ℕ) (u : ℕ) (t : Text) (kind : CashKind) → IsCheck (resolve_category_id o u t kind)
unfolding resolve_category_id
resolve_category_id-IsCheck (some k) u t kind = record { at = resolve_named-pure k u kind }
resolve_category_id-IsCheck none u t kind = record { at = resolve_fallback-pure t kind }

module _ (payload : CashCreate) (account : Account) (e : LedgerEventCreate) (db : Db) where
  Posts-Shifts :
      (d : ℤ) (d1 db' : Db)
      → d1 ≡ add_event e db
      → Shifts account.id d d1 db'
      → Posts e account.id d db db'
  Posts-Shifts d d1 db' e1 s = record {
    event = ap (λ (x : Db). x.events) s.rest ∙ ap (λ (x : Db). x.events) e1;
    balances = λ j.
        s.balances j
        ∙ ap (λ (x : Db). balance_of j x.accounts +ℤ (if account.id == j then d else pos 0)) e1;
    covered = s.covered;
  }

  income_new :
      (result : LedgerEventResult) (d1 : Db)
      → result.idempotent ≡ false
      → d1 ≡ add_event e db
      → Ensures (CashDone e account.id payload.amount db) (finish_income payload account result d1)
  unfolding finish_income
  income_new result d1 new e1 = rw new (
      Ensures-bind (λ _. Shifts account.id payload.amount d1)
        (CashDone e account.id payload.amount db) (update_balance account.id payload.amount)
        (λ _. gets (current_balance account.id) >>= λ balance.
          pure (cash_result payload result.event balance created))
        d1 (update_balance-Shifts account.id payload.amount d1)
        (λ _ db' s. inl (Posts-Shifts payload.amount d1 db' e1 s)))

  pub finish_income-CashDone :
      (result : LedgerEventResult) (d1 : Db)
      → Recorded e db result d1
      → Ensures (CashDone e account.id payload.amount db) (finish_income payload account result d1)
  unfolding finish_income
  finish_income-CashDone result d1 (inl new) = income_new result d1 new.0 new.2
  finish_income-CashDone result d1 (inr old) = rw old.0 (inr (old.1, (result.event, old.2)))

  -- The flow of an expense once its event is new.
  abbrev spend : LedgerEventResult → ℤ → Action CashResult
  spend result before =
      raise_if (ltb_ℤ (before -ℤ payload.amount) (pos 0)) insufficient_funds >>= λ _.
      update_balance account.id (neg_ℤ payload.amount) >>= λ _.
      gets (current_balance account.id) >>= λ balance.
      pure (cash_result payload result.event balance created)

  spend-CashDone :
      (result : LedgerEventResult) (before : ℤ) (d1 : Db)
      → d1 ≡ add_event e db
      → Ensures (CashDone e account.id (neg_ℤ payload.amount) db) (spend result before d1)
  spend-CashDone result before d1 e1 =
      check-then (Ensures (CashDone e account.id (neg_ℤ payload.amount) db))
        (raise_if (ltb_ℤ (before -ℤ payload.amount) (pos 0)) insufficient_funds)
        (λ _. update_balance account.id (neg_ℤ payload.amount) >>= λ _.
          gets (current_balance account.id) >>= λ balance.
          pure (cash_result payload result.event balance created))
        d1 (raise_if-IsCheck _ _) (λ _. tt)
        λ _ _.
          Ensures-bind (λ _. Shifts account.id (neg_ℤ payload.amount) d1)
            (CashDone e account.id (neg_ℤ payload.amount) db)
            (update_balance account.id (neg_ℤ payload.amount))
            (λ _. gets (current_balance account.id) >>= λ balance.
              pure (cash_result payload result.event balance created))
            d1 (update_balance-Shifts account.id (neg_ℤ payload.amount) d1)
            (λ _ db' s. inl (Posts-Shifts (neg_ℤ payload.amount) d1 db' e1 s))

  expense_new :
      (result : LedgerEventResult) (d1 : Db)
      → result.idempotent ≡ false
      → d1 ≡ add_event e db
      → Ensures
          (CashDone e account.id (neg_ℤ payload.amount) db)
          (finish_expense payload account result d1)
  unfolding finish_expense
  expense_new result d1 new e1 = elim (Option-cases account.balance) [
    | inl none_balance ↦ rw (new, none_balance) tt
    | inr (b, some_balance) ↦ rw (new, some_balance) (spend-CashDone result b d1 e1)
  ]

  pub finish_expense-CashDone :
      (result : LedgerEventResult) (d1 : Db)
      → Recorded e db result d1
      → Ensures
          (CashDone e account.id (neg_ℤ payload.amount) db)
          (finish_expense payload account result d1)
  finish_expense-CashDone result d1 (inl new) = expense_new result d1 new.0 new.2
  finish_expense-CashDone result d1 (inr old) =
      unfold finish_expense in rw old.0 (inr (old.1, (result.event, old.2)))

-- The end of a cash operation, for the account and the category that it chose.
abbrev pub CashOutcome : ℕ → CashCreate → ℕ → EventType → Direction → Db → CashResult → Db → Type 0
CashOutcome user_id payload command_id event_type direction db r db' =
    (account : Account) × (category_id : ℕ) × CashDone
      (cash_event user_id payload command_id event_type direction account category_id)
      payload.account_id (signed direction payload.amount) db r db'

module _ (user_id : ℕ) (payload : CashCreate) (command_id : ℕ) (event_type : EventType)
    (direction : Direction) (stable_key : Text) (kind : CashKind)
    (finish : CashCreate → Account → LedgerEventResult → Action CashResult)
    (finished : (account : Account) (e : LedgerEventCreate) (db : Db) (result : LedgerEventResult)
        (d1 : Db)
      → Recorded e db result d1
      → Ensures
          (CashDone e account.id (signed direction payload.amount) db)
          (finish payload account result d1)) where
  abbrev posting : Account → ℕ → Action CashResult
  posting account category_id =
      record_event (cash_event user_id payload command_id event_type direction account category_id)
      >>= finish payload account

  abbrev cash_block : Action CashResult
  cash_block = own_account payload.account_id user_id >>= λ account.
      resolve_category_id payload.category_id user_id stable_key kind >>= posting account

  posting-CashOutcome :
      (account : Account) (category_id : ℕ) (db : Db)
      → account.id ≡ payload.account_id
      → Ensures
          (CashOutcome user_id payload command_id event_type direction db)
          (posting account category_id db)
  posting-CashOutcome account category_id db same =
      let e = cash_event user_id payload command_id event_type direction account category_id in
      Ensures-bind (Recorded e db) (CashOutcome user_id payload command_id event_type direction db)
        (record_event e) (finish payload account) db (record_event-Recorded e db)
        λ result d1 recorded.
          Ensures-map (CashDone e account.id (signed direction payload.amount) db) _ _
            (finished account e db result d1 recorded)
            λ r db' done. (
              account,
              category_id,
              subst (λ k. CashDone e k (signed direction payload.amount) db r db') same done,
            )

  pub cash_block-CashOutcome :
      (db : Db)
      → Ensures (CashOutcome user_id payload command_id event_type direction db) (cash_block db)
  cash_block-CashOutcome db =
      check-then (Ensures (CashOutcome user_id payload command_id event_type direction db))
        (own_account payload.account_id user_id)
        (λ account.
          resolve_category_id payload.category_id user_id stable_key kind >>= posting account)
        db (own_account-IsCheck payload.account_id user_id) (λ _. tt)
        λ account found.
          check-then (Ensures (CashOutcome user_id payload command_id event_type direction db))
            (resolve_category_id payload.category_id user_id stable_key kind) (posting account) db
            (resolve_category_id-IsCheck payload.category_id user_id stable_key kind) (λ _. tt)
            λ category_id _. posting-CashOutcome account category_id db (
              find_account-id payload.account_id account db.accounts (
                subst (Ensures (λ a _. find_account payload.account_id db.accounts ≡ some a)) found
                  (own_account-id payload.account_id user_id db)))

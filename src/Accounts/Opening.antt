-- ===== src/Accounts/Opening.antt =====
-- What the commands on accounts do to the books.
use nexum_backend.Ledger.Effects.{add_event, Recorded, record_event-Recorded}
use nexum_backend.Store.Atomic.{transaction}
use nexum_backend.Ledger.Insert.{command_taken, LedgerEventCreate, LedgerEventResult, record_event}
use nexum_backend.Prelude.Int.{ℤ, ◌+ℤ◌, pos, +ℤ_comm, int_laws, ltb_ℤ}
use nexum_backend.Accounts.Repository.{get_by_id}
use nexum_backend.Store.Ensures.{
  IsCheck, Ensures, check-then, Ensures-always, transaction-IsAtomic, Ensures-transaction,
  Ensures-bind, raise_if-IsCheck,
}
use nexum_backend.Ledger.Balance.{Reconciles, ledger_sum}
use nexum_backend.Store.Models.{Account}
use nexum_backend.Store.Tables.{find_account, balance_of, shown, overflows}
use nexum_backend.Accounts.Service.{
  get_account_or_404, update_block, check_new_name, read_account, set_activity, Naming,
  set_available_balance, AccountCreate, AccountUpdate, set_account, account_row, set_active,
  apply_update, opening_event, archive_account, create_account, AccountRead, open_account,
  insert_account, create_block, restore_account, update_account, normalize_name, check_name_exists,
}
use nexum_backend.Store.Monad.{
  ◌>>=◌, ◌>>◌, Db, Action, Result, ok, err, raise_if, pure, value_error, account_duplicate, gets,
}
use nexum_backend.Prelude.{
  if◌then◌else◌, ◌==◌, ◌+◌, none, some, true, false, ℕ, ◌≡◌, Bool, Option, List, arith, Text,
  update?, ◌∷◌, refl, ◌∙◌, ap, [], subst, sym, Bool-cases, inl, inr, is_empty,
}

pub read_account-IsCheck : (u k : ℕ) → IsCheck (read_account u k)
unfolding read_account set_available_balance
read_account-IsCheck u k = record { at = λ db. ground arith }

get_account_or_404-IsCheck : (u k : ℕ) → IsCheck (get_account_or_404 u k)
unfolding get_account_or_404 get_by_id
get_account_or_404-IsCheck u k = record { at = λ db. ground arith }

check_new_name-IsCheck :
    (names : Naming) (u : ℕ) (a : Account) (o : Option Text) → IsCheck (check_new_name names u a o)
unfolding check_new_name
check_new_name-IsCheck names u a none = record { at = λ db. refl }
check_new_name-IsCheck names u a (some name) = record { at = λ db. ground arith }

-- A check at the end keeps what was reached before it.
pub Ensures-check :
    {A : Type 0} (P : Db → Type 0) (m : Action A) (db : Db)
    → IsCheck m
    → P db
    → Ensures (λ _ db'. P db') (m db)
Ensures-check {A} P m db check h = by_end (m db) (check.at db)
  where
    by_end : (p : Result A × Db) → p.1 ≡ db → Ensures (λ _ db'. P db') p
    by_end (ok a, db') e = subst P (sym e) h
    by_end (err x, db') e = tt

-- A change of an account that keeps its id and its balance.
pub record IsRelabel (f : Account → Account) : Type 0 where
  pub id : (a : Account) → (f a).id ≡ a.id
  pub balance : (a : Account) → (f a).balance ≡ a.balance

balance_of-update :
    (f : Account → Account)
    → IsRelabel f
    → (j k : ℕ) (rows : List Account)
    → balance_of j (update? (λ a. a.id == k) f rows) ≡ balance_of j rows
unfolding find_account
balance_of-update f h j k [] = refl
balance_of-update f h j k (a ∷ rows) =
    ground (arith, h.id a, h.balance a, balance_of-update f h j k rows)

Reconciles-set :
    (f : Account → Account)
    → IsRelabel f
    → (k : ℕ) (db : Db) → Reconciles db
    → Reconciles (record db { accounts = update? (λ a. a.id == k) f db.accounts })
Reconciles-set f h k db r = record { at = λ j. balance_of-update f h j k db.accounts ∙ r.at j }

set_and_read :
    (u k : ℕ) (f : Account → Account) (db : Db)
    → IsRelabel f
    → Reconciles db
    → Ensures (λ _ db'. Reconciles db') ((set_account k f >> read_account u k) db)
set_and_read u k f db h r =
    Ensures-check Reconciles (read_account u k) _ (read_account-IsCheck u k)
      (Reconciles-set f h k db r)

set_activity-Reconciles :
    (active : Bool) (u k : ℕ) (db : Db)
    → Reconciles db
    → Ensures (λ _ db'. Reconciles db') (set_activity active u k db)
unfolding set_activity
set_activity-Reconciles active u k db r =
    check-then (Ensures (λ _ db'. Reconciles db')) (get_account_or_404 u k)
      (λ _. set_account k (set_active active) >> read_account u k) db
      (get_account_or_404-IsCheck u k) (λ _. tt)
      λ _ _.
        set_and_read u k (set_active active) db (record { id = λ a. refl; balance = λ a. refl }) r

update_block-Reconciles :
    (names : Naming) (u k : ℕ) (payload : AccountUpdate) (db : Db)
    → Reconciles db
    → Ensures (λ _ db'. Reconciles db') (update_block names u k payload db)
unfolding update_block
update_block-Reconciles names u k payload db r =
    check-then (Ensures (λ _ db'. Reconciles db')) (get_account_or_404 u k)
      (λ account.
        check_new_name names u account payload.name
        >> (set_account k (apply_update names payload) >> read_account u k))
      db (get_account_or_404-IsCheck u k) (λ _. tt)
      λ account _.
        check-then (Ensures (λ _ db'. Reconciles db')) (check_new_name names u account payload.name)
          (λ _. set_account k (apply_update names payload) >> read_account u k) db
          (check_new_name-IsCheck names u account payload.name) (λ _. tt)
          λ _ _.
            set_and_read u k (apply_update names payload) db
              (record { id = λ a. refl; balance = λ a. refl }) r

pub in_transaction :
    {A : Type 0} (m : Action A) (db : Db)
    → Reconciles db
    → Ensures (λ _ db'. Reconciles db') (m db)
    → Reconciles (transaction m db).1
in_transaction m db r h =
    Ensures-always Reconciles db (transaction m db) r (transaction-IsAtomic m db)
      (Ensures-transaction (λ _ db'. Reconciles db') m db h)

plus_zero : (v : ℤ) → v ≡ pos 0 +ℤ v
plus_zero v = omega int_laws

balance_of-new :
    (j : ℕ) (row : Account) (v : ℤ) (rows : List Account)
    → find_account row.id rows ≡ none
    → row.balance ≡ some v
    → balance_of j (row ∷ rows) ≡ balance_of j rows +ℤ (if row.id == j then v else pos 0)
unfolding find_account
balance_of-new j row v rows fresh hv = elim (Bool-cases (row.id == j)) [
  | inl e ↦
      (let same : row.id ≡ j = ground (arith, e) in
        let zero_before : balance_of j rows ≡ pos 0 =
          ap shown (subst (λ k. find_account k rows ≡ none) same fresh) in
        let now_shown : shown (some row) ≡ v =
          ap (λ (o : Option ℤ). elim o as (λ _. ℤ) [ none ↦ pos 0 | some x ↦ x ]) hv in
        rw e (now_shown ∙ plus_zero v ∙ ap (λ b. b +ℤ v) (sym zero_before)))
  | inr e ↦ rw e (omega int_laws)
]

nothing_added :
    (b v : ℤ) (here : Bool)
    → ltb_ℤ v (pos 0) ≡ false
    → ltb_ℤ (pos 0) v ≡ false
    → b +ℤ (if here then v else pos 0) ≡ b
nothing_added b v true low high =
    (let nothing : v ≡ pos 0 = ground (arith, low, high) in rw nothing (omega int_laws))
nothing_added b v false low high = omega int_laws

module _ (names : Naming) (user_id : ℕ) (payload : AccountCreate) (command_id : ℕ) (db : Db)
    (fresh : find_account db.next_id db.accounts ≡ none)
    (free : command_taken (some command_id) db ≡ false) (r : Reconciles db) where
  abbrev inserted : Db
  inserted = record db {
    accounts = account_row names user_id payload db.next_id ∷ db.accounts;
    next_id = db.next_id + 1;
  }

  abbrev opening : LedgerEventCreate
  opening = opening_event user_id payload db.next_id command_id

  opened-Reconciles : Reconciles (add_event opening inserted)
  opened-Reconciles = record {
    at = λ j.
        balance_of-new j (account_row names user_id payload db.next_id) payload.initial_balance
          db.accounts fresh refl
        ∙ ap (λ b. b +ℤ (if db.next_id == j then payload.initial_balance else pos 0)) (r.at j)
        ∙ +ℤ_comm _ _;
  }

  unopened-Reconciles :
      ltb_ℤ payload.initial_balance (pos 0) ≡ false
      → ltb_ℤ (pos 0) payload.initial_balance ≡ false
      → Reconciles inserted
  unopened-Reconciles low high = record {
    at = λ j.
        balance_of-new j (account_row names user_id payload db.next_id) payload.initial_balance
          db.accounts fresh refl
        ∙ ap (λ b. b +ℤ (if db.next_id == j then payload.initial_balance else pos 0)) (r.at j)
        ∙ nothing_added (ledger_sum j db.events) payload.initial_balance (db.next_id == j) low high;
  }

  after_record-Reconciles :
      (result : LedgerEventResult) (d : Db) → Recorded opening inserted result d → Reconciles d
  after_record-Reconciles result d (inl new) = subst Reconciles (sym new.2) opened-Reconciles
  after_record-Reconciles result d (inr old) = ground (arith, old.2, free)

  abbrev opens : Bool → Action (Unit {0})
  opens positive = elim positive [ true ↦ record_event opening >> pure tt | false ↦ pure tt ]

  opens-Reconciles :
      (positive : Bool)
      → ltb_ℤ (pos 0) payload.initial_balance ≡ positive
      → ltb_ℤ payload.initial_balance (pos 0) ≡ false
      → Ensures (λ _ d. Reconciles d) (opens positive inserted)
  opens-Reconciles true e low =
      Ensures-bind (Recorded opening inserted) (λ _ d. Reconciles d) (record_event opening)
        (λ _. pure tt) inserted (record_event-Recorded opening inserted) after_record-Reconciles
  opens-Reconciles false e low = unopened-Reconciles low e

  open_account-Reconciles :
      ltb_ℤ payload.initial_balance (pos 0) ≡ false
      → Ensures (λ _ d. Reconciles d) (open_account user_id payload db.next_id command_id inserted)
  unfolding open_account
  open_account-Reconciles low = opens-Reconciles (ltb_ℤ (pos 0) payload.initial_balance) refl low

  abbrev after_insert : ℕ → Action AccountRead
  after_insert account_id =
      open_account user_id payload account_id command_id >> read_account user_id account_id

  abbrev insert_step : Action AccountRead
  insert_step =
      insert_account (account_row names user_id payload) payload.initial_balance >>= after_insert

  after_insert-Reconciles :
      ltb_ℤ payload.initial_balance (pos 0) ≡ false
      → Ensures (λ _ d. Reconciles d) (after_insert db.next_id inserted)
  after_insert-Reconciles low =
      Ensures-bind (λ _ d. Reconciles d) (λ _ d. Reconciles d)
        (open_account user_id payload db.next_id command_id) (λ _. read_account user_id db.next_id)
        inserted (open_account-Reconciles low)
        λ _ d h.
          Ensures-check Reconciles (read_account user_id db.next_id) d
            (read_account-IsCheck user_id db.next_id) h

  insert_step-Reconciles : Ensures (λ _ d. Reconciles d) (insert_step db)
  unfolding insert_account
  insert_step-Reconciles = elim (Bool-cases (overflows payload.initial_balance)) [
    | inl o ↦ rw o tt
    | inr o ↦ elim (Bool-cases (ltb_ℤ payload.initial_balance (pos 0))) [
      | inl e ↦ rw (o, e) tt
      | inr e ↦ rw (o, e) (after_insert-Reconciles e)
    ]
  ]

  create_block-Reconciles :
      Ensures (λ _ d. Reconciles d) (create_block names user_id payload command_id db)
  unfolding create_block
  create_block-Reconciles =
      check-then (Ensures (λ _ d. Reconciles d))
        (raise_if (is_empty (normalize_name names payload.name)) value_error)
        (λ _.
          gets (check_name_exists names user_id (normalize_name names payload.name)) >>= λ exists.
          raise_if exists account_duplicate >> insert_step)
        db (raise_if-IsCheck _ _) (λ _. tt)
        λ _ _.
          check-then (Ensures (λ _ d. Reconciles d))
            (raise_if (check_name_exists names user_id (normalize_name names payload.name) db)
              account_duplicate)
            (λ _. insert_step) db (raise_if-IsCheck _ _) (λ _. tt) λ _ _. insert_step-Reconciles

  -- If every balance is the sum of its account's events, then it still is once an account was opened,
  -- however the call ends, where the id of the account and the command of its event are new.
  pub create_account-Reconciles : Reconciles (create_account names user_id payload command_id db).1
  unfolding create_account
  create_account-Reconciles =
      in_transaction (create_block names user_id payload command_id) db r create_block-Reconciles

-- Archiving, restoring and updating an account keep every balance the sum of its account's events.
pub set_account-Reconciles :
    (names : Naming) (user_id account_id : ℕ) (payload : AccountUpdate) (db : Db)
    → Reconciles db
    → Reconciles (archive_account user_id account_id db).1
      × Reconciles (restore_account user_id account_id db).1
      × Reconciles (update_account names user_id account_id payload db).1
unfolding archive_account restore_account update_account
set_account-Reconciles names user_id account_id payload db r = (
  in_transaction (set_activity false user_id account_id) db r
      (set_activity-Reconciles false user_id account_id db r),
  in_transaction (set_activity true user_id account_id) db r
      (set_activity-Reconciles true user_id account_id db r),
  in_transaction (update_block names user_id account_id payload) db r
      (update_block-Reconciles names user_id account_id payload db r),
)

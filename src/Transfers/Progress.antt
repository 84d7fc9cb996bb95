-- ===== src/Transfers/Progress.antt =====
-- A transfer that meets the guards goes through.
use nexum_backend.Accounts.Effects.{update_balance_found}
use nexum_backend.Transfers.Guards.{lock_accounts_lem}
use nexum_backend.Store.Ensures.{bind_ok, transaction_ok}
use nexum_backend.Accounts.Repository.{update_balance}
use nexum_backend.Transfers.Outcome.{add_transfer}
use nexum_backend.Transfers.Create.{
  insert_transfer, check_accounts, out_event, in_event, convert, check_roles, transfer_row,
  lock_accounts, create_transfer, settle_balances, settle, transfer_block, transfer_between,
  TransferResult, finish_transfer, transfer_unless,
}
use nexum_backend.Ledger.Effects.{add_event}
use nexum_backend.Store.Tables.{
  find_transfer_command, find_account, set_balance, find_account-set_balance, find_account-id,
  numeric_limit, overflows,
}
use nexum_backend.Prelude.Int.{ℤ, pos, ◌<ℤ◌, ◌≤ℤ◌, ◌+ℤ◌, ltb_ℤ, leb_ℤ, neg_ℤ, int_laws}
use nexum_backend.Store.Monad.{Db, ok, ◌>>=◌, pure, gets}
use nexum_backend.Store.Models.{Account, Transfer}
use nexum_backend.Transfers.Fx.{TransferCreate, Conversion, convert_same}
use nexum_backend.Ledger.Insert.{record_event, insert_event, LedgerEventCreate, event_row}
use nexum_backend.Prelude.{
  ◌≡◌, true, false, none, some, ℕ, ◌≢◌, length, ◌<◌, arith, text_eq_iff, ◌∙◌, refl, List, ◌==◌, sym,
  subst,
}

-- The conditions of a transfer within one currency.
pub record IsPayable (user_id : ℕ) (payload : TransferCreate) (source dest : Account) (b c : ℤ)
    (db : Db) : Type 0 where
  pub distinct : payload.source_account_id ≢ payload.destination_account_id
  pub fresh : find_transfer_command payload.command_id db.transfers ≡ none
  pub source_found : find_account payload.source_account_id db.accounts ≡ some source
  pub dest_found : find_account payload.destination_account_id db.accounts ≡ some dest
  pub source_owned : source.user_id ≡ some user_id
  pub dest_owned : dest.user_id ≡ some user_id
  pub source_active : source.is_active ≡ true
  pub dest_active : dest.is_active ≡ true
  pub source_balance : source.balance ≡ some b
  pub dest_balance : dest.balance ≡ some c
  pub dest_nonneg : pos 0 ≤ℤ c
  pub funded : pos payload.amount ≤ℤ b
  pub source_stored : b <ℤ numeric_limit
  pub room : c +ℤ pos payload.amount <ℤ numeric_limit
  pub positive : 0 < payload.amount
  pub in_range : payload.amount < 100000000000000
  pub same_currency : source.currency ≡ dest.currency
  pub iso_code : length source.currency ≡ 3
  pub no_snapshot : payload.rate_snapshot_id ≡ none

-- A valid event of an owned account, with no command id, is recorded.
record_event_ok :
    (e : LedgerEventCreate) (k : ℕ) (a : Account) (db : Db)
    → pos 0 <ℤ e.amount
    → e.amount <ℤ numeric_limit
    → length e.currency ≡ 3
    → e.account_id ≡ some k
    → e.category_id ≡ none
    → e.command_id ≡ none
    → find_account k db.accounts ≡ some a
    → a.user_id ≡ some e.user_id
    → record_event e db
      ≡ (ok (record { event = event_row e db; idempotent = false }), add_event e db)
unfolding record_event insert_event
record_event_ok e k a db h1 h2 h3 h4 h5 h6 h7 h8 = ground arith

own_row :
    (k : ℕ) (a : Account) (rows : List Account)
    → find_account k rows ≡ some a
    → find_account a.id rows ≡ some a
own_row k a rows h = subst (λ j. find_account j rows ≡ some a) (sym (find_account-id k a rows h)) h

abbrev same_fx : TransferCreate → Account → Conversion
same_fx payload source = record {
  target_currency = source.currency;
  target_amount = pos payload.amount;
  fx_rate = none;
  rate_source = none;
  rate_timestamp = none;
  rate_snapshot_id = none;
}

distinct_test : (a b : ℕ) → a ≢ b → (a == b) ≡ false
distinct_test a b h = ground arith

nonneg_test : (z : ℤ) → pos 0 ≤ℤ z → ltb_ℤ z (pos 0) ≡ false
nonneg_test z h = ground arith

held_test : (z : ℤ) → pos 0 ≤ℤ z → z <ℤ numeric_limit → overflows z ≡ false
held_test z h room = ground (arith, h, room)

below_limit : (n : ℕ) → n < 100000000000000 → leb_ℤ numeric_limit (pos n) ≡ false
below_limit n h = ground arith

-- An account that can take a movement is updated.
update_balance_ok :
    (k : ℕ) (d b : ℤ) (a : Account) (db : Db)
    → find_account k db.accounts ≡ some a
    → a.balance ≡ some b
    → pos 0 ≤ℤ b +ℤ d
    → b +ℤ d <ℤ numeric_limit
    → update_balance k d db
      ≡ (ok tt, record db { accounts = set_balance k (some (b +ℤ d)) db.accounts })
update_balance_ok k d b a db found hb h room =
    rw (update_balance_found k d db a found b hb)
      (rw (held_test (b +ℤ d) h room, nonneg_test (b +ℤ d) h) refl)

module _ (user_id : ℕ) (payload : TransferCreate) (source dest : Account) (b c : ℤ) (db : Db)
    (h : IsPayable user_id payload source dest b c db) where
  check_roles_ok :
      check_roles user_id payload (some source) (some dest) db ≡ (ok (source, dest), db)
  unfolding check_roles
  check_roles_ok = ground arith

  check_accounts_ok : check_accounts user_id payload db ≡ (ok (source, dest), db)
  unfolding check_accounts
  check_accounts_ok =
      bind_ok (lock_accounts payload) (λ p. check_roles user_id payload p.0 p.1) db _ db
        (lock_accounts_lem payload db)
      ∙ rw (h.source_found, h.dest_found) check_roles_ok

  convert_ok : convert payload source dest db ≡ (ok (same_fx payload source), db)
  unfolding convert convert_same
  convert_ok =
      rw ((text_eq_iff source.currency dest.currency).1 h.same_currency, h.no_snapshot) refl

  abbrev row : Transfer
  row = transfer_row user_id payload source (same_fx payload source) db

  insert_ok : insert_transfer row db ≡ (ok (row, true), add_transfer row db)
  unfolding insert_transfer
  insert_ok = ground (arith, h.fresh, h.in_range)

  abbrev out_event' : LedgerEventCreate
  out_event' = out_event user_id payload source row

  abbrev in_event' : LedgerEventCreate
  in_event' = in_event user_id payload dest (same_fx payload source) row

  abbrev d1 : Db
  d1 = add_transfer row db

  abbrev d3 : Db
  d3 = add_event in_event' (add_event out_event' d1)

  events_ok :
      (record_event out_event' d1 ≡ (
        ok (record { event = event_row out_event' d1; idempotent = false }),
        add_event out_event' d1,
      ))
      × (record_event in_event' (add_event out_event' d1) ≡ (
        ok (record { event = event_row in_event' (add_event out_event' d1); idempotent = false }),
        d3,
      ))
  events_ok = (
    record_event_ok out_event' source.id source d1 (omega (arith, h.positive))
        (omega (arith, h.in_range)) h.iso_code refl refl refl
        (own_row payload.source_account_id source db.accounts h.source_found) h.source_owned,
    record_event_ok in_event' dest.id dest (add_event out_event' d1) (omega (arith, h.positive))
        (omega (arith, h.in_range)) h.iso_code refl refl refl
        (own_row payload.destination_account_id dest db.accounts h.dest_found) h.dest_owned,
  )

  abbrev d4 : Db
  d4 = record d3 {
    accounts = set_balance source.id (some (b +ℤ neg_ℤ (pos payload.amount))) d3.accounts;
  }

  abbrev d5 : Db
  d5 = record d4 { accounts = set_balance dest.id (some (c +ℤ pos payload.amount)) d4.accounts }

  ids_differ : dest.id ≢ source.id
  ids_differ e = h.distinct (
      sym (find_account-id _ source db.accounts h.source_found)
      ∙ sym e
      ∙ find_account-id _ dest db.accounts h.dest_found)

  dest_untouched : find_account dest.id d4.accounts ≡ some dest
  dest_untouched =
      rw
        (find_account-set_balance dest.id source.id (some (b +ℤ neg_ℤ (pos payload.amount)))
          db.accounts)
        (ground
          (arith, ids_differ, own_row payload.destination_account_id dest db.accounts h.dest_found))

  abbrev event_ids : ℕ × ℕ
  event_ids = ((event_row out_event' d1).id, (event_row in_event' (add_event out_event' d1)).id)

  abbrev done : TransferResult
  done = record { transfer = row; is_idempotent = false; ledger_events = some event_ids }

  balances_ok :
      settle_balances payload source dest (same_fx payload source) row event_ids d3 ≡ (ok done, d5)
  unfolding settle_balances
  balances_ok =
      bind_ok (update_balance source.id (neg_ℤ (pos payload.amount)))
        (λ _. update_balance dest.id (pos payload.amount) >>= λ _. pure done) d3 tt d4
        (update_balance_ok source.id (neg_ℤ (pos payload.amount)) b source d3
          (own_row payload.source_account_id source db.accounts h.source_found) h.source_balance
          (omega (int_laws, h.funded)) (omega (int_laws, h.source_stored)))
      ∙ bind_ok (update_balance dest.id (pos payload.amount)) (λ _. pure done) d4 tt d5
          (update_balance_ok dest.id (pos payload.amount) c dest d4 dest_untouched h.dest_balance
            (omega (int_laws, h.dest_nonneg)) h.room)

  settle_ok : settle user_id payload source dest (same_fx payload source) row d1 ≡ (ok done, d5)
  unfolding settle
  settle_ok =
      bind_ok (record_event out_event')
        (λ o. record_event in_event' >>= λ i.
          settle_balances payload source dest (same_fx payload source) row (o.event.id, i.event.id))
        d1 _ _ events_ok.0
      ∙ bind_ok (record_event in_event')
          (λ i.
            settle_balances payload source dest (same_fx payload source) row
              ((event_row out_event' d1).id, i.event.id))
          (add_event out_event' d1) _ _ events_ok.1
      ∙ balances_ok

  between_ok : transfer_between user_id payload source dest db ≡ (ok done, d5)
  unfolding transfer_between finish_transfer
  between_ok =
      bind_ok (convert payload source dest)
        (λ fx. gets (transfer_row user_id payload source fx) >>= λ t.
          insert_transfer t >>= λ saved. finish_transfer user_id payload source dest fx saved)
        db _ db convert_ok
      ∙ bind_ok (insert_transfer row)
          (finish_transfer user_id payload source dest (same_fx payload source)) db _ d1 insert_ok
      ∙ settle_ok

  block_ok : transfer_block user_id payload db ≡ (ok done, d5)
  unfolding transfer_block
  block_ok =
      bind_ok (check_accounts user_id payload) (λ p. transfer_between user_id payload p.0 p.1) db _
        db check_accounts_ok
      ∙ between_ok

  transfer_ok : create_transfer user_id payload db ≡ (ok done, d5)
  unfolding create_transfer transfer_unless
  transfer_ok =
      rw (distinct_test _ _ h.distinct, h.fresh)
        (transaction_ok (transfer_block user_id payload) db done d5 block_ok)

  -- A transfer within one currency, of three characters, and without a rate snapshot is made, if the
  -- two accounts are distinct, found, owned and active and have balances, if the destination's is
  -- not negative and the source's covers the amount, which is positive and below the column's
  -- limit, if the source's balance and what the destination's becomes are below that limit too, and
  -- if the command is new: the call returns a result that is no replay, with the
  -- payload's command and with the same amount on both sides.
  pub create_transfer_succeeds :
      (r : TransferResult) × (db' : Db) × (create_transfer user_id payload db ≡ (ok r, db'))
      × (r.is_idempotent ≡ false)
      × (r.transfer.command_id ≡ payload.command_id)
      × (r.transfer.target_amount ≡ some (pos payload.amount))
  create_transfer_succeeds = (done, d5, transfer_ok, refl, refl, refl)

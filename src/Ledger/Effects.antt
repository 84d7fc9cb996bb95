-- ===== src/Ledger/Effects.antt =====
-- What `insert_event` does to the tables.
use nexum_backend.Store.Ensures.{check-then, IsCheck, Ensures, Ensures-bind}
use nexum_backend.Prelude.{
  refl, ◌+◌, ◌≡◌, ◌⊎◌, true, false, none, some, ◌∷◌, arith, inl, inr, subst, sym, subst₂,
}
use nexum_backend.Store.Monad.{Db, Result, ok, err}
use nexum_backend.Store.Tables.{find_command}
use nexum_backend.Ledger.Insert.{
  LedgerEventCreate, LedgerEventResult, event_row, command_taken, insert_event, write_event,
  check_owners, event_create, record_event,
}

-- The tables with the row of `e` added.
abbrev pub add_event : LedgerEventCreate → Db → Db
add_event e db = record db { events = event_row e db ∷ db.events; next_id = db.next_id + 1 }

-- How an insert ends: a new row, the row of an earlier command, or an error; the last two write
-- nothing.
abbrev pub Inserts : LedgerEventCreate → Db → Result LedgerEventResult × Db → Type 0
Inserts e db (ok r, db') =
    (r.idempotent ≡ false)
      × (r.event ≡ event_row e db)
      × (db' ≡ add_event e db)
      × (command_taken e.command_id db ≡ false)
    ⊎ (r.idempotent ≡ true)
      × (db' ≡ db)
      × (elim e.command_id [ none ↦ none | some k ↦ find_command k db.events ] ≡ some r.event)
Inserts e db (err x, db') = db' ≡ db

-- Checking who owns a row writes nothing.
pub check_owners-IsCheck : (e : LedgerEventCreate) → IsCheck (check_owners e)
unfolding check_owners
check_owners-IsCheck e = record { at = λ db. ground arith }

write_event-Inserts : (e : LedgerEventCreate) (db : Db) → Inserts e db (write_event e db)
unfolding write_event
write_event-Inserts e db = ground arith

-- `insert_event` adds the one row of its payload if the command id is free, returns the row of the
-- command id and writes nothing if it is taken, and writes nothing if it raises.
pub insert_event-Inserts : (e : LedgerEventCreate) (db : Db) → Inserts e db (insert_event e db)
unfolding insert_event
insert_event-Inserts e db =
    check-then (Inserts e db) (check_owners e) (λ _. write_event e) db (check_owners-IsCheck e)
      (λ x. refl) (λ _ _. write_event-Inserts e db)

-- Validation passes the payload on.
pub event_create-same :
    (e : LedgerEventCreate) (db : Db)
    → Ensures (λ e' db'. (e' ≡ e) × (db' ≡ db)) (event_create e db)
unfolding event_create
event_create-same e db = ground arith

-- With no command id an insert that returns has added its row.
pub insert_event-new :
    (e : LedgerEventCreate) (db : Db)
    → e.command_id ≡ none
    → Ensures (λ r db'. (r.event ≡ event_row e db) × (db' ≡ add_event e db)) (insert_event e db)
insert_event-new e db h = go (insert_event e db) (insert_event-Inserts e db)
  where
    go :
        (p : Result LedgerEventResult × Db)
        → Inserts e db p
        → Ensures (λ r db'. (r.event ≡ event_row e db) × (db' ≡ add_event e db)) p
    go (ok r, db') (inl new) = (new.1, new.2)
    go (ok r, db') (inr old) = ground (arith, old.2)
    go (err x, db') i = tt

-- A recorded event without a command id is a new row.
pub record_event-new :
    (e : LedgerEventCreate) (db : Db)
    → e.command_id ≡ none
    → Ensures (λ r db'. (r.event ≡ event_row e db) × (db' ≡ add_event e db)) (record_event e db)
unfolding record_event
record_event-new e db h =
    Ensures-bind (λ e' db'. (e' ≡ e) × (db' ≡ db)) _ (event_create e) insert_event db
      (event_create-same e db)
      λ e' db' same.
        subst
          (λ d.
            Ensures (λ r db''. (r.event ≡ event_row e db) × (db'' ≡ add_event e db))
              (insert_event e' d))
          (sym same.1)
          (subst
            (λ x.
              Ensures (λ r db''. (r.event ≡ event_row e db) × (db'' ≡ add_event e db))
                (insert_event x db))
            (sym same.0) (insert_event-new e db h))

-- How a recorded event ends: its row is new, or the command's row was there.
abbrev pub Recorded : LedgerEventCreate → Db → LedgerEventResult → Db → Type 0
Recorded e db r db' =
    (r.idempotent ≡ false)
      × (r.event ≡ event_row e db)
      × (db' ≡ add_event e db)
      × (command_taken e.command_id db ≡ false)
    ⊎ (r.idempotent ≡ true)
      × (db' ≡ db)
      × (elim e.command_id [ none ↦ none | some k ↦ find_command k db.events ] ≡ some r.event)

insert_event-Recorded :
    (e : LedgerEventCreate) (db : Db) → Ensures (Recorded e db) (insert_event e db)
insert_event-Recorded e db = go (insert_event e db) (insert_event-Inserts e db)
  where
    go : (p : Result LedgerEventResult × Db) → Inserts e db p → Ensures (Recorded e db) p
    go (ok r, db') i = i
    go (err x, db') i = tt

pub record_event-Recorded :
    (e : LedgerEventCreate) (db : Db) → Ensures (Recorded e db) (record_event e db)
unfolding record_event
record_event-Recorded e db =
    Ensures-bind (λ e' db'. (e' ≡ e) × (db' ≡ db)) (Recorded e db) (event_create e) insert_event db
      (event_create-same e db)
      λ e' db' same.
        subst₂ (λ x d. Ensures (Recorded e db) (insert_event x d)) (sym same.0) (sym same.1)
          (insert_event-Recorded e db)

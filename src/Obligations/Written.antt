-- ===== src/Obligations/Written.antt =====
-- What the writes of a payment leave in the tables.
use nexum_backend.Obligations.Payments.{period_with, paid_so_far}
use nexum_backend.Prelude.Int.{ℤ, pos}
use nexum_backend.Obligations.Resync.{marked, Resynced, sync_periods-Resynced}
use nexum_backend.Obligations.Synced.{Appends, IsNew}
use nexum_backend.Obligations.Sync.{sync_periods}
use nexum_backend.Store.Ensures.{Ensures, Ensures-map, Ensures-bind, check-then, IsCheck}
use nexum_backend.Calendar.{Date, date_ltb}
use nexum_backend.Store.Obligations.{
  Obligation, ObligationPeriod, ObligationStatus, completed, archived, PeriodStatus,
  pending_payment, partially_paid,
}
use nexum_backend.Obligations.Lifecycle.{
  evaluate_lifecycle, evaluate_active, refresh_overdue_periods, own_obligation, is_done,
  complete_when, has_id,
}
use nexum_backend.Obligations.Status.{refresh_overdue, is_closed, is_late, is_unpaid}
use nexum_backend.Store.Monad.{◌>>=◌, ◌>>◌, Db, Action, Result, pure, lift, ok, err}
use nexum_backend.Prelude.{
  ◌&&◌, none, some, true, false, ◌==◌, ◌++◌, ℕ, ◌≡◌, ◌∙◌, List, ap, All, ◌∷◌, arith, refl, find?,
  [], sym, Bool, where_, Option, find?-append, Bool-cases, inl, inr,
}

-- What a period is paid, zero for one that is not there.
abbrev pub paid_of : ℕ → List ObligationPeriod → ℤ
paid_of k rows = elim (find? (period_with k) rows) [ none ↦ pos 0 | some p ↦ paid_so_far p ]

-- Only obligations and periods were written, no period is paid more or less, and a closed period
-- stays as it is.
pub record Refreshes (db db' : Db) : Type 0 where
  pub paid : (k : ℕ) → paid_of k db'.obligation_periods ≡ paid_of k db.obligation_periods
  pub closed :
      (k : ℕ) (p : ObligationPeriod)
      → is_closed p.status ≡ true
      → find? (period_with k) db.obligation_periods ≡ some p
      → find? (period_with k) db'.obligation_periods ≡ some p
  pub same : db' ≡ record db {
    obligations = db'.obligations;
    obligation_periods = db'.obligation_periods;
    next_id = db'.next_id;
  }

pub Refreshes-refl : (db : Db) → Refreshes db db
Refreshes-refl db = record { paid = λ k. refl; closed = λ k p c f. f; same = refl }

pub Refreshes-trans : (a b c : Db) → Refreshes a b → Refreshes b c → Refreshes a c
Refreshes-trans a b c p q = record {
  paid = λ k. q.paid k ∙ p.paid k;
  closed = λ k r h f. q.closed k r h (p.closed k r h f);
  same =
      q.same
      ∙ ap
          (λ (d : Db). record d {
            obligations = c.obligations;
            obligation_periods = c.obligation_periods;
            next_id = c.next_id;
          })
          p.same;
}

paid_of-refresh :
    (j k : ℕ) (current : Date) (rows : List ObligationPeriod)
    → paid_of j (refresh_overdue k current rows) ≡ paid_of j rows
unfolding refresh_overdue
paid_of-refresh j k current [] = refl
paid_of-refresh j k current (p ∷ rows) = ground (arith, paid_of-refresh j k current rows)

closed_late :
    (k : ℕ) (current : Date) (p : ObligationPeriod)
    → is_closed p.status ≡ true
    → is_late k current p ≡ false
closed_late k current p c = by_status p.status c
  where
    by_status :
        (s : PeriodStatus)
        → is_closed s ≡ true
        → (p.obligation_id == k && is_unpaid s && date_ltb p.due_date current) ≡ false
    by_status pending_payment h = ground (arith, h)
    by_status partially_paid h = ground (arith, h)
    by_status _ h = ground arith

closed-refresh :
    (j k : ℕ) (current : Date) (p : ObligationPeriod) (rows : List ObligationPeriod)
    → is_closed p.status ≡ true
    → find? (period_with j) rows ≡ some p
    → find? (period_with j) (refresh_overdue k current rows) ≡ some p
unfolding refresh_overdue
closed-refresh j k current p [] c f = f
closed-refresh j k current p (q ∷ rows) c f = elim (Bool-cases (q.id == j)) [
  | inl e ↦
      (let same : q ≡ p = ground (arith, e, f) in
        let late : is_late k current q ≡ false =
          closed_late k current q (ap (λ (r : ObligationPeriod). is_closed r.status) same ∙ c) in
        rw (late, e) (ap some same))
  | inr e ↦ ground (arith, e, f, closed-refresh j k current p rows c)
]

paid_of-added :
    (j : ℕ) (ob : Obligation) (current : Date) (rows added : List ObligationPeriod)
    → All (IsNew ob current) added
    → paid_of j (rows ++ added) ≡ paid_of j rows
paid_of-added j ob current [] [] h = refl
paid_of-added j ob current [] (p ∷ added) h =
    ground (arith, h.0.1, paid_of-added j ob current [] added h.1)
paid_of-added j ob current (p ∷ rows) added h =
    ground (arith, paid_of-added j ob current rows added h)

marked-Refreshes :
    (ob : Obligation) (current : Date) (status : ObligationStatus) (db : Db)
    → Refreshes db (marked ob current status db)
marked-Refreshes ob current ObligationStatus.active db = record {
  paid = λ k. paid_of-refresh k ob.id current db.obligation_periods;
  closed = λ k p c f. closed-refresh k ob.id current p db.obligation_periods c f;
  same = refl;
}
marked-Refreshes ob current completed db = Refreshes-refl db
marked-Refreshes ob current archived db = Refreshes-refl db
marked-Refreshes ob current ObligationStatus.cancelled db = Refreshes-refl db

Appends-Refreshes :
    (ob : Obligation) (current : Date) (a b : Db) → Appends ob current a b → Refreshes a b
Appends-Refreshes ob current a b h = record {
  paid = λ k.
      ap (λ (d : Db). paid_of k d.obligation_periods) h.same
      ∙ paid_of-added k ob current a.obligation_periods h.added h.are_new;
  closed = λ k p c f.
      ap (λ (d : Db). find? (period_with k) d.obligation_periods) h.same
      ∙ find?-append (period_with k) a.obligation_periods h.added p f;
  same =
      h.same
      ∙ sym (
          ap
            (λ (d : Db). record a {
              obligations = d.obligations;
              obligation_periods = d.obligation_periods;
              next_id = d.next_id;
            })
            h.same);
}

pub sync-Refreshes :
    (ob : Obligation) (current : Date) (db : Db)
    → Ensures (λ _ db'. Refreshes db db') (sync_periods ob current db)
sync-Refreshes ob current db =
    Ensures-map (Resynced ob current (sync_periods ob current) (marked ob current ob.status db)) _ _
      (sync_periods-Resynced ob current db)
      λ _ db' h.
        Refreshes-trans db (marked ob current ob.status db) db'
          (marked-Refreshes ob current ob.status db) (Appends-Refreshes ob current _ db' h.0)

complete-Refreshes :
    (k : ℕ) (done : Result Bool) (db : Db)
    → Ensures (λ _ db'. Refreshes db db') ((lift done >>= complete_when k) db)
complete-Refreshes k (ok true) db = record { paid = λ j. refl; closed = λ j p c f. f; same = refl }
complete-Refreshes k (ok false) db = Refreshes-refl db
complete-Refreshes k (err e) db = tt

evaluate_active-Refreshes :
    (ob : Obligation) (db : Db) → Ensures (λ _ db'. Refreshes db db') (evaluate_active ob db)
unfolding evaluate_active
evaluate_active-Refreshes ob db =
    complete-Refreshes ob.id
      (is_done ob (where_ (λ p. p.obligation_id == ob.id) db.obligation_periods)) db

-- So does the completion of an obligation.
pub evaluate_lifecycle-Refreshes :
    (k : ℕ) (db : Db) → Ensures (λ _ db'. Refreshes db db') (evaluate_lifecycle k db)
unfolding evaluate_lifecycle
evaluate_lifecycle-Refreshes k db = by_found (find? (has_id k) db.obligations)
  where
    by_status :
        (ob : Obligation) (status : ObligationStatus)
        → Ensures
            (λ _ db'. Refreshes db db')
            ((elim status as (λ _. Action (Unit {0})) [
              | ObligationStatus.active ↦ evaluate_active ob
              | _ ↦ pure tt
            ])
              db)
    by_status ob ObligationStatus.active = evaluate_active-Refreshes ob db
    by_status ob completed = Refreshes-refl db
    by_status ob archived = Refreshes-refl db
    by_status ob ObligationStatus.cancelled = Refreshes-refl db

    by_found :
        (o : Option Obligation)
        → Ensures
            (λ _ db'. Refreshes db db')
            ((elim o as (λ _. Action (Unit {0})) [
              | none ↦ pure tt
              | some ob ↦ elim ob.status as (λ _. Action (Unit {0})) [
                | ObligationStatus.active ↦ evaluate_active ob
                | _ ↦ pure tt
              ]
            ])
              db)
    by_found none = Refreshes-refl db
    by_found (some ob) = by_status ob ob.status

own_obligation-IsCheck : (u k : ℕ) → IsCheck (own_obligation u k)
unfolding own_obligation
own_obligation-IsCheck u k = record { at = λ db. ground arith }

abbrev refresh_of : ℕ → Date → Obligation → ObligationStatus → Action (Unit {0})
refresh_of k today ob status = elim status [
  | ObligationStatus.active ↦ sync_periods ob today >> evaluate_lifecycle k
  | _ ↦ pure tt
]

refresh_of-Refreshes :
    (k : ℕ) (today : Date) (ob : Obligation) (status : ObligationStatus) (db : Db)
    → Ensures (λ _ db'. Refreshes db db') (refresh_of k today ob status db)
refresh_of-Refreshes k today ob ObligationStatus.active db =
    Ensures-bind (λ _ db'. Refreshes db db') (λ _ db'. Refreshes db db') (sync_periods ob today)
      (λ _. evaluate_lifecycle k) db (sync-Refreshes ob today db)
      λ _ mid h.
        Ensures-map (λ _ db'. Refreshes mid db') _ _ (evaluate_lifecycle-Refreshes k mid)
          (λ _ db' g. Refreshes-trans db mid db' h g)
refresh_of-Refreshes k today ob completed db = Refreshes-refl db
refresh_of-Refreshes k today ob archived db = Refreshes-refl db
refresh_of-Refreshes k today ob ObligationStatus.cancelled db = Refreshes-refl db

-- A refresh pays nothing and touches no other table.
pub refresh_overdue_periods-Refreshes :
    (u k : ℕ) (today : Date) (db : Db)
    → Ensures (λ _ db'. Refreshes db db') (refresh_overdue_periods u k today db)
unfolding refresh_overdue_periods
refresh_overdue_periods-Refreshes u k today db =
    check-then (Ensures (λ _ db'. Refreshes db db')) (own_obligation u k)
      (λ ob. refresh_of k today ob ob.status) db (own_obligation-IsCheck u k) (λ _. tt)
      λ ob _. refresh_of-Refreshes k today ob ob.status db

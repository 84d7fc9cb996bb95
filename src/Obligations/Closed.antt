-- ===== src/Obligations/Closed.antt =====
-- What the skipping and the cancelling of a period leave in the tables.
use nexum_backend.Prelude.Int.{ltb_ℤ, pos, ℤ, ◌≤ℤ◌}
use nexum_backend.Obligations.Pays.{IsOwn, own_obligation-IsOwn}
use nexum_backend.Obligations.SpecificPayment.{is_active_obligation}
use nexum_backend.Obligations.Lifecycle.{
  own_obligation, evaluate_lifecycle, refresh_overdue_periods,
}
use nexum_backend.Obligations.Payments.{period_with, paid_so_far}
use nexum_backend.Obligations.Written.{
  paid_of, Refreshes, evaluate_lifecycle-Refreshes, refresh_overdue_periods-Refreshes,
  Refreshes-trans,
}
use nexum_backend.Obligations.Status.{is_closed}
use nexum_backend.Calendar.{Date}
use nexum_backend.Store.Ensures.{Ensures, read-then, Ensures-bind, Ensures-map, Ensures-transaction}
use nexum_backend.Store.Obligations.{
  PeriodStatus, ObligationPeriod, Obligation, skipped, ObligationStatus, completed, archived,
  pending_amount_definition, pending_payment, overdue,
}
use nexum_backend.Obligations.Closing.{
  period_of, active_obligation, close_period, set_status, with_status, cancel_obligation_period,
  skip_obligation_period, check_cancel, check_skip, is_skippable, is_cancellable,
}
use nexum_backend.Store.Monad.{
  ◌>>=◌, ◌>>◌, Db, Action, raise_if, gets, http, obligation_inactive, pure, period_not_skippable,
  period_has_payments, period_not_cancellable,
}
use nexum_backend.Prelude.{
  ◌==◌, ℕ, List, ◌≡◌, find?, Option, update?, true, some, ◌∷◌, ◌∙◌, arith, refl, [], Bool-cases,
  inl, not, ap, inr, ◌⊎◌, false,
}

-- Of the user's obligation, which is active, one period that passed a test took the status, with nothing else
-- about it changed, and was returned. No period is paid more or less, and only obligations and
-- periods were written.
pub record Closes (user_id obligation_id period_id : ℕ) (status : PeriodStatus)
    (allowed : ObligationPeriod → Type 0) (db : Db) (r : Option ObligationPeriod) (db' : Db)
    : Type 0 where
  pub obligation : Obligation
  pub own : IsOwn user_id obligation_id db obligation
  pub active : obligation.status ≡ ObligationStatus.active
  pub before : ObligationPeriod
  pub found : find? (period_with period_id) db.obligation_periods ≡ some before
  pub owned : before.obligation_id ≡ obligation_id
  pub allows : allowed before
  pub returned : r ≡ some (with_status status before)
  pub held : find? (period_with period_id) db'.obligation_periods ≡ r
  pub paid : (k : ℕ) → paid_of k db'.obligation_periods ≡ paid_of k db.obligation_periods
  pub same : db' ≡ record db {
    obligations = db'.obligations;
    obligation_periods = db'.obligation_periods;
    next_id = db'.next_id;
  }

-- The user's obligation is there, and active.
abbrev HasOwn : ℕ → ℕ → Db → Type 0
HasOwn user_id obligation_id db =
    (ob : Obligation) × IsOwn user_id obligation_id db ob × (ob.status ≡ ObligationStatus.active)

abbrev IsChecked : ℕ → ℕ → ℕ → (ObligationPeriod → Type 0) → Db → ObligationPeriod → Type 0
IsChecked user_id obligation_id period_id allowed db p =
    HasOwn user_id obligation_id db
    × (find? (period_with period_id) db.obligation_periods ≡ some p)
    × (p.obligation_id ≡ obligation_id)
    × allowed p

find-with_status :
    (k : ℕ) (status : PeriodStatus) (p : ObligationPeriod) (rows : List ObligationPeriod)
    → find? (period_with k) rows ≡ some p
    → find? (period_with k) (update? (period_with k) (with_status status) rows)
      ≡ some (with_status status p)
find-with_status k status p [] h = ground (arith, h)
find-with_status k status p (q ∷ rows) h = elim (Bool-cases (q.id == k)) [
  | inl e ↦
      (let same : q ≡ p = ground (arith, e, h) in
        rw (e, e) (ap (λ (r : ObligationPeriod). some (with_status status r)) same))
  | inr e ↦ rw (e, e) (find-with_status k status p rows (ground (arith, e, h)))
]

paid_of-with_status :
    (j k : ℕ) (status : PeriodStatus) (rows : List ObligationPeriod)
    → paid_of j (update? (period_with k) (with_status status) rows) ≡ paid_of j rows
paid_of-with_status j k status [] = refl
paid_of-with_status j k status (q ∷ rows) = ground (arith, paid_of-with_status j k status rows)

module _ (user_id obligation_id period_id : ℕ) (status : PeriodStatus) (today : Date)
    (closed : is_closed status ≡ true) where
  module _ (allowed : ObligationPeriod → Type 0) (db : Db) (p : ObligationPeriod)
      (c : IsChecked user_id obligation_id period_id allowed db p) where
    abbrev Done : Option ObligationPeriod → Db → Type 0
    Done = Closes user_id obligation_id period_id status allowed db

    abbrev marked_db : Db
    marked_db = set_status period_id status db

    closed-Closes :
        (d : Db)
        → Refreshes marked_db d
        → Done (find? (period_with period_id) d.obligation_periods) d
    closed-Closes d f = record {
      before = p;
      obligation = c.0.0;
      own = c.0.1;
      active = c.0.2;
      found = c.1;
      owned = c.2;
      allows = c.3;
      returned =
          f.closed period_id (with_status status p) closed
            (find-with_status period_id status p db.obligation_periods c.1);
      held = refl;
      paid = λ k. f.paid k ∙ paid_of-with_status k period_id status db.obligation_periods;
      same = f.same;
    }

    close_period-Closes :
        Ensures Done (close_period user_id obligation_id period_id status today db)
    unfolding close_period
    close_period-Closes =
        Ensures-bind (λ _ d. Refreshes marked_db d) Done (evaluate_lifecycle obligation_id)
          (λ _.
            refresh_overdue_periods user_id obligation_id today
            >> gets (λ d. find? (period_with period_id) d.obligation_periods))
          marked_db (evaluate_lifecycle-Refreshes obligation_id marked_db)
          λ _ mid f.
            Ensures-bind (λ _ d. Refreshes mid d) Done
              (refresh_overdue_periods user_id obligation_id today)
              (λ _. gets (λ d. find? (period_with period_id) d.obligation_periods)) mid
              (refresh_overdue_periods-Refreshes user_id obligation_id today mid)
              λ _ d g. closed-Closes d (Refreshes-trans marked_db mid d f g)

active_status :
    (status : ObligationStatus)
    → is_active_obligation status ≡ true
    → status ≡ ObligationStatus.active
active_status ObligationStatus.active h = refl
active_status completed h = ground (arith, h)
active_status archived h = ground (arith, h)
active_status ObligationStatus.cancelled h = ground (arith, h)

-- The obligation that the check lets through.
abbrev IsActiveOwn : ℕ → ℕ → Db → Obligation → Type 0
IsActiveOwn user_id obligation_id db ob =
    IsOwn user_id obligation_id db ob × (ob.status ≡ ObligationStatus.active)

active_obligation-IsActiveOwn :
    (u k : ℕ) (db : Db)
    → Ensures (λ ob db'. (db' ≡ db) × IsActiveOwn u k db ob) (active_obligation u k db)
unfolding active_obligation
active_obligation-IsActiveOwn u k db =
    read-then (IsOwn u k db) (λ ob db'. (db' ≡ db) × IsActiveOwn u k db ob) (own_obligation u k)
      (λ ob.
        raise_if (not (is_active_obligation ob.status)) (http 400 obligation_inactive) >> pure ob)
      db (own_obligation-IsOwn u k db)
      λ ob e. elim (Bool-cases (is_active_obligation ob.status)) [
        | inl a ↦ rw a (refl, (e, active_status ob.status a))
        | inr a ↦ rw a tt
      ]

abbrev IsOwned : ℕ → ℕ → Db → ObligationPeriod → Type 0
IsOwned obligation_id period_id db p =
    (find? (period_with period_id) db.obligation_periods ≡ some p)
    × (p.obligation_id ≡ obligation_id)

abbrev HasChecked : ℕ → ℕ → ℕ → (ObligationPeriod → Type 0) → Db → Type 0
HasChecked user_id obligation_id period_id allowed db =
    (p : ObligationPeriod) × IsChecked user_id obligation_id period_id allowed db p

period_of-IsOwned :
    (o k : ℕ) (db : Db) → Ensures (λ p db'. (db' ≡ db) × IsOwned o k db p) (period_of o k db)
unfolding period_of
period_of-IsOwned o k db = ground arith

-- The states from which a period can be skipped or cancelled: it awaits its amount or its payment.
abbrev pub IsOpen : PeriodStatus → Type 0
IsOpen status =
    (status ≡ pending_amount_definition) ⊎ ((status ≡ pending_payment) ⊎ (status ≡ overdue))

abbrev pub MaySkip : ObligationPeriod → Type 0
MaySkip p = IsOpen p.status

-- Nothing is paid, and the period is open or skipped.
abbrev pub MayCancel : ObligationPeriod → Type 0
MayCancel p = (paid_so_far p ≤ℤ pos 0) × (IsOpen p.status ⊎ (p.status ≡ skipped))

skippable-IsOpen : (status : PeriodStatus) → is_skippable status ≡ true → IsOpen status
unfolding is_skippable
skippable-IsOpen pending_amount_definition h = inl refl
skippable-IsOpen pending_payment h = inr (inl refl)
skippable-IsOpen overdue h = inr (inr refl)
skippable-IsOpen _ h = ground (arith, h)

cancellable-IsOpen :
    (status : PeriodStatus) → is_cancellable status ≡ true → IsOpen status ⊎ (status ≡ skipped)
unfolding is_cancellable
cancellable-IsOpen pending_amount_definition h = inl (inl refl)
cancellable-IsOpen pending_payment h = inl (inr (inl refl))
cancellable-IsOpen overdue h = inl (inr (inr refl))
cancellable-IsOpen skipped h = inr refl
cancellable-IsOpen _ h = ground (arith, h)

module _ (user_id obligation_id period_id : ℕ) (db : Db) where
  abbrev Checked : (ObligationPeriod → Type 0) → Unit {0} → Db → Type 0
  Checked allowed _ db' = (db' ≡ db) × HasChecked user_id obligation_id period_id allowed db

  -- A check on the period of the user's active obligation.
  own_check-Checked :
      (allowed : ObligationPeriod → Type 0) (rest : ObligationPeriod → Action (Unit {0}))
      → ((p : ObligationPeriod) → Ensures (λ _ db'. (db' ≡ db) × allowed p) (rest p db))
      → Ensures (Checked allowed) (
          (active_obligation user_id obligation_id >>= λ ob. period_of ob.id period_id >>= rest) db)
  own_check-Checked allowed rest h =
      read-then (IsActiveOwn user_id obligation_id db) (Checked allowed)
        (active_obligation user_id obligation_id) (λ ob. period_of ob.id period_id >>= rest) db
        (active_obligation-IsActiveOwn user_id obligation_id db)
        λ ob e.
          read-then (IsOwned ob.id period_id db) (Checked allowed) (period_of ob.id period_id) rest
            db (period_of-IsOwned ob.id period_id db)
            λ p c.
              Ensures-map (λ _ db'. (db' ≡ db) × allowed p) (Checked allowed) (rest p db) (h p)
                λ _ d g. (g.0, (p, ((ob, e.0, e.1), c.0, c.1 ∙ e.0.2, g.1)))

  check_skip-Checked : Ensures (Checked MaySkip) (check_skip user_id obligation_id period_id db)
  unfolding check_skip
  check_skip-Checked =
      own_check-Checked MaySkip
        (λ p. raise_if (not (is_skippable p.status)) (http 422 period_not_skippable))
        λ p. elim (Bool-cases (is_skippable p.status)) [
          | inl e ↦ rw e (refl, skippable-IsOpen p.status e)
          | inr e ↦ rw e tt
        ]

  unpaid : (v : ℤ) → ltb_ℤ (pos 0) v ≡ false → v ≤ℤ pos 0
  unpaid v h = ground (arith, h)

  check_cancel-Checked :
      Ensures (Checked MayCancel) (check_cancel user_id obligation_id period_id db)
  unfolding check_cancel
  check_cancel-Checked =
      own_check-Checked MayCancel
        (λ p.
          raise_if (ltb_ℤ (pos 0) (paid_so_far p)) (http 422 period_has_payments)
          >> raise_if (not (is_cancellable p.status)) (http 422 period_not_cancellable))
        λ p. elim (Bool-cases (ltb_ℤ (pos 0) (paid_so_far p))) [
          | inl u ↦ rw u tt
          | inr u ↦ elim (Bool-cases (is_cancellable p.status)) [
            | inl e ↦ rw (u, e) (refl, (unpaid (paid_so_far p) u, cancellable-IsOpen p.status e))
            | inr e ↦ rw (u, e) tt
          ]
        ]

module _ (user_id obligation_id period_id : ℕ) (today : Date) (db : Db) where
  -- A skip that returns was of a period of the user's obligation, which is active, and the period
  -- awaited its amount, awaited payment or was overdue. That period is skipped, with nothing else about it changed, and is what is
  -- returned; no period is paid more or less, and only obligations and periods were written.
  pub skip_obligation_period-Closes :
      Ensures
        (Closes user_id obligation_id period_id skipped MaySkip db)
        (skip_obligation_period user_id obligation_id period_id today db)
  unfolding skip_obligation_period
  skip_obligation_period-Closes = Ensures-transaction _ _ db (
      read-then (λ _. HasChecked user_id obligation_id period_id MaySkip db)
        (Closes user_id obligation_id period_id skipped MaySkip db)
        (check_skip user_id obligation_id period_id)
        (λ _. close_period user_id obligation_id period_id skipped today) db
        (check_skip-Checked user_id obligation_id period_id db)
        λ _ c.
          close_period-Closes user_id obligation_id period_id skipped today refl MaySkip db c.0 c.1)

  -- A cancellation that returns was of a period of the user's obligation, which is active; nothing was
  -- paid on the period, and it awaited its amount, awaited payment, was overdue or was skipped. That period is cancelled, with nothing else about it changed, and is
  -- what is returned; no period is paid more or less, and only obligations and periods were written.
  pub cancel_obligation_period-Closes :
      Ensures
        (Closes user_id obligation_id period_id PeriodStatus.cancelled MayCancel db)
        (cancel_obligation_period user_id obligation_id period_id today db)
  unfolding cancel_obligation_period
  cancel_obligation_period-Closes = Ensures-transaction _ _ db (
      read-then (λ _. HasChecked user_id obligation_id period_id MayCancel db)
        (Closes user_id obligation_id period_id PeriodStatus.cancelled MayCancel db)
        (check_cancel user_id obligation_id period_id)
        (λ _. close_period user_id obligation_id period_id PeriodStatus.cancelled today) db
        (check_cancel-Checked user_id obligation_id period_id db)
        λ _ c.
          close_period-Closes user_id obligation_id period_id PeriodStatus.cancelled today refl
            MayCancel db c.0 c.1)

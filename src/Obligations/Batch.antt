-- ===== src/Obligations/Batch.antt =====
-- The refresh of all obligations of a user: `refresh_due_periods_for_user`
-- (app/obligations/service_v17.py). `today` is `financial_date()`.
use nexum_backend.Obligations.Lifecycle.{evaluate_lifecycle}
use nexum_backend.Obligations.SpecificPayment.{is_active_obligation}
use nexum_backend.Obligations.Sync.{sync_periods}
use nexum_backend.Obligations.Written.{
  Refreshes, Refreshes-refl, sync-Refreshes, evaluate_lifecycle-Refreshes, Refreshes-trans,
}
use nexum_backend.Store.Ensures.{Ensures, Ensures-bind, Ensures-map}
use nexum_backend.Store.Obligations.{Obligation}
use nexum_backend.Calendar.{Date}
use nexum_backend.Store.Monad.{◌>>=◌, ◌>>◌, Action, Db, gets, pure}
use nexum_backend.Prelude.{◌==◌, ◌&&◌, if◌then◌else◌, ℕ, List, ◌∷◌, leb, where_, []}

-- `ORDER BY id`
abbrev pub insert_by_id : Obligation → List Obligation → List Obligation
insert_by_id ob [] = ob ∷ []
insert_by_id ob (p ∷ rows) =
    let rest = insert_by_id ob rows in if leb ob.id p.id then ob ∷ p ∷ rows else p ∷ rest

abbrev pub ordered_by_id : List Obligation → List Obligation
ordered_by_id [] = []
ordered_by_id (ob ∷ rows) = insert_by_id ob (ordered_by_id rows)

unfoldable pub active_obligations : ℕ → Db → List Obligation
active_obligations user_id db =
    ordered_by_id
      (where_ (λ ob. ob.user_id == user_id && is_active_obligation ob.status) db.obligations)

unfoldable pub refresh_each : Date → List Obligation → Action (Unit {0})
refresh_each today [] = pure tt
refresh_each today (ob ∷ rows) = do
  sync_periods ob today
  evaluate_lifecycle ob.id
  refresh_each today rows

unfoldable pub refresh_due_periods_for_user : ℕ → Date → Action (Unit {0})
refresh_due_periods_for_user user_id today = do
  rows ← gets (active_obligations user_id)
  refresh_each today rows

refresh_each-Refreshes :
    (today : Date) (rows : List Obligation) (db : Db)
    → Ensures (λ _ db'. Refreshes db db') (refresh_each today rows db)
unfolding refresh_each
refresh_each-Refreshes today [] db = Refreshes-refl db
refresh_each-Refreshes today (ob ∷ rows) db =
    Ensures-bind (λ _ db'. Refreshes db db') (λ _ db'. Refreshes db db') (sync_periods ob today)
      (λ _. evaluate_lifecycle ob.id >> refresh_each today rows) db (sync-Refreshes ob today db)
      λ _ mid f.
        Ensures-bind (λ _ db'. Refreshes mid db') (λ _ db'. Refreshes db db')
          (evaluate_lifecycle ob.id) (λ _. refresh_each today rows) mid
          (evaluate_lifecycle-Refreshes ob.id mid)
          λ _ last g.
            Ensures-map (λ _ db'. Refreshes last db') _ _ (refresh_each-Refreshes today rows last)
              λ _ db' h. Refreshes-trans db last db' (Refreshes-trans db mid last f g) h

-- When the refresh of a user's obligations returns, it wrote only obligations and periods, no period
-- is paid more or less, and every period that was paid, skipped or cancelled is as it was.
pub refresh_due_periods_for_user-Refreshes :
    (user_id : ℕ) (today : Date) (db : Db)
    → Ensures (λ _ db'. Refreshes db db') (refresh_due_periods_for_user user_id today db)
unfolding refresh_due_periods_for_user
refresh_due_periods_for_user-Refreshes user_id today db =
    refresh_each-Refreshes today (active_obligations user_id db) db

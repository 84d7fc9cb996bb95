-- ===== src/Obligations/Lifecycle.antt =====
-- When an obligation is completed: `evaluate_lifecycle` and `refresh_overdue_periods`
-- (app/obligations/service_v17.py).
use nexum_backend.Obligations.Periods.{calculate_period_bounds}
use nexum_backend.Obligations.Sync.{sync_periods}
use nexum_backend.Obligations.Status.{is_closed}
use nexum_backend.Calendar.{Date, date_ltb}
use nexum_backend.Store.Obligations.{
  Obligation, completed, ObligationPeriod, ObligationStatus, ObligationKind, indefinite,
}
use nexum_backend.Store.Monad.{
  ◌>>=◌, ◌>>◌, Action, Result, gets, ok, lift, pure, or_raise, http, obligation_not_found, raise_if,
  err, value_error,
}
use nexum_backend.Prelude.{
  if◌then◌else◌, ◌==◌, ◌&&◌, ◌+◌, List, ℕ, Option, Bool, true, where_, false, ◌∷◌, max, some, leb,
  update?, find?, not, [], length, none,
}

abbrev pub all_closed : List ObligationPeriod → Bool
all_closed [] = true
all_closed (p ∷ rows) = is_closed p.status && all_closed rows

abbrev pub up_to : ℕ → List ObligationPeriod → List ObligationPeriod
up_to count rows = where_ (λ p. leb p.sequence_number count) rows

abbrev pub last_sequence : List ObligationPeriod → ℕ
last_sequence [] = 0
last_sequence (p ∷ rows) = max p.sequence_number (last_sequence rows)

-- The first `count` periods exist and are closed.
unfoldable pub count_done : Option ℕ → List ObligationPeriod → Bool
count_done none rows = false
count_done (some count) rows =
    not (count == 0)
    && leb count (length rows)
    && (length (up_to count rows) == count)
    && all_closed (up_to count rows)

-- All periods are closed, and the next one would start after the end date.
unfoldable pub date_done : Obligation → List ObligationPeriod → Result Bool
date_done ob rows = elim ob.end_date [
  | none ↦ ok false
  | some e ↦
      if all_closed rows
      then elim (calculate_period_bounds ob (last_sequence rows + 1)) [
        | none ↦ err value_error
        | some bounds ↦ ok (date_ltb e bounds.0)
      ]
      else ok false
]

unfoldable pub is_done : Obligation → List ObligationPeriod → Result Bool
is_done ob [] = ok false
is_done ob (p ∷ rows) = elim ob.kind [
  | ObligationKind.one_time ↦ ok (all_closed (p ∷ rows))
  | ObligationKind.end_count ↦ ok (count_done ob.end_count (p ∷ rows))
  | ObligationKind.end_date ↦ date_done ob (p ∷ rows)
  | indefinite ↦ ok false
  | ObligationKind.other ↦ ok false
]

abbrev pub has_id : ℕ → Obligation → Bool
has_id k ob = ob.id == k

abbrev pub complete : Obligation → Obligation
complete ob = record ob { status = completed }

abbrev pub complete_when : ℕ → Bool → Action (Unit {0})
complete_when obligation_id done db =
    if done
    then (ok tt, record db { obligations = update? (has_id obligation_id) complete db.obligations })
    else (ok tt, db)

-- For an active obligation.
unfoldable pub evaluate_active : Obligation → Action (Unit {0})
evaluate_active ob = do
  periods ← gets (λ db. where_ (λ p. p.obligation_id == ob.id) db.obligation_periods)
  done ← lift (is_done ob periods)
  complete_when ob.id done

unfoldable pub evaluate_lifecycle : ℕ → Action (Unit {0})
evaluate_lifecycle obligation_id = do
  found ← gets (λ db. find? (has_id obligation_id) db.obligations)
  elim found [
    | none ↦ pure tt
    | some ob ↦ elim ob.status [ ObligationStatus.active ↦ evaluate_active ob | _ ↦ pure tt ]
  ]

-- The obligation with an id, which is the user's.
unfoldable pub own_obligation : ℕ → ℕ → Action Obligation
own_obligation user_id obligation_id = do
  found ← gets (λ db. find? (has_id obligation_id) db.obligations)
  ob ← or_raise found (http 404 obligation_not_found)
  raise_if (not (ob.user_id == user_id)) (http 404 obligation_not_found)
  pure ob

-- `today` is `financial_date()`. The late rows that it returns for the response are only read.
unfoldable pub refresh_overdue_periods : ℕ → ℕ → Date → Action (Unit {0})
refresh_overdue_periods user_id obligation_id today = do
  ob ← own_obligation user_id obligation_id
  elim ob.status [
    | ObligationStatus.active ↦ do sync_periods ob today; evaluate_lifecycle obligation_id
    | _ ↦ pure tt
  ]

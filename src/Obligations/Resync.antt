-- ===== src/Obligations/Resync.antt =====
-- `sync_periods` as a whole.
use nexum_backend.Obligations.Transitions.{refresh_overdue-All}
use nexum_backend.Store.Ensures.{Ensures, Ensures-map}
use nexum_backend.Obligations.Synced.{
  Distinct, Appends, Appends-refl, ensure_from-Settled, All-map, IsNew,
}
use nexum_backend.Obligations.Sync.{
  sync_periods, has_key, refresh_periods, sync_active, ensure_all, max_sequence,
}
use nexum_backend.Calendar.{Date}
use nexum_backend.Obligations.Status.{refresh_overdue, is_late}
use nexum_backend.Store.Obligations.{
  Obligation, ObligationPeriod, ObligationStatus, completed, archived,
}
use nexum_backend.Store.Monad.{Db, Action, ok, pure}
use nexum_backend.Prelude.{
  ℕ, List, All, ◌∷◌, Bool-cases, ◌≡◌, inl, false, arith, inr, [], refl, subst, Option, sym, some,
  All-append, ap, ◌∙◌, none,
}

-- A period that a run leaves out is not late.
refresh-id :
    (k : ℕ) (current : Date) (rows : List ObligationPeriod)
    → All (λ p. is_late k current p ≡ false) rows
    → refresh_overdue k current rows ≡ rows
unfolding refresh_overdue
refresh-id k current [] h = refl
refresh-id k current (p ∷ rows) h = rw (h.0, refresh-id k current rows h.1) refl

refresh-Distinct-row :
    (k : ℕ) (current : Date) (p : ObligationPeriod) (rows : List ObligationPeriod)
    → All (λ q. has_key p.obligation_id p.period_key q ≡ false) rows
    → All (λ q. has_key p.obligation_id p.period_key q ≡ false) (refresh_overdue k current rows)
unfolding refresh_overdue
refresh-Distinct-row k current p [] h = tt
refresh-Distinct-row k current p (q ∷ rows) h =
    (ground (arith, h.0), refresh-Distinct-row k current p rows h.1)

refresh-Distinct :
    (k : ℕ) (current : Date) (rows : List ObligationPeriod)
    → Distinct rows
    → Distinct (refresh_overdue k current rows)
unfolding refresh_overdue
refresh-Distinct k current [] d = tt
refresh-Distinct k current (p ∷ rows) d = elim (Bool-cases (is_late k current p)) [
  | inl e ↦ rw e (refresh-Distinct-row k current p rows d.0, refresh-Distinct k current rows d.1)
  | inr e ↦ rw e (refresh-Distinct-row k current p rows d.0, refresh-Distinct k current rows d.1)
]

module _ (ob : Obligation) (current : Date) where
  -- A run over tables without late periods leaves them as they are when its loop does.
  resync :
      (start : Option Date) (db : Db)
      → All (λ p. is_late ob.id current p ≡ false) db.obligation_periods
      → ensure_all ob current start db ≡ (ok tt, db)
      → ensure_all ob current start (refresh_periods ob.id current db) ≡ (ok tt, db)
  resync start db h e =
      ap (λ rows. ensure_all ob current start (record db { obligation_periods = rows }))
        (refresh-id ob.id current db.obligation_periods h)
      ∙ e

  Appends-timely :
      (db db' : Db)
      → Appends ob current (refresh_periods ob.id current db) db'
      → All (λ p. is_late ob.id current p ≡ false) db'.obligation_periods
  Appends-timely db db' h =
      subst (λ (d : Db). All (λ p. is_late ob.id current p ≡ false) d.obligation_periods)
        (sym h.same)
        (All-append (λ p. is_late ob.id current p ≡ false)
          (refresh_overdue ob.id current db.obligation_periods) h.added
          (refresh_overdue-All ob.id current db.obligation_periods)
          (All-map (IsNew ob current) (λ p. is_late ob.id current p ≡ false) h.added (λ p n. n.2)
            h.are_new))

  abbrev Synced : Option Date → Db → Unit {0} → Db → Type 0
  Synced start db _ db' =
      Appends ob current (refresh_periods ob.id current db) db'
      × (ensure_all ob current start db' ≡ (ok tt, db'))

  ensure_all-Synced :
      (start : Option Date) (db : Db)
      → Ensures (Synced start db) (ensure_all ob current start (refresh_periods ob.id current db))
  ensure_all-Synced none db = (Appends-refl ob current (refresh_periods ob.id current db), refl)
  ensure_all-Synced (some d) db =
      Ensures-map _ (Synced (some d) db) _
        (ensure_from-Settled ob current 1 (max_sequence ob current)
          (refresh_periods ob.id current db))
        λ _ db' h. (h.0, h.1 db' (Appends-refl ob current db'))

  abbrev pub Resynced : Action (Unit {0}) → Db → Unit {0} → Db → Type 0
  Resynced m db _ db' = Appends ob current db db' × (m db' ≡ (ok tt, db'))

  sync_active-Resynced :
      (db : Db)
      → Ensures
          (Resynced (sync_active ob current) (refresh_periods ob.id current db))
          (sync_active ob current db)
  unfolding sync_active
  sync_active-Resynced db =
      Ensures-map (Synced ob.start_date db) _ _ (ensure_all-Synced ob.start_date db)
        λ _ db' h. (h.0, resync ob.start_date db' (Appends-timely db db' h.0) h.1)

  by_status : ObligationStatus → Action (Unit {0})
  by_status status = elim status [ ObligationStatus.active ↦ sync_active ob current | _ ↦ pure tt ]

  abbrev pub marked : ObligationStatus → Db → Db
  marked status db = elim status [
    | ObligationStatus.active ↦ refresh_periods ob.id current db
    | _ ↦ db
  ]

  by_status-Resynced :
      (status : ObligationStatus) (db : Db)
      → Ensures (Resynced (by_status status) (marked status db)) (by_status status db)
  unfolding by_status
  by_status-Resynced ObligationStatus.active db = sync_active-Resynced db
  by_status-Resynced completed db = (Appends-refl ob current db, refl)
  by_status-Resynced archived db = (Appends-refl ob current db, refl)
  by_status-Resynced ObligationStatus.cancelled db = (Appends-refl ob current db, refl)

  -- A synchronisation that returns has marked the late periods of an active obligation, and added
  -- periods of the obligation that are unpaid and not late; it touched nothing else. Run again on the
  -- same day it returns and changes nothing.
  pub sync_periods-Resynced :
      (db : Db)
      → Ensures
          (Resynced (sync_periods ob current) (marked ob.status db))
          (sync_periods ob current db)
  unfolding sync_periods by_status
  sync_periods-Resynced db = by_status-Resynced ob.status db

  marked-Distinct :
      (status : ObligationStatus) (db : Db)
      → Distinct db.obligation_periods
      → Distinct (marked status db).obligation_periods
  marked-Distinct ObligationStatus.active db d =
      refresh-Distinct ob.id current db.obligation_periods d
  marked-Distinct completed db d = d
  marked-Distinct archived db d = d
  marked-Distinct ObligationStatus.cancelled db d = d

  -- Where no two periods of an obligation have the same key, none have after a synchronisation.
  pub sync_periods-Distinct :
      (db : Db)
      → Distinct db.obligation_periods
      → Ensures (λ _ db'. Distinct db'.obligation_periods) (sync_periods ob current db)
  sync_periods-Distinct db d =
      Ensures-map (Resynced (sync_periods ob current) (marked ob.status db)) _ _
        (sync_periods-Resynced db) λ _ db' h. h.0.distinct (marked-Distinct ob.status db d)

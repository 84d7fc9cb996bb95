-- ===== src/Obligations/Synced.antt =====
-- What `_ensure_period_exists` and `sync_periods` leave: rows are only added, and a second run finds
-- them.
use nexum_backend.Obligations.Status.{is_late}
use nexum_backend.Prelude.Int.{pos}
use nexum_backend.Store.Ensures.{
  Ensures, check-then, raise_if-IsCheck, Ensures-bind, Ensures-map, bind_ok,
}
use nexum_backend.Obligations.Periods.{calculate_period_bounds}
use nexum_backend.Obligations.Sync.{
  add_period, has_key, new_period, generate_period_key, is_negative, ensure_from,
  ensure_period_exists, past_end,
}
use nexum_backend.Calendar.{Date, date_ltb}
use nexum_backend.Store.Obligations.{Obligation, ObligationPeriod}
use nexum_backend.Store.Monad.{
  ◌>>◌, Db, raise_if, integrity, chk_amount_positive, modify, pure, Action, Result, ok, err,
  value_error,
}
use nexum_backend.Prelude.{
  ◌++◌, ℕ, Text, ◌≡◌, All-append, List, find?, ap, [], some, none, All, true, arith, append-nil,
  refl, text_eq_iff, ◌∙◌, find?-append, false, ◌∷◌, ◌+◌, find?-snoc, suc, append_assoc,
  Option-cases, Bool, inl, inr, zero, subst, sym, find?-none-All,
}

-- A row that a run adds: it is the obligation's, unpaid, and not late.
abbrev pub IsNew : Obligation → Date → ObligationPeriod → Type 0
IsNew ob current p =
    (p.obligation_id ≡ ob.id) × (p.paid_amount ≡ some (pos 0)) × (is_late ob.id current p ≡ false)

-- No two periods of an obligation have the same key.
abbrev pub Distinct : List ObligationPeriod → Type 0
Distinct [] = Unit
Distinct (p ∷ rows) = All (λ q. has_key p.obligation_id p.period_key q ≡ false) rows × Distinct rows

has_key-sym :
    (p q : ObligationPeriod)
    → has_key q.obligation_id q.period_key p ≡ false
    → has_key p.obligation_id p.period_key q ≡ false
has_key-sym p q h =
    ground (arith, text_eq_iff p.period_key q.period_key, text_eq_iff q.period_key p.period_key, h)

pub All-map :
    (P Q : ObligationPeriod → Type 0) (rows : List ObligationPeriod)
    → ((q : ObligationPeriod) → P q → Q q)
    → All P rows
    → All Q rows
All-map P Q [] f h = tt
All-map P Q (q ∷ rows) f h = (f q h.0, All-map P Q rows f h.1)

Distinct-snoc :
    (rows : List ObligationPeriod) (p : ObligationPeriod)
    → Distinct rows
    → All (λ q. has_key p.obligation_id p.period_key q ≡ false) rows
    → Distinct (rows ++ p ∷ [])
Distinct-snoc [] p d h = (tt, tt)
Distinct-snoc (q ∷ rows) p d h = (
  All-append (λ r. has_key q.obligation_id q.period_key r ≡ false) rows (p ∷ []) d.0
      (has_key-sym q p h.0, tt),
  Distinct-snoc rows p d.1 h.1,
)

-- The rows of one table are added to, and no other table is touched.
pub record Appends (ob : Obligation) (current : Date) (db db' : Db) : Type 0 where
  pub added : List ObligationPeriod
  pub are_new : All (IsNew ob current) added
  pub distinct : Distinct db.obligation_periods → Distinct db'.obligation_periods
  pub same :
      db' ≡ record db { obligation_periods = db.obligation_periods ++ added; next_id = db'.next_id }

-- The period of a number is in the table.
pub record IsHeldAt (ob : Obligation) (sequence_number : ℕ) (p : ObligationPeriod) (db : Db)
    : Type 0 where
  pub bounds : Date × Date × Date
  pub computed : calculate_period_bounds ob sequence_number ≡ some bounds
  pub found :
      find?
        (has_key ob.id (generate_period_key ob.frequency bounds.0 sequence_number))
        db.obligation_periods
      ≡ some p

module _ (ob : Obligation) (current : Date) where
  pub Appends-refl : (db : Db) → Appends ob current db db
  Appends-refl db = record {
    added = [];
    are_new = tt;
    distinct = λ d. d;
    same = rw (append-nil db.obligation_periods) refl;
  }

  Appends-trans :
      (a b c : Db) → Appends ob current a b → Appends ob current b c → Appends ob current a c
  Appends-trans a b c p q = record {
    added = p.added ++ q.added;
    are_new = All-append (IsNew ob current) p.added q.added p.are_new q.are_new;
    distinct = λ d. q.distinct (p.distinct d);
    same =
        q.same
        ∙ ap
            (λ (d : Db). record d {
              obligation_periods = d.obligation_periods ++ q.added;
              next_id = c.next_id;
            })
            p.same
        ∙ ap (λ rows. record a { obligation_periods = rows; next_id = c.next_id })
            (append_assoc a.obligation_periods p.added q.added);
  }

  IsHeldAt-Appends :
      (n : ℕ) (p : ObligationPeriod) (a b : Db)
      → Appends ob current a b
      → IsHeldAt ob n p a
      → IsHeldAt ob n p b
  IsHeldAt-Appends n p a b h k = record {
    bounds = k.bounds;
    computed = k.computed;
    found =
        ap
          (λ (d : Db).
            find? (has_key ob.id (generate_period_key ob.frequency k.bounds.0 n))
              d.obligation_periods)
          h.same
        ∙ find?-append (has_key ob.id (generate_period_key ob.frequency k.bounds.0 n))
            a.obligation_periods h.added p k.found;
  }

  new_period-IsNew :
      (n : ℕ) (key : Text) (a b c : Date) (k : ℕ)
      → IsNew ob current (new_period ob n current key a b c k)
  new_period-IsNew n key a b c k = ground arith

  has_key-new :
      (n : ℕ) (key : Text) (a b c : Date) (k : ℕ)
      → has_key ob.id key (new_period ob n current key a b c k) ≡ true
  has_key-new n key a b c k = ground (arith, (text_eq_iff key key).1 refl)

  add_period-Appends :
      (n : ℕ) (key : Text) (bounds : Date × Date × Date) (db : Db)
      → find? (has_key ob.id key) db.obligation_periods ≡ none
      → Ensures
          (λ p db'.
            Appends ob current db db' × (find? (has_key ob.id key) db'.obligation_periods ≡ some p))
          (add_period ob n current key bounds db)
  unfolding add_period
  add_period-Appends n key bounds db h =
      let row = new_period ob n current key bounds.0 bounds.1 bounds.2 db.next_id in
      check-then
        (Ensures (λ p db'.
          Appends ob current db db' × (find? (has_key ob.id key) db'.obligation_periods ≡ some p)))
        (raise_if (is_negative row.amount) (integrity chk_amount_positive))
        (λ _.
          modify (λ db'. record db' {
            obligation_periods = db'.obligation_periods ++ row ∷ [];
            next_id = db.next_id + 1;
          })
          >> pure row)
        db (raise_if-IsCheck _ _) (λ _. tt)
        λ _ _. (
          record {
            added = row ∷ [];
            are_new = (new_period-IsNew n key bounds.0 bounds.1 bounds.2 db.next_id, tt);
            distinct = λ d.
                Distinct-snoc db.obligation_periods row d
                  (find?-none-All (has_key ob.id key) db.obligation_periods h);
            same = refl;
          },
          find?-snoc (has_key ob.id key) db.obligation_periods row h
              (has_key-new n key bounds.0 bounds.1 bounds.2 db.next_id),
        )

  abbrev Ensured : ℕ → Db → ObligationPeriod → Db → Type 0
  Ensured n db p db' = Appends ob current db db' × IsHeldAt ob n p db'

  ensure_period-Ensured :
      (n : ℕ) (db : Db) → Ensures (Ensured n db) (ensure_period_exists ob n current db)
  unfolding ensure_period_exists
  ensure_period-Ensured n db = elim (Option-cases (calculate_period_bounds ob n)) [
    | inl e ↦ rw e tt
    | inr (bounds, e) ↦ rw e (
        let key = generate_period_key ob.frequency bounds.0 n in
        elim (Option-cases (find? (has_key ob.id key) db.obligation_periods)) [
          | inl f ↦ rw f (
              Ensures-map _ (Ensured n db) _ (add_period-Appends n key bounds db f)
                (λ p db' h. (h.0, record { bounds = bounds; computed = e; found = h.1 })))
          | inr (p, f) ↦ rw f (Appends-refl db, record { bounds = bounds; computed = e; found = f })
        ])
  ]

  -- A period that is in the table is returned, and nothing is written.
  ensure_held :
      (n : ℕ) (p : ObligationPeriod) (db : Db)
      → IsHeldAt ob n p db
      → ensure_period_exists ob n current db ≡ (ok p, db)
  unfolding ensure_period_exists
  ensure_held n p db h = rw (h.computed, h.found) refl

  past_end_result : (n : ℕ) → (r : Result Bool) × ((db : Db) → past_end ob n db ≡ (r, db))
  unfolding past_end
  past_end_result n = elim (Option-cases ob.end_date) [
    | inl e ↦ (ok false, λ db. ground (arith, e))
    | inr (d, e) ↦ elim (Option-cases (calculate_period_bounds ob n)) [
      | inl f ↦ (err value_error, λ db. ground (arith, e, f))
      | inr (bounds, f) ↦ (ok (date_ltb d bounds.0), λ db. ground (arith, e, f))
    ]
  ]

  -- A run of the loop adds rows, and a run from any later table finds all that it needs.
  abbrev Finding : Action (Unit {0}) → Db → Unit {0} → Db → Type 0
  Finding m db _ db' =
      Appends ob current db db'
      × ((later : Db) → Appends ob current db' later → m later ≡ (ok tt, later))

  abbrev SettledBy : Action (Unit {0}) → Db → Type 0
  SettledBy m db = Ensures (Finding m db) (m db)

  abbrev Settled : ℕ → ℕ → Db → Type 0
  Settled n count db = SettledBy (ensure_from ob current n count) db

  abbrev body : ℕ → ℕ → Action (Unit {0})
  body n count = do ensure_period_exists ob n current; ensure_from ob current (suc n) count

  body-Settled :
      (n count : ℕ) (db : Db)
      → ((db' : Db) → Settled (suc n) count db')
      → SettledBy (body n count) db
  body-Settled n count db rest =
      Ensures-bind (Ensured n db) (Finding (body n count) db) (ensure_period_exists ob n current)
        (λ _. ensure_from ob current (suc n) count) db (ensure_period-Ensured n db)
        λ p mid h.
          Ensures-map (Finding (ensure_from ob current (suc n) count) mid) _ _ (rest mid) λ _ db' k.
            (
              Appends-trans db mid db' h.0 k.0,
              λ later m.
                  bind_ok (ensure_period_exists ob n current)
                    (λ _. ensure_from ob current (suc n) count) later p later
                    (ensure_held n p later
                      (IsHeldAt-Appends n p db' later m (IsHeldAt-Appends n p mid db' k.0 h.1)))
                  ∙ k.1 later m,
            )

  abbrev after_check : ℕ → ℕ → Bool → Action (Unit {0})
  after_check n count stop = elim stop [ true ↦ pure tt | false ↦ body n count ]

  abbrev at_end : ℕ → ℕ → Result Bool → Action (Unit {0})
  at_end n count r db = elim r [ ok stop ↦ after_check n count stop db | err e ↦ (err e, db) ]

  ensure_from-step :
      (n count : ℕ) (r : Result Bool)
      → ((db : Db) → past_end ob n db ≡ (r, db))
      → (db : Db) → ensure_from ob current n (suc count) db ≡ at_end n count r db
  unfolding ensure_from
  ensure_from-step n count r h db = ap (λ (p : Result Bool × Db). at_end n count p.0 p.1) (h db)

  at_end-Settled :
      (n count : ℕ) (db : Db) (r : Result Bool)
      → ((db' : Db) → Settled (suc n) count db')
      → SettledBy (at_end n count r) db
  at_end-Settled n count db (err e) rest = tt
  at_end-Settled n count db (ok true) rest = (Appends-refl db, λ later _. refl)
  at_end-Settled n count db (ok false) rest = body-Settled n count db rest

  SettledBy-same :
      (m k : Action (Unit {0})) (db : Db) → ((d : Db) → m d ≡ k d) → SettledBy k db → SettledBy m db
  SettledBy-same m k db h s = subst (Ensures (Finding m db)) (sym (h db)) (
      Ensures-map (Finding k db) (Finding m db) _ s
        (λ _ db' p. (p.0, λ later q. h later ∙ p.1 later q)))

  pub ensure_from-Settled : (n count : ℕ) (db : Db) → Settled n count db
  unfolding ensure_from
  ensure_from-Settled n zero db = (Appends-refl db, λ later _. refl)
  ensure_from-Settled n (suc count) db =
      let ended = past_end_result n in
      SettledBy-same (ensure_from ob current n (suc count)) (at_end n count ended.0) db
        (ensure_from-step n count ended.0 ended.1)
        (at_end-Settled n count db ended.0 (ensure_from-Settled (suc n) count))

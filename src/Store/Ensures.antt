-- ===== src/Store/Ensures.antt =====
-- Postconditions of actions. `Ensures Q` says that a return satisfies `Q`; `Always P` that the
-- state satisfies `P` however the action ends.
use nexum_backend.Prelude.{
  arith, true, false, ap, ◌∙◌, ◌≡◌, refl, sym, subst, Bool, Option, some, none,
}
use nexum_backend.Store.Monad.{Db, Result, ok, err, Action, ◌>>=◌, Error, raise_if, or_raise}
use nexum_backend.Store.Atomic.{transaction}

abbrev pub Ensures : {A : Type 0} → (A → Db → Type 0) → Result A × Db → Type 0
Ensures Q (ok a, db) = Q a db
Ensures Q (err e, db) = Unit

-- A failed action changed nothing.
abbrev pub IsAtomic : {A : Type 0} → Db → Result A × Db → Type 0
IsAtomic db (ok a, db') = Unit
IsAtomic db (err e, db') = db' ≡ db

module _ {A B : Type 0} where
  pub Ensures-bind :
      (R : A → Db → Type 0) (Q : B → Db → Type 0) (m : Action A) (f : A → Action B) (db : Db)
      → Ensures R (m db)
      → ((a : A) (db' : Db) → R a db' → Ensures Q (f a db'))
      → Ensures Q ((m >>= f) db)
  Ensures-bind R Q m f db h k = go (m db) h
    where
      go :
          (p : Result A × Db)
          → Ensures R p
          → Ensures Q (elim p.0 [ ok a ↦ f a p.1 | err e ↦ (err e, p.1) ])
      go (ok a, db') h = k a db' h
      go (err e, db') h = tt

module _ {A : Type 0} where
  pub Ensures-map :
      (Q R : A → Db → Type 0) (p : Result A × Db)
      → Ensures Q p
      → ((a : A) (db : Db) → Q a db → R a db)
      → Ensures R p
  Ensures-map Q R (ok a, db) h k = k a db h
  Ensures-map Q R (err e, db) h k = tt

  pub Ensures-any : (p : Result A × Db) → Ensures (λ _ _. Unit {0}) p
  Ensures-any (ok a, db) = tt
  Ensures-any (err e, db) = tt

  pub Ensures-transaction :
      (Q : A → Db → Type 0) (m : Action A) (db : Db)
      → Ensures Q (m db)
      → Ensures Q (transaction m db)
  unfolding transaction
  Ensures-transaction Q m db h = go (m db) h
    where
      go :
          (p : Result A × Db)
          → Ensures Q p
          → Ensures Q (elim p.0 [ ok a ↦ (ok a, p.1) | err e ↦ (err e, db) ])
      go (ok a, db') h = h
      go (err e, db') h = tt

  -- What a transaction does not commit it undoes.
  pub transaction-IsAtomic : (m : Action A) (db : Db) → IsAtomic db (transaction m db)
  unfolding transaction
  transaction-IsAtomic m db = go (m db)
    where
      go :
          (p : Result A × Db)
          → IsAtomic {A = A} db (elim p.0 [ ok a ↦ (ok a, p.1) | err e ↦ (err e, db) ])
      go (ok a, db') = tt
      go (err e, db') = refl

  -- A property of the state that holds before an atomic action and after its return.
  pub Ensures-always :
      (P : Db → Type 0) (db : Db) (p : Result A × Db)
      → P db
      → IsAtomic db p
      → Ensures (λ _ db'. P db') p
      → P p.1
  Ensures-always P db (ok a, db') h atomic e = e
  Ensures-always P db (err x, db') h atomic e = subst P (sym atomic) h

-- A check writes nothing, whether it passes or raises.
pub record IsCheck {A : Type 0} (m : Action A) : Type 0 where
  pub at : (db : Db) → (m db).1 ≡ db

-- After a check that passed the rest runs on the same tables.
pub check-then :
    {A B : Type 0} (P : Result B × Db → Type 0) (m : Action A) (f : A → Action B) (db : Db)
    → IsCheck m
    → ((e : Error) → P (err e, db))
    → ((a : A) → m db ≡ (ok a, db) → P (f a db))
    → P ((m >>= f) db)
check-then {A} {B} P m f db check fails passes = go (m db) refl (check.at db)
  where
    go :
        (p : Result A × Db)
        → m db ≡ p
        → p.1 ≡ db
        → P (elim p.0 [ ok a ↦ f a p.1 | err e ↦ (err e, p.1) ])
    go (ok a, db') e same =
        subst (λ d. P (f a d)) (sym same) (passes a (e ∙ ap (λ (d : Db). (ok a, d)) same))
    go (err x, db') e same = subst (λ (d : Db). P (err x, d)) (sym same) (fails x)

pub transaction_ok :
    {A : Type 0} (m : Action A) (db : Db) (a : A) (db' : Db)
    → m db ≡ (ok a, db')
    → transaction m db ≡ (ok a, db')
unfolding transaction
transaction_ok {A} m db a db' h =
    ap
      (λ (p : Result A × Db). elim p.0 as (λ _. Result A × Db) [
        | ok x ↦ (ok x, p.1)
        | err e ↦ (err e, db)
      ])
      h

-- A bind steps over an action whose end is known.
pub bind_ok :
    {A B : Type 0} (m : Action A) (f : A → Action B) (db : Db) (a : A) (db' : Db)
    → m db ≡ (ok a, db')
    → (m >>= f) db ≡ f a db'
bind_ok {A} {B} m f db a db' h =
    ap
      (λ (p : Result A × Db). elim p.0 as (λ _. Result B × Db) [
        | ok x ↦ f x p.1
        | err e ↦ (err e, p.1)
      ])
      h

pub raise_if-IsCheck : (c : Bool) (e : Error) → IsCheck (raise_if c e)
raise_if-IsCheck true e = record { at = λ db. refl }
raise_if-IsCheck false e = record { at = λ db. refl }

-- What a step that writes nothing is known to return, for the rest.
pub read-then :
    {A B : Type 0} (P : A → Type 0) (Q : B → Db → Type 0) (m : Action A) (f : A → Action B)
    (db : Db)
    → Ensures (λ a db'. (db' ≡ db) × P a) (m db)
    → ((a : A) → P a → Ensures Q (f a db))
    → Ensures Q ((m >>= f) db)
read-then P Q m f db h k =
    Ensures-bind (λ a db'. (db' ≡ db) × P a) Q m f db h
      λ a db' p. subst (λ d. Ensures Q (f a d)) (sym p.0) (k a p.1)

pub or_raise-IsCheck : {A : Type 0} (o : Option A) (e : Error) → IsCheck (or_raise o e)
or_raise-IsCheck none e = record { at = λ db. refl }
or_raise-IsCheck (some a) e = record { at = λ db. refl }

-- What a check that passed knows.
pub raise_if_passed :
    (c : Bool) (e : Error) (db : Db) (u : Unit {0}) → raise_if c e db ≡ (ok u, db) → c ≡ false
raise_if_passed true e db u h = ground (arith, ap (λ (p : Result (Unit {0}) × Db). p.0) h)
raise_if_passed false e db u h = refl

pub or_raise_passed :
    {A : Type 0} (o : Option A) (e : Error) (db : Db) (a : A)
    → or_raise o e db ≡ (ok a, db)
    → o ≡ some a
or_raise_passed none e db a h = ground (arith, ap (λ (p : Result _ × Db). p.0) h)
or_raise_passed (some b) e db a h = ground (arith, ap (λ (p : Result _ × Db). p.0) h)

-- ===== src/Store/Atomic.antt =====
-- `UnitOfWork.transaction` (app/core/uow.py) and `session.begin_nested`: an exception undoes every
-- write of the block.
use nexum_backend.Store.Monad.{Error, ok, err, Action}

-- On a return the writes are committed; on an exception they are rolled back and it is raised on.
unfoldable pub transaction : {A : Type 0} → Action A → Action A
transaction m db = let (r, db') = m db in elim r [ ok a ↦ (ok a, db') | err e ↦ (err e, db) ]

-- The same within a transaction, down to the savepoint.
unfoldable pub savepoint : {A : Type 0} → Action A → Action A
savepoint m db = let (r, db') = m db in elim r [ ok a ↦ (ok a, db') | err e ↦ (err e, db) ]

-- `try: m except IntegrityError: h`, where `h` sees the exception and may raise it again.
unfoldable pub catch : {A : Type 0} → Action A → (Error → Action A) → Action A
catch m h db = let (r, db') = m db in elim r [ ok a ↦ (ok a, db') | err e ↦ h e db' ]

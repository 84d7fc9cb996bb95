-- ===== src/Tests/Relabel.antt =====
-- The theorems on a reclassification at a concrete request.
use nexum_backend.Ledger.Balance.{Reconciles}
use nexum_backend.Store.Ensures.{IsAtomic, Ensures}
use nexum_backend.Prelude.{none}
use nexum_backend.Ledger.Reclassify.{ReclassificationRequest, reclassify_event}
use nexum_backend.Ledger.Relabelled.{IsRelabelled}
use nexum_backend.Ledger.Relabel.{reclassify_event-IsRelabelled, reclassify_event-Reconciles}
use nexum_backend.Tests.Fixtures.{books, books-Reconciles}

abbrev request : ReclassificationRequest
request = record { new_category_id = 20; reason = none; idempotency_key = 90 }

reclassify_event-IsRelabelled_example :
    IsAtomic books (reclassify_event 7 30 request books)
    × Ensures (IsRelabelled 7 30 request books) (reclassify_event 7 30 request books)
reclassify_event-IsRelabelled_example = reclassify_event-IsRelabelled 7 30 request books

reclassify_event-Reconciles_example : Reconciles (reclassify_event 7 30 request books).1
reclassify_event-Reconciles_example =
    reclassify_event-Reconciles 7 30 request books books-Reconciles

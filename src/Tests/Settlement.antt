-- ===== src/Tests/Settlement.antt =====
-- A rent in pesos paid from a dollar account, and its fingerprint.
use nexum_backend.Obligations.Settling.{Settles, resolve_settlement-IsSettled}
use nexum_backend.Obligations.Fingerprint.{upper_or_none}
use nexum_backend.Obligations.Fingerprint.{validate_fingerprint}
use nexum_backend.Prelude.Int.{◌-ℤ◌}
use nexum_backend.Obligations.Allocation.{keep_slice}
use nexum_backend.Obligations.Allocation.{share}
use nexum_backend.Obligations.Allocation.{slice}
use nexum_backend.Obligations.Allocation.{slices_from}
use nexum_backend.Decimal.{mul}
use nexum_backend.Obligations.Settlement.{check_source}
use nexum_backend.Currency.{get_minimum_unit}
use nexum_backend.Decimal.{div}
use nexum_backend.Decimal.{quantize}
use nexum_backend.Currency.{round_units}
use nexum_backend.Currency.{round_to_minimum_unit}
use nexum_backend.Store.Tables.{find_rate}
use nexum_backend.Obligations.Settlement.{settle_by_snapshot}
use nexum_backend.Obligations.Settlement.{settle_across}
use nexum_backend.Prelude.{upper}
use nexum_backend.Prelude.{text_eq}
use nexum_backend.Decimal.Compare.{positive}
use nexum_backend.Obligations.Settlement.{check_amount}
use nexum_backend.Obligations.Slices.{IsSplit, reconcile_fifo-IsSplit}
use nexum_backend.Store.Ensures.{Ensures}
use nexum_backend.Obligations.Fingerprint.{
  PaymentRequest, validate_idempotency_fingerprint, build_idempotency_fingerprint,
}
use nexum_backend.Obligations.Allocation.{reconcile_fifo_source_allocations}
use nexum_backend.Obligations.Retries.{IsSame, validate-build-IsSame}
use nexum_backend.Obligations.Settlement.{resolve_settlement, SettlementRequest, SettlementResult}
use nexum_backend.Prelude.{refl, ◌≡◌, ◌↔◌, [], ◌∷◌, some, none, codes}
use nexum_backend.Prelude.Int.{pos}
use nexum_backend.Decimal.{finite}
use nexum_backend.Store.Monad.{ok}
use nexum_backend.Tests.Fixtures.{book}

abbrev request : SettlementRequest
request = record {
  amount = finite (pos 40002500) 2;
  currency = some (codes "cop");
  source_currency = none;
  source_amount = none;
  quote_id = none;
  rate_snapshot_id = some 40;
}

-- At the rate of 4000.25 pesos a dollar the account pays 100.00 dollars.
abbrev paid : SettlementResult
paid = record {
  source_currency = codes "USD";
  source_amount = record { coef = 10000; places = 2 };
  applied_amount = record { coef = 40002500; places = 2 };
  fx_rate = record { coef = 400025; places = 2 };
  rate_source = some (codes "dolarapi");
  rate_timestamp = some 900;
  quote_id = none;
  rate_snapshot_id = some 40;
}

rent_paid : resolve_settlement 7 (codes "COP") (codes "USD") request book ≡ (ok paid, book)
unfolding resolve_settlement check_amount positive text_eq upper settle_across settle_by_snapshot
    find_rate round_to_minimum_unit round_units quantize div get_minimum_unit check_source mul
rent_paid = refl

resolve_settlement-IsSettled_example :
    Ensures
      (Settles 7 (codes "COP") (codes "USD") request book)
      (resolve_settlement 7 (codes "COP") (codes "USD") request book)
resolve_settlement-IsSettled_example =
    resolve_settlement-IsSettled 7 (codes "COP") (codes "USD") request book

-- Ten cents over three periods.
thirds : reconcile_fifo_source_allocations 10 (1 ∷ 1 ∷ 1 ∷ []) ≡ ok (pos 3 ∷ pos 3 ∷ pos 4 ∷ [])
unfolding reconcile_fifo_source_allocations slices_from slice share quantize div mul keep_slice ◌-ℤ◌
thirds = refl

reconcile_fifo-IsSplit_example : IsSplit (1 ∷ 1 ∷ 1 ∷ []) (pos 10) (pos 3 ∷ pos 3 ∷ pos 4 ∷ [])
reconcile_fifo-IsSplit_example =
    reconcile_fifo-IsSplit 10 1 (1 ∷ 1 ∷ []) (pos 3 ∷ pos 3 ∷ pos 4 ∷ []) thirds

abbrev asked : PaymentRequest
asked = record {
  obligation_id = 60;
  period_id = some 61;
  strategy = codes "specific";
  source_account_id = 3;
  amount = record { coef = 40002500; places = 2 };
  currency = codes "cop";
  source_currency = some (codes "usd");
  quote_id = none;
  rate_snapshot_id = some 40;
  payment_date = none;
}

-- The retry writes the amount with fewer places and its currencies in upper case.
abbrev again : PaymentRequest
again = record asked {
  amount = record { coef = 400025; places = 0 };
  currency = codes "COP";
  source_currency = none;
}

validate-build-IsSame_example :
    (validate_idempotency_fingerprint (some (build_idempotency_fingerprint asked)) [] again ≡ ok tt)
    ↔ IsSame asked again
validate-build-IsSame_example = validate-build-IsSame asked again []

retry_accepted : IsSame asked again
unfolding validate_idempotency_fingerprint validate_fingerprint build_idempotency_fingerprint
    text_eq upper upper_or_none
retry_accepted = validate-build-IsSame_example.0 refl

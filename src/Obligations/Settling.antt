-- ===== src/Obligations/Settling.antt =====
-- A settlement as a whole.
use nexum_backend.Obligations.Settled.{
  IsReadFrom, IsPayment, check_amount-IsPayment, BySnapshot, ByQuote,
}
use nexum_backend.Obligations.Quoted.{Across, settle_across-Across}
use nexum_backend.Store.Ensures.{
  Ensures, read-then, Ensures-map, check-then, raise_if-IsCheck, raise_if_passed,
}
use nexum_backend.Decimal.Compare.{positive, is_hundredths}
use nexum_backend.Decimal.{Ratio}
use nexum_backend.Obligations.Settlement.{
  SettlementRequest, SettlementResult, resolve_settlement, names_other, check_amount, same_currency,
  settle_across,
}
use nexum_backend.Store.Monad.{◌>>◌, Db, Action, raise_if, http, pure, currency_mismatch}
use nexum_backend.Prelude.{
  if◌then◌else◌, true, false, some, none, inl, inr, Text, ℕ, ◌≡◌, upper, text_eq, Bool-cases, ◌⊎◌,
  subst, sym, refl,
}

-- What a settlement of an amount is: within one currency the source pays exactly the amount; at a
-- stored snapshot for the two currencies, not expired, the obligation receives exactly the amount and
-- the source pays it divided by the snapshot's rate and rounded to the currency's unit; by a stored
-- quote for the two currencies, the user's, active and not expired, the two sides are the quote's
-- amounts, which fit its rate on one side at least, and the obligation's is within the tolerance of the
-- amount. The source pays in the account's currency, and both sides are above zero, at most the
-- maximum, and in hundredths on the obligation's side.
pub record IsSettled (user_id : ℕ) (obligation account : Text) (request : SettlementRequest)
    (db : Db) (r : SettlementResult) : Type 0 where
  pub amount : Ratio
  pub asked : positive request.amount ≡ some amount
  pub paid_in : r.source_currency ≡ upper account
  pub source_pays : IsPayment r.source_amount
  pub applied_pays : IsPayment r.applied_amount
  pub applied_exact : is_hundredths r.applied_amount ≡ true
  pub named : names_other request.currency (upper obligation) ≡ false
  pub named_source : names_other request.source_currency (upper account) ≡ false
  pub route :
      (text_eq (upper account) (upper obligation) ≡ true)
        × (r.source_amount ≡ amount)
        × (r.applied_amount ≡ amount)
      ⊎ (text_eq (upper account) (upper obligation) ≡ false)
        × (((k : ℕ) × (request.rate_snapshot_id ≡ some k)
              × BySnapshot (upper account) (upper obligation) amount db k r)
            ⊎ (request.rate_snapshot_id ≡ none)
              × (k : ℕ) × (request.quote_id ≡ some k)
              × ByQuote user_id request (upper account) (upper obligation) amount db k r)

module _ (user_id : ℕ) (obligation account : Text) (request : SettlementRequest) (db : Db) where
  abbrev pub Settles : SettlementResult → Db → Type 0
  Settles r db' = (db' ≡ db) × IsSettled user_id obligation account request db r

  abbrev after_checks : Ratio → Action SettlementResult
  after_checks amount =
      if text_eq (upper account) (upper obligation)
      then pure (same_currency (upper account) amount)
      else settle_across user_id request (upper account) (upper obligation) amount
          request.rate_snapshot_id request.quote_id

  abbrev after_amount : Ratio → Action SettlementResult
  after_amount amount =
      raise_if (names_other request.currency (upper obligation)) (http 422 currency_mismatch)
      >> (raise_if (names_other request.source_currency (upper account))
            (http 422 currency_mismatch)
          >> after_checks amount)

  module _ (named : names_other request.currency (upper obligation) ≡ false)
      (named_source : names_other request.source_currency (upper account) ≡ false) where
    settle_same :
        (amount : Ratio)
        → IsReadFrom request.amount amount
        → text_eq (upper account) (upper obligation) ≡ true
        → IsSettled user_id obligation account request db (same_currency (upper account) amount)
    settle_same amount p e = record {
      amount = amount;
      asked = p.2;
      paid_in = refl;
      source_pays = p.0;
      applied_pays = p.0;
      applied_exact = p.1;
      named = named;
      named_source = named_source;
      route = inl (e, refl, refl);
    }

    settle_other :
        (amount : Ratio)
        → IsReadFrom request.amount amount
        → text_eq (upper account) (upper obligation) ≡ false
        → (r : SettlementResult) (db' : Db)
        → Across user_id request
            (upper account)
            (upper obligation)
            amount
            db
            request.rate_snapshot_id
            request.quote_id
            r
            db'
        → Settles r db'
    settle_other amount p e r db' (same_db, inl (k, found, s)) = (
      same_db,
      record {
        amount = amount;
        asked = p.2;
        paid_in = s.paid_in;
        source_pays = s.source_pays;
        applied_pays = subst IsPayment (sym s.applied) p.0;
        applied_exact = subst (λ a. is_hundredths a ≡ true) (sym s.applied) p.1;
        named = named;
        named_source = named_source;
        route = inr (e, inl (k, found, s));
      },
    )
    settle_other amount p e r db' (same_db, inr (no_snapshot, k, found, s)) = (
      same_db,
      record {
        amount = amount;
        asked = p.2;
        paid_in = s.paid_in;
        source_pays = s.source_pays;
        applied_pays = s.applied_pays;
        applied_exact = s.applied_exact;
        named = named;
        named_source = named_source;
        route = inr (e, inr (no_snapshot, k, found, s));
      },
    )

    after_checks-Settles :
        (amount : Ratio)
        → IsReadFrom request.amount amount
        → Ensures Settles (after_checks amount db)
    after_checks-Settles amount p = elim (Bool-cases (text_eq (upper account) (upper obligation))) [
      | inl e ↦ rw e (refl, settle_same amount p e)
      | inr e ↦ rw e (
          Ensures-map _ Settles _
            (settle_across-Across user_id request (upper account) (upper obligation) amount db
              request.rate_snapshot_id request.quote_id)
            (settle_other amount p e))
    ]

  -- A settlement that is returned wrote nothing and is paid in the account's currency; the currencies
  -- that the request names, if any, are those of the obligation and of the account. Both sides are
  -- above zero and at most the maximum, and the obligation's is in hundredths. Within one currency
  -- both are the amount asked for. Across two, either the snapshot that the request names is stored,
  -- for the two currencies and not expired, the obligation receives the amount and the source pays it
  -- divided by the snapshot's rate, rounded to the currency's unit; or the request names no snapshot,
  -- the quote that it names is stored, the user's, active, for the two currencies and not expired,
  -- the two sides are the quote's amounts, the source's is the one that the request names, if it names
  -- one, one of them is the other at the quote's rate, rounded to its currency's unit, and the
  -- obligation's differs from the amount asked for by at most a thousandth of it or 50.00 COP (0.01 in
  -- another currency).
  pub resolve_settlement-IsSettled :
      Ensures Settles (resolve_settlement user_id obligation account request db)
  unfolding resolve_settlement
  resolve_settlement-IsSettled =
      read-then (IsReadFrom request.amount) Settles (check_amount request.amount) after_amount db
        (check_amount-IsPayment request.amount db)
        λ amount p.
          check-then (Ensures Settles)
            (raise_if (names_other request.currency (upper obligation))
              (http 422 currency_mismatch))
            (λ _.
              raise_if (names_other request.source_currency (upper account))
                (http 422 currency_mismatch)
              >> after_checks amount)
            db (raise_if-IsCheck _ _) (λ _. tt)
            λ u named.
              check-then (Ensures Settles)
                (raise_if (names_other request.source_currency (upper account))
                  (http 422 currency_mismatch))
                (λ _. after_checks amount) db (raise_if-IsCheck _ _) (λ _. tt)
                λ v named_source.
                  after_checks-Settles (raise_if_passed _ _ db u named)
                    (raise_if_passed _ _ db v named_source) amount p

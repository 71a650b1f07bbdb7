-- ===== src/Stellar/CoSigner/Service/Laws.antt =====
-- On `handleCoSignRequest` of lib/stellar/cosigner-service.ts: what a signature rests on.
use centient.Common.{
  ℕ, ◌+◌, ◌≤◌, ◌≡◌, refl, Option, none, some, List, leb, arith, Bool-cases, inl, inr, Result, ok,
  err,
}
use centient.Payout.Db.{Db}
use centient.Stellar.Verify.{DecodedTx}
use centient.Stellar.Ledger.{
  PayoutCoSignRequest, LedgerPayout, Refusal, assert_ledger_agrees, read_ledger_payout,
}
use centient.Stellar.Ledger.Laws.{Owes, assert_ledger_agrees_iff}
use centient.Stellar.Units.{payout_amount_string}
use centient.Stellar.CoSigner.Transport.{SignedHeaders, TransportError}
use centient.Stellar.CoSigner.Request.{
  BigIntValue, natural, below_zero, WireBody, SigningRequest, RequestError, EnvelopeMismatch,
  parse_request, assert_envelope_matches_request, is_isolation_permitted, expected_amount,
}
use centient.Stellar.CoSigner.Request.Laws.{
  IsPaymentOf, assert_envelope_matches_request-IsPaymentOf,
}
use centient.Stellar.CoSigner.Commitments.{Commitment}
use centient.Stellar.CoSigner.Service.{
  Deps, Clock, CoSignerState, CoSignerResponse, signed, unauthorized, not_permitted, malformed,
  conflict, cap_reached, spent_units, sign_within_cap, unless_refused, decide_amount,
  decide_matched, decide_parsed, decide_body, decide_authentic, handle_co_sign_request,
}

-- What the co-signer established for a signature on `tx`.
pub record Owed (deps : Deps) (now : ℕ) (db : Db) (committed : List Commitment) (tx : DecodedTx)
    (request : PayoutCoSignRequest) : Type 0 where
  pub row : LedgerPayout
  pub found : read_ledger_payout db request.reference ≡ some row
  pub owes : Owes row request
  pub pays :
      IsPaymentOf tx request.destination deps.asset (payout_amount_string request.amount_units)
  pub within_cap :
      spent_units now request.reference db committed + request.amount_units ≤ deps.cap_units

-- The response is a refusal, or a signature of the policy key on an envelope that is owed.
abbrev pub RestsOn : Deps → ℕ → Db → List Commitment → CoSignerResponse → Type 0
RestsOn deps now db committed (signed key signature) =
    (key ≡ deps.policy_public_key)
    × (tx : DecodedTx) × (request : PayoutCoSignRequest) × (signature ≡ deps.sign (deps.tx_hash tx))
    × Owed deps now db committed tx request
RestsOn deps now db committed unauthorized = Unit {0}
RestsOn deps now db committed not_permitted = Unit {0}
RestsOn deps now db committed malformed = Unit {0}
RestsOn deps now db committed conflict = Unit {0}
RestsOn deps now db committed cap_reached = Unit {0}

module _ (deps : Deps) (now : ℕ) (db : Db) where
  sign_within_cap-RestsOn :
      (tx : DecodedTx) (request : PayoutCoSignRequest) (state : CoSignerState) (row : LedgerPayout)
      → read_ledger_payout db request.reference ≡ some row
      → Owes row request
      → IsPaymentOf tx request.destination deps.asset (payout_amount_string request.amount_units)
      → RestsOn deps now db state.committed (sign_within_cap deps now db tx request state).0
  sign_within_cap-RestsOn tx request state row found owes pays =
      elim (Bool-cases (
        leb (spent_units now request.reference db state.committed + request.amount_units)
          deps.cap_units)) [
            | inl fits ↦ rw fits (
              refl,
              tx,
              request,
              refl,
              record {
                row = row;
                found = found;
                owes = owes;
                pays = pays;
                within_cap = ground arith;
              },
            )
            | inr full ↦ rw full tt
          ]

  unless_refused-RestsOn :
      (tx : DecodedTx) (request : PayoutCoSignRequest) (state : CoSignerState) (r : Option Refusal)
      → assert_ledger_agrees (read_ledger_payout db request.reference) request ≡ r
      → IsPaymentOf tx request.destination deps.asset (payout_amount_string request.amount_units)
      → RestsOn deps now db state.committed
          (unless_refused r state (sign_within_cap deps now db tx request state)).0
  unless_refused-RestsOn tx request state (some refusal) e pays = tt
  unless_refused-RestsOn tx request state none e pays =
      let (row, found, owes) =
        (assert_ledger_agrees_iff (read_ledger_payout db request.reference) request).0 e in
      sign_within_cap-RestsOn tx request state row found owes pays

  decide_amount-RestsOn :
      (tx : DecodedTx) (request : SigningRequest) (amount : BigIntValue) (state : CoSignerState)
      → IsPaymentOf tx request.destination deps.asset (expected_amount amount)
      → RestsOn deps now db state.committed (decide_amount deps now db tx request amount state).0
  decide_amount-RestsOn tx request (natural units) state pays =
      unless_refused-RestsOn tx _ state _ refl pays
  decide_amount-RestsOn tx request (below_zero units) state pays = tt

  decide_matched-RestsOn :
      (request : SigningRequest) (m : Result EnvelopeMismatch DecodedTx) (state : CoSignerState)
      → assert_envelope_matches_request request (deps.from_xdr request.xdr) deps.asset ≡ m
      → RestsOn deps now db state.committed (decide_matched deps now db request m state).0
  decide_matched-RestsOn request (err mismatch) state e = tt
  decide_matched-RestsOn request (ok tx) state e =
      decide_amount-RestsOn tx request request.amount_units state
        (assert_envelope_matches_request-IsPaymentOf request (deps.from_xdr request.xdr) deps.asset
          tx e).1

  decide_parsed-RestsOn :
      (parsed : Result RequestError SigningRequest) (state : CoSignerState)
      → RestsOn deps now db state.committed (decide_parsed deps now db parsed state).0
  decide_parsed-RestsOn (err e) state = tt
  decide_parsed-RestsOn (ok request) state = decide_matched-RestsOn request _ state refl

  decide_body-RestsOn :
      (body : Option WireBody) (state : CoSignerState)
      → RestsOn deps now db state.committed (decide_body deps now db body state).0
  decide_body-RestsOn none state = tt
  decide_body-RestsOn (some body) state = decide_parsed-RestsOn (parse_request body) state

  decide_authentic-RestsOn :
      (body : ℕ) (refusal : Option TransportError) (state : CoSignerState)
      → RestsOn deps now db state.committed (decide_authentic deps now db body refusal state).0
  decide_authentic-RestsOn body (some e) state = tt
  decide_authentic-RestsOn body none state =
      elim (Bool-cases (is_isolation_permitted deps.isolation deps.network)) [
        | inl permitted ↦ rw permitted (decide_body-RestsOn (deps.read_body body) state)
        | inr simulated ↦ rw simulated tt
      ]

-- A signature that the co-signer gives is its own, on an envelope whose only operation pays, in the
-- configured asset, the destination and the amount that a row of its ledger owes, and the day's
-- broadcasts, what it has signed for other payouts and this amount are within its cap.
pub handle_co_sign_request-RestsOn :
    (deps : Deps) (clock : Clock) (db : Db) (body : ℕ) (headers : SignedHeaders)
    (state : CoSignerState)
    → RestsOn deps clock.decided_at db state.committed
        (handle_co_sign_request deps clock db body headers state).0
unfolding handle_co_sign_request
handle_co_sign_request-RestsOn deps clock db body headers state =
    decide_authentic-RestsOn deps clock.decided_at db body _ _

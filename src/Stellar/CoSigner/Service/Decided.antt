-- ===== src/Stellar/CoSigner/Service/Decided.antt =====
-- On `handleCoSignRequest` of lib/stellar/cosigner-service.ts: what a request leaves committed.
use centient.Common.{
  ℕ, ◌+◌, ◌≡◌, ◌≢◌, ◌⊎◌, refl, true, Option, none, some, List, leb, Bool-cases, inl, inr, Result,
  ok, err,
}
use centient.Payout.Db.{Db}
use centient.Stellar.Verify.{DecodedTx}
use centient.Stellar.Ledger.{PayoutReference, PayoutCoSignRequest, Refusal}
use centient.Stellar.CoSigner.Transport.{SignedHeaders, TransportError}
use centient.Stellar.CoSigner.Request.{
  BigIntValue, natural, below_zero, WireBody, SigningRequest, RequestError, EnvelopeMismatch,
  parse_request, is_isolation_permitted,
}
use centient.Stellar.CoSigner.Commitments.{Commitment, expire, record_commitment}
use centient.Stellar.CoSigner.Service.{
  Deps, Clock, CoSignerState, CoSignerResponse, signed, spent_units, sign_within_cap,
  unless_refused, decide_amount, decide_matched, decide_parsed, decide_body, decide_authentic,
  handle_co_sign_request,
}

-- The payout and the amount that a body asks for.
abbrev of_amount : PayoutReference → BigIntValue → Option (PayoutReference × ℕ)
of_amount reference (natural units) = some (reference, units)
of_amount reference (below_zero units) = none

abbrev of_parsed : Result RequestError SigningRequest → Option (PayoutReference × ℕ)
of_parsed (err e) = none
of_parsed (ok request) = of_amount request.reference request.amount_units

abbrev of_body : Option WireBody → Option (PayoutReference × ℕ)
of_body none = none
of_body (some body) = of_parsed (parse_request body)

abbrev pub requested : Deps → ℕ → Option (PayoutReference × ℕ)
requested deps body = of_body (deps.read_body body)

-- A response that is no signature leaves the commitments, but for what has expired; a signature on
-- what the body asks for is within the cap and is committed.
pub data Decided (deps : Deps) (now : ℕ) (db : Db) (asked : Option (PayoutReference × ℕ))
    (committed : List Commitment) : CoSignerResponse × CoSignerState → Type 0 where
  unsigned :
      (x : CoSignerResponse × CoSignerState)
      → ((key signature : ℕ) → x.0 ≢ signed key signature)
      → (x.1.committed ≡ committed) ⊎ (x.1.committed ≡ expire now committed)
      → Decided deps now db asked committed x
  signing :
      (x : CoSignerResponse × CoSignerState) (key signature : ℕ) (reference : PayoutReference)
      (units : ℕ)
      → x.0 ≡ signed key signature
      → asked ≡ some (reference, units)
      → leb (spent_units now reference db committed + units) deps.cap_units ≡ true
      → x.1.committed ≡ record_commitment now reference units (expire now committed)
      → Decided deps now db asked committed x

module _ (deps : Deps) (now : ℕ) (db : Db) where
  sign_within_cap-Decided :
      (tx : DecodedTx) (request : PayoutCoSignRequest) (state : CoSignerState)
      → Decided deps now db
          (some (request.reference, request.amount_units))
          state.committed
          (sign_within_cap deps now db tx request state)
  sign_within_cap-Decided tx request state =
      elim (Bool-cases (
        leb (spent_units now request.reference db state.committed + request.amount_units)
          deps.cap_units)) [
            | inl fits ↦ rw fits (signing _ _ _ _ _ refl refl fits refl)
            | inr full ↦ rw full (unsigned _ (λ key signature e. cc) (inr refl))
          ]

  unless_refused-Decided :
      (asked : Option (PayoutReference × ℕ)) (r : Option Refusal) (state : CoSignerState)
      (decided : CoSignerResponse × CoSignerState)
      → Decided deps now db asked state.committed decided
      → Decided deps now db asked state.committed (unless_refused r state decided)
  unless_refused-Decided asked (some refusal) state decided h =
      unsigned _ (λ key signature e. cc) (inl refl)
  unless_refused-Decided asked none state decided h = h

  decide_amount-Decided :
      (tx : DecodedTx) (request : SigningRequest) (amount : BigIntValue) (state : CoSignerState)
      → Decided deps now db
          (of_amount request.reference amount)
          state.committed
          (decide_amount deps now db tx request amount state)
  decide_amount-Decided tx request (below_zero units) state =
      unsigned _ (λ key signature e. cc) (inl refl)
  decide_amount-Decided tx request (natural units) state = unless_refused-Decided _ _ state _ (
      sign_within_cap-Decided tx
        (record {
          reference = request.reference;
          destination = request.destination;
          amount_units = units;
        })
        state)

  decide_matched-Decided :
      (request : SigningRequest) (m : Result EnvelopeMismatch DecodedTx) (state : CoSignerState)
      → Decided deps now db
          (of_amount request.reference request.amount_units)
          state.committed
          (decide_matched deps now db request m state)
  decide_matched-Decided request (err mismatch) state =
      unsigned _ (λ key signature e. cc) (inl refl)
  decide_matched-Decided request (ok tx) state =
      decide_amount-Decided tx request request.amount_units state

  decide_parsed-Decided :
      (parsed : Result RequestError SigningRequest) (state : CoSignerState)
      → Decided deps now db
          (of_parsed parsed)
          state.committed
          (decide_parsed deps now db parsed state)
  decide_parsed-Decided (err e) state = unsigned _ (λ key signature e. cc) (inl refl)
  decide_parsed-Decided (ok request) state = decide_matched-Decided request _ state

  decide_body-Decided :
      (body : Option WireBody) (state : CoSignerState)
      → Decided deps now db (of_body body) state.committed (decide_body deps now db body state)
  decide_body-Decided none state = unsigned _ (λ key signature e. cc) (inl refl)
  decide_body-Decided (some body) state = decide_parsed-Decided (parse_request body) state

  decide_authentic-Decided :
      (body : ℕ) (refusal : Option TransportError) (state : CoSignerState)
      → Decided deps now db
          (requested deps body)
          state.committed
          (decide_authentic deps now db body refusal state)
  decide_authentic-Decided body (some e) state = unsigned _ (λ key signature e. cc) (inl refl)
  decide_authentic-Decided body none state =
      elim (Bool-cases (is_isolation_permitted deps.isolation deps.network)) [
        | inl permitted ↦ rw permitted (decide_body-Decided (deps.read_body body) state)
        | inr simulated ↦ rw simulated (unsigned _ (λ key signature e. cc) (inl refl))
      ]

pub handle_co_sign_request-Decided :
    (deps : Deps) (clock : Clock) (db : Db) (body : ℕ) (headers : SignedHeaders)
    (state : CoSignerState)
    → Decided deps clock.decided_at db
        (requested deps body)
        state.committed
        (handle_co_sign_request deps clock db body headers state)
unfolding handle_co_sign_request
handle_co_sign_request-Decided deps clock db body headers state =
    decide_authentic-Decided deps clock.decided_at db body _ _

-- ===== src/Stellar/CoSigner/Service.antt =====
-- `handleCoSignRequest` of lib/stellar/cosigner-service.ts. The lock makes the ledger's reading, the
-- decision and the signature one step on the state.
pub mod Laws
pub mod Decided
pub mod Cap
pub mod Stages
use centient.Common.{
  ℕ, ◌+◌, ◌-◌, ◌%◌, Bool, true, false, Option, none, some, List, leb, if◌then◌else◌, Result, ok,
  err,
}
use centient.Payout.Db.{Db}
use centient.Stellar.Units.{Text}
use centient.Stellar.Verify.{DecodedTx}
use centient.Stellar.Ledger.{
  PayoutReference, PayoutCoSignRequest, Refusal, assert_ledger_agrees, read_ledger_payout,
  read_broadcast_volume_since,
}
use centient.Stellar.CoSigner.Transport.{
  Platform, SignedHeaders, TransportError, SeenNonce, verify_co_sign_request,
}
use centient.Stellar.CoSigner.Request.{
  BigIntValue, natural, below_zero, WireBody, SigningRequest, RequestError, parse_request,
  EnvelopeMismatch, assert_envelope_matches_request, IsolationSetting, Network,
  is_isolation_permitted,
}
use centient.Stellar.CoSigner.Commitments.{Commitment, expire, outstanding, record_commitment}

-- `CoSignerDeps` and what the deployment declares; `from_xdr` and `sign` are the Stellar SDK's, and
-- `read_body` is `JSON.parse`.
pub record Deps : Type 0 where
  pub platform : Platform
  pub secret : Text
  pub policy_public_key : ℕ
  pub sign : ℕ → ℕ
  pub tx_hash : DecodedTx → ℕ
  pub from_xdr : ℕ → Option DecodedTx
  pub read_body : ℕ → Option WireBody
  pub asset : ℕ
  pub cap_units : ℕ
  pub isolation : IsolationSetting
  pub network : Network

pub record CoSignerState : Type 0 where
  pub seen : List SeenNonce
  pub committed : List Commitment

-- The response: 200 with the key and the signature, or 401, 503, 400, 409, and 409 with the code of
-- the cap.
pub data CoSignerResponse : Type 0 where
  signed : ℕ → ℕ → CoSignerResponse
  unauthorized not_permitted malformed conflict cap_reached : CoSignerResponse

abbrev pub day_ms : ℕ
day_ms = 86_400_000

-- `startOfDay`
abbrev pub start_of_day : ℕ → ℕ
start_of_day now = now - now % day_ms

-- What is spent when a payout is decided: the day's broadcasts, and what this process has signed.
abbrev pub spent_units : ℕ → PayoutReference → Db → List Commitment → ℕ
spent_units now key db committed =
    read_broadcast_volume_since db (start_of_day now) + outstanding key (expire now committed)

abbrev pub sign_within_cap :
    Deps
    → ℕ
    → Db
    → DecodedTx
    → PayoutCoSignRequest
    → CoSignerState
    → CoSignerResponse × CoSignerState
sign_within_cap deps now db tx request state =
    if leb (spent_units now request.reference db state.committed + request.amount_units)
      deps.cap_units
    then (
      signed deps.policy_public_key (deps.sign (deps.tx_hash tx)),
      record state {
        committed =
            record_commitment now request.reference request.amount_units
              (expire now state.committed);
      },
    )
    else (cap_reached, record state { committed = expire now state.committed })

abbrev pub unless_refused :
    Option Refusal
    → CoSignerState
    → CoSignerResponse × CoSignerState
    → CoSignerResponse × CoSignerState
unless_refused (some refusal) state decided = (conflict, state)
unless_refused none state decided = decided

-- The critical section.
abbrev pub decide :
    Deps
    → ℕ
    → Db
    → DecodedTx
    → PayoutCoSignRequest
    → CoSignerState
    → CoSignerResponse × CoSignerState
decide deps now db tx request state =
    unless_refused (assert_ledger_agrees (read_ledger_payout db request.reference) request) state
      (sign_within_cap deps now db tx request state)

-- An amount below zero never passes the check of the envelope.
abbrev pub decide_amount :
    Deps
    → ℕ
    → Db
    → DecodedTx
    → SigningRequest
    → BigIntValue
    → CoSignerState
    → CoSignerResponse × CoSignerState
decide_amount deps now db tx request (natural units) state =
    decide deps now db tx
      (record {
        reference = request.reference;
        destination = request.destination;
        amount_units = units;
      })
      state
decide_amount deps now db tx request (below_zero units) state = (conflict, state)

abbrev pub decide_matched :
    Deps
    → ℕ
    → Db
    → SigningRequest
    → Result EnvelopeMismatch DecodedTx
    → CoSignerState
    → CoSignerResponse × CoSignerState
decide_matched deps now db request (err mismatch) state = (conflict, state)
decide_matched deps now db request (ok tx) state =
    decide_amount deps now db tx request request.amount_units state

abbrev pub decide_parsed :
    Deps
    → ℕ
    → Db
    → Result RequestError SigningRequest
    → CoSignerState
    → CoSignerResponse × CoSignerState
decide_parsed deps now db (err e) state = (malformed, state)
decide_parsed deps now db (ok request) state =
    decide_matched deps now db request
      (assert_envelope_matches_request request (deps.from_xdr request.xdr) deps.asset) state

abbrev pub decide_body :
    Deps → ℕ → Db → Option WireBody → CoSignerState → CoSignerResponse × CoSignerState
decide_body deps now db none state = (malformed, state)
decide_body deps now db (some body) state = decide_parsed deps now db (parse_request body) state

abbrev pub decide_authentic :
    Deps → ℕ → Db → ℕ → Option TransportError → CoSignerState → CoSignerResponse × CoSignerState
decide_authentic deps now db body (some e) state = (unauthorized, state)
decide_authentic deps now db body none state =
    if is_isolation_permitted deps.isolation deps.network
    then decide_body deps now db (deps.read_body body) state
    else (not_permitted, state)

-- The readings of the clock in one call: for the timestamp, in the nonce store, and under the lock.
pub record Clock : Type 0 where
  pub verified_at : ℕ
  pub taken_at : ℕ
  pub decided_at : ℕ

-- `handleCoSignRequest`
unfoldable pub handle_co_sign_request :
    Deps → Clock → Db → ℕ → SignedHeaders → CoSignerState → CoSignerResponse × CoSignerState
handle_co_sign_request deps clock db body headers state =
    let (refusal, seen) =
      verify_co_sign_request deps.platform deps.secret clock.verified_at clock.taken_at body headers
        state.seen in
    decide_authentic deps clock.decided_at db body refusal (record state { seen = seen })

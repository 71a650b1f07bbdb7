-- ===== src/Stellar/CoSigner/Service/Cap.antt =====
-- On the cap of `handleCoSignRequest` of lib/stellar/cosigner-service.ts, over the requests that one
-- process serves.
use centient.Common.{
  ℕ, ◌+◌, ◌≤◌, ◌≡◌, ◌≢◌, refl, true, Option, none, some, List, [], ◌∷◌, leb, arith, inl, inr,
}
use centient.Payout.Db.{Db}
use centient.Stellar.Ledger.{PayoutReference}
use centient.Stellar.CoSigner.Transport.{SignedHeaders}
use centient.Stellar.CoSigner.Commitments.{Commitment, expire, outstanding}
use centient.Stellar.CoSigner.Commitments.Laws.{outstanding-expire-le}
use centient.Stellar.CoSigner.Commitments.Flight.{
  in_flight, young-le-total, IsCovered, IsCovered-later, IsCovered-expire,
  IsCovered-record_commitment,
}
use centient.Stellar.CoSigner.Service.{
  Deps, Clock, CoSignerState, CoSignerResponse, signed, unauthorized, not_permitted, malformed,
  conflict, cap_reached, spent_units, handle_co_sign_request,
}
use centient.Stellar.CoSigner.Service.Decided.{
  requested, Decided, unsigned, signing, handle_co_sign_request-Decided,
}

abbrev with_request : ℕ → Option (PayoutReference × ℕ) → List Commitment → List Commitment
with_request now none log = log
with_request now (some (reference, units)) log =
    record { at = now; key = reference; units = units } ∷ log

-- The log of signatures, with that of a response to a request for a payout and an amount.
abbrev pub logged :
    ℕ → Option (PayoutReference × ℕ) → CoSignerResponse → List Commitment → List Commitment
logged now asked (signed key signature) log = with_request now asked log
logged now asked unauthorized log = log
logged now asked not_permitted log = log
logged now asked malformed log = log
logged now asked conflict log = log
logged now asked cap_reached log = log

-- The states that a process comes to, with the log of the signatures that it gave and the time of the
-- last decision, whatever its requests and ledgers, over a clock that does not go back.
pub data Reach (deps : Deps) : CoSignerState → List Commitment → ℕ → Type 0 where
  started : Reach deps (record { seen = []; committed = [] }) [] 0
  served :
      {state : CoSignerState} {log : List Commitment} {last : ℕ} (clock : Clock) (db : Db)
      (body : ℕ) (headers : SignedHeaders)
      → Reach deps state log last
      → last ≤ clock.decided_at
      → Reach deps
          (handle_co_sign_request deps clock db body headers state).1
          (logged clock.decided_at
            (requested deps body)
            (handle_co_sign_request deps clock db body headers state).0
            log)
          clock.decided_at

fits_again :
    (now : ℕ) (key : PayoutReference) (db : Db) (units cap : ℕ) (committed : List Commitment)
    → leb (spent_units now key db committed + units) cap ≡ true
    → outstanding key (expire now (expire now committed)) + units ≤ cap
fits_again now key db units cap committed h =
    ground (arith, outstanding-expire-le now key (expire now committed))

logged-unsigned :
    (now : ℕ) (asked : Option (PayoutReference × ℕ)) (r : CoSignerResponse) (log : List Commitment)
    → ((key signature : ℕ) → r ≢ signed key signature)
    → logged now asked r log ≡ log
logged-unsigned now asked (signed key signature) log h = absurd (h key signature refl)
logged-unsigned now asked unauthorized log h = refl
logged-unsigned now asked not_permitted log h = refl
logged-unsigned now asked malformed log h = refl
logged-unsigned now asked conflict log h = refl
logged-unsigned now asked cap_reached log h = refl

Decided-IsCovered :
    (deps : Deps) (now : ℕ) (db : Db) (asked : Option (PayoutReference × ℕ))
    (committed log : List Commitment) (x : CoSignerResponse × CoSignerState)
    → Decided deps now db asked committed x
    → IsCovered deps.cap_units now committed log
    → IsCovered deps.cap_units now x.1.committed (logged now asked x.0 log)
Decided-IsCovered deps now db asked committed log x (unsigned y refused (inl same)) h =
    rw (logged-unsigned now asked x.0 log refused, same) h
Decided-IsCovered deps now db asked committed log x (unsigned y refused (inr expired)) h =
    rw (logged-unsigned now asked x.0 log refused, expired)
      (IsCovered-expire deps.cap_units now committed log h)
Decided-IsCovered deps now db asked committed log x
      (signing y key signature reference units answer request fits pushed) h =
    rw (answer, request, pushed)
      (IsCovered-record_commitment deps.cap_units now reference units (expire now committed) log
        (fits_again now reference db units deps.cap_units committed fits)
        (IsCovered-expire deps.cap_units now committed log h))

Reach-IsCovered :
    {deps : Deps} {state : CoSignerState} {log : List Commitment} {last : ℕ}
    → Reach deps state log last
    → IsCovered deps.cap_units last state.committed log
unfolding expire
Reach-IsCovered started = record {
  order = omega arith;
  agrees = λ key at later. refl;
  covered = λ now later. omega arith;
  room = omega arith;
}
Reach-IsCovered {deps} (served {state} {log} {last} clock db body headers before order) =
    Decided-IsCovered deps clock.decided_at db (requested deps body) state.committed log _
      (handle_co_sign_request-Decided deps clock db body headers state)
      (IsCovered-later deps.cap_units last clock.decided_at state.committed log order
        (Reach-IsCovered before))

-- Whatever requests a process serves and against whatever ledgers, over a clock that does not go back:
-- at any time after its last decision, the amounts of the signatures that it gave within the
-- lifetime of an envelope do not add up to more than its cap, where a signature is not counted if
-- one of the same payout that is counted was given within that lifetime before it.
pub Reach-WithinCap :
    {deps : Deps} {state : CoSignerState} {log : List Commitment} {last : ℕ} (now : ℕ)
    → Reach deps state log last
    → last ≤ now
    → in_flight now log ≤ deps.cap_units
Reach-WithinCap {deps} {state} {log} now reached later =
    let h = Reach-IsCovered reached in
    omega (arith, h.covered now later, young-le-total now state.committed, h.room)

-- ===== src/Stellar/Submitter.antt =====
-- lib/stellar/payout-submitter.ts: the verdicts of Horizon and the resolution of a submission whose
-- outcome is unknown. What Horizon answers, the clock and a failed write of the journal enter as a
-- `Round` for each pass of the loop; a lookup that throws is `none`. The sentences of the errors are
-- left out, the codes and whether a retry is allowed are kept.
mod Tests
pub mod Samples
pub mod Laws
pub mod Deadline
pub mod Cycle
use centient.Common.{
  ℕ, zero, suc, ◌+◌, ◌*◌, Bool, true, false, Option, none, some, List, [], ◌∷◌, ◌&&◌, ◌||◌, ltb,
  ◌==◌, if◌then◌else◌, any, is_some, Result, ok, err,
}
use centient.Payout.Db.{Db, Note, included_and_failed, expired_unincluded}
use centient.Payout.Attempts.{
  TxStatus, tx_confirmed, tx_failed, tx_not_found, closed_after, void_attempt_row,
}
use centient.Stellar.Envelope.{EnvelopeError, FeeBump}

pub data TxCode : Type 0 where
  tx_bad_seq tx_fee_bump_inner_failed : TxCode
  other_tx : ℕ → TxCode

pub data OpCode : Type 0 where
  op_no_destination op_no_trust : OpCode
  other_op : ℕ → OpCode

-- `resultCodes`; an error that carries none has no code in any field.
pub record ResultCodes : Type 0 where
  pub transaction : Option TxCode
  pub inner_transaction : Option TxCode
  pub operations : List OpCode

pub data PaymentCode : Type 0 where
  included_failed ambiguous_submit unbounded_envelope : PaymentCode
  no_destination no_trust bad_seq : PaymentCode

-- What the submitter throws: a `StellarPaymentError` with its code and whether it is retryable,
-- Horizon's own error, an error before the submission, or a journal that refused.
pub data SubmitError : Type 0 where
  payment_error : PaymentCode → Bool → SubmitError
  horizon_error : ResultCodes → SubmitError
  envelope_error : EnvelopeError → SubmitError
  journal_refused : SubmitError

abbrev pub no_codes : ResultCodes
no_codes = record { transaction = none; inner_transaction = none; operations = [] }

-- Only Horizon's error carries codes.
abbrev pub result_codes : SubmitError → ResultCodes
result_codes (horizon_error codes) = codes
result_codes _ = no_codes

abbrev pub is_bad_seq : Option TxCode → Bool
is_bad_seq (some tx_bad_seq) = true
is_bad_seq _ = false

abbrev pub is_inner_failed : Option TxCode → Bool
is_inner_failed (some tx_fee_bump_inner_failed) = true
is_inner_failed _ = false

-- `isStaleSequence`
abbrev pub is_stale_sequence : ResultCodes → Bool
is_stale_sequence codes =
    is_bad_seq codes.transaction
    || (is_inner_failed codes.transaction && is_bad_seq codes.inner_transaction)

abbrev pub is_nonempty {ℓ} : {A : Type ℓ} → List A → Bool
is_nonempty [] = false
is_nonempty (x ∷ xs) = true

-- `isDefiniteRejection`
abbrev pub is_definite_rejection : ResultCodes → Bool
is_definite_rejection codes = is_some codes.transaction || is_nonempty codes.operations

-- `envelopeExpiryMs`; the text "0" is no bound.
abbrev pub expiry_of : Option ℕ → Option ℕ
expiry_of none = none
expiry_of (some max_time) = if max_time == 0 then none else some (max_time * 1000)

abbrev pub envelope_expiry_ms : FeeBump → Option ℕ
envelope_expiry_ms bump = expiry_of bump.inner.tx.max_time

-- `voidQuietly`: without a journal nothing is written, and a write that fails is swallowed.
abbrev pub void_quietly : Bool → Bool → ℕ → Note → Db → Db
void_quietly journalled fails hash outcome db =
    if journalled && (if fails then false else true) then void_attempt_row hash outcome db else db

-- One pass of the loop, as the world answers it.
pub record Round : Type 0 where
  pub status : Option TxStatus
  pub ledger_close_ms : Option ℕ
  pub void_fails : Bool
  pub clock : ℕ

-- What the loop is about.
pub record Unknown : Type 0 where
  pub envelope_hash : ℕ
  pub expires_at : Option ℕ
  pub resolve_grace_ms : ℕ
  pub journalled : Bool

abbrev pub Outcome : Type 0
Outcome = Result SubmitError ℕ

-- A pass returns or throws, or goes on with the post-expiry ledger that was seen.
pub data Pass : Type 0 where
  resolved : Outcome → Db → Pass
  again : Option ℕ → Pass

-- The wall clock against the resolve deadline.
abbrev pub unless_late : Unknown → ℕ → Round → Option ℕ → Db → Pass
unless_late u expires_at r seen db =
    if ltb (expires_at + u.resolve_grace_ms) r.clock
    then resolved (err (payment_error ambiguous_submit false)) db
    else again seen

-- The ledger is recorded only when it closed past the expiry.
abbrev pub see_ledger : Option ℕ → ℕ → Option ℕ
see_ledger close_ms expires_at = if closed_after close_ms expires_at then close_ms else none

-- The transaction is absent: after a recorded ledger that is the proof.
abbrev pub absent : Unknown → ℕ → Round → Option ℕ → Db → Pass
absent u expires_at r (some close_ms) db =
    resolved (err (payment_error ambiguous_submit true))
      (void_quietly u.journalled r.void_fails u.envelope_hash expired_unincluded db)
absent u expires_at r none db =
    unless_late u expires_at r (see_ledger r.ledger_close_ms expires_at) db

abbrev pub not_included : Unknown → Option ℕ → Round → Option TxStatus → Option ℕ → Db → Pass
not_included u none r status seen db = resolved (err (payment_error ambiguous_submit false)) db
not_included u (some expires_at) r (some tx_not_found) seen db = absent u expires_at r seen db
not_included u (some expires_at) r _ seen db = unless_late u expires_at r seen db

abbrev pub pass : Unknown → Round → Option TxStatus → Option ℕ → Db → Pass
pass u r (some tx_confirmed) seen db = resolved (ok u.envelope_hash) db
pass u r (some tx_failed) seen db =
    resolved (err (payment_error included_failed false))
      (void_quietly u.journalled r.void_fails u.envelope_hash included_and_failed db)
pass u r status seen db = not_included u u.expires_at r status seen db

abbrev pub after_pass : Pass → (Option ℕ → Option (Outcome × Db)) → Option (Outcome × Db)
after_pass (resolved outcome db) continue = some (outcome, db)
after_pass (again seen) continue = continue seen

-- The loop from round `i`; `none` when the fuel ran out.
unfoldable pub resolve_from : ℕ → Unknown → (ℕ → Round) → ℕ → Option ℕ → Db → Option (Outcome × Db)
resolve_from zero u rounds i seen db = none
resolve_from (suc fuel) u rounds i seen db =
    after_pass (pass u (rounds i) (rounds i).status seen db)
      (λ later. resolve_from fuel u rounds (suc i) later db)

-- `resolveAmbiguousSubmit`
unfoldable pub resolve_ambiguous_submit : ℕ → Unknown → (ℕ → Round) → Db → Option (Outcome × Db)
unfolding resolve_from
resolve_ambiguous_submit fuel u rounds db = resolve_from fuel u rounds 0 none db

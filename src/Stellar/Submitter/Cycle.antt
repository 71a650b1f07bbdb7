-- ===== src/Stellar/Submitter/Cycle.antt =====
-- `buildCoSignSubmit` and `submitMultisigPayout` of lib/stellar/payout-submitter.ts. What Horizon,
-- the co-signer and the clocks answer in one run of the cycle is a `Cycle`. `sent` keeps every
-- envelope that was handed to `submitTransaction`, the last one first. The mutex is the order of
-- the calls.
pub mod Laws
pub mod Signed
pub mod Safe
pub mod Journalled
use centient.Common.{
  ℕ, Bool, true, false, Option, none, some, List, [], ◌∷◌, ◌||◌, ◌&&◌, if◌then◌else◌, any, is_some,
  or_else, Result, ok, err, ◌>>=◌,
}
use centient.Payout.Db.{Db, Note, rejected}
use centient.Payout.Attempts.{journal_open}
use centient.Stellar.Ledger.{PayoutReference}
use centient.Stellar.Envelope.{
  Sdk, EnvelopeError, account_unavailable, co_signer_refused, Checked, bump_hash, Payment,
  PaymentTx, FeeBump, DecoratedSignature, PayoutCoSignature, assert_payout_amount_units,
  assert_payout_destination, build_payout_payment, sign_as_platform, apply_co_signature,
  assert_payout_fully_signed, build_multisig_fee_bump,
}
use centient.Stellar.Submitter.{
  ResultCodes, OpCode, op_no_destination, op_no_trust, SubmitError, payment_error, horizon_error,
  envelope_error, journal_refused, unbounded_envelope, no_destination, no_trust, bad_seq,
  result_codes, is_stale_sequence, is_definite_rejection, envelope_expiry_ms, void_quietly, Round,
  Unknown, Outcome, resolve_ambiguous_submit,
}

pub record PayoutRequest : Type 0 where
  pub reference : PayoutReference
  pub destination : ℕ
  pub amount_units : ℕ

-- A signer is known by its public key.
pub record PayoutSignerConfig : Type 0 where
  pub payout_account : ℕ
  pub platform_signer : ℕ
  pub co_signer_public_key : ℕ

pub data SubmitAnswer : Type 0 where
  accepted : ℕ → SubmitAnswer
  refused : ResultCodes → SubmitAnswer

-- A call that throws is `none`; times are in milliseconds, `built_at` in seconds.
pub record Cycle : Type 0 where
  pub account : Option ℕ
  pub base_fee : Option ℕ
  pub built_at : ℕ
  pub payment_signature : Option PayoutCoSignature
  pub fee_bump_signature : Option PayoutCoSignature
  pub opened_at : ℕ
  pub answer : SubmitAnswer
  pub void_fails : Bool
  pub rounds : ℕ → Round

-- What stays the same over a call of `submitMultisigPayout`; `journal` is the submission whose
-- envelopes are recorded.
pub record Setup : Type 0 where
  pub sdk : Sdk
  pub config : PayoutSignerConfig
  pub asset : ℕ
  pub timeout_seconds : Option ℕ
  pub resolve_grace_ms : ℕ
  pub journal : Option ℕ
  pub fuel : ℕ

pub record World : Type 0 where
  pub db : Db
  pub sent : List FeeBump

abbrev pub required_signers : Setup → List ℕ
required_signers s = s.config.platform_signer ∷ s.config.co_signer_public_key ∷ []

abbrev pub answered {ℓ} : {A : Type ℓ} → Option A → EnvelopeError → Checked A
answered none e = err e
answered (some a) e = ok a

-- Both signatures on an envelope of this hash, asserted.
abbrev pub fully_signed : Setup → ℕ → List DecoratedSignature → Checked (List DecoratedSignature)
fully_signed s hash signatures = do
  _ ← assert_payout_fully_signed s.sdk hash signatures (required_signers s)
  ok signatures

abbrev pub co_signed : Setup → ℕ → PayoutCoSignature → Checked (List DecoratedSignature)
co_signed s hash co =
    apply_co_signature s.sdk hash co s.config.co_signer_public_key
      (sign_as_platform s.sdk s.config.platform_signer hash [])
    >>= fully_signed s hash

unfoldable pub sign_twice : Setup → ℕ → Option PayoutCoSignature → Checked (List DecoratedSignature)
sign_twice s hash answer = answered answer co_signer_refused >>= co_signed s hash

abbrev pub fee_of : Setup → Cycle → ℕ
fee_of s c = or_else c.base_fee s.sdk.network_base_fee

-- The payment, signed by both.
abbrev pub sign_payment : Setup → Cycle → PaymentTx → Checked Payment
sign_payment s c tx = do
  signatures ← sign_twice s (s.sdk.payment_hash tx) c.payment_signature
  ok (record { tx = tx; signatures = signatures })

abbrev pub payment_at : Setup → PayoutRequest → Cycle → ℕ → Checked Payment
payment_at s request c sequence =
    build_payout_payment s.sdk s.config.payout_account sequence request.destination s.asset
      request.amount_units (fee_of s c) s.timeout_seconds c.built_at
    >>= sign_payment s c

unfoldable pub signed_payment : Setup → PayoutRequest → Cycle → Checked Payment
unfolding sign_twice
signed_payment s request c = answered c.account account_unavailable >>= payment_at s request c

-- The fee bump around it, signed by both.
abbrev pub sign_bump : Setup → Cycle → FeeBump → Checked FeeBump
sign_bump s c bump = do
  signatures ← sign_twice s (bump_hash s.sdk bump) c.fee_bump_signature
  ok (record bump { signatures = signatures })

abbrev pub wrapped : Setup → Cycle → Payment → Checked FeeBump
wrapped s c payment =
    build_multisig_fee_bump s.sdk s.config.payout_account (fee_of s c) payment (required_signers s)
    >>= sign_bump s c

unfoldable pub signed_envelope : Setup → PayoutRequest → Cycle → Checked FeeBump
unfolding signed_payment sign_twice
signed_envelope s request c = signed_payment s request c >>= wrapped s c

-- The envelope's record in the journal: an error, or the database in which it may be submitted.
abbrev pub opened_db : Option Db → Result SubmitError Db
opened_db none = err journal_refused
opened_db (some db) = ok db

abbrev pub open_bounded : ℕ → ℕ → Cycle → Option ℕ → Db → Result SubmitError Db
open_bounded sid hash c none db = err (payment_error unbounded_envelope false)
open_bounded sid hash c (some expires_at) db =
    opened_db (journal_open sid hash expires_at c.opened_at db)

abbrev pub open_attempt_of : Option ℕ → ℕ → Cycle → Option ℕ → Db → Result SubmitError Db
open_attempt_of none hash c expires_at db = ok db
open_attempt_of (some sid) hash c expires_at db = open_bounded sid hash c expires_at db

abbrev pub with_sent : List FeeBump → Option (Outcome × Db) → Option (Outcome × World)
with_sent sent none = none
with_sent sent (some (outcome, db)) = some (outcome, record { db = db; sent = sent })

-- The submission's answer.
abbrev pub after_submit :
    Setup → Cycle → ℕ → Option ℕ → SubmitAnswer → World → Option (Outcome × World)
after_submit s c hash expires_at (accepted h) rail = some (ok h, rail)
after_submit s c hash expires_at (refused codes) rail =
    if is_definite_rejection codes
    then some (
      err (horizon_error codes),
      record rail { db = void_quietly (is_some s.journal) c.void_fails hash rejected rail.db },
    )
    else with_sent rail.sent (
        resolve_ambiguous_submit s.fuel
          (record {
            envelope_hash = hash;
            expires_at = expires_at;
            resolve_grace_ms = s.resolve_grace_ms;
            journalled = is_some s.journal;
          })
          c.rounds rail.db)

abbrev pub submit_opened :
    Setup → Cycle → FeeBump → Result SubmitError Db → World → Option (Outcome × World)
submit_opened s c bump (err e) rail = some (err e, rail)
submit_opened s c bump (ok db) rail =
    after_submit s c (bump_hash s.sdk bump) (envelope_expiry_ms bump) c.answer
      (record { db = db; sent = bump ∷ rail.sent })

abbrev pub submit_signed : Setup → Cycle → Checked FeeBump → World → Option (Outcome × World)
submit_signed s c (err e) rail = some (err (envelope_error e), rail)
submit_signed s c (ok bump) rail =
    submit_opened s c bump
      (open_attempt_of s.journal (bump_hash s.sdk bump) c (envelope_expiry_ms bump) rail.db) rail

-- `buildCoSignSubmit`; `none` while the resolution has used up its fuel.
unfoldable pub build_co_sign_submit :
    Setup → PayoutRequest → Cycle → World → Option (Outcome × World)
unfolding signed_envelope
build_co_sign_submit s request c rail = submit_signed s c (signed_envelope s request c) rail

abbrev pub is_no_destination : OpCode → Bool
is_no_destination op_no_destination = true
is_no_destination _ = false

abbrev pub is_no_trust : OpCode → Bool
is_no_trust op_no_trust = true
is_no_trust _ = false

-- The second run's error.
abbrev pub after_rebuild : Outcome × World → Outcome × World
after_rebuild (ok h, rail) = (ok h, rail)
after_rebuild (err e, rail) =
    (if is_stale_sequence (result_codes e) then err (payment_error bad_seq true) else err e, rail)

abbrev pub map_rebuild : Option (Outcome × World) → Option (Outcome × World)
map_rebuild none = none
map_rebuild (some r) = some (after_rebuild r)

-- The handler of the first run, which may run the cycle once more.
abbrev pub after_first :
    Outcome × World → (World → Option (Outcome × World)) → Option (Outcome × World)
after_first (ok h, rail) rebuild = some (ok h, rail)
after_first (err e, rail) rebuild =
    if any is_no_destination (result_codes e).operations
    then some (err (payment_error no_destination false), rail)
    else (if any is_no_trust (result_codes e).operations
        then some (err (payment_error no_trust false), rail)
        else (if is_stale_sequence (result_codes e)
            then map_rebuild (rebuild rail)
            else some (err e, rail)))

abbrev pub then_first :
    Option (Outcome × World) → (World → Option (Outcome × World)) → Option (Outcome × World)
then_first none rebuild = none
then_first (some r) rebuild = after_first r rebuild

-- The request is checked before the lock is taken.
abbrev pub checked_request : Setup → PayoutRequest → Checked (Unit {0})
checked_request s request = do
  _ ← assert_payout_destination s.sdk request.destination
  assert_payout_amount_units request.amount_units

abbrev pub unless_unpayable :
    Checked (Unit {0}) → World → Option (Outcome × World) → Option (Outcome × World)
unless_unpayable (err e) rail settled = some (err (envelope_error e), rail)
unless_unpayable (ok _) rail settled = settled

-- `submitMultisigPayout`, whose two runs of the cycle meet `first` and `second`.
unfoldable pub submit_multisig_payout :
    Setup → PayoutRequest → Cycle → Cycle → World → Option (Outcome × World)
unfolding build_co_sign_submit
submit_multisig_payout s request first second rail =
    unless_unpayable (checked_request s request) rail (
      then_first (build_co_sign_submit s request first rail)
        (λ later. build_co_sign_submit s request second later))

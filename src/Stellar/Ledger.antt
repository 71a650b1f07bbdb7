-- ===== src/Stellar/Ledger.antt =====
-- lib/stellar/cosigner-ledger.ts: the co-signer's own answer to whether a payout is owed. Its
-- refusals are values, in place of the thrown messages; a hash or an address is never the empty
-- string.
pub mod Laws
use centient.Common.{
  ℕ, Bool, true, false, Option, none, some, List, ◌==◌, ◌+◌, ◌&&◌, not, leb, if◌then◌else◌, is_some,
  find_first, find_by, or_else, [], ◌∷◌, opt_eq,
}
use centient.Payout.Db.{
  Db, Submission, PayoutJob, PayoutAttempt, PayoutStatus, pending, sent, confirmed, failed,
  abandoned, skipped, needs_reconciliation, accrued, JobStatus, queued, processing, done,
  job_failed,
}
use centient.Payout.Attempts.{is_open_of}

pub data Kind : Type 0 where
  submission payout_job : Kind

-- The words of both tables' status columns.
pub data Word : Type 0 where
  w_pending w_sent w_confirmed w_failed w_abandoned w_skipped w_needs_reconciliation w_accrued :
      Word
  w_queued w_processing w_done : Word

pub record PayoutReference : Type 0 where
  pub kind : Kind
  pub id : ℕ

pub record PayoutCoSignRequest : Type 0 where
  pub reference : PayoutReference
  pub destination : ℕ
  pub amount_units : ℕ

pub record LedgerPayout : Type 0 where
  pub kind : Kind
  pub id : ℕ
  pub status : Word
  pub tx_hash : Option ℕ
  pub open_attempt_hash : Option ℕ
  pub destination : Option ℕ
  pub amount_units : Option ℕ

pub data Refusal : Type 0 where
  no_ledger_row kind_mismatch already_broadcast unsettled_envelope not_signable : Refusal
  no_destination destination_differs no_amount amount_differs : Refusal

abbrev pub kind_eq : Kind → Kind → Bool
kind_eq submission submission = true
kind_eq payout_job payout_job = true
kind_eq _ _ = false

-- `SIGNABLE_STATUSES[kind].includes(status)`
abbrev pub is_signable : Kind → Word → Bool
is_signable submission w_pending = true
is_signable submission w_failed = true
is_signable submission _ = false
is_signable payout_job w_queued = true
is_signable payout_job w_processing = true
is_signable payout_job _ = false

abbrev pub amount_refusal : Option ℕ → ℕ → Option Refusal
amount_refusal none asked = some no_amount
amount_refusal (some owed) asked = if owed == asked then none else some amount_differs

abbrev pub destination_refusal : Option ℕ → ℕ → Option Refusal → Option Refusal
destination_refusal none asked next = some no_destination
destination_refusal (some d) asked next = if d == asked then next else some destination_differs

-- The tests on a row that was found, in the order in which they are made.
abbrev pub row_refusal : LedgerPayout → PayoutCoSignRequest → Option Refusal
row_refusal row request =
    if kind_eq row.kind request.reference.kind
    then (if is_some row.tx_hash
        then some already_broadcast
        else (if is_some row.open_attempt_hash
            then some unsettled_envelope
            else (if is_signable request.reference.kind row.status
                then destination_refusal row.destination request.destination
                    (amount_refusal row.amount_units request.amount_units)
                else some not_signable)))
    else some kind_mismatch

-- `assertLedgerAgrees`: `none` when it returns.
abbrev pub assert_ledger_agrees : Option LedgerPayout → PayoutCoSignRequest → Option Refusal
assert_ledger_agrees none request = some no_ledger_row
assert_ledger_agrees (some row) request = row_refusal row request

abbrev pub payout_word : PayoutStatus → Word
payout_word pending = w_pending
payout_word sent = w_sent
payout_word confirmed = w_confirmed
payout_word failed = w_failed
payout_word abandoned = w_abandoned
payout_word skipped = w_skipped
payout_word needs_reconciliation = w_needs_reconciliation
payout_word accrued = w_accrued

abbrev pub job_word : JobStatus → Word
job_word queued = w_queued
job_word processing = w_processing
job_word done = w_done
job_word job_failed = w_failed

-- The sub-select of the open envelope.
abbrev pub open_hash : Option PayoutAttempt → Option ℕ
open_hash none = none
open_hash (some a) = some a.envelope_hash

abbrev pub of_submission : ℕ → Option PayoutAttempt → Option Submission → Option LedgerPayout
of_submission id attempt none = none
of_submission id attempt (some row) = some (record {
  kind = submission;
  id = id;
  status = payout_word row.payout_status;
  tx_hash = row.payout_tx_hash;
  open_attempt_hash = open_hash attempt;
  destination = row.wallet_address;
  amount_units = some row.payout_amount_units;
})

abbrev pub of_job : ℕ → Option PayoutJob → Option LedgerPayout
of_job id none = none
of_job id (some row) = some (record {
  kind = payout_job;
  id = id;
  status = job_word row.status;
  tx_hash = row.tx_hash;
  open_attempt_hash = none;
  destination = row.destination_address;
  amount_units = row.amount_units;
})

abbrev pub read_row : Kind → ℕ → Db → Option LedgerPayout
read_row submission id db =
    of_submission id (find_first (is_open_of id) db.attempts)
      (find_by (λ s. s.id) id db.submissions)
read_row payout_job id db = of_job id (find_by (λ j. j.id) id db.jobs)

-- `readLedgerPayout`
abbrev pub read_ledger_payout : Db → PayoutReference → Option LedgerPayout
read_ledger_payout db reference = read_row reference.kind reference.id db

-- `broadcastAt >= since`; a null column is never selected.
abbrev pub at_or_after : Option ℕ → ℕ → Bool
at_or_after none since = false
at_or_after (some at) since = leb since at

abbrev pub is_broadcast_since : ℕ → PayoutJob → Bool
is_broadcast_since since j =
    at_or_after j.broadcast_at since && (is_some j.tx_hash && is_some j.amount_units)

unfoldable pub volume_of : (PayoutJob → Bool) → List PayoutJob → ℕ
volume_of p [] = 0
volume_of p (j ∷ rows) = (if p j then or_else j.amount_units 0 else 0) + volume_of p rows

-- `readBroadcastVolumeSince`, and the volume of `getPayoutActivitySince` (lib/payout-cap.ts).
abbrev pub read_broadcast_volume_since : Db → ℕ → ℕ
read_broadcast_volume_since db since = volume_of (is_broadcast_since since) db.jobs

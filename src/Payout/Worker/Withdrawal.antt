-- ===== src/Payout/Worker/Withdrawal.antt =====
-- lib/payout-worker.ts: `processWithdrawalJob`. A withdrawal is not journalled, so its broadcast
-- writes nothing and enters as its outcome. The clock is read once, at `at`.
pub mod Laws
use centient.Common.{
  ℕ, ◌+◌, Bool, true, false, Option, none, some, List, ◌&&◌, not, leb, if◌then◌else◌, find_by,
  Result, ok, err,
}
use centient.Payout.Db.{
  Db, PayoutJob, JobStatus, Note, no_destination, cap_exceeded, User, manual_reconciliation,
  non_retryable, payer_error,
}
use centient.Payout.Broadcast.{Fault, persist_accepted_payment}
use centient.Payout.Record.{update_job, set_tuple, fail_job, quarantine_payout_job, max_retries}
use centient.Payout.Service.{
  PayError, PayOutcome, paid_as, pay_failed, cap_reached, cosigner_cap, cosigner_unavailable,
  other_failure, stellar_failure, Ended, returned, threw, not_found, is_ambiguous,
}
use centient.Payout.Worker.{hold_job, requeue_job, cosigner_retry_after_ms}
use centient.Balance.User.{BalanceError, find_user, refund_reversal}

-- `safeRefund`: a refund that throws is reported, and leaves the database as it was.
abbrev pub kept : Result BalanceError (ℕ × Db) → Db → Db
kept (ok (_, db')) db = db'
kept (err _) db = db

unfoldable pub safe_refund : ℕ → ℕ → ℕ → Db → Db
safe_refund uid amount jid db = kept (refund_reversal uid amount (some jid) db) db

abbrev pub fail_for_good : ℕ → Note → ℕ → PayoutJob → PayoutJob
fail_for_good at note count j = record (fail_job at note j) { retry_count = count }

abbrev pub set_job : ℕ → (PayoutJob → PayoutJob) → Db → Db
set_job jid f db = update_job jid f db

-- The write that records the broadcast of a withdrawal.
unfoldable pub record_withdrawal : ℕ → ℕ → ℕ → ℕ → Db → Option Db
record_withdrawal jid amount hash at db = some (update_job jid (set_tuple hash amount at) db)

-- Any other failure is tried again, three times in all.
abbrev pub withdrawal_retry : ℕ → ℕ → ℕ → ℕ → ℕ → Db → Db
withdrawal_retry jid uid amount at count db =
    if leb max_retries count
    then safe_refund uid amount jid (set_job jid (fail_for_good at payer_error count) db)
    else set_job jid (requeue_job count payer_error) db

abbrev pub withdrawal_refused : ℕ → ℕ → ℕ → ℕ → PayError → Db → Db
withdrawal_refused jid uid amount at e db =
    if is_ambiguous e
    then set_job jid (fail_for_good at manual_reconciliation max_retries) db
    else safe_refund uid amount jid (set_job jid (fail_for_good at payer_error max_retries) db)

abbrev pub withdrawal_caught : ℕ → ℕ → ℕ → ℕ → PayoutJob → PayError → Db → Db
withdrawal_caught jid uid amount at j cosigner_unavailable db =
    set_job jid (hold_job (at + cosigner_retry_after_ms) payer_error) db
withdrawal_caught jid uid amount at j cap_reached db =
    safe_refund uid amount jid (set_job jid (fail_for_good at cap_exceeded max_retries) db)
withdrawal_caught jid uid amount at j cosigner_cap db =
    safe_refund uid amount jid (set_job jid (fail_for_good at cap_exceeded max_retries) db)
withdrawal_caught jid uid amount at j (stellar_failure code false) db =
    withdrawal_refused jid uid amount at (stellar_failure code false) db
withdrawal_caught jid uid amount at j (stellar_failure code true) db =
    withdrawal_retry jid uid amount at (j.retry_count + 1) db
withdrawal_caught jid uid amount at j other_failure db =
    withdrawal_retry jid uid amount at (j.retry_count + 1) db

abbrev pub withdrawal_paid : ℕ → ℕ → ℕ → List Fault → ℕ → Db → Db
withdrawal_paid jid amount at faults hash db =
    (persist_accepted_payment (record_withdrawal jid amount hash at) (quarantine_payout_job jid at)
      faults db).db

-- The address on the job, else the user's wallet.
abbrev pub user_wallet : Option User → Option ℕ
user_wallet none = none
user_wallet (some u) = u.wallet_address

abbrev pub destination_of : Option ℕ → Option User → Option ℕ
destination_of none user = user_wallet user
destination_of (some d) user = some d

abbrev pub withdrawal_ended : ℕ → ℕ → ℕ → ℕ → List Fault → PayoutJob → PayOutcome → Db → Db
withdrawal_ended jid uid amount at faults j (paid_as hash) db =
    withdrawal_paid jid amount at faults hash db
withdrawal_ended jid uid amount at faults j (pay_failed e) db =
    withdrawal_caught jid uid amount at j e db

abbrev pub withdrawal_to :
    ℕ → ℕ → ℕ → ℕ → List Fault → (ℕ → PayOutcome) → PayoutJob → Option ℕ → Db → Db
withdrawal_to jid uid amount at faults pay j none db =
    safe_refund uid amount jid (set_job jid (fail_job at no_destination) db)
withdrawal_to jid uid amount at faults pay j (some d) db =
    withdrawal_ended jid uid amount at faults j (pay d) db

-- For a job that is not there the update of it throws.
abbrev pub withdrawal_found :
    ℕ → ℕ → ℕ → ℕ → List Fault → (ℕ → PayOutcome) → Option PayoutJob → Db → Ended × Db
withdrawal_found jid uid amount at faults pay none db = (threw not_found, db)
withdrawal_found jid uid amount at faults pay (some j) db = (
  returned,
  withdrawal_to jid uid amount at faults pay j
      (destination_of j.destination_address (find_user uid db)) db,
)

abbrev pub find_job : ℕ → Db → Option PayoutJob
find_job jid db = find_by (λ j. j.id) jid db.jobs

-- `pay` is the broadcast to an address.
unfoldable pub process_withdrawal_job :
    ℕ → ℕ → ℕ → ℕ → List Fault → (ℕ → PayOutcome) → Db → Ended × Db
process_withdrawal_job jid uid amount at faults pay db =
    withdrawal_found jid uid amount at faults pay (find_job jid db) db

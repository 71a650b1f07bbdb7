-- ===== src/Payout/Reconciler.antt =====
-- lib/reconciler.ts: the claims of the reconciler's loop, and `processWithdrawal`, which settles a
-- withdrawal that was broadcast. `none` is a call that throws.
pub mod Laws
use centient.Common.{
  ℕ, ◌+◌, Bool, true, false, Option, none, some, List, [], ◌∷◌, ◌==◌, ◌&&◌, ltb, leb, if◌then◌else◌,
  is_some, find_by, update_by,
}
use centient.Payout.Db.{
  Db, Submission, PayoutJob, PayoutStatus, sent, JobStatus, done, Note, transaction_failed,
  horizon_read_failed,
}
use centient.Payout.Attempts.{TxStatus, tx_confirmed, tx_failed, tx_not_found}
use centient.Payout.Claim.{update_submission, set_last_retried}
use centient.Payout.Record.{update_job, max_retries}
use centient.Payout.Settled.{from_sent, is_at}
use centient.Payout.Reconcile.{older}
use centient.Payout.Worker.{is_processing, earlier}
use centient.Payout.Worker.Withdrawal.{safe_refund, fail_for_good, find_job}
use centient.Balance.User.{is_withdrawal}

-- `STALE_PROCESSING_MS` of the reconciler.
abbrev pub recheck_stale_ms : ℕ
recheck_stale_ms = 30_000

abbrev pub is_unread : Option ℕ → ℕ → Bool
is_unread none now = true
is_unread (some at) now = ltb (at + recheck_stale_ms) now

abbrev pub is_checkable : ℕ → Submission → Bool
is_checkable now s =
    is_at from_sent s.payout_status && (is_some s.payout_tx_hash && is_unread s.last_retried_at now)

pub next_sent : ℕ → List Submission → Option Submission
next_sent now [] = none
next_sent now (s ∷ rows) =
    let rest = next_sent now rows in if is_checkable now s then some (older s rest) else rest

abbrev pub lease_sent : ℕ → Option Submission → Db → Option Submission × Db
lease_sent now none db = (none, db)
lease_sent now (some s) db =
    (some (set_last_retried (some now) s), update_submission s.id (set_last_retried (some now)) db)

-- `claimNextSubmission`, one statement.
unfoldable pub claim_next_submission : ℕ → Db → Option Submission × Db
unfolding next_sent
claim_next_submission now db = lease_sent now (next_sent now db.submissions) db

abbrev pub is_settleable : ℕ → PayoutJob → Bool
is_settleable now j =
    is_withdrawal j.job_type
    && (is_processing j.status && (is_some j.tx_hash && is_unread j.worker_heartbeat_at now))

pub next_withdrawal : ℕ → List PayoutJob → Option PayoutJob
next_withdrawal now [] = none
next_withdrawal now (j ∷ jobs) =
    let rest = next_withdrawal now jobs in
    if is_settleable now j then some (earlier j rest) else rest

abbrev pub beat : ℕ → PayoutJob → PayoutJob
beat now j = record j { worker_heartbeat_at = some now }

abbrev pub lease_withdrawal : ℕ → Option PayoutJob → Db → Option PayoutJob × Db
lease_withdrawal now none db = (none, db)
lease_withdrawal now (some j) db = (some (beat now j), update_job j.id (beat now) db)

-- `claimNextWithdrawal`, one statement.
unfoldable pub claim_next_withdrawal : ℕ → Db → Option PayoutJob × Db
unfolding next_withdrawal
claim_next_withdrawal now db = lease_withdrawal now (next_withdrawal now db.jobs) db

-- The move out of `processing`, which one reconciler wins, and the refund behind it.
abbrev pub give_back : ℕ → ℕ → ℕ → ℕ → ℕ → PayoutJob → Db → Db
give_back jid uid amount at count j db =
    if is_processing j.status
    then safe_refund uid amount jid (record db {
      jobs =
          update_by (λ k. k.id) jid (λ k. is_processing k.status)
            (fail_for_good at transaction_failed count) db.jobs;
    })
    else db

abbrev pub count_retry : ℕ → ℕ → PayoutJob → PayoutJob
count_retry at count j = record j {
  retry_count = count;
  worker_heartbeat_at = some at;
  last_error = some transaction_failed;
}

abbrev pub withdrawal_retry_found : ℕ → ℕ → ℕ → ℕ → Option PayoutJob → Db → Db
withdrawal_retry_found jid uid amount at none db = db
withdrawal_retry_found jid uid amount at (some j) db =
    if leb max_retries (j.retry_count + 1)
    then give_back jid uid amount at (j.retry_count + 1) j db
    else update_job jid (count_retry at (j.retry_count + 1)) db

-- `handleWithdrawalRetry`
unfoldable pub handle_withdrawal_retry : ℕ → ℕ → ℕ → ℕ → Db → Db
handle_withdrawal_retry jid uid amount at db =
    withdrawal_retry_found jid uid amount at (find_job jid db) db

-- An update of a job that is not there throws.
abbrev pub update_found : ℕ → (PayoutJob → PayoutJob) → Option PayoutJob → Db → Option Db
update_found jid f none db = none
update_found jid f (some _) db = some (update_job jid f db)

abbrev pub finish_withdrawal : ℕ → PayoutJob → PayoutJob
finish_withdrawal at j = record j { status = done; completed_at = some at }

abbrev pub note_read_error : PayoutJob → PayoutJob
note_read_error j = record j { last_error = some horizon_read_failed }

-- `processWithdrawal`, by what Horizon says of the hash; `none` for a read that throws.
unfoldable pub process_withdrawal : ℕ → ℕ → ℕ → ℕ → Option TxStatus → Db → Option Db
process_withdrawal jid uid amount at none db = update_found jid note_read_error (find_job jid db) db
process_withdrawal jid uid amount at (some tx_confirmed) db =
    update_found jid (finish_withdrawal at) (find_job jid db) db
process_withdrawal jid uid amount at (some tx_failed) db =
    some (handle_withdrawal_retry jid uid amount at db)
process_withdrawal jid uid amount at (some tx_not_found) db = some db

-- ===== src/Payout/Record.antt =====
-- The write that records an accepted payment of a submission, and its quarantine: the callbacks
-- that lib/payout-service.ts and lib/payout-worker.ts hand to `persistAcceptedPayment`.
pub mod Laws
pub mod Replays
use centient.Common.{
  ℕ, suc, ◌+◌, Bool, true, false, Option, none, some, List, [], ◌∷◌, ◌==◌, if◌then◌else◌, opt_eq,
  find_by, find_first, update_by, update_many, always,
}
use centient.Payout.Db.{
  Db, Submission, PayoutStatus, sent, needs_reconciliation, PayoutJob, JobStatus, done, job_failed,
  processing, submission_payout, User, Note, reconciliation_error,
}
use centient.Payout.Attempts.{confirm_attempt}
use centient.Payout.Claim.{find_submission, update_submission}

abbrev pub max_retries : ℕ
max_retries = 3

abbrev pub is_job_of : ℕ → PayoutJob → Bool
is_job_of sid j = opt_eq j.submission_id (some sid)

abbrev pub update_job : ℕ → (PayoutJob → PayoutJob) → Db → Db
update_job jid f db = record db { jobs = update_by (λ j. j.id) jid always f db.jobs }

-- `payoutStatus: "sent"` with the hash; the retry path stamps `lastRetriedAt` as well.
abbrev pub set_sent : ℕ → Option ℕ → Submission → Submission
set_sent hash none s = record s { payout_status = sent; payout_tx_hash = some hash }
set_sent hash (some at) s = record s {
  payout_status = sent;
  payout_tx_hash = some hash;
  last_retried_at = some at;
}

abbrev pub credit_earned : ℕ → User → User
credit_earned amount u = record u {
  submission_count = u.submission_count + 1;
  total_earned_units = u.total_earned_units + amount;
}

abbrev pub credit_user : ℕ → ℕ → Db → Db
credit_user uid amount db = record db {
  users = update_by (λ u. u.id) uid always (credit_earned amount) db.users;
}

-- The one-time transition: the hash, the attempt's confirmation and the credit, in one write. The
-- update of a user that is not there throws.
abbrev pub mark_sent : ℕ → ℕ → ℕ → ℕ → Option ℕ → Option User → Db → Option Db
mark_sent sid uid amount hash at none db = none
mark_sent sid uid amount hash at (some u) db =
    some
      (credit_user uid amount (confirm_attempt hash (update_submission sid (set_sent hash at) db)))

-- A row that carries a hash already: a replay if it is this one, and otherwise not ours.
abbrev pub replay_of : ℕ → ℕ → Db → Option Db
replay_of hash recorded db = if recorded == hash then some db else none

abbrev pub and_then : (Db → Db) → Option Db → Option Db
and_then finish none = none
and_then finish (some db) = some (finish db)

-- `uid` and `amount` are the submission's, as the payer read them before it paid.
abbrev pub record_hash : ℕ → ℕ → ℕ → ℕ → Option ℕ → (Db → Db) → Option ℕ → Db → Option Db
record_hash sid uid amount hash at finish none db =
    and_then finish (mark_sent sid uid amount hash at (find_by (λ u. u.id) uid db.users) db)
record_hash sid uid amount hash at finish (some recorded) db = replay_of hash recorded db

abbrev pub record_row : ℕ → ℕ → ℕ → ℕ → Option ℕ → (Db → Db) → Option Submission → Db → Option Db
record_row sid uid amount hash at finish none db = none
record_row sid uid amount hash at finish (some s) db =
    record_hash sid uid amount hash at finish s.payout_tx_hash db

abbrev pub settle_job : ℕ → ℕ → ℕ → PayoutJob → PayoutJob
settle_job hash amount at j = record j {
  amount_units = some amount;
  tx_hash = some hash;
  broadcast_at = some at;
  status = done;
  completed_at = some at;
  last_error = none;
}

-- `payoutJob.upsert({ where: { submissionId } })`; `id` is the fresh key of a row that is created.
pub upsert_job : ℕ → ℕ → ℕ → ℕ → ℕ → Db → Db
upsert_job id sid hash amount at db = elim (find_first (is_job_of sid) db.jobs) [
  | none ↦ record db {
    jobs =
        record {
          id = id;
          job_type = submission_payout;
          submission_id = some sid;
          user_id = none;
          amount_units = some amount;
          destination_address = none;
          tx_hash = some hash;
          broadcast_at = some at;
          status = done;
          worker_heartbeat_at = none;
          completed_at = some at;
          last_error = none;
          retry_count = 0;
          not_before = none;
          created_at = at;
        }
        ∷ db.jobs;
  }
  | some _ ↦ record db { jobs = update_many (is_job_of sid) (settle_job hash amount at) db.jobs }
]

-- The retry path's callback.
unfoldable pub record_retry : ℕ → ℕ → ℕ → ℕ → ℕ → ℕ → Db → Option Db
record_retry id sid uid amount hash at db =
    record_row sid uid amount hash (some at) (upsert_job id sid hash amount at)
      (find_submission sid db) db

-- The worker's callback: the job's tuple first, whether or not the row's transition is won.
abbrev pub set_tuple : ℕ → ℕ → ℕ → PayoutJob → PayoutJob
set_tuple hash amount at j = record j {
  tx_hash = some hash;
  amount_units = some amount;
  broadcast_at = some at;
  worker_heartbeat_at = some at;
}

unfoldable pub record_worker : ℕ → ℕ → ℕ → ℕ → ℕ → ℕ → Db → Option Db
record_worker jid sid uid amount hash at db =
    record_row sid uid amount hash none (λ d. d) (find_submission sid db)
      (update_job jid (set_tuple hash amount at) db)

abbrev pub set_quarantined : ℕ → ℕ → Submission → Submission
set_quarantined hash at s = record s {
  payout_status = needs_reconciliation;
  payout_tx_hash = some hash;
  last_retried_at = some at;
}

-- The retry path's quarantine.
unfoldable pub quarantine_retry : ℕ → ℕ → ℕ → Db → Option Db
quarantine_retry sid hash at db = some (update_submission sid (set_quarantined hash at) db)

abbrev pub fail_job : ℕ → Note → PayoutJob → PayoutJob
fail_job at note j = record j {
  status = job_failed;
  completed_at = some at;
  last_error = some note;
}

-- `quarantinePayoutJob`
unfoldable pub quarantine_payout_job : ℕ → ℕ → Db → Option Db
quarantine_payout_job jid at db = some (
    update_job jid (λ j. record (fail_job at reconciliation_error j) { retry_count = max_retries })
      db)

-- The worker's quarantine of a submission payout covers both rows.
unfoldable pub quarantine_worker : ℕ → ℕ → ℕ → ℕ → Db → Option Db
unfolding quarantine_payout_job
quarantine_worker jid sid hash at db = quarantine_payout_job jid at (
    update_submission sid
      (λ s. record s { payout_status = needs_reconciliation; payout_tx_hash = some hash }) db)

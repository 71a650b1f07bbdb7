-- ===== src/Payout/Cron.antt =====
-- app/api/cron/payout-retry/route.ts: the rows that the retry cron selects, its retry of one row, and
-- the sweep that ends a pass. The order in which a pass takes the rows is an argument, since the
-- rows of different wallets are retried in parallel.
pub mod Laws
use centient.Common.{
  ℕ, ◌+◌, ◌-◌, ◌*◌, ◌^◌, min, Bool, true, false, Option, none, some, List, [], ◌∷◌, ◌&&◌, ◌||◌, not,
  ltb, leb, if◌then◌else◌, any, or_else, update_many,
}
use centient.Payout.Db.{
  Db, Submission, PayoutJob, PayoutStatus, pending, failed, abandoned, JobStatus, queued,
  processing, Note, non_retryable,
}
use centient.Payout.Claim.{update_submission, submission_retry_budget}
use centient.Payout.Record.{is_job_of}
use centient.Payout.Service.{
  Retry, Ended, returned, threw, RailError, pay_error, PayError, stellar_failure, reprocess_payout,
}

abbrev pub base_backoff_ms : ℕ
base_backoff_ms = 60_000

abbrev pub max_backoff_ms : ℕ
max_backoff_ms = 480_000

abbrev pub stuck_payout_threshold_ms : ℕ
stuck_payout_threshold_ms = 300_000

abbrev pub is_live : JobStatus → Bool
is_live queued = true
is_live processing = true
is_live _ = false

abbrev pub has_live_job : ℕ → Db → Bool
has_live_job sid db = any (λ j. is_job_of sid j && is_live j.status) db.jobs

abbrev pub is_pending_payout : PayoutStatus → Bool
is_pending_payout pending = true
is_pending_payout _ = false

abbrev pub is_failed_payout : PayoutStatus → Bool
is_failed_payout failed = true
is_failed_payout _ = false

-- The condition of the first query.
abbrev pub is_stuck : ℕ → Db → Submission → Bool
is_stuck now db s =
    is_pending_payout s.payout_status
    && (ltb s.retry_count submission_retry_budget
        && (not (has_live_job s.id db) && ltb stuck_payout_threshold_ms (now - s.created_at)))

abbrev pub backoff_ms : ℕ → ℕ
backoff_ms count = min (2 ^ count * base_backoff_ms) max_backoff_ms

-- The condition of the second query.
abbrev pub is_eligible : ℕ → Db → Submission → Bool
is_eligible now db s =
    is_failed_payout s.payout_status
    && (ltb s.retry_count submission_retry_budget
        && (not (has_live_job s.id db)
            && leb (backoff_ms s.retry_count) (now - or_else s.last_retried_at s.created_at)))

abbrev pub set_exhausted : Note → Submission → Submission
set_exhausted note s = record s { payout_error = some note; retry_count = submission_retry_budget }

abbrev pub retry_caught : ℕ → RailError → Db → Db
retry_caught sid (pay_error (stellar_failure code false)) db =
    update_submission sid (set_exhausted (non_retryable code)) db
retry_caught sid _ db = db

abbrev pub retried : ℕ → Ended × Db → Bool × Db
retried sid (returned, db) = (true, db)
retried sid (threw e, db) = (false, retry_caught sid e db)

-- One row of a pass: whether the retry returned.
unfoldable pub retry_one : Retry → ℕ → Db → Bool × Db
retry_one r sid db = retried sid (reprocess_payout r sid db)

abbrev pub is_exhausted : Submission → Bool
is_exhausted s =
    (is_failed_payout s.payout_status || is_pending_payout s.payout_status)
    && leb submission_retry_budget s.retry_count

abbrev pub set_abandoned : Submission → Submission
set_abandoned s = record s { payout_status = abandoned }

unfoldable pub abandon_sweep : Db → Db
abandon_sweep db = record db { submissions = update_many is_exhausted set_abandoned db.submissions }

-- The rows of a pass, in the order in which they are taken.
pub retry_all : List (ℕ × Retry) → Db → Db
retry_all [] db = db
retry_all ((sid, r) ∷ rows) db = retry_all rows (retry_one r sid db).1

unfoldable pub cron_pass : List (ℕ × Retry) → Db → Db
unfolding retry_all
cron_pass rows db = abandon_sweep (retry_all rows db)

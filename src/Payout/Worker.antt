-- ===== src/Payout/Worker.antt =====
-- lib/payout-worker.ts: the claim of the next job, and what both kinds of job share.
pub mod Withdrawal
pub mod Payout
pub mod Claiming
use centient.Common.{
  ℕ, ◌+◌, ◌-◌, Bool, true, false, Option, none, some, List, [], ◌∷◌, ◌&&◌, ◌||◌, ltb, leb,
  if◌then◌else◌, or_else,
}
use centient.Payout.Db.{Db, PayoutJob, JobStatus, queued, processing, JobType, Note}
use centient.Payout.Record.{update_job}

abbrev pub stale_processing_ms : ℕ
stale_processing_ms = 60_000

-- `COSIGNER_RETRY_AFTER_MS` of lib/payout-deferral.ts
abbrev pub cosigner_retry_after_ms : ℕ
cosigner_retry_after_ms = 30_000

abbrev pub is_queued : JobStatus → Bool
is_queued queued = true
is_queued _ = false

abbrev pub is_processing : JobStatus → Bool
is_processing processing = true
is_processing _ = false

-- `"workerHeartbeatAt" < staleBefore`; a comparison with NULL does not hold.
abbrev pub is_stale : Option ℕ → ℕ → Bool
is_stale none now = false
is_stale (some at) now = ltb (at + stale_processing_ms) now

-- `"notBefore" IS NULL OR "notBefore" <= NOW()`
abbrev pub is_due : Option ℕ → ℕ → Bool
is_due none now = true
is_due (some at) now = leb at now

-- The condition of `claimNextJob`; both job types are its own.
abbrev pub is_claimable : ℕ → PayoutJob → Bool
is_claimable now j =
    (is_queued j.status || (is_processing j.status && is_stale j.worker_heartbeat_at now))
    && is_due j.not_before now

-- `ORDER BY "createdAt" ASC LIMIT 1`
abbrev pub earlier : PayoutJob → Option PayoutJob → PayoutJob
earlier j none = j
earlier j (some k) = if leb j.created_at k.created_at then j else k

abbrev pub oldest : (PayoutJob → Bool) → List PayoutJob → Option PayoutJob
oldest p [] = none
oldest p (j ∷ jobs) = let rest = oldest p jobs in if p j then some (earlier j rest) else rest

abbrev pub start_job : ℕ → PayoutJob → PayoutJob
start_job now j = record j { status = processing; worker_heartbeat_at = some now }

abbrev pub claim_job : ℕ → Option PayoutJob → Db → Option PayoutJob × Db
claim_job now none db = (none, db)
claim_job now (some j) db = (some (start_job now j), update_job j.id (start_job now) db)

-- `FOR UPDATE SKIP LOCKED` makes the claim one step.
unfoldable pub claim_next_job : ℕ → Db → Option PayoutJob × Db
claim_next_job now db = claim_job now (oldest (is_claimable now) db.jobs) db

-- A job held until the co-signer can be asked again: no retry is spent.
abbrev pub hold_job : ℕ → Note → PayoutJob → PayoutJob
hold_job until note j = record j {
  status = queued;
  worker_heartbeat_at = none;
  not_before = some until;
  last_error = some note;
}

abbrev pub requeue_job : ℕ → Note → PayoutJob → PayoutJob
requeue_job count note j = record j {
  status = queued;
  worker_heartbeat_at = none;
  last_error = some note;
  retry_count = count;
}

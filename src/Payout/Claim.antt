-- ===== src/Payout/Claim.antt =====
-- lib/payout-retry-claim.ts, and the claim of lib/payout-service.ts: `claimForRetry` and
-- `claimSubmissionForBroadcast`. The per-wallet advisory lock makes a claim one step, so a schedule
-- of claims is a sequence of these steps.
pub mod Laws
use centient.Common.{
  ℕ, ◌+◌, ◌-◌, Bool, true, false, Option, none, some, List, ◌==◌, ◌||◌, ltb, if◌then◌else◌, is_some,
  find_by, update_by, always,
}
use centient.Payout.Db.{
  Db, Submission, PayoutStatus, sent, confirmed, skipped, needs_reconciliation,
}
use centient.Balance.Campaign.{has_refunded_submission}

abbrev pub retry_claim_lease_ms : ℕ
retry_claim_lease_ms = 60_000

abbrev pub submission_retry_budget : ℕ
submission_retry_budget = 5

-- `retryClaimIsLive`. A time stamp ahead of the clock counts as live here as there: the difference
-- is negative there, and 0 here.
abbrev pub retry_claim_is_live : Option ℕ → ℕ → Bool
retry_claim_is_live none now = false
retry_claim_is_live (some at) now = ltb (now - at) retry_claim_lease_ms

-- `isTerminalStatus`
abbrev pub is_terminal_status : PayoutStatus → Bool
is_terminal_status confirmed = true
is_terminal_status sent = true
is_terminal_status skipped = true
is_terminal_status needs_reconciliation = true
is_terminal_status _ = false

-- `submission.findUnique`
abbrev pub find_submission : ℕ → Db → Option Submission
find_submission sid db = find_by (λ s. s.id) sid db.submissions

-- `submission.update` of one row.
abbrev pub update_submission : ℕ → (Submission → Submission) → Db → Db
update_submission sid f db = record db {
  submissions = update_by (λ s. s.id) sid always f db.submissions;
}

abbrev pub set_last_retried : Option ℕ → Submission → Submission
set_last_retried at s = record s { last_retried_at = at }

-- Why a claim on a row is refused, read from that row and the ledger.
abbrev pub is_refused : Submission → ℕ → Bool → Bool
is_refused fresh now refunded =
    is_terminal_status fresh.payout_status
    || (is_some fresh.payout_tx_hash || (retry_claim_is_live fresh.last_retried_at now || refunded))

-- `claimForRetry`: it throws for a row that vanished, refuses, or returns the row as it was read.
pub data Claim : Type 0 where
  vanished refused : Claim
  claimed : Submission → Claim

abbrev pub claim_found : ℕ → ℕ → Option Submission → Db → Claim × Db
claim_found sid now none db = (vanished, db)
claim_found sid now (some fresh) db =
    if is_refused fresh now (has_refunded_submission sid db)
    then (refused, db)
    else (claimed fresh, update_submission sid (set_last_retried (some now)) db)

unfoldable pub claim_for_retry : ℕ → ℕ → Db → Claim × Db
claim_for_retry sid now db = claim_found sid now (find_submission sid db) db

-- `heartbeatRetryClaim`, once: it refreshes the lease while no hash is recorded.
unfoldable pub heartbeat_retry_claim : ℕ → ℕ → Db → Db
heartbeat_retry_claim sid now db = record db {
  submissions =
      update_by (λ s. s.id) sid (λ s. elim s.payout_tx_hash [ none ↦ true | some _ ↦ false ])
        (set_last_retried (some now)) db.submissions;
}

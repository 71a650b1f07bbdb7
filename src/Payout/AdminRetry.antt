-- ===== src/Payout/AdminRetry.antt =====
-- app/api/admin/submissions/[id]/retry/route.ts: an operator's retry of a failed payout, past the
-- session and role checks.
pub mod Laws
use centient.Common.{
  ℕ, Bool, true, false, Option, none, some, ◌==◌, ◌&&◌, ◌||◌, not, leb, if◌then◌else◌, is_some,
}
use centient.Payout.Db.{Db, Submission, PayoutStatus, pending, failed, abandoned}
use centient.Payout.Claim.{
  find_submission, update_submission, retry_claim_is_live, submission_retry_budget,
}
use centient.Payout.Service.{Retry, Ended, returned, threw, reprocess_payout}
use centient.Balance.Campaign.{has_refunded_submission}

pub data RetryAnswer : Type 0 where
  no_such_submission bad_status retry_claim_held payout_refunded triggered payout_failed :
      RetryAnswer

-- What the first transaction hands on: a refusal, or the row as it was before the reset.
pub data AdminClaim : Type 0 where
  denied : RetryAnswer → AdminClaim
  granted : Submission → AdminClaim

abbrev pub is_failed : PayoutStatus → Bool
is_failed failed = true
is_failed abandoned = true
is_failed _ = false

abbrev pub reset_retry : Submission → Submission
reset_retry s = record s { retry_count = 0; last_retried_at = none; payout_status = pending }

abbrev pub claim_row : ℕ → ℕ → Option Submission → Db → AdminClaim × Db
claim_row sid now none db = (denied no_such_submission, db)
claim_row sid now (some row) db =
    if is_failed row.payout_status
    then (if retry_claim_is_live row.last_retried_at now
        then (denied retry_claim_held, db)
        else (if has_refunded_submission sid db
            then (denied payout_refunded, db)
            else (granted row, update_submission sid reset_retry db)))
    else (denied bad_status, db)

-- Phase 1, one transaction under the row's lock.
unfoldable pub claim_admin_retry : ℕ → ℕ → Db → AdminClaim × Db
claim_admin_retry sid now db = claim_row sid now (find_submission sid db) db

abbrev pub is_pending_status : PayoutStatus → Bool
is_pending_status pending = true
is_pending_status _ = false

abbrev pub restore_row : Submission → Submission → Submission
restore_row originals s = record s {
  retry_count = originals.retry_count;
  last_retried_at = originals.last_retried_at;
  payout_status = originals.payout_status;
}

-- May the failed request put the row back as it found it?
abbrev pub may_restore : ℕ → Submission → Db → Bool
may_restore sid row db =
    not (is_some row.payout_tx_hash)
    && (is_pending_status row.payout_status
        && (not (leb submission_retry_budget row.retry_count)
            && not (has_refunded_submission sid db)))

abbrev pub restore_found : ℕ → Submission → Option Submission → Db → Db
restore_found sid originals none db = db
restore_found sid originals (some row) db =
    if may_restore sid row db then update_submission sid (restore_row originals) db else db

unfoldable pub restore_claim : ℕ → Submission → Db → Db
restore_claim sid originals db = restore_found sid originals (find_submission sid db) db

abbrev pub retry_ended : ℕ → Submission → Ended × Db → RetryAnswer × Db
retry_ended sid originals (returned, db) = (triggered, db)
retry_ended sid originals (threw e, db) = (payout_failed, restore_claim sid originals db)

abbrev pub retry_granted : Retry → ℕ → AdminClaim × Db → RetryAnswer × Db
retry_granted r sid (denied answer, db) = (answer, db)
retry_granted r sid (granted row, db) = retry_ended sid row (reprocess_payout r sid db)

-- The handler, `now` the time of its first transaction.
unfoldable pub admin_retry : Retry → ℕ → ℕ → Db → RetryAnswer × Db
admin_retry r sid now db = retry_granted r sid (claim_admin_retry sid now db)

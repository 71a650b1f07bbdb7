-- ===== src/Payout/HandBack.antt =====
-- lib/payout-reconcile.ts, `handBackFailedPayment`: a broadcast envelope that Horizon says was included
-- and failed is undone, and its payout returned to the retry path.
pub mod Laws
use centient.Common.{
  ℕ, ◌+◌, ◌-◌, Bool, true, false, Option, none, some, List, [], ◌∷◌, ◌==◌, ◌&&◌, ◌||◌, not, ltb,
  leb, if◌then◌else◌, is_some, opt_eq, or_else, any, find_first, find_by, update_by, update_many,
  always,
}
use centient.Payout.Db.{
  Db, Submission, PayoutStatus, sent, confirmed, failed, needs_reconciliation, PayoutJob, JobStatus,
  done, job_failed, submission_payout, PayoutAttempt, open_attempt, confirmed_attempt, void_attempt,
  AttemptStatus, User, Note, horizon_read_failed, cannot_verify, payout_mismatch,
  included_and_failed,
}
use centient.Payout.Attempts.{confirm_attempt}
use centient.Payout.Claim.{find_submission, update_submission, submission_retry_budget}
use centient.Payout.Record.{is_job_of, credit_user}
use centient.Balance.Campaign.{has_refunded_submission, refund_submission_debit}
use centient.Stellar.Verify.{
  DecodedTx, ExpectedPayout, PayoutVerification, verified, mismatched, verify_settled_payout,
}
use centient.Payout.Settled.{
  SettledFrom, from_sent, from_held, Rail, is_unchanged, is_at, holds, update_where, set_error,
  not_marked_mismatch, settle_confirmed_payment,
}

abbrev pub set_handed_back : Submission → Submission
set_handed_back s = record s {
  payout_status = failed;
  payout_tx_hash = none;
  retry_count = s.retry_count + 1;
  last_retried_at = none;
  payout_error = some included_and_failed;
}

abbrev pub is_unvoided : AttemptStatus → Bool
is_unvoided void_attempt = false
is_unvoided _ = true

abbrev pub void_failed : ℕ → List PayoutAttempt → List PayoutAttempt
void_failed hash rows =
    update_by (λ a. a.envelope_hash) hash (λ a. is_unvoided a.status)
      (λ a. record a { status = void_attempt; outcome = some included_and_failed }) rows

abbrev pub can_debit : ℕ → User → Bool
can_debit amount u = leb amount u.total_earned_units && ltb 0 u.submission_count

abbrev pub undo_earned : ℕ → User → User
undo_earned amount u = record u {
  submission_count = u.submission_count - 1;
  total_earned_units = u.total_earned_units - amount;
}

-- Only a payment that was recorded as `sent` raised the user's totals.
abbrev pub undo_credit : SettledFrom → ℕ → ℕ → List User → List User
undo_credit from_sent uid amount users =
    update_by (λ u. u.id) uid (can_debit amount) (undo_earned amount) users
undo_credit from_held uid amount users = users

abbrev pub fail_jobs : ℕ → ℕ → List PayoutJob → List PayoutJob
fail_jobs sid hash jobs =
    update_many (λ j. is_job_of sid j && opt_eq j.tx_hash (some hash))
      (λ j. record j { status = job_failed; last_error = some included_and_failed }) jobs

abbrev pub hand_back : ℕ → ℕ → SettledFrom → Submission → Db → Db
hand_back sid hash from sub db = record (update_submission sid set_handed_back db) {
  attempts = void_failed hash db.attempts;
  users = undo_credit from sub.user_id sub.payout_amount_units db.users;
  jobs = fail_jobs sid hash db.jobs;
}

abbrev pub is_blocked : SettledFrom → ℕ → Db → Bool
is_blocked from_sent sid db = false
is_blocked from_held sid db = has_refunded_submission sid db

-- The refund after the last retry follows the transaction.
abbrev pub hand_back_refund : Rail → ℕ → Submission → Db → Db
hand_back_refund rail sid sub db =
    if leb submission_retry_budget (sub.retry_count + 1)
    then refund_submission_debit rail.fee sid sub.payout_amount_units db
    else db

abbrev pub hand_back_row : Rail → ℕ → ℕ → SettledFrom → Option Submission → Db → Db
hand_back_row rail sid hash from none db = db
hand_back_row rail sid hash from (some sub) db =
    if is_unchanged from hash sub && not (is_blocked from sid db)
    then hand_back_refund rail sid sub (hand_back sid hash from sub db)
    else db

-- `handBackFailedPayment`
unfoldable pub hand_back_failed_payment : Rail → ℕ → ℕ → SettledFrom → Db → Db
hand_back_failed_payment rail sid hash from db =
    hand_back_row rail sid hash from (find_submission sid db) db

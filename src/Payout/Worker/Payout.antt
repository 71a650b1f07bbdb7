-- ===== src/Payout/Worker/Payout.antt =====
-- lib/payout-worker.ts: `processSubmissionPayout`, the first attempt at the payout of a submission,
-- and `processJob`. The XP, tier and stamp writes after the job is done are best effort and beside
-- the rail; they are no part of this. The clock is read once, at `at`.
pub mod Laws
use centient.Common.{
  ℕ, ◌+◌, Bool, true, false, Option, none, some, List, ◌&&◌, not, leb, if◌then◌else◌, find_by,
  update_by,
}
use centient.Payout.Db.{
  Db, Submission, PayoutStatus, pending, failed, PayoutJob, JobStatus, done, JobType,
  submission_payout, withdrawal, Note, submission_not_found, no_linked_wallet, claimed_by_another,
  unsettled, cap_exceeded, payer_error, retries_exhausted, manual_reconciliation, non_retryable,
  invalid_job, StellarCode,
}
use centient.Payout.Attempts.{HorizonAnswers, Settlement, clear, paid, wait, settle_open_attempt}
use centient.Payout.Broadcast.{Fault, Persisted, persist_accepted_payment, abandon_accepted_payment}
use centient.Payout.Claim.{
  Claim, vanished, refused, claimed, claim_for_retry, find_submission, update_submission,
  set_last_retried, submission_retry_budget,
}
use centient.Payout.Record.{
  update_job, fail_job, record_worker, quarantine_worker, quarantine_payout_job, max_retries,
}
use centient.Payout.Service.{
  PayError, PayOutcome, paid_as, pay_failed, cap_reached, cosigner_cap, cosigner_unavailable,
  other_failure, stellar_failure, Ended, returned, threw, not_found, vanished_during_retry,
  is_ambiguous, set_status,
}
use centient.Payout.Worker.{hold_job, requeue_job, cosigner_retry_after_ms}
use centient.Payout.Worker.Withdrawal.{fail_for_good, find_job, process_withdrawal_job}
use centient.Balance.Campaign.{refund_campaign_balance}

-- What the call meets outside the database. `bookkeeping` is `none` if the task's resolution and
-- the job's last update go through, and otherwise the faults that the quarantine then meets.
pub record Attempt : Type 0 where
  pub fee : Option ℕ
  pub horizon : HorizonAnswers
  pub pay : ℕ → ℕ → Db → PayOutcome × Db
  pub faults : List Fault
  pub bookkeeping : Option (List Fault)
  pub at : ℕ

abbrev pub has_no_hash : Submission → Bool
has_no_hash s = elim s.payout_tx_hash [ none ↦ true | some _ ↦ false ]

-- `releaseClaim`: it is scoped to a row with no hash.
unfoldable pub release_claim : ℕ → Db → Db
release_claim sid db = record db {
  submissions = update_by (λ s. s.id) sid has_no_hash (set_last_retried none) db.submissions;
}

abbrev pub finish_job : ℕ → PayoutJob → PayoutJob
finish_job at j = record j { status = done; completed_at = some at; worker_heartbeat_at = some at }

-- The steps after the record of the payment.
abbrev pub finish_payout : Attempt → ℕ → Option (List Fault) → Db → Db
finish_payout a jid none db = update_job jid (finish_job a.at) db
finish_payout a jid (some faults) db =
    (abandon_accepted_payment (quarantine_payout_job jid a.at) faults db).db

abbrev pub finish_recorded : Attempt → ℕ → Bool → Db → Db
finish_recorded a jid true db = finish_payout a jid a.bookkeeping db
finish_recorded a jid false db = db

abbrev pub payout_paid : Attempt → ℕ → ℕ → Submission → ℕ → Db → Db
payout_paid a jid sid s hash db =
    let p =
      persist_accepted_payment (record_worker jid sid s.user_id s.payout_amount_units hash a.at)
        (quarantine_worker jid sid hash a.at) a.faults db in
    finish_recorded a jid p.may_continue p.db

-- The failure of a payout that leaves the retry path: both rows, with the retry path's budget.
abbrev pub fail_payout : Attempt → ℕ → ℕ → Note → ℕ → Db → Db
fail_payout a jid sid note count db = update_job jid (fail_for_good a.at note count) (
    update_submission sid
      (λ s. record s {
        payout_status = failed;
        payout_error = some note;
        retry_count = submission_retry_budget;
      })
      db)

abbrev pub refund_payout : Attempt → ℕ → Submission → Db → Db
refund_payout a sid s db =
    refund_campaign_balance a.fee s.is_gold s.campaign_id sid s.payout_amount_units db

abbrev pub payout_retry : Attempt → ℕ → ℕ → Submission → ℕ → Db → Db
payout_retry a jid sid s count db =
    if leb max_retries count
    then refund_payout a sid s (fail_payout a jid sid retries_exhausted count db)
    else update_job jid (requeue_job count payer_error) db

abbrev pub payout_refused : Attempt → ℕ → ℕ → Submission → StellarCode → Db → Db
payout_refused a jid sid s code db =
    if is_ambiguous (stellar_failure code false)
    then fail_payout a jid sid manual_reconciliation max_retries db
    else refund_payout a sid s (fail_payout a jid sid (non_retryable code) max_retries db)

-- `job?.retryCount ?? 0`
abbrev pub tried : Option PayoutJob → ℕ
tried none = 0
tried (some j) = j.retry_count

abbrev pub defer_payout : Attempt → ℕ → ℕ → Db → Db
defer_payout a jid sid db =
    update_job jid (fail_job a.at cap_exceeded) (update_submission sid (set_status pending) db)

abbrev pub payout_caught : Attempt → ℕ → ℕ → Submission → PayError → Db → Db
payout_caught a jid sid s cosigner_unavailable db =
    update_job jid (hold_job (a.at + cosigner_retry_after_ms) payer_error) db
payout_caught a jid sid s cap_reached db = defer_payout a jid sid db
payout_caught a jid sid s cosigner_cap db = defer_payout a jid sid db
payout_caught a jid sid s (stellar_failure code false) db = payout_refused a jid sid s code db
payout_caught a jid sid s (stellar_failure code true) db =
    payout_retry a jid sid s (tried (find_job jid db) + 1) db
payout_caught a jid sid s other_failure db =
    payout_retry a jid sid s (tried (find_job jid db) + 1) db

abbrev pub payout_ended : Attempt → ℕ → ℕ → Submission → PayOutcome × Db → Db
payout_ended a jid sid s (paid_as hash, db) = payout_paid a jid sid s hash db
payout_ended a jid sid s (pay_failed e, db) = payout_caught a jid sid s e (release_claim sid db)

abbrev pub payout_settled : Attempt → ℕ → ℕ → ℕ → Submission → Settlement × Db → Db
payout_settled a jid sid wallet s (clear, db) =
    payout_ended a jid sid s (a.pay wallet s.payout_amount_units db)
payout_settled a jid sid wallet s (paid hash, db) = payout_paid a jid sid s hash db
payout_settled a jid sid wallet s (wait until, db) =
    update_job jid (hold_job until unsettled) (release_claim sid db)

abbrev pub payout_claimed : Attempt → ℕ → ℕ → ℕ → Submission → Claim × Db → Ended × Db
payout_claimed a jid sid wallet s (vanished, db) = (threw vanished_during_retry, db)
payout_claimed a jid sid wallet s (refused, db) =
    (returned, update_job jid (fail_job a.at claimed_by_another) db)
payout_claimed a jid sid wallet s (claimed fresh, db) =
    (returned, payout_settled a jid sid wallet s (settle_open_attempt sid a.horizon a.at db))

abbrev pub set_walletless : Submission → Submission
set_walletless s = record s {
  payout_status = failed;
  payout_error = some no_linked_wallet;
  retry_count = max_retries;
}

abbrev pub payout_to : Attempt → ℕ → ℕ → Submission → Option ℕ → Db → Ended × Db
payout_to a jid sid s none db = (
  returned,
  update_job jid (fail_for_good a.at no_linked_wallet max_retries)
      (update_submission sid set_walletless db),
)
payout_to a jid sid s (some wallet) db =
    payout_claimed a jid sid wallet s (claim_for_retry sid a.at db)

abbrev pub is_pending : PayoutStatus → Bool
is_pending pending = true
is_pending _ = false

abbrev pub payout_found : Attempt → ℕ → ℕ → Option Submission → Db → Ended × Db
payout_found a jid sid none db = (returned, update_job jid (fail_job a.at submission_not_found) db)
payout_found a jid sid (some s) db =
    if is_pending s.payout_status
    then payout_to a jid sid s s.wallet_address db
    else (returned, update_job jid (λ j. record j { status = done; completed_at = some a.at }) db)

unfoldable pub process_submission_payout : Attempt → ℕ → ℕ → Db → Ended × Db
process_submission_payout a jid sid db = payout_found a jid sid (find_submission sid db) db

-- `processJob`: a job goes to the handler of its type, if its fields agree with that.
unfoldable pub process_job :
    Attempt → (ℕ → PayOutcome) → ℕ → Option ℕ → ℕ → ℕ → JobType → Db → Ended × Db
process_job a pay jid (some sid) uid amount submission_payout db =
    process_submission_payout a jid sid db
process_job a pay jid none uid amount withdrawal db =
    process_withdrawal_job jid uid amount a.at a.faults pay db
process_job a pay jid _ uid amount _ db = (returned, update_job jid (fail_job a.at invalid_job) db)

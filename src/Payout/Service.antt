-- ===== src/Payout/Service.antt =====
-- lib/payout-service.ts: `reprocessPayoutWithNonceSafety`, the retry of one submission payout.
-- What the call meets outside the database is its `Retry` argument: the address check of the SDK,
-- the platform fee, Horizon's answers, the broadcast (`payReward`), the faults of the database and
-- the clock. The timer that refreshes the claim while the broadcast is in flight is `Claim`'s
-- `heartbeat_retry_claim`; it is no step of the call itself. `update` on a row that is not there
-- does not arise: no code of the rail deletes a submission.
pub mod Laws
use centient.Common.{
  ℕ, ◌+◌, Bool, true, false, Option, none, some, List, ◌&&◌, not, leb, if◌then◌else◌,
}
use centient.Payout.Db.{
  Db, Submission, PayoutStatus, pending, failed, StellarCode, ambiguous_submit, attempt_unsettled,
}
use centient.Payout.Attempts.{HorizonAnswers, Settlement, clear, paid, wait, settle_open_attempt}
use centient.Payout.Broadcast.{Fault, Persisted, persist_accepted_payment}
use centient.Payout.Claim.{
  Claim, vanished, refused, claimed, claim_for_retry, find_submission, update_submission,
  is_terminal_status, submission_retry_budget,
}
use centient.Payout.Record.{record_retry, quarantine_retry}
use centient.Balance.Campaign.{refund_submission_debit}

-- What `payReward` throws: either signer's cap, an unreachable co-signer, an error of the rail with
-- its code and whether it may be retried, or anything else.
pub data PayError : Type 0 where
  cap_reached cosigner_cap cosigner_unavailable other_failure : PayError
  stellar_failure : StellarCode → Bool → PayError

pub data PayOutcome : Type 0 where
  paid_as : ℕ → PayOutcome
  pay_failed : PayError → PayOutcome

pub data RailError : Type 0 where
  not_found vanished_during_retry no_payable_address : RailError
  pay_error : PayError → RailError

-- How a call of the rail ends.
pub data Ended : Type 0 where
  returned : Ended
  threw : RailError → Ended

pub record Retry : Type 0 where
  pub is_valid_address : ℕ → Bool
  pub fee : Option ℕ
  pub horizon : HorizonAnswers
  pub pay : ℕ → ℕ → Db → PayOutcome × Db
  pub faults : List Fault
  pub new_job_id : ℕ
  pub claim_at : ℕ
  pub settle_at : ℕ
  pub finish_at : ℕ

abbrev pub is_non_retryable : PayError → Bool
is_non_retryable (stellar_failure code retryable) = not retryable
is_non_retryable _ = false

abbrev pub is_ambiguous : PayError → Bool
is_ambiguous (stellar_failure ambiguous_submit retryable) = true
is_ambiguous _ = false

-- The wallet that a payout goes to, if it has one that the SDK accepts.
abbrev pub payable_address : (ℕ → Bool) → Option ℕ → Option ℕ
payable_address valid none = none
payable_address valid (some w) = if valid w then some w else none

-- The record of a broadcast, and its quarantine. Both outcomes end the call normally.
abbrev pub record_payment : Retry → ℕ → Submission → ℕ → Db → Ended × Db
record_payment r sid s hash db = (
  returned,
  (persist_accepted_payment
      (record_retry r.new_job_id sid s.user_id s.payout_amount_units hash r.finish_at)
      (quarantine_retry sid hash r.finish_at) r.faults db).db,
)

abbrev pub set_failed : ℕ → ℕ → Submission → Submission
set_failed count at s = record s {
  payout_status = failed;
  retry_count = count;
  last_retried_at = some at;
}

abbrev pub set_status : PayoutStatus → Submission → Submission
set_status status s = record s { payout_status = status }

abbrev pub retries_after : PayError → Submission → ℕ
retries_after e fresh =
    if is_non_retryable e then submission_retry_budget else fresh.retry_count + 1

-- The end of an attempt that spends retries.
abbrev pub give_up : Retry → ℕ → Submission → Submission → PayError → Db → Db
give_up r sid s fresh e db =
    let failed_db = update_submission sid (set_failed (retries_after e fresh) r.finish_at) db in
    if leb submission_retry_budget (retries_after e fresh) && not (is_ambiguous e)
    then refund_submission_debit r.fee sid s.payout_amount_units failed_db
    else failed_db

abbrev pub pay_caught : Retry → ℕ → Submission → Submission → PayError → Db → Ended × Db
pay_caught r sid s fresh cap_reached db = (returned, update_submission sid (set_status pending) db)
pay_caught r sid s fresh cosigner_cap db = (returned, update_submission sid (set_status pending) db)
pay_caught r sid s fresh cosigner_unavailable db = (returned, db)
pay_caught r sid s fresh other_failure db =
    (threw (pay_error other_failure), give_up r sid s fresh other_failure db)
pay_caught r sid s fresh (stellar_failure code retryable) db = (
  threw (pay_error (stellar_failure code retryable)),
  give_up r sid s fresh (stellar_failure code retryable) db,
)

abbrev pub pay_ended : Retry → ℕ → Submission → Submission → PayOutcome × Db → Ended × Db
pay_ended r sid s fresh (paid_as hash, db) = record_payment r sid s hash db
pay_ended r sid s fresh (pay_failed e, db) = pay_caught r sid s fresh e db

-- Step 2, under the claim. `fresh` is the row as the claim read it.
abbrev pub retry_settled : Retry → ℕ → ℕ → Submission → Submission → Settlement × Db → Ended × Db
retry_settled r sid wallet s fresh (clear, db) =
    pay_ended r sid s fresh (r.pay wallet s.payout_amount_units db)
retry_settled r sid wallet s fresh (paid hash, db) = record_payment r sid s hash db
retry_settled r sid wallet s fresh (wait until, db) =
    (threw (pay_error (stellar_failure attempt_unsettled true)), db)

abbrev pub retry_claimed : Retry → ℕ → ℕ → Submission → Claim × Db → Ended × Db
retry_claimed r sid wallet s (vanished, db) = (threw vanished_during_retry, db)
retry_claimed r sid wallet s (refused, db) = (returned, db)
retry_claimed r sid wallet s (claimed fresh, db) =
    retry_settled r sid wallet s fresh (settle_open_attempt sid r.horizon r.settle_at db)

abbrev pub set_unpayable : ℕ → Submission → Submission
set_unpayable at s = record s { payout_status = failed; last_retried_at = some at }

abbrev pub retry_to : Retry → ℕ → Submission → Option ℕ → Db → Ended × Db
retry_to r sid s none db =
    (threw no_payable_address, update_submission sid (set_unpayable r.claim_at) db)
retry_to r sid s (some wallet) db = retry_claimed r sid wallet s (claim_for_retry sid r.claim_at db)

abbrev pub retry_found : Retry → ℕ → Option Submission → Db → Ended × Db
retry_found r sid none db = (threw not_found, db)
retry_found r sid (some s) db =
    if is_terminal_status s.payout_status
    then (returned, db)
    else retry_to r sid s (payable_address r.is_valid_address s.wallet_address) db

unfoldable pub reprocess_payout : Retry → ℕ → Db → Ended × Db
reprocess_payout r sid db = retry_found r sid (find_submission sid db) db

-- ===== src/Payout/Tests/Operators.antt =====
-- An operator's retry, the revival and the reconciler's withdrawals, at concrete rows.
use centient.Common.{◌≡◌, refl, true, false, none, some, [], ◌∷◌, arith, find_by, update_by}
use centient.Payout.Db.{
  Db, Submission, PayoutJob, failed, processing, other_code, expired_unincluded,
}
use centient.Payout.Samples.{answer_in, reward_job, cash_out_job, envelope, db_of}
use centient.Payout.Claim.{
  submission_retry_budget, update_submission, set_last_retried, find_submission,
}
use centient.Payout.Attempts.{
  HorizonAnswers, settle_open_attempt, clear, tx_not_found, void_attempt_row,
}
use centient.Payout.Service.{PayError, stellar_failure, pay_failed, Retry, set_failed}
use centient.Payout.Service.Laws.{IsSettled}
use centient.Payout.AdminRetry.{reset_retry, admin_retry, payout_failed}
use centient.Payout.AdminRetry.Laws.{IsRetryable, admin_retry_gives_up}
use centient.Payout.Worker.Withdrawal.{find_job}
use centient.Payout.Reconciler.{handle_withdrawal_retry}
use centient.Payout.Reconciler.Laws.{handle_withdrawal_retry_once}
use centient.Payout.Cron.{is_eligible}
use centient.Payout.Cron.Laws.{retry_passes, retry_passes_unpayable}
use centient.Balance.Campaign.{has_refunded_submission}

abbrev failed_answer : Submission
failed_answer = answer_in failed none none

abbrev failed_payout_db : Db
failed_payout_db = db_of (failed_answer ∷ []) (reward_job ∷ []) []

abbrev reset_payout_db : Db
reset_payout_db = update_submission 1 reset_retry failed_payout_db

abbrev no_trustline : PayError
no_trustline = stellar_failure (other_code 1) false

abbrev retry : Retry
retry = record {
  is_valid_address = λ w. true;
  fee = some 10;
  horizon = record { first = none; ledger_close_ms = none; second = none };
  pay = λ wallet amount db. (pay_failed no_trustline, db);
  faults = [];
  new_job_id = 8;
  claim_at = 10;
  settle_at = 11;
  finish_at = 12;
}

failed_found : find_submission 1 failed_payout_db ≡ some failed_answer
unfolding find_by
failed_found = refl

failed-IsRetryable : IsRetryable 1 9 failed_answer failed_payout_db
unfolding has_refunded_submission
failed-IsRetryable = record { over = refl; free = refl; funded = refl }

abbrev retried_db : Db
retried_db = update_submission 1 (set_last_retried (some 10)) reset_payout_db

abbrev retried_answer : Submission
retried_answer = set_last_retried (some 10) (reset_retry failed_answer)

retried-IsSettled :
    IsSettled retry 1 70 (reset_retry failed_answer) reset_payout_db (clear, retried_db)
unfolding settle_open_attempt find_by update_by has_refunded_submission
retried-IsSettled = record {
  found = refl;
  to = refl;
  claimable = record { not_terminal = refl; no_hash = refl; free = refl; funded = refl };
  ends = refl;
}

retried_found : find_submission 1 retried_db ≡ some retried_answer
unfolding find_by update_by
retried_found = refl

admin_retry_gives_up_example :
    let (reply, after) = admin_retry retry 1 9 failed_payout_db in
    (reply ≡ payout_failed)
    × (find_submission 1 after ≡ some (set_failed submission_retry_budget 12 retried_answer))
    × (has_refunded_submission 1 after ≡ true)
admin_retry_gives_up_example =
    admin_retry_gives_up retry 1 9 70 10 9 failed_answer retried_answer no_trustline
      failed_payout_db retried_db retried_db failed_found failed-IsRetryable retried-IsSettled refl
      refl refl retried_found refl refl refl

-- A withdrawal that was broadcast, on its last retry.
abbrev last_job : PayoutJob
last_job = record cash_out_job { status = processing; tx_hash = some 44; retry_count = 2 }

abbrev last_db : Db
last_db = db_of [] (last_job ∷ []) []

last_found : find_job 4 last_db ≡ some last_job
unfolding find_by
last_found = refl

handle_withdrawal_retry_once_example :
    let after = handle_withdrawal_retry 4 7 50 20 last_db in
    handle_withdrawal_retry 4 7 50 21 after ≡ after
handle_withdrawal_retry_once_example =
    handle_withdrawal_retry_once 4 7 50 20 21 last_job last_db last_found (omega arith)

-- A payout that was given up with an envelope whose fate was unknown, and is now proven.
abbrev stranded_answer : Submission
stranded_answer = record failed_answer { retry_count = 5 }

abbrev stranded_db : Db
stranded_db = db_of (stranded_answer ∷ []) [] (envelope ∷ [])

abbrev expired : HorizonAnswers
expired = record {
  first = some tx_not_found;
  ledger_close_ms = some 901;
  second = some tx_not_found;
}

abbrev leased_db : Db
leased_db = update_submission 1 (set_last_retried (some 1000)) stranded_db

abbrev voided_db : Db
voided_db = void_attempt_row 33 expired_unincluded leased_db

proves : settle_open_attempt 1 expired 1000 leased_db ≡ (clear, voided_db)
unfolding settle_open_attempt
proves = refl

-- A failed payout with no wallet.
abbrev walletless_answer : Submission
walletless_answer = record failed_answer { wallet_address = none }

abbrev walletless_db : Db
walletless_db = db_of (walletless_answer ∷ []) [] []

walletless_found : find_submission 1 walletless_db ≡ some walletless_answer
unfolding find_by
walletless_found = refl

abbrev earlier_retry : Retry
earlier_retry = record retry { claim_at = 3 }

-- After two passes.
retry_passes_unpayable_example :
    let after = retry_passes 1 (retry ∷ earlier_retry ∷ []) walletless_db in
    (s' : Submission) × (find_submission 1 after ≡ some s')
    × (s'.retry_count ≡ 0)
    × (s'.payout_status ≡ failed)
    × (is_eligible 480_010 after s' ≡ true)
retry_passes_unpayable_example =
    retry_passes_unpayable 1 480_010 retry (earlier_retry ∷ []) walletless_answer walletless_db
      walletless_found refl (refl, (refl, tt)) (omega arith) refl (omega arith)

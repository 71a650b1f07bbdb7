-- ===== src/Payout/Tests/Payers.antt =====
-- The worker, the withdrawals and the retry path, at concrete rows.
use centient.Common.{ℕ, ◌≡◌, refl, true, false, none, some, [], arith, find_by, update_by}
use centient.Payout.Db.{Db, Submission, ambiguous_submit, other_code}
use centient.Payout.Samples.{answer, reward_job, waiting_db}
use centient.Payout.Claim.{update_submission, set_last_retried, find_submission}
use centient.Payout.Claim.Laws.{IsClaimable}
use centient.Payout.Attempts.{settle_open_attempt, HorizonAnswers, clear}
use centient.Payout.Record.{update_job}
use centient.Payout.Service.{
  PayError, stellar_failure, PayOutcome, pay_failed, Retry, reprocess_payout,
}
use centient.Payout.Service.Laws.{IsSettled, reprocess_payout_ambiguous}
use centient.Payout.Worker.{claim_next_job, start_job}
use centient.Payout.Worker.Payout.{Attempt}
use centient.Balance.Campaign.{has_refunded_submission}

abbrev no_trustline : PayError
no_trustline = stellar_failure (other_code 1) false

abbrev refuses : ℕ → PayOutcome
refuses d = pay_failed no_trustline

abbrev started_db : Db
started_db = update_job 3 (start_job 20) waiting_db

takes_oldest : claim_next_job 20 waiting_db ≡ (some (start_job 20 reward_job), started_db)
unfolding claim_next_job update_by
takes_oldest = refl

abbrev silent : HorizonAnswers
silent = record { first = none; ledger_close_ms = none; second = none }

abbrev fails_with : PayError → ℕ → ℕ → Db → PayOutcome × Db
fails_with e wallet amount db = (pay_failed e, db)

abbrev retry_with : PayError → HorizonAnswers → Retry
retry_with e horizon = record {
  is_valid_address = λ w. true;
  fee = some 10;
  horizon = horizon;
  pay = fails_with e;
  faults = [];
  new_job_id = 8;
  claim_at = 10;
  settle_at = 11;
  finish_at = 12;
}

abbrev attempt_with : PayError → HorizonAnswers → Attempt
attempt_with e horizon = record {
  fee = some 10;
  horizon = horizon;
  pay = fails_with e;
  faults = [];
  bookkeeping = none;
  at = 10;
}

abbrev claimed_db : Db
claimed_db = update_submission 1 (set_last_retried (some 10)) waiting_db

answer_found : find_submission 1 waiting_db ≡ some answer
unfolding find_by
answer_found = refl

answer-IsClaimable : IsClaimable 1 answer 10 waiting_db
unfolding has_refunded_submission
answer-IsClaimable = record { not_terminal = refl; no_hash = refl; free = refl; funded = refl }

waiting-IsSettled :
    (e : PayError) → IsSettled (retry_with e silent) 1 70 answer waiting_db (clear, claimed_db)
unfolding settle_open_attempt find_by
waiting-IsSettled e = record {
  found = answer_found;
  to = refl;
  claimable = answer-IsClaimable;
  ends = refl;
}

abbrev claimed_answer : Submission
claimed_answer = set_last_retried (some 10) answer

claimed_found : find_submission 1 claimed_db ≡ some claimed_answer
unfolding find_by update_by
claimed_found = refl

abbrev unproven : PayError
unproven = stellar_failure ambiguous_submit false

reprocess_payout_ambiguous_example :
    let (ended, after) = reprocess_payout (retry_with unproven silent) 1 waiting_db in
    (after.ledger ≡ claimed_db.ledger)
    × (after.balances ≡ claimed_db.balances)
    × (after.users ≡ claimed_db.users)
reprocess_payout_ambiguous_example =
    reprocess_payout_ambiguous (retry_with unproven silent) 1 70 answer false waiting_db claimed_db
      claimed_db (waiting-IsSettled unproven) refl

held_by_another : ¬ IsClaimable 1 claimed_answer 10 claimed_db
held_by_another c = let free = c.free in ground arith

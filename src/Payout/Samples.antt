-- ===== src/Payout/Samples.antt =====
-- Rows and databases for the examples on lib/payout-*.ts.
use centient.Common.{ℕ, false, Option, none, some, List, [], ◌∷◌}
use centient.Payout.Db.{
  Db, Submission, PayoutJob, PayoutAttempt, User, PayoutStatus, pending, needs_reconciliation,
  queued, submission_payout, withdrawal, open_attempt, credit_reward, deposit,
}

abbrev pub labeler : User
labeler = record {
  id = 7;
  wallet_address = some 70;
  pending_balance_units = 50;
  submission_count = 0;
  total_earned_units = 0;
}

abbrev pub answer_in : PayoutStatus → Option ℕ → Option ℕ → Submission
answer_in status hash at = record {
  id = 1;
  user_id = 7;
  wallet_address = some 70;
  payout_amount_units = 100;
  payout_status = status;
  payout_tx_hash = hash;
  payout_error = none;
  retry_count = 0;
  last_retried_at = at;
  created_at = 5;
  is_gold = false;
  campaign_id = some 9;
}

abbrev pub answer : Submission
answer = answer_in pending none none

abbrev pub reward_job : PayoutJob
reward_job = record {
  id = 3;
  job_type = submission_payout;
  submission_id = some 1;
  user_id = none;
  amount_units = none;
  destination_address = none;
  tx_hash = none;
  broadcast_at = none;
  status = queued;
  worker_heartbeat_at = none;
  completed_at = none;
  last_error = none;
  retry_count = 0;
  not_before = none;
  created_at = 6;
}

abbrev pub cash_out_job : PayoutJob
cash_out_job = record {
  id = 4;
  job_type = withdrawal;
  submission_id = none;
  user_id = some 7;
  amount_units = some 50;
  destination_address = some 70;
  tx_hash = none;
  broadcast_at = none;
  status = queued;
  worker_heartbeat_at = none;
  completed_at = none;
  last_error = none;
  retry_count = 0;
  not_before = none;
  created_at = 8;
}

abbrev pub envelope : PayoutAttempt
envelope = record {
  submission_id = 1;
  envelope_hash = 33;
  expires_at = 900;
  status = open_attempt;
  outcome = none;
  created_at = 600;
}

abbrev pub db_of : List Submission → List PayoutJob → List PayoutAttempt → Db
db_of submissions jobs attempts = record {
  submissions = submissions;
  jobs = jobs;
  attempts = attempts;
  users = labeler ∷ [];
  user_ledger =
      record { user_id = 7; row_type = credit_reward; amount_units = 50; submission_id = none }
      ∷ [];
  balances = record { campaign_id = 9; balance_units = 1000 } ∷ [];
  ledger =
      record {
        campaign_id = 9;
        row_type = deposit;
        amount_units = 1000;
        submission_id = none;
        noted_submission = none;
      }
      ∷ [];
}

-- One answer that waits for its reward.
abbrev pub waiting_db : Db
waiting_db = db_of (answer ∷ []) (reward_job ∷ cash_out_job ∷ []) []

-- The same with an envelope that may still land.
abbrev pub in_flight_db : Db
in_flight_db = db_of (answer ∷ []) (reward_job ∷ cash_out_job ∷ []) (envelope ∷ [])

-- A payment that was accepted and could not be recorded.
abbrev pub held_answer : Submission
held_answer = answer_in needs_reconciliation (some 33) (some 2)

abbrev pub held_db : Db
held_db = db_of (held_answer ∷ []) (reward_job ∷ []) (envelope ∷ [])

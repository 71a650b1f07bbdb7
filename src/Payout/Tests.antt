-- ===== src/Payout/Tests.antt =====
-- The claim, the journal and the record of a payment, at concrete rows.
mod Payers
mod Caps
mod Operators
mod Settled
mod Rewards
use centient.Common.{
  ℕ, ◌+◌, ◌≤◌, ◌<◌, ◌≡◌, ◌≢◌, ◌⊎◌, ◌↔◌, inl, inr, refl, Bool, true, false, Option, none, some, List,
  [], ◌∷◌, arith, find_first, find_by, update_by, any, is_some,
}
use centient.Payout.Db.{
  Db, Submission, PayoutStatus, pending, Note, StellarCode, ambiguous_submit, other_code,
}
use centient.Payout.Samples.{
  labeler, answer, reward_job, cash_out_job, envelope, waiting_db, in_flight_db, held_db,
  held_answer, db_of,
}
use centient.Payout.Claim.{
  Claim, claimed, refused, claim_for_retry, update_submission, set_last_retried, find_submission,
  retry_claim_lease_ms, is_terminal_status,
}
use centient.Payout.Claim.Laws.{claim_for_retry_excludes, claim_for_retry_grants, IsClaimable}
use centient.Payout.Attempts.{
  settle_open_attempt, journal_open, HorizonAnswers, tx_not_found, tx_failed, clear, is_open_of,
  void_attempt_row,
}
use centient.Payout.Attempts.Laws.{HasOneOpen, journal_open-HasOneOpen, open_count}
use centient.Payout.Attempts.Settling.{Settles, settle_open_attempt-Settles, settle_clears}
use centient.Payout.Broadcast.{
  Fault, fine, rolled_back, commit_lost, attempt_write, persist_accepted_payment,
}
use centient.Payout.Broadcast.Laws.{
  IsOnce, IsIdempotent, attempt_write-IsOnce, persist_accepted_payment_outcomes,
}
use centient.Payout.Record.{record_retry, record_worker, quarantine_retry}
use centient.Payout.Record.Replays.{
  IsCreditedOnce, record_retry_credits_once, record_worker_credits_once, record_retry-IsIdempotent,
  quarantine_retry-IsIdempotent,
}
use centient.Balance.Campaign.{has_refunded_submission}

abbrev claimed_at_ten : Db
claimed_at_ten = update_submission 1 (set_last_retried (some 10)) waiting_db

claims_at_ten : claim_for_retry 1 10 waiting_db ≡ (claimed answer, claimed_at_ten)
unfolding claim_for_retry find_by update_by has_refunded_submission
claims_at_ten = refl

claim_for_retry_excludes_example :
    claim_for_retry 1 60_009 claimed_at_ten ≡ (refused, claimed_at_ten)
claim_for_retry_excludes_example =
    claim_for_retry_excludes 1 10 60_009 waiting_db answer claimed_at_ten claims_at_ten
      (omega arith)

abbrev expired : HorizonAnswers
expired = record {
  first = some tx_not_found;
  ledger_close_ms = some 901;
  second = some tx_not_found;
}

settle_open_attempt-Settles_example :
    Settles expired 1000 envelope in_flight_db (settle_open_attempt 1 expired 1000 in_flight_db)
settle_open_attempt-Settles_example =
    settle_open_attempt-Settles 1 expired 1000 in_flight_db envelope refl

abbrev cleared_db : Db
unfolding settle_open_attempt void_attempt_row
cleared_db = (settle_open_attempt 1 expired 1000 in_flight_db).1

settles_in_flight : settle_open_attempt 1 expired 1000 in_flight_db ≡ (clear, cleared_db)
unfolding settle_open_attempt void_attempt_row update_by
settles_in_flight = refl

waiting-HasOneOpen : HasOneOpen waiting_db
waiting-HasOneOpen k = ground arith

opens_waiting : journal_open 1 33 900 600 waiting_db ≡ some in_flight_db
unfolding journal_open find_by
opens_waiting = refl

journal_open-HasOneOpen_example : HasOneOpen in_flight_db × (open_count 1 in_flight_db.attempts ≡ 1)
journal_open-HasOneOpen_example =
    journal_open-HasOneOpen 1 33 900 600 waiting_db waiting-HasOneOpen opens_waiting

-- The first commit lands and its answer is lost; the second attempt is answered.
abbrev lost_then_fine : List Fault
lost_then_fine = commit_lost ∷ fine ∷ []

answer_found : find_submission 1 waiting_db ≡ some answer
unfolding find_by
answer_found = refl

record_retry_credits_once_example :
    let w = attempt_write (record_retry 8 1 7 100 33 700) lost_then_fine waiting_db in
    IsCreditedOnce 1 7 100 33 waiting_db w.landed w.db
record_retry_credits_once_example =
    record_retry_credits_once 8 1 7 100 33 700 lost_then_fine answer waiting_db answer_found refl

record_worker_credits_once_example :
    let w = attempt_write (record_worker 3 1 7 100 33 700) lost_then_fine waiting_db in
    IsCreditedOnce 1 7 100 33 waiting_db w.landed w.db
record_worker_credits_once_example =
    record_worker_credits_once 3 1 7 100 33 700 lost_then_fine answer waiting_db answer_found refl

-- ===== src/Payout/Revival.antt =====
-- lib/payout-attempt-revival.ts: `revive` hands a stranded payout, whose envelope's fate is proven,
-- back to the retry path. `is_stranded` is the condition of the query that finds them.
pub mod Laws
use centient.Common.{
  ℕ, Bool, true, false, Option, none, some, List, ◌&&◌, not, ltb, leb, if◌then◌else◌, is_some, any,
  update_by,
}
use centient.Payout.Db.{
  Db, Submission, PayoutAttempt, PayoutStatus, failed, abandoned, Note, landed, never_applied,
}
use centient.Payout.Attempts.{
  HorizonAnswers, Settlement, clear, paid, wait, settle_open_attempt, is_open_of,
}
use centient.Payout.Claim.{
  Claim, vanished, refused, claimed, claim_for_retry, submission_retry_budget,
}
use centient.Payout.Settled.{update_where}
use centient.Balance.Campaign.{has_refunded_submission}

-- `Revival`, and `claim_vanished` for the claim that throws.
pub data Revival : Type 0 where
  revived waiting skipped claim_vanished : Revival

abbrev pub is_given_up : PayoutStatus → Bool
is_given_up failed = true
is_given_up abandoned = true
is_given_up _ = false

abbrev pub is_expired_of : ℕ → ℕ → PayoutAttempt → Bool
is_expired_of sid now a = is_open_of sid a && ltb a.expires_at now

abbrev pub is_stranded : ℕ → Db → Submission → Bool
is_stranded now db s =
    any (is_expired_of s.id now) db.attempts
    && (is_given_up s.payout_status
        && (not (is_some s.payout_tx_hash)
            && (leb submission_retry_budget s.retry_count
                && (is_some s.wallet_address && not (has_refunded_submission s.id db)))))

abbrev pub no_hash_yet : Submission → Bool
no_hash_yet s = not (is_some s.payout_tx_hash)

abbrev pub release : Submission → Submission
release s = record s { last_retried_at = none }

abbrev pub set_revived : Note → Submission → Submission
set_revived note s = record s {
  payout_status = failed;
  retry_count = 0;
  last_retried_at = none;
  payout_error = some note;
}

abbrev pub hand_to_retry : ℕ → Note → Db → Db
hand_to_retry sid note db = update_where sid no_hash_yet (set_revived note) db

abbrev pub revive_settled : ℕ → Settlement × Db → Revival × Db
revive_settled sid (wait until, db) = (waiting, update_where sid no_hash_yet release db)
revive_settled sid (paid hash, db) = (revived, hand_to_retry sid (landed hash) db)
revive_settled sid (clear, db) = (revived, hand_to_retry sid never_applied db)

abbrev pub revive_claimed : ℕ → HorizonAnswers → ℕ → Claim × Db → Revival × Db
revive_claimed sid hz at (vanished, db) = (claim_vanished, db)
revive_claimed sid hz at (refused, db) = (skipped, db)
revive_claimed sid hz at (claimed s, db) = revive_settled sid (settle_open_attempt sid hz at db)

unfoldable pub revive : ℕ → HorizonAnswers → ℕ → Db → Revival × Db
revive sid hz at db =
    if has_refunded_submission sid db
    then (skipped, db)
    else revive_claimed sid hz at (claim_for_retry sid at db)

-- ===== src/Payout/Settled.antt =====
-- lib/payout-reconcile.ts, `settleConfirmedPayment`: a broadcast envelope that Horizon says applied is
-- held to what the submission owed. `none` is a call that throws, and then nothing is written.
-- The decoder of an envelope is the Stellar SDK's: its result is an argument.
pub mod Laws
pub mod Status
use centient.Common.{
  ℕ, ◌+◌, ◌-◌, Bool, true, false, Option, none, some, List, [], ◌∷◌, ◌==◌, ◌&&◌, ◌||◌, not, ltb,
  leb, if◌then◌else◌, is_some, opt_eq, or_else, any, find_first, find_by, update_by, update_many,
  always,
}
use centient.Payout.Db.{
  Db, Submission, PayoutStatus, sent, confirmed, failed, needs_reconciliation, PayoutJob, JobStatus,
  done, job_failed, submission_payout, PayoutAttempt, open_attempt, confirmed_attempt, void_attempt,
  AttemptStatus, User, Note, horizon_read_failed, cannot_verify, payout_mismatch,
  included_and_failed,
}
use centient.Payout.Attempts.{confirm_attempt}
use centient.Payout.Claim.{find_submission, update_submission, submission_retry_budget}
use centient.Payout.Record.{is_job_of, credit_user}
use centient.Balance.Campaign.{has_refunded_submission, refund_submission_debit}
use centient.Stellar.Verify.{
  DecodedTx, ExpectedPayout, PayoutVerification, verified, mismatched, verify_settled_payout,
}

pub data SettledFrom : Type 0 where
  from_sent from_held : SettledFrom

-- The payout account and the asset, where both are configured.
pub record Rail : Type 0 where
  pub account_and_asset : Option (ℕ × ℕ)
  pub fee : Option ℕ
  pub new_job_id : ℕ
  pub now : ℕ

abbrev pub is_at : SettledFrom → PayoutStatus → Bool
is_at from_sent sent = true
is_at from_held needs_reconciliation = true
is_at _ _ = false

-- `notMarkedMismatch`
abbrev pub not_marked_mismatch : Option Note → Bool
not_marked_mismatch (some payout_mismatch) = false
not_marked_mismatch _ = true

-- The condition of every write: the row is where it was read, under this hash.
abbrev pub is_unchanged : SettledFrom → ℕ → Submission → Bool
is_unchanged from hash s = is_at from s.payout_status && opt_eq s.payout_tx_hash (some hash)

abbrev pub update_where : ℕ → (Submission → Bool) → (Submission → Submission) → Db → Db
update_where sid p f db = record db { submissions = update_by (λ s. s.id) sid p f db.submissions }

abbrev pub holds : (Submission → Bool) → Option Submission → Bool
holds p none = false
holds p (some s) = p s

abbrev pub set_confirmed : ℕ → Submission → Submission
set_confirmed at s = record s {
  payout_status = confirmed;
  payout_error = none;
  last_retried_at = some at;
}

abbrev pub set_mismatch : Submission → Submission
set_mismatch s = record s {
  payout_status = needs_reconciliation;
  payout_error = some payout_mismatch;
}

abbrev pub set_error : Note → Submission → Submission
set_error note s = record s { payout_error = some note }

abbrev pub has_tuple : ℕ → Option PayoutJob → Bool
has_tuple hash none = false
has_tuple hash (some j) =
    opt_eq j.tx_hash (some hash) && (is_some j.amount_units && is_some j.broadcast_at)

abbrev pub attempt_created : Option PayoutAttempt → Option ℕ
attempt_created none = none
attempt_created (some a) = some a.created_at

abbrev pub job_completed : Option PayoutJob → Option ℕ
job_completed none = none
job_completed (some j) = j.completed_at

-- `attempt?.createdAt ?? job?.completedAt ?? new Date()`
abbrev pub broadcast_time : Option PayoutAttempt → Option PayoutJob → ℕ → ℕ
broadcast_time a j now = or_else (attempt_created a) (or_else (job_completed j) now)

abbrev pub repaired : ℕ → ℕ → ℕ → ℕ → PayoutJob → PayoutJob
repaired hash amount at now j = record j {
  amount_units = some amount;
  tx_hash = some hash;
  broadcast_at = some at;
  status = done;
  completed_at = some now;
  last_error = none;
}

abbrev pub upsert_tuple : Rail → ℕ → ℕ → ℕ → ℕ → Option PayoutJob → List PayoutJob → List PayoutJob
upsert_tuple rail sid hash amount at none jobs =
    record {
      id = rail.new_job_id;
      job_type = submission_payout;
      submission_id = some sid;
      user_id = none;
      amount_units = some amount;
      destination_address = none;
      tx_hash = some hash;
      broadcast_at = some at;
      status = done;
      worker_heartbeat_at = none;
      completed_at = some rail.now;
      last_error = none;
      retry_count = 0;
      not_before = none;
      created_at = rail.now;
    }
    ∷ jobs
upsert_tuple rail sid hash amount at (some j) jobs =
    update_many (is_job_of sid) (repaired hash amount at rail.now) jobs

abbrev pub repair_found : Rail → ℕ → ℕ → ℕ → Option PayoutJob → Db → Db
repair_found rail sid hash amount job db = if has_tuple hash job then db else record db {
  jobs =
      upsert_tuple rail sid hash amount
        (broadcast_time (find_by (λ a. a.envelope_hash) hash db.attempts) job rail.now) job db.jobs;
}

-- `repairPayoutJobTuple`
unfoldable pub repair_payout_job_tuple : Rail → ℕ → ℕ → ℕ → Db → Db
repair_payout_job_tuple rail sid hash amount db =
    repair_found rail sid hash amount (find_first (is_job_of sid) db.jobs) db

-- The held row's confirmation, in one transaction; the update of a user that is not there throws.
abbrev pub confirm_held : Rail → ℕ → ℕ → Submission → Option User → Db → Option Db
confirm_held rail sid hash sub none db = none
confirm_held rail sid hash sub (some u) db = some (
    repair_payout_job_tuple rail sid hash sub.payout_amount_units
      (credit_user sub.user_id sub.payout_amount_units (confirm_attempt hash db)))

abbrev pub confirm_from : Rail → ℕ → ℕ → SettledFrom → Submission → Db → Option Db
confirm_from rail sid hash from_sent sub db =
    some (update_where sid (is_unchanged from_sent hash) (set_confirmed rail.now) db)
confirm_from rail sid hash from_held sub db =
    if holds (is_unchanged from_held hash) (find_submission sid db)
    then confirm_held rail sid hash sub (find_by (λ u. u.id) sub.user_id db.users)
        (update_where sid (is_unchanged from_held hash) (set_confirmed rail.now) db)
    else some db

abbrev pub may_mark : SettledFrom → ℕ → Submission → Bool
may_mark from_sent hash s = is_unchanged from_sent hash s
may_mark from_held hash s = is_unchanged from_held hash s && not_marked_mismatch s.payout_error

abbrev pub on_verdict :
    Rail → ℕ → ℕ → SettledFrom → Submission → PayoutVerification → Db → Option Db
on_verdict rail sid hash from sub verified db = confirm_from rail sid hash from sub db
on_verdict rail sid hash from sub (mismatched ms) db =
    some (update_where sid (may_mark from hash) set_mismatch db)

-- A verification that throws.
abbrev pub on_checked :
    Rail → ℕ → ℕ → SettledFrom → Submission → Option PayoutVerification → Db → Option Db
on_checked rail sid hash from sub none db = none
on_checked rail sid hash from sub (some v) db = on_verdict rail sid hash from sub v db

abbrev pub expected_of : ℕ × ℕ → ℕ → Submission → ExpectedPayout
expected_of (account, asset) wallet sub = record {
  payout_account = account;
  destination = wallet;
  amount_units = sub.payout_amount_units;
  asset = asset;
}

-- A submission with no wallet has nothing to hold the destination to.
abbrev pub check_wallet :
    ℕ × ℕ → Option DecodedTx → Submission → Option ℕ → Option PayoutVerification
check_wallet rail xdr sub none = some (mismatched [])
check_wallet rail xdr sub (some wallet) = verify_settled_payout xdr (expected_of rail wallet sub)

abbrev pub settle_configured :
    Rail → ℕ → ℕ → Option DecodedTx → SettledFrom → Submission → Option (ℕ × ℕ) → Db → Option Db
settle_configured rail sid hash xdr from sub none db =
    some (update_submission sid (set_error cannot_verify) db)
settle_configured rail sid hash xdr from sub (some config) db =
    on_checked rail sid hash from sub (check_wallet config xdr sub sub.wallet_address) db

abbrev pub settle_confirmed_row :
    Rail → ℕ → ℕ → Option DecodedTx → SettledFrom → Option Submission → Db → Option Db
settle_confirmed_row rail sid hash xdr from none db = some db
settle_confirmed_row rail sid hash xdr from (some sub) db =
    settle_configured rail sid hash xdr from sub rail.account_and_asset db

-- `settleConfirmedPayment`
unfoldable pub settle_confirmed_payment :
    Rail → ℕ → ℕ → Option DecodedTx → SettledFrom → Db → Option Db
settle_confirmed_payment rail sid hash xdr from db =
    settle_confirmed_row rail sid hash xdr from (find_submission sid db) db

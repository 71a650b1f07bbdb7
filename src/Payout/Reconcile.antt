-- ===== src/Payout/Reconcile.antt =====
-- lib/payout-reconcile.ts, `reconcileSubmission`, `settleHeldPayment` and `claimHeldPayment`: what
-- Horizon's answer for a broadcast hash does to a `sent` payout, and to a held one
-- (`needs_reconciliation`).
pub mod Laws
use centient.Common.{
  ℕ, ◌+◌, ◌-◌, Bool, true, false, Option, none, some, List, [], ◌∷◌, ◌==◌, ◌&&◌, ◌||◌, not, ltb,
  leb, if◌then◌else◌, is_some, opt_eq, or_else, any, find_first, find_by, update_by, update_many,
  always,
}
use centient.Payout.Db.{
  Db, Submission, PayoutStatus, sent, confirmed, failed, needs_reconciliation, PayoutJob, JobStatus,
  done, job_failed, submission_payout, PayoutAttempt, open_attempt, confirmed_attempt, void_attempt,
  AttemptStatus, User, Note, horizon_read_failed, cannot_verify, payout_mismatch,
  included_and_failed,
}
use centient.Payout.Attempts.{confirm_attempt}
use centient.Payout.Claim.{find_submission, update_submission, submission_retry_budget}
use centient.Payout.Record.{is_job_of, credit_user}
use centient.Balance.Campaign.{has_refunded_submission, refund_submission_debit}
use centient.Stellar.Verify.{
  DecodedTx, ExpectedPayout, PayoutVerification, verified, mismatched, verify_settled_payout,
}
use centient.Payout.Settled.{
  SettledFrom, from_sent, from_held, Rail, is_unchanged, is_at, holds, update_where, set_error,
  not_marked_mismatch, settle_confirmed_payment,
}
use centient.Payout.HandBack.{hand_back_failed_payment}

abbrev pub held_recheck_ms : ℕ
held_recheck_ms = 300_000

-- `TxLookup`, and `none` for a read that throws.
pub data TxLookup : Type 0 where
  tx_applied : Option DecodedTx → TxLookup
  tx_included_and_failed tx_absent : TxLookup

-- The update of a row that is not there throws.
abbrev pub note_unreadable : ℕ → Option Submission → Db → Option Db
note_unreadable sid none db = none
note_unreadable sid (some s) db = some (update_submission sid (set_error horizon_read_failed) db)

-- `reconcileSubmission`
unfoldable pub reconcile_submission : Rail → ℕ → ℕ → Option TxLookup → Db → Option Db
reconcile_submission rail sid hash none db = note_unreadable sid (find_submission sid db) db
reconcile_submission rail sid hash (some (tx_applied xdr)) db =
    settle_confirmed_payment rail sid hash xdr from_sent db
reconcile_submission rail sid hash (some tx_included_and_failed) db =
    some (hand_back_failed_payment rail sid hash from_sent db)
reconcile_submission rail sid hash (some tx_absent) db = some db

-- `settleHeldPayment`
unfoldable pub settle_held_payment : Rail → ℕ → ℕ → Option TxLookup → Db → Option Db
settle_held_payment rail sid hash none db = some db
settle_held_payment rail sid hash (some (tx_applied xdr)) db =
    settle_confirmed_payment rail sid hash xdr from_held db
settle_held_payment rail sid hash (some tx_included_and_failed) db =
    some (hand_back_failed_payment rail sid hash from_held db)
settle_held_payment rail sid hash (some tx_absent) db = some db

-- A row that `claimHeldPayment` may take: held under a hash, not for a mismatch, and due.
abbrev pub is_due : ℕ → Option ℕ → Bool
is_due now none = true
is_due now (some at) = ltb (at + held_recheck_ms) now

abbrev pub is_takeable : ℕ → Submission → Bool
is_takeable now s =
    is_at from_held s.payout_status
    && (is_some s.payout_tx_hash
        && (not_marked_mismatch s.payout_error && is_due now s.last_retried_at))

-- `orderBy: { lastRetriedAt: { sort: "asc", nulls: "first" } }`
abbrev pub retried_before : Option ℕ → Option ℕ → Bool
retried_before (some a) (some b) = leb a b
retried_before (some a) none = false
retried_before none at = true

abbrev pub older : Submission → Option Submission → Submission
older s none = s
older s (some best) = if retried_before s.last_retried_at best.last_retried_at then s else best

pub next_held : ℕ → List Submission → Option Submission
next_held now [] = none
next_held now (s ∷ rows) =
    let rest = next_held now rows in if is_takeable now s then some (older s rest) else rest

-- The lease, on the row as it was read.
abbrev pub may_take : Submission → Submission → Bool
may_take next s = is_at from_held s.payout_status && opt_eq s.last_retried_at next.last_retried_at

abbrev pub set_looked_at : ℕ → Submission → Submission
set_looked_at now s = record s { last_retried_at = some now }

-- The second step of `claimHeldPayment`: the row that was found, if it is still as it was read.
unfoldable pub take_held : ℕ → Submission → Db → Option Submission × Db
take_held now next db =
    if holds (may_take next) (find_submission next.id db)
    then (some next, update_where next.id (may_take next) (set_looked_at now) db)
    else (none, db)

abbrev pub take_next : ℕ → Option Submission → Db → Option Submission × Db
take_next now none db = (none, db)
take_next now (some next) db = take_held now next db

-- `claimHeldPayment`, with nothing between its two steps.
unfoldable pub claim_held_payment : ℕ → Db → Option Submission × Db
claim_held_payment now db = take_next now (next_held now db.submissions) db

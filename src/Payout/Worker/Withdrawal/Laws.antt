-- ===== src/Payout/Worker/Withdrawal/Laws.antt =====
-- On `processWithdrawalJob` of lib/payout-worker.ts.
use centient.Common.{
  ℕ, ◌+◌, ◌≡◌, inl, inr, refl, Bool, true, false, some, List, arith, if◌then◌else◌, leb, Bool-cases,
  ok, err, Result,
}
use centient.Payout.Db.{Db, PayoutJob, StellarCode, ambiguous_submit}
use centient.Payout.Broadcast.{Fault}
use centient.Payout.Broadcast.Keeps.{persist_accepted_payment-keeps}
use centient.Payout.Record.{update_job, quarantine_payout_job, max_retries}
use centient.Payout.Service.{
  PayError, PayOutcome, paid_as, pay_failed, cap_reached, cosigner_cap, cosigner_unavailable,
  other_failure, stellar_failure, returned,
}
use centient.Balance.User.{find_user, refund_reversal, already_reversed, BalanceError}
use centient.Balance.User.Laws.{IsUserReconciled, refund_reversal-IsUserReconciled}
use centient.Payout.Worker.Withdrawal.{
  safe_refund, kept, record_withdrawal, withdrawal_caught, withdrawal_paid, destination_of,
  withdrawal_ended, find_job, process_withdrawal_job, withdrawal_retry,
}

-- Is the withdrawal over, and its debit to be returned, when the broadcast fails with `e` on a job
-- that was tried `count` times before?
abbrev pub returns_debit : PayError → ℕ → Bool
returns_debit cosigner_unavailable count = false
returns_debit cap_reached count = true
returns_debit cosigner_cap count = true
returns_debit (stellar_failure ambiguous_submit false) count = false
returns_debit (stellar_failure _ false) count = true
returns_debit (stellar_failure _ true) count = leb max_retries (count + 1)
returns_debit other_failure count = leb max_retries (count + 1)

-- The balances and their ledger are those of `db`, with the debit returned or not.
abbrev pub IsAccounted : Bool → ℕ → ℕ → ℕ → Db → Db → Type 0
IsAccounted returned_debit uid amount jid db after =
    (after.users ≡ (if returned_debit then (safe_refund uid amount jid db).users else db.users))
    × (after.user_ledger
        ≡ (if returned_debit then (safe_refund uid amount jid db).user_ledger else db.user_ledger))

-- A refund reads and writes the users and their ledger alone.
safe_refund-frame :
    (uid amount jid : ℕ) (f : PayoutJob → PayoutJob) (db : Db)
    → IsAccounted true uid amount jid db (safe_refund uid amount jid (update_job jid f db))
unfolding safe_refund refund_reversal already_reversed
safe_refund-frame uid amount jid f db = ground arith

withdrawal_retry-IsAccounted :
    (jid uid amount at count : ℕ) (db : Db)
    → IsAccounted
        (leb max_retries count)
        uid
        amount
        jid
        db
        (withdrawal_retry jid uid amount at count db)
withdrawal_retry-IsAccounted jid uid amount at count db =
    elim (Bool-cases (leb max_retries count)) [
      | inl spent ↦ rw spent (safe_refund-frame uid amount jid _ db)
      | inr left ↦ rw left (refl, refl)
    ]

withdrawal_caught-IsAccounted :
    (jid uid amount at : ℕ) (j : PayoutJob) (e : PayError) (db : Db)
    → IsAccounted
        (returns_debit e j.retry_count)
        uid
        amount
        jid
        db
        (withdrawal_caught jid uid amount at j e db)
withdrawal_caught-IsAccounted jid uid amount at j cosigner_unavailable db = (refl, refl)
withdrawal_caught-IsAccounted jid uid amount at j cap_reached db =
    safe_refund-frame uid amount jid _ db
withdrawal_caught-IsAccounted jid uid amount at j cosigner_cap db =
    safe_refund-frame uid amount jid _ db
withdrawal_caught-IsAccounted jid uid amount at j (stellar_failure ambiguous_submit false) db =
    (refl, refl)
withdrawal_caught-IsAccounted jid uid amount at j
      (stellar_failure StellarCode.attempt_unsettled false) db =
    safe_refund-frame uid amount jid _ db
withdrawal_caught-IsAccounted jid uid amount at j (stellar_failure (StellarCode.other_code c) false)
      db =
    safe_refund-frame uid amount jid _ db
withdrawal_caught-IsAccounted jid uid amount at j (stellar_failure ambiguous_submit true) db =
    withdrawal_retry-IsAccounted jid uid amount at (j.retry_count + 1) db
withdrawal_caught-IsAccounted jid uid amount at j
      (stellar_failure StellarCode.attempt_unsettled true) db =
    withdrawal_retry-IsAccounted jid uid amount at (j.retry_count + 1) db
withdrawal_caught-IsAccounted jid uid amount at j (stellar_failure (StellarCode.other_code c) true)
      db =
    withdrawal_retry-IsAccounted jid uid amount at (j.retry_count + 1) db
withdrawal_caught-IsAccounted jid uid amount at j other_failure db =
    withdrawal_retry-IsAccounted jid uid amount at (j.retry_count + 1) db

-- A broadcast that was accepted returns no debit, whatever becomes of its record.
withdrawal_paid-IsAccounted :
    (jid uid amount at : ℕ) (faults : List Fault) (hash : ℕ) (db : Db)
    → IsAccounted false uid amount jid db (withdrawal_paid jid amount at faults hash db)
unfolding record_withdrawal quarantine_payout_job
withdrawal_paid-IsAccounted jid uid amount at faults hash db =
    persist_accepted_payment-keeps (IsAccounted false uid amount jid db)
      (record_withdrawal jid amount hash at) (quarantine_payout_job jid at) faults db
      (λ d d' e p. ground arith) (λ d d' e p. ground arith) (refl, refl)

-- Does the outcome of the broadcast of a withdrawal return its debit?
abbrev pub outcome_returns : PayOutcome → ℕ → Bool
outcome_returns (paid_as hash) count = false
outcome_returns (pay_failed e) count = returns_debit e count

withdrawal_ended-IsAccounted :
    (jid uid amount at : ℕ) (faults : List Fault) (j : PayoutJob) (db : Db) (outcome : PayOutcome)
    → IsAccounted
        (outcome_returns outcome j.retry_count)
        uid
        amount
        jid
        db
        (withdrawal_ended jid uid amount at faults j outcome db)
withdrawal_ended-IsAccounted jid uid amount at faults j db (paid_as hash) =
    withdrawal_paid-IsAccounted jid uid amount at faults hash db
withdrawal_ended-IsAccounted jid uid amount at faults j db (pay_failed x) =
    withdrawal_caught-IsAccounted jid uid amount at j x db

pub process_withdrawal_job-IsAccounted :
    (jid uid amount at : ℕ) (faults : List Fault) (pay : ℕ → PayOutcome) (j : PayoutJob) (d : ℕ)
    (db : Db)
    → find_job jid db ≡ some j
    → destination_of j.destination_address (find_user uid db) ≡ some d
    → let (ended, after) = process_withdrawal_job jid uid amount at faults pay db in
      (ended ≡ returned)
      × IsAccounted (outcome_returns (pay d) j.retry_count) uid amount jid db after
unfolding process_withdrawal_job
process_withdrawal_job-IsAccounted jid uid amount at faults pay j d db found to =
    rw (found, to) (refl, withdrawal_ended-IsAccounted jid uid amount at faults j db (pay d))

pub safe_refund-IsUserReconciled :
    (uid amount jid : ℕ) (db : Db)
    → IsUserReconciled db
    → IsUserReconciled (safe_refund uid amount jid db)
unfolding safe_refund
safe_refund-IsUserReconciled uid amount jid db h =
    kept-IsUserReconciled (refund_reversal uid amount (some jid) db) refl
  where
    kept-IsUserReconciled :
        (r : Result BalanceError (ℕ × Db))
        → refund_reversal uid amount (some jid) db ≡ r
        → IsUserReconciled (kept r db)
    kept-IsUserReconciled (ok (b, db')) e =
        refund_reversal-IsUserReconciled uid amount (some jid) db b db' h e
    kept-IsUserReconciled (err x) e = h

-- A withdrawal whose job is there, with a destination, keeps every labeler's balance accounted for by the user ledger, however it ends.
pub process_withdrawal_job-IsUserReconciled :
    (jid uid amount at : ℕ) (faults : List Fault) (pay : ℕ → PayOutcome) (j : PayoutJob) (d : ℕ)
    (db : Db)
    → find_job jid db ≡ some j
    → destination_of j.destination_address (find_user uid db) ≡ some d
    → IsUserReconciled db
    → IsUserReconciled (process_withdrawal_job jid uid amount at faults pay db).1
process_withdrawal_job-IsUserReconciled jid uid amount at faults pay j d db found to h k =
    let (_, kept_all) =
      process_withdrawal_job-IsAccounted jid uid amount at faults pay j d db found to in
    rw (kept_all.0, kept_all.1)
      (elim (Bool-cases (outcome_returns (pay d) j.retry_count)) [
        | inl back ↦ rw back (safe_refund-IsUserReconciled uid amount jid db h k)
        | inr stays ↦ rw stays (h k)
      ])

-- ===== src/Payout/Reconciler/Laws.antt =====
-- On `processWithdrawal` and `handleWithdrawalRetry` of lib/reconciler.ts.
use centient.Common.{
  ℕ, ◌+◌, ◌≤◌, ◌≡◌, ◌∙◌, inl, inr, refl, ap, sym, subst, true, false, Option, none, some, List,
  arith, leb, find_by, update_by, find_by-update_by, ==_refl, Bool-cases, some-inj,
}
use centient.Payout.Db.{Db, PayoutJob, transaction_failed}
use centient.Payout.Attempts.{TxStatus, tx_confirmed, tx_failed, tx_not_found}
use centient.Payout.Record.{max_retries}
use centient.Payout.Worker.{is_processing}
use centient.Payout.Worker.Withdrawal.{safe_refund, fail_for_good, find_job}
use centient.Payout.Worker.Withdrawal.Laws.{safe_refund-IsUserReconciled}
use centient.Balance.User.{refund_reversal, already_reversed}
use centient.Balance.User.Laws.{IsUserReconciled}
use centient.Payout.Reconciler.{
  process_withdrawal, handle_withdrawal_retry, withdrawal_retry_found, update_found,
  note_read_error, finish_withdrawal,
}

safe_refund-jobs : (uid amount jid : ℕ) (db : Db) → (safe_refund uid amount jid db).jobs ≡ db.jobs
unfolding safe_refund refund_reversal already_reversed
safe_refund-jobs uid amount jid db = ground arith

given_up :
    (jid at count : ℕ) (j : PayoutJob) (db : Db)
    → find_job jid db ≡ some j
    → is_processing j.status ≡ true
    → find_by
        (λ k. k.id)
        jid
        (update_by
          (λ k. k.id)
          jid
          (λ k. is_processing k.status)
          (fail_for_good at transaction_failed count)
          db.jobs)
      ≡ some (fail_for_good at transaction_failed count j)
given_up jid at count j db found busy =
    rw
      (find_by-update_by (λ (k : PayoutJob). k.id) jid jid (λ k. is_processing k.status)
        (fail_for_good at transaction_failed count) db.jobs (λ k. refl))
      (rw (==_refl jid, found) (rw busy refl))

-- The database that a withdrawal given up leaves, before its refund.
abbrev failed_db : ℕ → ℕ → ℕ → Db → Db
failed_db jid at count db = record db {
  jobs =
      update_by (λ k. k.id) jid (λ k. is_processing k.status)
        (fail_for_good at transaction_failed count) db.jobs;
}

gives_back :
    (jid uid amount at : ℕ) (j : PayoutJob) (db : Db)
    → find_job jid db ≡ some j
    → max_retries ≤ j.retry_count + 1
    → is_processing j.status ≡ true
    → handle_withdrawal_retry jid uid amount at db
      ≡ safe_refund uid amount jid (failed_db jid at (j.retry_count + 1) db)
unfolding handle_withdrawal_retry
gives_back jid uid amount at j db found spent busy =
    let all_spent : leb max_retries (j.retry_count + 1) ≡ true = ground arith in
    rw found (rw all_spent (rw busy refl))

leaves :
    (jid uid amount at : ℕ) (j : PayoutJob) (db : Db)
    → find_job jid db ≡ some j
    → max_retries ≤ j.retry_count + 1
    → is_processing j.status ≡ false
    → handle_withdrawal_retry jid uid amount at db ≡ db
unfolding handle_withdrawal_retry
leaves jid uid amount at j db found spent idle =
    let all_spent : leb max_retries (j.retry_count + 1) ≡ true = ground arith in
    rw found (rw all_spent (rw idle refl))

-- A withdrawal that failed on the chain and has its retries spent with this one is given up once:
-- a second pass over it changes nothing, and restores no debit again.
pub handle_withdrawal_retry_once :
    (jid uid amount at later : ℕ) (j : PayoutJob) (db : Db)
    → find_job jid db ≡ some j
    → max_retries ≤ j.retry_count + 1
    → let after = handle_withdrawal_retry jid uid amount at db in
      handle_withdrawal_retry jid uid amount later after ≡ after
handle_withdrawal_retry_once jid uid amount at later j db found spent =
    elim (Bool-cases (is_processing j.status)) [
      | inl busy ↦
          leaves jid uid amount later (fail_for_good at transaction_failed (j.retry_count + 1) j)
            (handle_withdrawal_retry jid uid amount at db)
            (ap (find_job jid) (gives_back jid uid amount at j db found spent busy)
              ∙ (ap (λ (jobs : List PayoutJob). find_by (λ k. k.id) jid jobs)
                    (safe_refund-jobs uid amount jid (failed_db jid at (j.retry_count + 1) db))
                  ∙ given_up jid at (j.retry_count + 1) j db found busy))
            (omega (arith, spent)) refl
      | inr idle ↦
          let same = leaves jid uid amount at j db found spent idle in
          ap (handle_withdrawal_retry jid uid amount later) same
          ∙ (leaves jid uid amount later j db found spent idle ∙ sym same)
    ]

update_found-IsUserReconciled :
    (jid : ℕ) (f : PayoutJob → PayoutJob) (row : Option PayoutJob) (db db' : Db)
    → IsUserReconciled db
    → update_found jid f row db ≡ some db'
    → IsUserReconciled db'
update_found-IsUserReconciled jid f none db db' h e = absurd (ground arith)
update_found-IsUserReconciled jid f (some j) db db' h e = subst IsUserReconciled (some-inj e) h

withdrawal_retry_found-IsUserReconciled :
    (jid uid amount at : ℕ) (row : Option PayoutJob) (db : Db)
    → IsUserReconciled db
    → IsUserReconciled (withdrawal_retry_found jid uid amount at row db)
withdrawal_retry_found-IsUserReconciled jid uid amount at none db h = h
withdrawal_retry_found-IsUserReconciled jid uid amount at (some j) db h =
    elim (Bool-cases (leb max_retries (j.retry_count + 1))) [
      | inl spent ↦ elim (Bool-cases (is_processing j.status)) [
        | inl busy ↦ rw spent (
            rw busy (
              safe_refund-IsUserReconciled uid amount jid (failed_db jid at (j.retry_count + 1) db)
                h))
        | inr idle ↦ rw spent (rw idle h)
      ]
      | inr left ↦ rw left h
    ]

-- Whatever Horizon says of a withdrawal, its settlement keeps every labeler's balance accounted for
-- by the user ledger, if it was before.
pub process_withdrawal-IsUserReconciled :
    (jid uid amount at : ℕ) (answer : Option TxStatus) (db db' : Db)
    → IsUserReconciled db
    → process_withdrawal jid uid amount at answer db ≡ some db'
    → IsUserReconciled db'
unfolding process_withdrawal handle_withdrawal_retry
process_withdrawal-IsUserReconciled jid uid amount at none db db' h e =
    update_found-IsUserReconciled jid note_read_error (find_job jid db) db db' h e
process_withdrawal-IsUserReconciled jid uid amount at (some tx_confirmed) db db' h e =
    update_found-IsUserReconciled jid (finish_withdrawal at) (find_job jid db) db db' h e
process_withdrawal-IsUserReconciled jid uid amount at (some tx_not_found) db db' h e =
    subst IsUserReconciled (some-inj e) h
process_withdrawal-IsUserReconciled jid uid amount at (some tx_failed) db db' h e =
    subst IsUserReconciled (some-inj e)
      (withdrawal_retry_found-IsUserReconciled jid uid amount at (find_job jid db) db h)

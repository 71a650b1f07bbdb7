-- ===== src/Payout/AdminRetry/Laws.antt =====
-- On the operator's retry of app/api/admin/submissions/[id]/retry/route.ts.
use centient.Common.{
  ℕ, ◌≡◌, ◌↔◌, inl, inr, refl, ap, sym, subst, Bool, true, false, Option, none, some, is_some,
  arith, if◌then◌else◌, Bool-cases,
}
use centient.Payout.Db.{Db, Submission}
use centient.Payout.Attempts.{clear}
use centient.Payout.Claim.{
  find_submission, update_submission, retry_claim_is_live, submission_retry_budget,
}
use centient.Payout.Service.{
  RailError, returned, Retry, Ended, threw, PayError, pay_error, pay_failed, is_non_retryable,
  is_ambiguous, reprocess_payout, set_failed,
}
use centient.Payout.Service.Laws.{IsSettled, reprocess_payout_gives_up}
use centient.Payout.AdminRetry.{
  bad_status, payout_refunded, retry_claim_held, AdminClaim, granted, denied, is_failed, claim_row,
  claim_admin_retry, reset_retry, restore_claim, retry_ended, admin_retry, payout_failed,
}
use centient.Balance.Campaign.{has_refunded_submission}

-- What the first transaction asks of the row.
pub record IsRetryable (sid now : ℕ) (s : Submission) (db : Db) : Type 0 where
  pub over : is_failed s.payout_status ≡ true
  pub free : retry_claim_is_live s.last_retried_at now ≡ false
  pub funded : has_refunded_submission sid db ≡ false

abbrev row_of : Submission → AdminClaim → Submission
row_of s (granted r) = r
row_of s (denied a) = s

tests_granted :
    (over live refunded : Bool) (row s : Submission) (db done_db db' : Db)
    → ◌≡◌ {A = AdminClaim × Db}
        (if over
          then (if live
              then (denied retry_claim_held, db)
              else (if refunded then (denied payout_refunded, db) else (granted row, done_db)))
          else (denied bad_status, db))
        (granted s, db')
    → (row ≡ s) × (over ≡ true) × (live ≡ false) × (refunded ≡ false) × (db' ≡ done_db)
tests_granted true false false row s db done_db db' e =
    (ap (row_of s) (ap (λ p. p.0) e), refl, refl, refl, sym (ap (λ p. p.1) e))
tests_granted true false true row s db done_db db' e = absurd (ground arith)
tests_granted true true refunded row s db done_db db' e = absurd (ground arith)
tests_granted false live refunded row s db done_db db' e = absurd (ground arith)

claim_row-granted :
    (sid now : ℕ) (row : Option Submission) (s : Submission) (db db' : Db)
    → claim_row sid now row db ≡ (granted s, db')
    → (row ≡ some s) × IsRetryable sid now s db × (db' ≡ update_submission sid reset_retry db)
claim_row-granted sid now none s db db' e = absurd (ground arith)
claim_row-granted sid now (some row) s db db' e =
    let (same, over, free, funded, after) =
      tests_granted (is_failed row.payout_status) (retry_claim_is_live row.last_retried_at now)
        (has_refunded_submission sid db) row s db (update_submission sid reset_retry db) db' e in
    (
      ap some same,
      subst (λ (x : Submission). IsRetryable sid now x db) same
          (record { over = over; free = free; funded = funded }),
      after,
    )

-- An operator's retry takes exactly a row that failed or was abandoned, whose claim nobody holds and
-- whose debit was not refunded; then it resets the row, and keeps what it was.
pub claim_admin_retry_grants :
    (sid now : ℕ) (s : Submission) (db db' : Db)
    → (claim_admin_retry sid now db ≡ (granted s, db')) ↔ (
        (find_submission sid db ≡ some s)
        × IsRetryable sid now s db
        × (db' ≡ update_submission sid reset_retry db))
unfolding claim_admin_retry
claim_admin_retry_grants sid now s db db' = (
  claim_row-granted sid now (find_submission sid db) s db db',
  λ h. rw (h.0, h.1.over, h.1.free, h.1.funded, h.2) refl,
)

restore-failed :
    (sid count at : ℕ) (originals row : Submission) (db : Db)
    → find_submission sid db ≡ some (set_failed count at row)
    → restore_claim sid originals db ≡ db
unfolding restore_claim
restore-failed sid count at originals row db found =
    elim (Bool-cases (is_some row.payout_tx_hash)) [
      | inl hashed ↦ rw found (rw hashed refl)
      | inr unhashed ↦ rw found (rw unhashed refl)
    ]

failed_retry :
    (sid : ℕ) (s : Submission) (x : RailError) (p : Ended × Db)
    → p.0 ≡ threw x
    → restore_claim sid s p.1 ≡ p.1
    → retry_ended sid s p ≡ (payout_failed, p.1)
failed_retry sid s x (returned, db) h same = absurd (ground arith)
failed_retry sid s x (threw y, db) h same = ap (λ (d : Db). (payout_failed, d)) same

-- When the broadcast of an operator's retry fails for good with a proven outcome, the request does
-- not restore the row: the submission stays out of the retry path with its budget spent, and
-- reads as refunded.
pub admin_retry_gives_up :
    (r : Retry) (sid now wallet fee cid : ℕ) (s row : Submission) (e : PayError) (db db' d : Db)
    → find_submission sid db ≡ some s
    → IsRetryable sid now s db
    → IsSettled r sid wallet (reset_retry s) (update_submission sid reset_retry db) (clear, db')
    → r.pay wallet s.payout_amount_units db' ≡ (pay_failed e, d)
    → is_non_retryable e ≡ true
    → is_ambiguous e ≡ false
    → find_submission sid d ≡ some row
    → row.is_gold ≡ false
    → row.campaign_id ≡ some cid
    → r.fee ≡ some fee
    → let (answer, after) = admin_retry r sid now db in
      (answer ≡ payout_failed)
      × (find_submission sid after ≡ some (set_failed submission_retry_budget r.finish_at row))
      × (has_refunded_submission sid after ≡ true)
unfolding admin_retry
admin_retry_gives_up r sid now wallet fee cid s row e db db' d found may settled fails over proven
      there gold campaign fees =
    let reset_db = update_submission sid reset_retry db in
    let claimed : claim_admin_retry sid now db ≡ (granted s, reset_db) =
      (claim_admin_retry_grants sid now s db reset_db).1 (found, may, refl) in
    let (thrown, spent, refunded) =
      reprocess_payout_gives_up r sid wallet fee cid (reset_retry s) row e reset_db db' d settled
        fails over proven there gold campaign fees in
    rw claimed (
      rw
        (failed_retry sid s (pay_error e) (reprocess_payout r sid reset_db) thrown (
          restore-failed sid submission_retry_budget r.finish_at s row
            (reprocess_payout r sid reset_db).1 spent))
        (refl, spent, refunded))

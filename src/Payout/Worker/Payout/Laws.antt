-- ===== src/Payout/Worker/Payout/Laws.antt =====
-- On `processSubmissionPayout` of lib/payout-worker.ts.
use centient.Common.{
  ℕ, ◌+◌, ◌≡◌, refl, Bool, true, false, Option, none, some, List, arith, if◌then◌else◌, leb,
}
use centient.Payout.Db.{Db, Submission, pending, ambiguous_submit, claimed_by_another}
use centient.Payout.Attempts.{Settlement, paid, settle_open_attempt, confirm_attempt}
use centient.Payout.Broadcast.{Fault, abandon_accepted_payment}
use centient.Payout.Broadcast.Keeps.{persist_accepted_payment-keeps, attempt_write-keeps}
use centient.Payout.Claim.{find_submission, update_submission, set_last_retried}
use centient.Payout.Claim.Laws.{IsClaimable, claim_for_retry_grants, claim_refused}
use centient.Payout.Record.{
  update_job, fail_job, record_worker, quarantine_worker, quarantine_payout_job, max_retries,
}
use centient.Payout.Service.{
  PayError, PayOutcome, paid_as, pay_failed, cap_reached, cosigner_cap, cosigner_unavailable,
  other_failure, stellar_failure, returned,
}
use centient.Payout.Worker.Payout.{
  Attempt, payout_paid, payout_settled, finish_recorded, process_submission_payout, refund_payout,
}

-- A job whose submission is paid, claimed by another payer or refunded stands down: the job is
-- failed, nothing else is written, and the broadcast has no part in it.
pub process_submission_payout_stands_down :
    (a : Attempt) (jid sid wallet : ℕ) (s : Submission) (db : Db)
    → find_submission sid db ≡ some s
    → s.payout_status ≡ pending
    → s.wallet_address ≡ some wallet
    → ¬ IsClaimable sid s a.at db
    → process_submission_payout a jid sid db
      ≡ (returned, update_job jid (fail_job a.at claimed_by_another) db)
unfolding process_submission_payout
process_submission_payout_stands_down a jid sid wallet s db found waiting to no_claim =
    rw (found, waiting, to, claim_refused sid a.at db s found no_claim)

-- A worker that holds the claim, and whose settlement ended in `settled`.
pub record IsAttempted (a : Attempt) (sid wallet : ℕ) (s : Submission) (db : Db)
    (settled : Settlement × Db) : Type 0 where
  pub found : find_submission sid db ≡ some s
  pub waiting : s.payout_status ≡ pending
  pub to : s.wallet_address ≡ some wallet
  pub claimable : IsClaimable sid s a.at db
  pub ends :
      settle_open_attempt sid a.horizon a.at
        (update_submission sid (set_last_retried (some a.at)) db)
      ≡ settled

process_submission_payout_settled :
    (a : Attempt) (jid sid wallet : ℕ) (s : Submission) (db : Db) (settled : Settlement × Db)
    → IsAttempted a sid wallet s db settled
    → process_submission_payout a jid sid db ≡ (returned, payout_settled a jid sid wallet s settled)
unfolding process_submission_payout
process_submission_payout_settled a jid sid wallet s db settled c = rw (
  c.found,
  c.waiting,
  c.to,
  (claim_for_retry_grants sid a.at db s _).1 (c.found, c.claimable, refl),
  c.ends,
)

-- The campaign ledger and every balance are those of `d`, with the debit returned or not.
abbrev pub IsFunded : Bool → Attempt → ℕ → Submission → Db → Db → Type 0
IsFunded returned_debit a sid s d after =
    (after.ledger ≡ (if returned_debit then (refund_payout a sid s d).ledger else d.ledger))
    × (after.balances ≡ (if returned_debit then (refund_payout a sid s d).balances else d.balances))

-- Is the payout over, and the debit of its campaign to be returned, when the broadcast fails with
-- `e` on a job that was tried `count` times before? A cap only defers it.
abbrev pub returns_funds : PayError → ℕ → Bool
returns_funds cosigner_unavailable count = false
returns_funds cap_reached count = false
returns_funds cosigner_cap count = false
returns_funds (stellar_failure ambiguous_submit false) count = false
returns_funds (stellar_failure _ false) count = true
returns_funds (stellar_failure _ true) count = leb max_retries (count + 1)
returns_funds other_failure count = leb max_retries (count + 1)

-- The bookkeeping after a payment touches neither the campaign ledger nor a balance.
finish_recorded-IsFunded :
    (a : Attempt) (jid sid : ℕ) (s : Submission) (d d' : Db) (go : Bool)
    (faults : Option (List Fault))
    → a.bookkeeping ≡ faults
    → IsFunded false a sid s d d'
    → IsFunded false a sid s d (finish_recorded a jid go d')
unfolding abandon_accepted_payment quarantine_payout_job
finish_recorded-IsFunded a jid sid s d d' false faults b h = h
finish_recorded-IsFunded a jid sid s d d' true none b h = rw b h
finish_recorded-IsFunded a jid sid s d d' true (some fs) b h = rw b (
    attempt_write-keeps (IsFunded false a sid s d) (quarantine_payout_job jid a.at) fs d'
      (λ x y e p. ground arith) h)

payout_paid-IsFunded :
    (a : Attempt) (jid sid hash : ℕ) (s : Submission) (d : Db)
    → IsFunded false a sid s d (payout_paid a jid sid s hash d)
unfolding record_worker quarantine_worker confirm_attempt
payout_paid-IsFunded a jid sid hash s d =
    finish_recorded-IsFunded a jid sid s d _ _ a.bookkeeping refl (
      persist_accepted_payment-keeps (IsFunded false a sid s d)
        (record_worker jid sid s.user_id s.payout_amount_units hash a.at)
        (quarantine_worker jid sid hash a.at) a.faults d (λ x y e p. ground arith)
        (λ x y e p. ground arith) (refl, refl))

-- Does the outcome of the broadcast return the debit?
abbrev pub outcome_funds : PayOutcome → ℕ → Bool
outcome_funds (paid_as hash) count = false
outcome_funds (pay_failed e) count = returns_funds e count

-- Once the worker holds the claim, an earlier envelope that Horizon reports applied is recorded, with no broadcast and no refund.
pub process_submission_payout_records_landed :
    (a : Attempt) (jid sid wallet hash : ℕ) (s : Submission) (db db' : Db)
    → IsAttempted a sid wallet s db (paid hash, db')
    → (process_submission_payout a jid sid db ≡ (returned, payout_paid a jid sid s hash db'))
      × IsFunded false a sid s db' (process_submission_payout a jid sid db).1
process_submission_payout_records_landed a jid sid wallet hash s db db' c =
    rw (process_submission_payout_settled a jid sid wallet s db (paid hash, db') c)
      (refl, payout_paid-IsFunded a jid sid hash s db')

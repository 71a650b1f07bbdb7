-- ===== src/Payout/Claim/Laws.antt =====
-- On `claimForRetry` of lib/payout-service.ts and the lease of lib/payout-retry-claim.ts.
use centient.Common.{
  ℕ, ◌+◌, ◌<◌, ◌≡◌, ◌↔◌, inl, inr, refl, true, false, Option, none, some, arith, always,
  find_by-update_by, Bool-cases, ==_refl,
}
use centient.Payout.Db.{Db, Submission}
use centient.Balance.Campaign.{has_refunded_submission}
use centient.Payout.Claim.{
  retry_claim_lease_ms, retry_claim_is_live, is_terminal_status, find_submission, update_submission,
  set_last_retried, is_refused, refused, claimed, claim_found, claim_for_retry,
}

-- A submission that a payer may send a payment for: it is in no terminal status, carries no hash,
-- nobody holds its claim, and its debit was not refunded.
pub record IsClaimable (sid : ℕ) (s : Submission) (now : ℕ) (db : Db) : Type 0 where
  pub not_terminal : is_terminal_status s.payout_status ≡ false
  pub no_hash : s.payout_tx_hash ≡ none
  pub free : retry_claim_is_live s.last_retried_at now ≡ false
  pub funded : has_refunded_submission sid db ≡ false

-- The row under a key after an update of that key.
pub find-update_submission :
    (sid : ℕ) (f : Submission → Submission) (db : Db) (s : Submission)
    → ((a : Submission) → (f a).id ≡ a.id)
    → find_submission sid db ≡ some s
    → find_submission sid (update_submission sid f db) ≡ some (f s)
find-update_submission sid f db s keeps e =
    rw (find_by-update_by (λ a. a.id) sid sid always f db.submissions keeps, ==_refl sid, e) refl

pub is_refused-IsClaimable :
    (sid now : ℕ) (db : Db) (s : Submission)
    → is_refused s now (has_refunded_submission sid db) ≡ false
    → IsClaimable sid s now db
is_refused-IsClaimable sid now db s h = ground arith

IsClaimable-is_refused :
    (sid now : ℕ) (db : Db) (s : Submission)
    → IsClaimable sid s now db
    → is_refused s now (has_refunded_submission sid db) ≡ false
IsClaimable-is_refused sid now db s h = ground arith

claim_found-grants :
    (sid now : ℕ) (db : Db) (row : Option Submission) (s : Submission) (db' : Db)
    → claim_found sid now row db ≡ (claimed s, db')
    → (row ≡ some s)
      × IsClaimable sid s now db
      × (db' ≡ update_submission sid (set_last_retried (some now)) db)
claim_found-grants sid now db none s db' e = absurd (ground arith)
claim_found-grants sid now db (some fresh) s db' e =
    elim (Bool-cases (is_refused fresh now (has_refunded_submission sid db))) [
      | inl no_claim ↦ absurd (ground arith)
      | inr granted ↦
          let same : fresh ≡ s = ground arith in
          (
            ground arith,
            rw (← same) (is_refused-IsClaimable sid now db fresh granted),
            ground arith,
          )
    ]

-- A claim is granted exactly for a row that is there and claimable. It returns the row as it was
-- read, and marks it with the time.
pub claim_for_retry_grants :
    (sid now : ℕ) (db : Db) (s : Submission) (db' : Db)
    → (claim_for_retry sid now db ≡ (claimed s, db')) ↔ (
        (find_submission sid db ≡ some s)
        × IsClaimable sid s now db
        × (db' ≡ update_submission sid (set_last_retried (some now)) db))
unfolding claim_for_retry
claim_for_retry_grants sid now db s db' = (
  claim_found-grants sid now db (find_submission sid db) s db',
  λ h. rw (h.0, IsClaimable-is_refused sid now db s h.1, h.2) refl,
)

refused_of_live :
    (sid now : ℕ) (db : Db) (s : Submission)
    → find_submission sid db ≡ some s
    → retry_claim_is_live s.last_retried_at now ≡ true
    → claim_for_retry sid now db ≡ (refused, db)
unfolding claim_for_retry
refused_of_live sid now db s e live = rw e (ground arith)

-- Any other claim is refused and changes nothing.
pub claim_refused :
    (sid now : ℕ) (db : Db) (s : Submission)
    → find_submission sid db ≡ some s
    → ¬ IsClaimable sid s now db
    → claim_for_retry sid now db ≡ (refused, db)
unfolding claim_for_retry
claim_refused sid now db s found no_claim =
    elim (Bool-cases (is_refused s now (has_refunded_submission sid db))) [
      | inl stop ↦ rw (found, stop)
      | inr go ↦ absurd (no_claim (is_refused-IsClaimable sid now db s go))
    ]

live_within :
    (now later : ℕ)
    → later < now + retry_claim_lease_ms
    → retry_claim_is_live (some now) later ≡ true
live_within now later h = ground arith

-- A claim excludes every other claim of that submission until its lease has passed: any claim
-- made less than 60 seconds later is refused and changes nothing.
pub claim_for_retry_excludes :
    (sid now later : ℕ) (db : Db) (s : Submission) (db' : Db)
    → claim_for_retry sid now db ≡ (claimed s, db')
    → later < now + retry_claim_lease_ms
    → claim_for_retry sid later db' ≡ (refused, db')
claim_for_retry_excludes sid now later db s db' e soon =
    let (found, _, after) = (claim_for_retry_grants sid now db s db').0 e in
    let row : find_submission sid db' ≡ some (set_last_retried (some now) s) =
      rw after (find-update_submission sid (set_last_retried (some now)) db s (λ a. refl) found) in
    refused_of_live sid later db' (set_last_retried (some now) s) row (live_within now later soon)

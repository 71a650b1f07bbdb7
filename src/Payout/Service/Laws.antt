-- ===== src/Payout/Service/Laws.antt =====
-- On `reprocessPayoutWithNonceSafety` of lib/payout-service.ts.
use mathlib.Core.Option
use centient.Common.{
  leb, ◌&&◌, not, ℕ, ◌≡◌, inl, inr, refl, Bool, true, false, some, arith, Bool-cases,
}
use centient.Payout.Db.{Db, Submission, pending, ambiguous_submit}
use centient.Payout.Attempts.{Settlement, clear, paid, settle_open_attempt}
use centient.Payout.Claim.{
  find_submission, update_submission, is_terminal_status, submission_retry_budget, set_last_retried,
}
use centient.Payout.Claim.Laws.{
  IsClaimable, claim_for_retry_grants, claim_refused, find-update_submission,
}
use centient.Balance.Campaign.{has_refunded_submission}
use centient.Balance.Campaign.Laws.{
  refund_submission_debit-submissions, refund_submission_debit-marks,
}
use centient.Payout.Service.{
  Retry, PayError, pay_failed, returned, threw, pay_error, payable_address, record_payment,
  reprocess_payout, is_ambiguous, is_non_retryable, give_up, pay_caught, retry_settled,
  retries_after, set_failed, set_status, cosigner_unavailable, cosigner_cap, cap_reached,
  other_failure, stellar_failure,
}

-- A retry of a submission with a payable address that is paid, terminal, claimed by another payer or refunded does
-- nothing, whatever the broadcast would have done: it never reaches it.
pub reprocess_payout_stands_down :
    (r : Retry) (sid wallet : ℕ) (s : Submission) (db : Db)
    → find_submission sid db ≡ some s
    → payable_address r.is_valid_address s.wallet_address ≡ some wallet
    → ¬ IsClaimable sid s r.claim_at db
    → reprocess_payout r sid db ≡ (returned, db)
unfolding reprocess_payout
reprocess_payout_stands_down r sid wallet s db found to no_claim =
    elim (Bool-cases (is_terminal_status s.payout_status)) [
      | inl terminal ↦ rw (found, terminal)
      | inr live ↦ rw (found, live, to, claim_refused sid r.claim_at db s found no_claim)
    ]

-- A retry that has its claim, and whose settlement ended in `settled`.
pub record IsSettled (r : Retry) (sid wallet : ℕ) (s : Submission) (db : Db)
    (settled : Settlement × Db) : Type 0 where
  pub found : find_submission sid db ≡ some s
  pub to : payable_address r.is_valid_address s.wallet_address ≡ some wallet
  pub claimable : IsClaimable sid s r.claim_at db
  pub ends :
      settle_open_attempt sid r.horizon r.settle_at
        (update_submission sid (set_last_retried (some r.claim_at)) db)
      ≡ settled

reprocess_payout_settled :
    (r : Retry) (sid wallet : ℕ) (s : Submission) (db : Db) (settled : Settlement × Db)
    → IsSettled r sid wallet s db settled
    → reprocess_payout r sid db ≡ retry_settled r sid wallet s s settled
unfolding reprocess_payout
reprocess_payout_settled r sid wallet s db settled c = rw (
  c.found,
  c.claimable.not_terminal,
  c.to,
  (claim_for_retry_grants sid r.claim_at db s _).1 (c.found, c.claimable, refl),
  c.ends,
)

-- If the settlement finds the earlier envelope applied, the retry records that payment, builds no
-- other, and so the broadcast has no part in the outcome.
pub reprocess_payout_records_landed :
    (r : Retry) (sid wallet hash : ℕ) (s : Submission) (db db' : Db)
    → IsSettled r sid wallet s db (paid hash, db')
    → reprocess_payout r sid db ≡ record_payment r sid s hash db'
reprocess_payout_records_landed r sid wallet hash s db db' c =
    reprocess_payout_settled r sid wallet s db (paid hash, db') c

abbrev is_over : PayError → Submission → Bool
is_over e fresh = leb submission_retry_budget (retries_after e fresh) && not (is_ambiguous e)

give_up-row :
    (r : Retry) (sid : ℕ) (s fresh row : Submission) (e : PayError) (d : Db)
    → find_submission sid d ≡ some row
    → find_submission sid (give_up r sid s fresh e d)
      ≡ some (set_failed (retries_after e fresh) r.finish_at row)
give_up-row r sid s fresh row e d found =
    let f = set_failed (retries_after e fresh) r.finish_at in
    let after = find-update_submission sid f d row (λ a. refl) found in
    elim (Bool-cases (is_over e fresh)) [
      | inl over ↦
          rw
            (
              over,
              refund_submission_debit-submissions r.fee sid s.payout_amount_units
                  (update_submission sid f d),
            )
            after
      | inr again ↦ rw again after
    ]

give_up-marks :
    (r : Retry) (sid fee cid : ℕ) (s row : Submission) (e : PayError) (d : Db)
    → is_non_retryable e ≡ true
    → is_ambiguous e ≡ false
    → find_submission sid d ≡ some row
    → row.is_gold ≡ false
    → row.campaign_id ≡ some cid
    → r.fee ≡ some fee
    → (find_submission sid (give_up r sid s s e d)
        ≡ some (set_failed submission_retry_budget r.finish_at row))
      × (has_refunded_submission sid (give_up r sid s s e d) ≡ true)
give_up-marks r sid fee cid s row e d final proven found not_gold backed fee_set =
    let f = set_failed submission_retry_budget r.finish_at in
    (
      rw (give_up-row r sid s s row e d found, final) refl,
      rw (final, proven, fee_set)
          (refund_submission_debit-marks fee sid s.payout_amount_units cid (f row)
            (update_submission sid f d) (find-update_submission sid f d row (λ a. refl) found)
            not_gold backed),
    )

pay_caught_gives_up :
    (r : Retry) (sid fee cid : ℕ) (s row : Submission) (e : PayError) (d : Db)
    → is_non_retryable e ≡ true
    → is_ambiguous e ≡ false
    → find_submission sid d ≡ some row
    → row.is_gold ≡ false
    → row.campaign_id ≡ some cid
    → r.fee ≡ some fee
    → let (ended, after) = pay_caught r sid s s e d in
      (ended ≡ threw (pay_error e))
      × (find_submission sid after ≡ some (set_failed submission_retry_budget r.finish_at row))
      × (has_refunded_submission sid after ≡ true)
pay_caught_gives_up r sid fee cid s row (stellar_failure c retryable) d final proven found not_gold
      backed fee_set =
    let (row_after, marked) =
      give_up-marks r sid fee cid s row (stellar_failure c retryable) d final proven found not_gold
        backed fee_set in
    (refl, row_after, marked)
pay_caught_gives_up r sid fee cid s row _ d final proven found not_gold backed fee_set =
    absurd (ground arith)

-- The errors that say nothing about the payout.
abbrev pub is_deferral : PayError → Bool
is_deferral cap_reached = true
is_deferral cosigner_cap = true
is_deferral cosigner_unavailable = true
is_deferral _ = false

pay_caught_defers :
    (r : Retry) (sid : ℕ) (s row : Submission) (e : PayError) (d : Db)
    → is_deferral e ≡ true
    → find_submission sid d ≡ some row
    → let (ended, after) = pay_caught r sid s s e d in
      (ended ≡ returned)
      × (Option.map (λ x. x.retry_count) (find_submission sid after) ≡ some row.retry_count)
      × (Option.map (λ x. x.payout_tx_hash) (find_submission sid after) ≡ some row.payout_tx_hash)
      × (after.ledger ≡ d.ledger)
      × (after.balances ≡ d.balances)
      × (after.users ≡ d.users)
pay_caught_defers r sid s row cap_reached d h found =
    let u = find-update_submission sid (set_status pending) d row (λ a. refl) found in
    (refl, rw u, rw u, refl, refl, refl)
pay_caught_defers r sid s row cosigner_cap d h found =
    let u = find-update_submission sid (set_status pending) d row (λ a. refl) found in
    (refl, rw u, rw u, refl, refl, refl)
pay_caught_defers r sid s row cosigner_unavailable d h found =
    (refl, rw found, rw found, refl, refl, refl)
pay_caught_defers r sid s row other_failure d h found = absurd (ground arith)
pay_caught_defers r sid s row (stellar_failure c retryable) d h found = absurd (ground arith)

-- When the broadcast of a retry that holds its claim fails for good, other than for an outcome that could not be proven, the row
-- leaves the retry path with its budget spent, and the debit of a campaign-backed submission has
-- been returned.
pub reprocess_payout_gives_up :
    (r : Retry) (sid wallet fee cid : ℕ) (s row : Submission) (e : PayError) (db db' d : Db)
    → IsSettled r sid wallet s db (clear, db')
    → r.pay wallet s.payout_amount_units db' ≡ (pay_failed e, d)
    → is_non_retryable e ≡ true
    → is_ambiguous e ≡ false
    → find_submission sid d ≡ some row
    → row.is_gold ≡ false
    → row.campaign_id ≡ some cid
    → r.fee ≡ some fee
    → let (ended, after) = reprocess_payout r sid db in
      (ended ≡ threw (pay_error e))
      × (find_submission sid after ≡ some (set_failed submission_retry_budget r.finish_at row))
      × (has_refunded_submission sid after ≡ true)
reprocess_payout_gives_up r sid wallet fee cid s row e db db' d c failure final proven found
      not_gold backed fee_set =
    rw (reprocess_payout_settled r sid wallet s db (clear, db') c, failure)
      (pay_caught_gives_up r sid fee cid s row e d final proven found not_gold backed fee_set)

-- The broadcast of a retry that holds its claim, if its outcome could not be proven, returns no debit: the campaign ledger and every
-- balance stay as the broadcast left them.
pub reprocess_payout_ambiguous :
    (r : Retry) (sid wallet : ℕ) (s : Submission) (retryable : Bool) (db db' d : Db)
    → IsSettled r sid wallet s db (clear, db')
    → r.pay wallet s.payout_amount_units db'
      ≡ (pay_failed (stellar_failure ambiguous_submit retryable), d)
    → let (ended, after) = reprocess_payout r sid db in
      (after.ledger ≡ d.ledger) × (after.balances ≡ d.balances) × (after.users ≡ d.users)
reprocess_payout_ambiguous r sid wallet s retryable db db' d c failure =
    rw (reprocess_payout_settled r sid wallet s db (clear, db') c, failure) (ground arith)

-- A cap and an unreachable co-signer spend no retry and return no debit: the row keeps its retry
-- count and its hash, and the ledgers stay as the broadcast left them.
pub reprocess_payout_defers :
    (r : Retry) (sid wallet : ℕ) (s row : Submission) (e : PayError) (db db' d : Db)
    → IsSettled r sid wallet s db (clear, db')
    → r.pay wallet s.payout_amount_units db' ≡ (pay_failed e, d)
    → is_deferral e ≡ true
    → find_submission sid d ≡ some row
    → let (ended, after) = reprocess_payout r sid db in
      (ended ≡ returned)
      × (Option.map (λ x. x.retry_count) (find_submission sid after) ≡ some row.retry_count)
      × (Option.map (λ x. x.payout_tx_hash) (find_submission sid after) ≡ some row.payout_tx_hash)
      × (after.ledger ≡ d.ledger)
      × (after.balances ≡ d.balances)
      × (after.users ≡ d.users)
reprocess_payout_defers r sid wallet s row e db db' d c failure defers row_found =
    rw (reprocess_payout_settled r sid wallet s db (clear, db') c, failure)
      (pay_caught_defers r sid s row e d defers row_found)

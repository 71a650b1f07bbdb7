-- ===== src/Stellar/Submitter/Cycle/Journalled.antt =====
-- On the journal of lib/payout-attempts.ts under `submitMultisigPayout` of
-- lib/stellar/payout-submitter.ts.
use centient.Common.{
  ℕ, ◌≡◌, ◌⊎◌, inl, inr, refl, sym, true, false, Option, none, some, ok, arith, List, [], ◌∷◌,
  find_first, find_by, Bool-cases, ◌≢◌, ◌∙◌, subst,
}
use centient.Payout.Db.{Db, PayoutAttempt}
use centient.Payout.Attempts.{is_open_of, may_open, violates_index, journal_open}
use centient.Payout.Attempts.Laws.{journal_open-eq-none, journal_open-eq-none_of_open}
use centient.Stellar.Envelope.{bump_hash}
use centient.Stellar.Submitter.{Outcome, envelope_expiry_ms}
use centient.Stellar.Submitter.Cycle.{
  Setup, PayoutRequest, Cycle, World, open_attempt_of, submit_multisig_payout,
}
use centient.Stellar.Submitter.Cycle.Laws.{Ran, stopped, went, submit_multisig_payout-keeps}

-- The submission cannot be paid, or an envelope of it is still open.
abbrev pub CannotOpen : ℕ → Db → Type 0
CannotOpen sid db =
    (may_open (find_by (λ r. r.id) sid db.submissions) ≡ false)
    ⊎ ((a : PayoutAttempt) × (find_first (is_open_of sid) db.attempts ≡ some a))

violates_index-of_open :
    (sid hash : ℕ) (rows : List PayoutAttempt) (a : PayoutAttempt)
    → find_first (is_open_of sid) rows ≡ some a
    → violates_index sid hash rows ≡ true
violates_index-of_open sid hash [] a e = absurd (ground arith)
violates_index-of_open sid hash (b ∷ rows) a e = elim (Bool-cases (is_open_of sid b)) [
  | inl here ↦ ground arith
  | inr not_here ↦ ground (arith, violates_index-of_open sid hash rows a)
]

journal_open-CannotOpen :
    (sid hash expires_at now : ℕ) (db : Db)
    → CannotOpen sid db
    → journal_open sid hash expires_at now db ≡ none
journal_open-CannotOpen sid hash expires_at now db (inl h) =
    journal_open-eq-none sid hash expires_at now db h
journal_open-CannotOpen sid hash expires_at now db (inr (a, found)) =
    journal_open-eq-none_of_open sid hash expires_at now db
      (violates_index-of_open sid hash db.attempts a found)

open_attempt_of-CannotOpen :
    (s : Setup) (sid hash : ℕ) (c : Cycle) (expires_at : Option ℕ) (db db' : Db)
    → s.journal ≡ some sid
    → CannotOpen sid db
    → open_attempt_of s.journal hash c expires_at db ≢ ok db'
open_attempt_of-CannotOpen s sid hash c none db db' j h = rw j (λ e. cc)
open_attempt_of-CannotOpen s sid hash c (some at) db db' j h =
    rw (j, journal_open-CannotOpen sid hash at c.opened_at db h) (λ e. cc)

Ran-CannotOpen :
    (s : Setup) (request : PayoutRequest) (sid : ℕ) (rail : World) (c : Cycle) (r r' : World)
    (o : Outcome)
    → s.journal ≡ some sid
    → CannotOpen sid rail.db
    → r ≡ rail
    → Ran s request c r o r'
    → r' ≡ rail
Ran-CannotOpen s request sid rail c r r' o j h same (stopped e x early kept) = kept ∙ same
Ran-CannotOpen s request sid rail c r r' o j h same (went bump db signed opened ended) = absurd (
    open_attempt_of-CannotOpen s sid (bump_hash s.sdk bump) c (envelope_expiry_ms bump) r.db db j
      (subst (λ (x : World). CannotOpen sid x.db) (sym same) h) opened)

-- Under the journal of a submission that is paid, not payable or missing, or that has an open
-- envelope, nothing is handed to Horizon and nothing is written.
pub submit_multisig_payout-CannotOpen :
    (s : Setup) (request : PayoutRequest) (first second : Cycle) (sid : ℕ) (rail : World)
    (outcome : Outcome) (rail' : World)
    → s.journal ≡ some sid
    → CannotOpen sid rail.db
    → submit_multisig_payout s request first second rail ≡ some (outcome, rail')
    → rail' ≡ rail
submit_multisig_payout-CannotOpen s request first second sid rail outcome rail' j h e =
    submit_multisig_payout-keeps (λ r. r ≡ rail) s request first second rail outcome rail'
      (λ c r r' o same ran. Ran-CannotOpen s request sid rail c r r' o j h same ran) refl e

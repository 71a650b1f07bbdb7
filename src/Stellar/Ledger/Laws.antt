-- ===== src/Stellar/Ledger/Laws.antt =====
-- On `assertLedgerAgrees` and `readLedgerPayout` of lib/stellar/cosigner-ledger.ts.
use centient.Common.{
  ℕ, ◌≡◌, ◌≢◌, ◌↔◌, inl, inr, refl, sym, subst, true, Option, none, some, arith, find_first,
  find_by, Option-cases,
}
use centient.Payout.Db.{Db, Submission, PayoutAttempt}
use centient.Payout.Attempts.{is_open_of, journal_open}
use centient.Stellar.Ledger.{
  Kind, submission, kind_eq, PayoutCoSignRequest, LedgerPayout, is_signable, assert_ledger_agrees,
  read_ledger_payout, row_refusal, of_submission,
}

-- The row describes the very payment that is asked for, nothing was paid for it, nothing is in flight.
pub record Owes (row : LedgerPayout) (request : PayoutCoSignRequest) : Type 0 where
  pub same_kind : row.kind ≡ request.reference.kind
  pub unpaid : row.tx_hash ≡ none
  pub not_in_flight : row.open_attempt_hash ≡ none
  pub signable : is_signable request.reference.kind row.status ≡ true
  pub destination : row.destination ≡ some request.destination
  pub amount : row.amount_units ≡ some request.amount_units

kind_eq_iff : (a b : Kind) → (kind_eq a b ≡ true) ↔ (a ≡ b)
kind_eq_iff a b = ground arith

row_refusal-Owes :
    (row : LedgerPayout) (request : PayoutCoSignRequest)
    → row_refusal row request ≡ none
    → Owes row request
row_refusal-Owes row request h = record {
  same_kind = ground arith;
  unpaid = ground arith;
  not_in_flight = ground arith;
  signable = ground arith;
  destination = ground arith;
  amount = ground arith;
}

Owes-row_refusal :
    (row : LedgerPayout) (request : PayoutCoSignRequest)
    → Owes row request
    → row_refusal row request ≡ none
Owes-row_refusal row request o =
    let same_kind = o.same_kind in
    let unpaid = o.unpaid in
    let not_in_flight = o.not_in_flight in
    let signable = o.signable in
    let destination = o.destination in let amount = o.amount in ground arith

-- The co-signer agrees exactly if there is a ledger row and it owes the request: the same kind,
-- no hash, no unsettled envelope, a signable status, the same destination and the same amount.
pub assert_ledger_agrees_iff :
    (row : Option LedgerPayout) (request : PayoutCoSignRequest)
    → (assert_ledger_agrees row request ≡ none)
      ↔ ((r : LedgerPayout) × (row ≡ some r) × Owes r request)
assert_ledger_agrees_iff none request = ground arith
assert_ledger_agrees_iff (some row) request = (
  λ h. (row, refl, row_refusal-Owes row request h),
  λ (r, e, o).
      subst (λ (x : Option LedgerPayout). assert_ledger_agrees x request ≡ none) (sym e)
        (Owes-row_refusal r request o),
)

refuses_open :
    (sid : ℕ) (a : PayoutAttempt) (row : Option Submission) (request : PayoutCoSignRequest)
    → assert_ledger_agrees (of_submission sid (some a) row) request ≢ none
refuses_open sid a none request = ground arith
refuses_open sid a (some row) request = ground arith

journal_open-find_first :
    (sid hash expires_at now : ℕ) (db db' : Db)
    → journal_open sid hash expires_at now db ≡ some db'
    → (a : PayoutAttempt) × (find_first (is_open_of sid) db'.attempts ≡ some a)
unfolding journal_open
journal_open-find_first sid hash expires_at now db db' h =
    elim (Option-cases (find_first (is_open_of sid) db'.attempts)) [
      | inl missing ↦ absurd (ground arith)
      | inr found ↦ found
    ]

-- From the moment an envelope is journalled for a submission, the co-signer refuses every request
-- for that submission, whatever it asks to pay.
pub assert_ledger_agrees_in_flight :
    (sid hash expires_at now : ℕ) (db : Db) {db' : Db} (request : PayoutCoSignRequest)
    → journal_open sid hash expires_at now db ≡ some db'
    → request.reference.kind ≡ submission
    → request.reference.id ≡ sid
    → assert_ledger_agrees (read_ledger_payout db' request.reference) request ≢ none
assert_ledger_agrees_in_flight sid hash expires_at now db {db'} request h kind id =
    let (a, found) = journal_open-find_first sid hash expires_at now db db' h in
    rw (kind, id, found) (refuses_open sid a (find_by (λ s. s.id) sid db'.submissions) _)

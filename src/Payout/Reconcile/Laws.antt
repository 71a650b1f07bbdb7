-- ===== src/Payout/Reconcile/Laws.antt =====
-- On `settleHeldPayment` and `claimHeldPayment` of lib/payout-reconcile.ts.
use centient.Common.{
  ℕ, ◌≡◌, inl, inr, refl, true, false, Option, none, some, arith, Bool-cases, Option-cases,
}
use centient.Payout.Db.{Db, Submission}
use centient.Payout.Claim.{find_submission}
use centient.Payout.Settled.{Rail}
use centient.Payout.Settled.Laws.{WasOwed, find_submission-update_where}
use centient.Payout.Reconcile.{
  TxLookup, tx_applied, tx_included_and_failed, take_held, may_take, set_looked_at, is_takeable,
}
use centient.Stellar.Verify.{DecodedTx}
use centient.Balance.Campaign.{has_refunded_submission}

-- Why a held payout is held no longer.
pub data Proof (rail : Rail) (lookup : Option TxLookup) (sid hash : ℕ) (sub : Submission) (db : Db)
    : Type 0 where
  paid_out :
      (xdr : Option DecodedTx)
      → lookup ≡ some (tx_applied xdr)
      → WasOwed rail xdr sub
      → Proof rail lookup sid hash sub db
  never_paid :
      lookup ≡ some tx_included_and_failed
      → sub.payout_tx_hash ≡ some hash
      → has_refunded_submission sid db ≡ false
      → Proof rail lookup sid hash sub db

leased :
    (now : ℕ) (next s : Submission)
    → is_takeable now next ≡ true
    → may_take next (set_looked_at now s) ≡ false
leased now next s h = ground arith

-- A held row that is due and is taken is leased: a reconciler that read the same row before the lease, and
-- comes to it after, takes nothing.
pub take_held_excludes :
    (now later : ℕ) (next : Submission) (db : Db)
    → is_takeable now next ≡ true
    → (take_held later next (take_held now next db).1).0 ≡ none
unfolding take_held
take_held_excludes now later next db due = elim (Option-cases (find_submission next.id db)) [
  | inl missing ↦ rw missing (rw missing refl)
  | inr (s, found) ↦ elim (Bool-cases (may_take next s)) [
    | inl ours ↦ rw found (
        rw ours (
          rw
            (find_submission-update_where next.id (may_take next) (set_looked_at now) s db
              (λ r. refl) found)
            (rw ours (rw (leased now next s due) refl))))
    | inr gone ↦ rw found (rw gone (rw found (rw gone refl)))
  ]
]

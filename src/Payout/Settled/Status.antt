-- ===== src/Payout/Settled/Status.antt =====
-- On the states in which `settleConfirmedPayment` of lib/payout-reconcile.ts leaves a row.
use centient.Common.{
  ℕ, some-inj, ◌≡◌, ◌⊎◌, ◌∙◌, inl, inr, refl, ap, sym, subst, true, false, Bool, Option, none, some,
  List, if◌then◌else◌, find_by, find_first, Bool-cases, arith,
}
use centient.Payout.Db.{
  Db, Submission, PayoutJob, confirmed, needs_reconciliation, cannot_verify, User,
}
use centient.Payout.Claim.{find_submission}
use centient.Payout.Attempts.{confirm_attempt}
use centient.Payout.Record.{is_job_of, credit_user}
use centient.Payout.Settled.{
  repair_found, has_tuple, SettledFrom, from_sent, from_held, Rail, is_unchanged, update_where,
  set_confirmed, set_mismatch, set_error, holds, settle_confirmed_payment, settle_configured,
  settle_confirmed_row, on_checked, check_wallet, may_mark, confirm_held, confirm_from,
  repair_payout_job_tuple,
}
use centient.Payout.Settled.Laws.{find_submission-update_where, error_set}
use centient.Stellar.Verify.{DecodedTx, PayoutVerification, verified, mismatched}

-- The row was left where it was, confirmed, or held.
abbrev pub Rests : Submission → Submission → Type 0
Rests sub after =
    (after.payout_status ≡ sub.payout_status)
    ⊎ ((after.payout_status ≡ confirmed) ⊎ (after.payout_status ≡ needs_reconciliation))

pub same_row :
    (sub after : Submission) → some sub ≡ some after → after.payout_status ≡ sub.payout_status
same_row sub after e = ap (λ (s : Submission). s.payout_status) (sym (some-inj e))

confirm_attempt-submissions :
    (hash : ℕ) (db : Db) → (confirm_attempt hash db).submissions ≡ db.submissions
unfolding confirm_attempt
confirm_attempt-submissions hash db = refl

by_confirmed :
    (at : ℕ) (p : Submission → Bool) (sub after : Submission)
    → some (if p sub then set_confirmed at sub else sub) ≡ some after
    → Rests sub after
by_confirmed at p sub after e = elim (Bool-cases (p sub)) [
  | inl moved ↦ inr (inl (ground arith))
  | inr left ↦ inl (ground arith)
]

by_mismatch :
    (p : Submission → Bool) (sub after : Submission)
    → some (if p sub then set_mismatch sub else sub) ≡ some after
    → Rests sub after
by_mismatch p sub after e = elim (Bool-cases (p sub)) [
  | inl moved ↦ inr (inr (ground arith))
  | inr left ↦ inl (ground arith)
]

repair-submissions :
    (rail : Rail) (sid hash amount : ℕ) (job : Option PayoutJob) (db : Db)
    → (repair_found rail sid hash amount job db).submissions ≡ db.submissions
repair-submissions rail sid hash amount job db = elim (Bool-cases (has_tuple hash job)) [
  | inl whole ↦ rw whole refl
  | inr broken ↦ rw broken refl
]

-- The confirmation of a held row touches no column of the submission besides those of its update.
confirm_held-submissions :
    (rail : Rail) (sid hash : ℕ) (sub : Submission) (u : Option User) (db db' : Db)
    → confirm_held rail sid hash sub u db ≡ some db'
    → find_submission sid db' ≡ find_submission sid db
unfolding repair_payout_job_tuple
confirm_held-submissions rail sid hash sub none db db' e = absurd (ground arith)
confirm_held-submissions rail sid hash sub (some u) db db' e =
    let paid_db = credit_user sub.user_id sub.payout_amount_units (confirm_attempt hash db) in
    sym (ap (find_submission sid) (some-inj e))
    ∙ ap (λ (rows : List Submission). find_by (λ s. s.id) sid rows)
        (repair-submissions rail sid hash sub.payout_amount_units
            (find_first (is_job_of sid) paid_db.jobs) paid_db
          ∙ confirm_attempt-submissions hash db)

confirm_held-Rests :
    (b : Bool) (rail : Rail) (sid hash : ℕ) (sub after : Submission) (db db' : Db)
    → find_submission sid db ≡ some sub
    → (if b
        then confirm_held rail sid hash sub
            (find_by (λ u. u.id) sub.user_id db.users)
            (update_where sid (is_unchanged from_held hash) (set_confirmed rail.now) db)
        else some db)
      ≡ some db'
    → find_submission sid db' ≡ some after
    → Rests sub after
confirm_held-Rests true rail sid hash sub after db db' found e h =
    by_confirmed rail.now (is_unchanged from_held hash) sub after (
      sym (
        find_submission-update_where sid (is_unchanged from_held hash) (set_confirmed rail.now) sub
          db (λ s. refl) found)
      ∙ (sym (
            confirm_held-submissions rail sid hash sub (find_by (λ u. u.id) sub.user_id db.users)
              (update_where sid (is_unchanged from_held hash) (set_confirmed rail.now) db) db' e)
          ∙ h))
confirm_held-Rests false rail sid hash sub after db db' found e h =
    inl (same_row sub after (sym found ∙ (ap (find_submission sid) (some-inj e) ∙ h)))

confirm_from-Rests :
    (rail : Rail) (sid hash : ℕ) (from : SettledFrom) (sub after : Submission) (db db' : Db)
    → find_submission sid db ≡ some sub
    → confirm_from rail sid hash from sub db ≡ some db'
    → find_submission sid db' ≡ some after
    → Rests sub after
confirm_from-Rests rail sid hash from_sent sub after db db' found e h =
    by_confirmed rail.now (is_unchanged from_sent hash) sub after (
      sym (
        find_submission-update_where sid (is_unchanged from_sent hash) (set_confirmed rail.now) sub
          db (λ s. refl) found)
      ∙ (ap (find_submission sid) (some-inj e) ∙ h))
confirm_from-Rests rail sid hash from_held sub after db db' found e h =
    confirm_held-Rests (holds (is_unchanged from_held hash) (find_submission sid db)) rail sid hash
      sub after db db' found e h

checked-Rests :
    (rail : Rail) (sid hash : ℕ) (from : SettledFrom) (sub after : Submission)
    (v : Option PayoutVerification) (db db' : Db)
    → find_submission sid db ≡ some sub
    → on_checked rail sid hash from sub v db ≡ some db'
    → find_submission sid db' ≡ some after
    → Rests sub after
checked-Rests rail sid hash from sub after none db db' found e h = absurd (ground arith)
checked-Rests rail sid hash from sub after (some verified) db db' found e h =
    confirm_from-Rests rail sid hash from sub after db db' found e h
checked-Rests rail sid hash from sub after (some (mismatched ms)) db db' found e h =
    by_mismatch (may_mark from hash) sub after (
      sym (
        find_submission-update_where sid (may_mark from hash) set_mismatch sub db (λ s. refl) found)
      ∙ (ap (find_submission sid) (some-inj e) ∙ h))

configured-Rests :
    (rail : Rail) (sid hash : ℕ) (xdr : Option DecodedTx) (from : SettledFrom)
    (sub after : Submission) (config : Option (ℕ × ℕ)) (db db' : Db)
    → find_submission sid db ≡ some sub
    → settle_configured rail sid hash xdr from sub config db ≡ some db'
    → find_submission sid db' ≡ some after
    → Rests sub after
configured-Rests rail sid hash xdr from sub after none db db' found e h = inl (
    same_row (set_error cannot_verify sub) after
      (sym (error_set sid sub db found) ∙ (ap (find_submission sid) (some-inj e) ∙ h)))
configured-Rests rail sid hash xdr from sub after (some config) db db' found e h =
    checked-Rests rail sid hash from sub after (check_wallet config xdr sub sub.wallet_address) db
      db' found e h

-- An applied envelope leaves its submission where it was, confirms it, or holds it for a human.
pub settle_confirmed_payment-Rests :
    (rail : Rail) (sid hash : ℕ) (xdr : Option DecodedTx) (from : SettledFrom)
    (sub after : Submission) (db db' : Db)
    → find_submission sid db ≡ some sub
    → settle_confirmed_payment rail sid hash xdr from db ≡ some db'
    → find_submission sid db' ≡ some after
    → Rests sub after
unfolding settle_confirmed_payment
settle_confirmed_payment-Rests rail sid hash xdr from sub after db db' found e h =
    configured-Rests rail sid hash xdr from sub after rail.account_and_asset db db' found
      (subst
        (λ (row : Option Submission). settle_confirmed_row rail sid hash xdr from row db ≡ some db')
        found e)
      h

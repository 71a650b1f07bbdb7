-- ===== src/Payout/Settled/Laws.antt =====
-- On `settleConfirmedPayment` and `repairPayoutJobTuple` of lib/payout-reconcile.ts.
use centient.Common.{
  ℕ, ◌≡◌, ◌⊎◌, ◌∙◌, inl, inr, refl, ap, sym, subst, true, Bool, Option, none, some, List, [], ◌∷◌,
  arith, if◌then◌else◌, find_by, find_first, update_many, find_by-update_by, ==_refl, Bool-cases,
  Option-cases, always, some-inj,
}
use centient.Payout.Db.{Db, Submission, PayoutJob, PayoutStatus, confirmed, pending, cannot_verify}
use centient.Payout.Claim.{find_submission, update_submission}
use centient.Payout.Record.{is_job_of}
use centient.Payout.Settled.{
  SettledFrom, Rail, update_where, set_mismatch, set_error, has_tuple, repaired, broadcast_time,
  repair_payout_job_tuple, settle_confirmed_payment, settle_configured, settle_confirmed_row,
  on_checked, check_wallet, expected_of, may_mark, on_verdict,
}
use centient.Stellar.Verify.{
  DecodedTx, Mismatch, PayoutVerification, verified, mismatched, verify_settled_payout,
}
use centient.Stellar.Verify.Laws.{IsPayout, verify_settled_payout_iff}

tuple_repaired :
    (sid hash amount at now : ℕ) (jobs : List PayoutJob) (j : PayoutJob)
    → find_first (is_job_of sid) jobs ≡ some j
    → find_first (is_job_of sid) (update_many (is_job_of sid) (repaired hash amount at now) jobs)
      ≡ some (repaired hash amount at now j)
tuple_repaired sid hash amount at now [] j h = ground arith
tuple_repaired sid hash amount at now (k ∷ jobs) j h =
    ground (arith, tuple_repaired sid hash amount at now jobs j)

repaired-has_tuple :
    (hash amount at now : ℕ) (j : PayoutJob)
    → has_tuple hash (some (repaired hash amount at now j)) ≡ true
repaired-has_tuple hash amount at now j = rw (==_refl hash) refl

-- After the repair, the job that the submission pays through carries the hash, an amount and a
-- broadcast time, so that both rolling caps count the payment.
pub repair_payout_job_tuple-has_tuple :
    (rail : Rail) (sid hash amount : ℕ) (db : Db)
    → has_tuple hash
        (find_first (is_job_of sid) (repair_payout_job_tuple rail sid hash amount db).jobs)
      ≡ true
unfolding repair_payout_job_tuple
repair_payout_job_tuple-has_tuple rail sid hash amount db =
    elim (Option-cases (find_first (is_job_of sid) db.jobs)) [
      | inl missing ↦ rw missing (rw (==_refl sid, ==_refl hash) refl)
      | inr (j, found) ↦ elim (Bool-cases (has_tuple hash (some j))) [
        | inl whole ↦ rw found (rw whole (rw found whole))
        | inr broken ↦ rw found (
            rw broken (
              ap (has_tuple hash) (
                tuple_repaired sid hash amount
                  (broadcast_time (find_by (λ a. a.envelope_hash) hash db.attempts) (some j)
                    rail.now)
                  rail.now db.jobs j found)
              ∙ repaired-has_tuple hash amount
                  (broadcast_time (find_by (λ a. a.envelope_hash) hash db.attempts) (some j)
                    rail.now)
                  rail.now j))
      ]
    ]

pub find_submission-update_where :
    (sid : ℕ) (p : Submission → Bool) (f : Submission → Submission) (sub : Submission) (db : Db)
    → ((s : Submission) → (f s).id ≡ s.id)
    → find_submission sid db ≡ some sub
    → find_submission sid (update_where sid p f db) ≡ some (if p sub then f sub else sub)
find_submission-update_where sid p f sub db keeps h =
    rw (find_by-update_by (λ (s : Submission). s.id) sid sid p f db.submissions keeps)
      (rw (==_refl sid, h) refl)

-- The envelope is the payout that the submission was owed, under the configured account and asset.
pub record WasOwed (rail : Rail) (xdr : Option DecodedTx) (sub : Submission) : Type 0 where
  pub account : ℕ
  pub asset : ℕ
  pub wallet : ℕ
  pub tx : DecodedTx
  pub configured : rail.account_and_asset ≡ some (account, asset)
  pub bound : sub.wallet_address ≡ some wallet
  pub decoded : xdr ≡ some tx
  pub owed : IsPayout tx (expected_of (account, asset) wallet sub)

unmarked :
    (p : Submission → Bool) (sub after : Submission)
    → some (if p sub then set_mismatch sub else sub) ≡ some after
    → after.payout_status ≡ confirmed
    → sub.payout_status ≡ confirmed
unmarked p sub after e h = elim (Bool-cases (p sub)) [
  | inl marked ↦ ground arith
  | inr left ↦ ground arith
]

mismatched-status :
    (rail : Rail) (sid hash : ℕ) (from : SettledFrom) (sub after : Submission) (ms : List Mismatch)
    (db db' : Db)
    → find_submission sid db ≡ some sub
    → on_verdict rail sid hash from sub (mismatched ms) db ≡ some db'
    → find_submission sid db' ≡ some after
    → after.payout_status ≡ confirmed
    → sub.payout_status ≡ confirmed
mismatched-status rail sid hash from sub after ms db db' found e h c =
    unmarked (may_mark from hash) sub after
      (sym (
          find_submission-update_where sid (may_mark from hash) set_mismatch sub db (λ s. refl)
            found)
        ∙ (ap (find_submission sid) (some-inj e) ∙ h))
      c

verified-WasOwed :
    (rail : Rail) (account asset wallet : ℕ) (xdr : Option DecodedTx) (sub : Submission)
    → rail.account_and_asset ≡ some (account, asset)
    → sub.wallet_address ≡ some wallet
    → verify_settled_payout xdr (expected_of (account, asset) wallet sub) ≡ some verified
    → WasOwed rail xdr sub
unfolding verify_settled_payout
verified-WasOwed rail account asset wallet none sub c b h = absurd (ground arith)
verified-WasOwed rail account asset wallet (some tx) sub c b h = record {
  account = account;
  asset = asset;
  wallet = wallet;
  tx = tx;
  configured = c;
  bound = b;
  decoded = refl;
  owed = (verify_settled_payout_iff tx (expected_of (account, asset) wallet sub)).0 h;
}

settled_verdict :
    (rail : Rail) (sid hash account asset wallet : ℕ) (xdr : Option DecodedTx) (from : SettledFrom)
    (sub after : Submission) (v : Option PayoutVerification) (db db' : Db)
    → find_submission sid db ≡ some sub
    → rail.account_and_asset ≡ some (account, asset)
    → sub.wallet_address ≡ some wallet
    → verify_settled_payout xdr (expected_of (account, asset) wallet sub) ≡ v
    → on_checked rail sid hash from sub v db ≡ some db'
    → find_submission sid db' ≡ some after
    → after.payout_status ≡ confirmed
    → (sub.payout_status ≡ confirmed) ⊎ WasOwed rail xdr sub
settled_verdict rail sid hash account asset wallet xdr from sub after none db db' found c b v e h
      ends =
    absurd (ground arith)
settled_verdict rail sid hash account asset wallet xdr from sub after (some verified) db db' found c
      b v e h ends =
    inr (verified-WasOwed rail account asset wallet xdr sub c b v)
settled_verdict rail sid hash account asset wallet xdr from sub after (some (mismatched ms)) db db'
      found c b v e h ends =
    inl (mismatched-status rail sid hash from sub after ms db db' found e h ends)

settled_wallet :
    (rail : Rail) (sid hash account asset : ℕ) (wallet : Option ℕ) (xdr : Option DecodedTx)
    (from : SettledFrom) (sub after : Submission) (db db' : Db)
    → find_submission sid db ≡ some sub
    → rail.account_and_asset ≡ some (account, asset)
    → sub.wallet_address ≡ wallet
    → on_checked rail sid hash from sub (check_wallet (account, asset) xdr sub wallet) db ≡ some db'
    → find_submission sid db' ≡ some after
    → after.payout_status ≡ confirmed
    → (sub.payout_status ≡ confirmed) ⊎ WasOwed rail xdr sub
settled_wallet rail sid hash account asset none xdr from sub after db db' found c b e h ends =
    inl (mismatched-status rail sid hash from sub after [] db db' found e h ends)
settled_wallet rail sid hash account asset (some wallet) xdr from sub after db db' found c b e h
      ends =
    settled_verdict rail sid hash account asset wallet xdr from sub after _ db db' found c b refl e
      h ends

pub error_set :
    (sid : ℕ) (sub : Submission) (db : Db)
    → find_submission sid db ≡ some sub
    → find_submission sid (update_submission sid (set_error cannot_verify) db)
      ≡ some (set_error cannot_verify sub)
error_set sid sub db h =
    rw
      (find_by-update_by (λ (s : Submission). s.id) sid sid always (set_error cannot_verify)
        db.submissions (λ s. refl))
      (rw (==_refl sid, h) refl)

abbrev status_of : Option Submission → PayoutStatus
status_of none = pending
status_of (some s) = s.payout_status

same_status :
    (sid : ℕ) (sub after : Submission) (db : Db)
    → find_submission sid (update_submission sid (set_error cannot_verify) db) ≡ some after
    → find_submission sid db ≡ some sub
    → after.payout_status ≡ confirmed
    → sub.payout_status ≡ confirmed
same_status sid sub after db h found ends =
    ap (λ (s : Option Submission). status_of s) (sym (error_set sid sub db found) ∙ h) ∙ ends

settled_configured :
    (rail : Rail) (sid hash : ℕ) (config : Option (ℕ × ℕ)) (xdr : Option DecodedTx)
    (from : SettledFrom) (sub after : Submission) (db db' : Db)
    → find_submission sid db ≡ some sub
    → rail.account_and_asset ≡ config
    → settle_configured rail sid hash xdr from sub config db ≡ some db'
    → find_submission sid db' ≡ some after
    → after.payout_status ≡ confirmed
    → (sub.payout_status ≡ confirmed) ⊎ WasOwed rail xdr sub
settled_configured rail sid hash none xdr from sub after db db' found c e h ends =
    inl (same_status sid sub after db (ap (find_submission sid) (some-inj e) ∙ h) found ends)
settled_configured rail sid hash (some (account, asset)) xdr from sub after db db' found c e h
      ends =
    settled_wallet rail sid hash account asset sub.wallet_address xdr from sub after db db' found c
      refl e h ends

-- A submission becomes `confirmed` only on an envelope that is the payout it was owed: to its bound
-- wallet, of its amount, in the configured asset, from the payout account.
pub settle_confirmed_payment-WasOwed :
    (rail : Rail) (sid hash : ℕ) (xdr : Option DecodedTx) (from : SettledFrom)
    (sub after : Submission) (db db' : Db)
    → find_submission sid db ≡ some sub
    → settle_confirmed_payment rail sid hash xdr from db ≡ some db'
    → find_submission sid db' ≡ some after
    → after.payout_status ≡ confirmed
    → (sub.payout_status ≡ confirmed) ⊎ WasOwed rail xdr sub
unfolding settle_confirmed_payment
settle_confirmed_payment-WasOwed rail sid hash xdr from sub after db db' found e h ends =
    settled_configured rail sid hash rail.account_and_asset xdr from sub after db db' found refl
      (subst
        (λ (row : Option Submission). settle_confirmed_row rail sid hash xdr from row db ≡ some db')
        found e)
      h ends

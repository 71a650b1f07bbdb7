-- ===== src/Payout/Record/Laws.antt =====
-- On the row and the credit that the recording callbacks write.
use centient.Common.{
  ℕ, ap, subst, ◌+◌, ◌≡◌, refl, Option, none, some, arith, find_by, always, find_by-update_by,
  ==_refl,
}
use mathlib.Core.Option
use centient.Payout.Db.{Db, Submission, sent, User}
use centient.Payout.Claim.{find_submission, update_submission}
use centient.Payout.Claim.Laws.{find-update_submission}
use centient.Payout.Attempts.{confirm_attempt}
use centient.Payout.Record.{set_sent, credit_earned, credit_user, mark_sent, record_row, and_then}

abbrev pub earned : Option User → ℕ
earned none = 0
earned (some u) = u.total_earned_units

abbrev pub earned_of : ℕ → Db → ℕ
earned_of uid db = earned (find_by (λ u. u.id) uid db.users)

-- What a record of the payment `hash` of a submission has left: the row carries the hash and reads
-- `sent`, and its labeler has earned the amount on top.
pub record IsRecorded (sid uid amount hash : ℕ) (db db' : Db) : Type 0 where
  pub hashed : Option.map (λ s. s.payout_tx_hash) (find_submission sid db') ≡ some (some hash)
  pub marked : Option.map (λ s. s.payout_status) (find_submission sid db') ≡ some sent
  pub credited : earned_of uid db' ≡ earned_of uid db + amount

set_sent-fields :
    (hash : ℕ) (at : Option ℕ) (s : Submission)
    → ((set_sent hash at s).payout_tx_hash ≡ some hash)
      × ((set_sent hash at s).payout_status ≡ sent)
      × ((set_sent hash at s).id ≡ s.id)
set_sent-fields hash none s = (refl, refl, refl)
set_sent-fields hash (some t) s = (refl, refl, refl)

mark_sent-IsRecorded :
    (sid uid amount hash : ℕ) (at : Option ℕ) (s : Submission) (user : Option User) (db db' : Db)
    → find_submission sid db ≡ some s
    → find_by (λ u. u.id) uid db.users ≡ user
    → mark_sent sid uid amount hash at user db ≡ some db'
    → IsRecorded sid uid amount hash db db'
unfolding confirm_attempt
mark_sent-IsRecorded sid uid amount hash at s none db db' found has_user e = absurd (ground arith)
mark_sent-IsRecorded sid uid amount hash at s (some u) db db' found has_user e =
    let row =
      find-update_submission sid (set_sent hash at) db s (λ a. (set_sent-fields hash at a).2)
        found in
    let same : credit_user uid amount
          (confirm_attempt hash (update_submission sid (set_sent hash at) db))
        ≡ db' =
      ground arith in
    subst (IsRecorded sid uid amount hash db) same (record {
      hashed = rw row (ap some (set_sent-fields hash at s).0);
      marked = rw row (ap some (set_sent-fields hash at s).1);
      credited =
          rw
            (
              find_by-update_by (λ u. u.id) uid uid always (credit_earned amount) db.users
                  (λ a. refl),
              ==_refl uid,
              has_user,
            )
            refl;
    })

module _ (sid uid amount hash : ℕ) (at : Option ℕ) where
  -- The record of a payment whose row carries no hash.
  pub record_hash-fresh :
      (finish : Db → Db) (s : Submission) (db db' : Db)
      → find_submission sid db ≡ some s
      → s.payout_tx_hash ≡ none
      → record_row sid uid amount hash at finish (find_submission sid db) db ≡ some db'
      → (d : Db) × (db' ≡ finish d) × IsRecorded sid uid amount hash db d
  record_hash-fresh finish s db db' found no_hash e =
      and_then-inv finish (mark_sent sid uid amount hash at (find_by (λ u. u.id) uid db.users) db)
        refl (rw (found, no_hash) at e)
    where
      and_then-inv :
          (finish : Db → Db) (o : Option Db)
          → mark_sent sid uid amount hash at (find_by (λ u. u.id) uid db.users) db ≡ o
          → and_then finish o ≡ some db'
          → (d : Db) × (db' ≡ finish d) × IsRecorded sid uid amount hash db d
      and_then-inv finish none m e' = absurd (ground arith)
      and_then-inv finish (some d) m e' = (
        d,
        ground arith,
        mark_sent-IsRecorded sid uid amount hash at s (find_by (λ u. u.id) uid db.users) db d found
            refl m,
      )

-- ===== src/Payout/HandBack/Laws.antt =====
-- On `handBackFailedPayment` of lib/payout-reconcile.ts.
use centient.Common.{
  ℕ, ◌≡◌, inl, inr, refl, ap, ◌∙◌, Bool, false, none, some, List, [], ◌∷◌, ◌==◌, arith,
  if◌then◌else◌, find_by, update_by, find_by-update_by, ==_refl, Bool-cases, Option-cases, always,
  ◌&&◌, not,
}
use centient.Payout.Db.{Db, Submission, User}
use centient.Payout.Claim.{find_submission, update_submission}
use centient.Payout.Record.{credit_user, credit_earned}
use centient.Payout.Settled.{SettledFrom, from_sent, from_held, Rail, is_unchanged}
use centient.Payout.HandBack.{
  can_debit, undo_earned, undo_credit, hand_back, hand_back_refund, hand_back_failed_payment,
  set_handed_back, is_blocked,
}
use centient.Balance.Campaign.Laws.{refund_submission_debit-submissions}

-- What a row looks like once it was handed back.
handed_back-is_unchanged :
    (from : SettledFrom) (hash : ℕ) (s : Submission)
    → is_unchanged from hash (set_handed_back s) ≡ false
handed_back-is_unchanged from_sent hash s = ground arith
handed_back-is_unchanged from_held hash s = ground arith

hand_back_refund-submissions :
    (rail : Rail) (sid : ℕ) (sub : Submission) (db : Db)
    → (hand_back_refund rail sid sub db).submissions ≡ db.submissions
hand_back_refund-submissions rail sid sub db =
    ground (arith, refund_submission_debit-submissions rail.fee sid sub.payout_amount_units db)

find_submission-handed_back :
    (sid : ℕ) (sub : Submission) (db : Db)
    → find_submission sid db ≡ some sub
    → find_submission sid (update_submission sid set_handed_back db) ≡ some (set_handed_back sub)
find_submission-handed_back sid sub db h =
    rw
      (find_by-update_by (λ (s : Submission). s.id) sid sid always set_handed_back db.submissions
        (λ s. refl))
      (rw (==_refl sid, h) refl)

-- A payment that failed on the chain returns to the retry path with no hash and one retry spent, and
-- a row that is elsewhere, under another hash, or held with its debit refunded is left alone.
pub hand_back_failed_payment-returns :
    (rail : Rail) (sid hash : ℕ) (from : SettledFrom) (sub : Submission) (db : Db)
    → find_submission sid db ≡ some sub
    → find_submission sid (hand_back_failed_payment rail sid hash from db)
      ≡ some (
          if is_unchanged from hash sub && not (is_blocked from sid db)
          then set_handed_back sub
          else sub)
unfolding hand_back_failed_payment
hand_back_failed_payment-returns rail sid hash from sub db h =
    rw h (elim (Bool-cases (is_unchanged from hash sub && not (is_blocked from sid db))) [
      | inl back ↦ rw back (
          ap (λ (rows : List Submission). find_by (λ s. s.id) sid rows)
            (hand_back_refund-submissions rail sid sub (hand_back sid hash from sub db))
          ∙ find_submission-handed_back sid sub db h)
      | inr stays ↦ rw stays h
    ])

hand_back_failed_payment-idle :
    (rail : Rail) (sid hash : ℕ) (from : SettledFrom) (sub : Submission) (db : Db)
    → find_submission sid db ≡ some sub
    → (is_unchanged from hash sub && not (is_blocked from sid db)) ≡ false
    → hand_back_failed_payment rail sid hash from db ≡ db
unfolding hand_back_failed_payment
hand_back_failed_payment-idle rail sid hash from sub db h stays = rw h (rw stays refl)

hand_back_failed_payment-missing :
    (rail : Rail) (sid hash : ℕ) (from : SettledFrom) (db : Db)
    → find_submission sid db ≡ none
    → hand_back_failed_payment rail sid hash from db ≡ db
unfolding hand_back_failed_payment
hand_back_failed_payment-missing rail sid hash from db h = rw h refl

-- A second reader of the same failure changes nothing: no second debit of the user, and no second
-- refund.
pub hand_back_failed_payment_once :
    (rail : Rail) (sid hash : ℕ) (from : SettledFrom) (db : Db)
    → hand_back_failed_payment rail sid hash from (hand_back_failed_payment rail sid hash from db)
      ≡ hand_back_failed_payment rail sid hash from db
hand_back_failed_payment_once rail sid hash from db = elim (Option-cases (find_submission sid db)) [
  | inl missing ↦
      ap (hand_back_failed_payment rail sid hash from)
        (hand_back_failed_payment-missing rail sid hash from db missing)
  | inr (sub, found) ↦
      elim (Bool-cases (is_unchanged from hash sub && not (is_blocked from sid db))) [
        | inl back ↦
            hand_back_failed_payment-idle rail sid hash from (set_handed_back sub)
              (hand_back_failed_payment rail sid hash from db)
              (hand_back_failed_payment-returns rail sid hash from sub db found
                ∙ ap (λ (b : Bool). some (if b then set_handed_back sub else sub)) back)
              (rw (handed_back-is_unchanged from hash sub) refl)
        | inr stays ↦
            ap (hand_back_failed_payment rail sid hash from)
              (hand_back_failed_payment-idle rail sid hash from sub db found stays)
      ]
]

undo_earned-credit_earned :
    (amount : ℕ) (u : User)
    → (if can_debit amount (credit_earned amount u)
        then undo_earned amount (credit_earned amount u)
        else credit_earned amount u)
      ≡ u
undo_earned-credit_earned amount u = ground arith

undo_users :
    (uid amount : ℕ) (users : List User)
    → undo_credit from_sent uid amount
        (update_by (λ u. u.id) uid always (credit_earned amount) users)
      ≡ users
unfolding update_by
undo_users uid amount [] = refl
undo_users uid amount (u ∷ users) = elim (Bool-cases (u.id == uid)) [
  | inl same ↦ rw (same, same, undo_earned-credit_earned amount u, undo_users uid amount users) refl
  | inr other ↦ rw (other, other, undo_users uid amount users) refl
]

-- Handing a `sent` payout back takes from the user exactly what recording it gave.
pub undo_credit-credit_user :
    (uid amount : ℕ) (db : Db)
    → undo_credit from_sent uid amount (credit_user uid amount db).users ≡ db.users
undo_credit-credit_user uid amount db = undo_users uid amount db.users

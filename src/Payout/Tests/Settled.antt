-- ===== src/Payout/Tests/Settled.antt =====
-- The settlement of a broadcast payment, at concrete rows.
use centient.Common.{◌≡◌, ◌⊎◌, refl, Option, none, some, [], ◌∷◌, find_by, update_by, or_else}
use centient.Payout.Db.{Db, Submission, confirmed, needs_reconciliation}
use centient.Payout.Samples.{held_db, held_answer}
use centient.Payout.Claim.{find_submission}
use centient.Payout.Attempts.{confirm_attempt}
use centient.Payout.Settled.{
  from_held, Rail, settle_confirmed_payment, repair_payout_job_tuple, set_confirmed, expected_of,
  confirm_from,
}
use centient.Payout.Settled.Laws.{WasOwed, settle_confirmed_payment-WasOwed}
use centient.Payout.HandBack.{hand_back_failed_payment}
use centient.Payout.HandBack.Laws.{hand_back_failed_payment_once}
use centient.Payout.Reconcile.{TxLookup, tx_applied}
use centient.Stellar.Units.{payout_amount_string, Text}
use centient.Stellar.Verify.{DecodedTx, fee_bump, payment, verified, verify_settled_payout, text_eq}

abbrev rail : Rail
rail = record { account_and_asset = some (500, 600); fee = some 10; new_job_id = 8; now = 900_000 }

abbrev amount_text : Text
amount_text = 48 ∷ 46 ∷ 48 ∷ 48 ∷ 48 ∷ 48 ∷ 49 ∷ 48 ∷ 48 ∷ []

-- 100 units of asset 600 from account 500 to wallet 70.
abbrev paid_out_tx : DecodedTx
paid_out_tx = fee_bump 500 (record {
  source = 500;
  operations =
      record {
        op_type = payment;
        source = none;
        destination = some 70;
        amount = some amount_text;
        asset = some 600;
      }
      ∷ [];
})

held_found : find_submission 1 held_db ≡ some held_answer
unfolding find_by
held_found = refl

hand_back_failed_payment_once_example :
    hand_back_failed_payment rail 1 33 from_held
      (hand_back_failed_payment rail 1 33 from_held held_db)
    ≡ hand_back_failed_payment rail 1 33 from_held held_db
hand_back_failed_payment_once_example = hand_back_failed_payment_once rail 1 33 from_held held_db

abbrev landed_lookup : Option TxLookup
landed_lookup = some (tx_applied (some paid_out_tx))

abbrev confirmed_answer : Submission
confirmed_answer = set_confirmed 900_000 held_answer

prints : payout_amount_string 100 ≡ some amount_text
unfolding payout_amount_string
prints = refl

pays :
    verify_settled_payout (some paid_out_tx) (expected_of (500, 600) 70 held_answer) ≡ some verified
unfolding verify_settled_payout text_eq
pays = rw prints refl

-- The held payment, confirmed.
abbrev settled_db : Db
settled_db = or_else (confirm_from rail 1 33 from_held held_answer held_db) held_db

settles : settle_confirmed_payment rail 1 33 (some paid_out_tx) from_held held_db ≡ some settled_db
unfolding settle_confirmed_payment find_by
settles = rw pays refl

settled_found : find_submission 1 settled_db ≡ some confirmed_answer
unfolding find_by update_by confirm_attempt repair_payout_job_tuple
settled_found = refl

settle_confirmed_payment-WasOwed_example :
    (needs_reconciliation ≡ confirmed) ⊎ WasOwed rail (some paid_out_tx) held_answer
settle_confirmed_payment-WasOwed_example =
    settle_confirmed_payment-WasOwed rail 1 33 (some paid_out_tx) from_held held_answer
      confirmed_answer held_db settled_db held_found settles settled_found refl

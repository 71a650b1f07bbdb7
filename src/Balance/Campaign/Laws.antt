-- ===== src/Balance/Campaign/Laws.antt =====
-- On `checkAndDebit`, `creditBalance` and the refunds of lib/campaign-balance.ts and
-- lib/payout-refund.ts: the account that the campaign ledger keeps.
use centient.Common.{
  ℕ, ◌+◌, ◌-◌, ◌<◌, ◌≡◌, ◌↔◌, refl, ap, Bool, true, false, Option, none, some, List, [], ◌∷◌, ◌==◌,
  if◌then◌else◌, arith, find_by, update_by, always, find_by-update_by, ok, err, Option-cases,
  Bool-cases, inl, inr, ==_iff, ==_refl,
}
use centient.Payout.Db.{Db, LedgerRow, LedgerType, deposit, refund, CampaignBalance, Submission}
use centient.Balance.Campaign.{
  find_balance, balance_of, units_of, set_units, debit, check_and_debit, has_refunded_submission,
  upsert_balance, apply_credit, already_refunded, credit_balance, refund_campaign_balance,
  refund_submission_debit, insufficient_balance,
}

abbrev pub is_credit : LedgerType → Bool
is_credit deposit = true
is_credit refund = true
is_credit _ = false

-- What the ledger has credited to a campaign, and debited from it.
abbrev pub credits : ℕ → List LedgerRow → ℕ
credits cid [] = 0
credits cid (r ∷ rows) =
    (if r.campaign_id == cid then (if is_credit r.row_type then r.amount_units else 0) else 0)
    + credits cid rows

abbrev pub debits : ℕ → List LedgerRow → ℕ
debits cid [] = 0
debits cid (r ∷ rows) =
    (if r.campaign_id == cid then (if is_credit r.row_type then 0 else r.amount_units) else 0)
    + debits cid rows

-- Every campaign's balance is what its ledger credits less what it debits.
abbrev pub IsReconciled : Db → Type 0
IsReconciled db = (cid : ℕ) → balance_of cid db + debits cid db.ledger ≡ credits cid db.ledger

-- The balance of a campaign after a keyed change of the balances.
units-update_by :
    (k cid : ℕ) (f : ℕ → ℕ) (rows : List CampaignBalance) (r : CampaignBalance)
    → find_by (λ b. b.campaign_id) cid rows ≡ some r
    → units_of (
        find_by
          (λ b. b.campaign_id)
          k
          (update_by (λ b. b.campaign_id) cid always (set_units f) rows))
      ≡ (if k == cid then f r.balance_units else units_of (find_by (λ b. b.campaign_id) k rows))
units-update_by k cid f rows r e =
    rw (find_by-update_by (λ b. b.campaign_id) k cid always (set_units f) rows (λ a. refl))
      (elim (Bool-cases (k == cid)) [
        | inl same ↦ rw (same, (==_iff k cid).0 same, e)
        | inr other ↦ rw other
      ])

debit_row-IsReconciled :
    (fee cid reward sid : ℕ) (db db' : Db) (row : Option CampaignBalance)
    → find_balance cid db ≡ row
    → IsReconciled db
    → debit fee cid reward sid row db ≡ ok db'
    → IsReconciled db'
debit_row-IsReconciled fee cid reward sid db db' none found h e k = ground arith
debit_row-IsReconciled fee cid reward sid db db' (some r) found h e k = ground (
  arith,
  h k,
  h cid,
  ap units_of found,
  ==_iff cid k,
  units-update_by k cid (λ (n : ℕ). n - (reward + fee)) db.balances r found,
)

-- A debit that goes through keeps every campaign's balance accounted for by its ledger.
pub check_and_debit-IsReconciled :
    (fee : Option ℕ) (cid reward sid : ℕ) (db db' : Db)
    → IsReconciled db
    → check_and_debit fee cid reward sid db ≡ ok db'
    → IsReconciled db'
unfolding check_and_debit
check_and_debit-IsReconciled none cid reward sid db db' h e = cc
check_and_debit-IsReconciled (some fee) cid reward sid db db' h e =
    debit_row-IsReconciled fee cid reward sid db db' (find_balance cid db) refl h e

debit_row-exact :
    (fee cid reward sid : ℕ) (db db' : Db) (row : Option CampaignBalance)
    → find_balance cid db ≡ row
    → debit fee cid reward sid row db ≡ ok db'
    → balance_of cid db' + (reward + fee) ≡ balance_of cid db
debit_row-exact fee cid reward sid db db' none found e = ground arith
debit_row-exact fee cid reward sid db db' (some r) found e = ground (
  arith,
  ap units_of found,
  ==_refl cid,
  units-update_by cid cid (λ (n : ℕ). n - (reward + fee)) db.balances r found,
)

-- A debit that goes through takes exactly the reward and the fee.
pub check_and_debit-exact :
    (fee cid reward sid : ℕ) (db db' : Db)
    → check_and_debit (some fee) cid reward sid db ≡ ok db'
    → balance_of cid db' + (reward + fee) ≡ balance_of cid db
unfolding check_and_debit
check_and_debit-exact fee cid reward sid db db' e =
    debit_row-exact fee cid reward sid db db' (find_balance cid db) refl e

-- A debit is refused for want of funds exactly when the balance is short of reward and fee, and
-- the error names both.
pub check_and_debit_refusal :
    (fee cid reward sid : ℕ) (db : Db)
    → (check_and_debit (some fee) cid reward sid db
        ≡ err (insufficient_balance (balance_of cid db) (reward + fee)))
      ↔ (balance_of cid db < reward + fee)
unfolding check_and_debit
check_and_debit_refusal fee cid reward sid db = ground arith

upsert-units :
    (k cid amount : ℕ) (row : Option CampaignBalance) (rows : List CampaignBalance)
    → find_by (λ b. b.campaign_id) cid rows ≡ row
    → units_of (find_by (λ b. b.campaign_id) k (upsert_balance cid amount row rows))
      ≡ (if k == cid then units_of row + amount else units_of (find_by (λ b. b.campaign_id) k rows))
unfolding find_by
upsert-units k cid amount none rows e = ground (arith, ==_iff cid k)
upsert-units k cid amount (some r) rows e = units-update_by k cid (λ n. n + amount) rows r e

apply_credit-balance :
    (k cid amount : ℕ) (noted : Option ℕ) (kind : LedgerType) (sid : Option ℕ) (db : Db)
    → balance_of k (apply_credit cid amount noted kind sid db)
      ≡ (if k == cid then balance_of cid db + amount else balance_of k db)
unfolding apply_credit
apply_credit-balance k cid amount noted kind sid db =
    upsert-units k cid amount (find_balance cid db) db.balances refl

apply_credit-IsReconciled :
    (cid amount : ℕ) (noted : Option ℕ) (kind : LedgerType) (sid : Option ℕ) (db : Db)
    → is_credit kind ≡ true
    → IsReconciled db
    → IsReconciled (apply_credit cid amount noted kind sid db)
apply_credit-IsReconciled cid amount noted kind sid db c h k =
    rw (apply_credit-balance k cid amount noted kind sid db)
      (unfold apply_credit in ground (arith, h k, h cid, ==_iff cid k))

-- A deposit or a refund keeps every campaign's balance accounted for by its ledger.
pub credit_balance-IsReconciled :
    (cid amount : ℕ) (noted : Option ℕ) (kind : LedgerType) (sid : Option ℕ) (db : Db)
    → is_credit kind ≡ true
    → IsReconciled db
    → IsReconciled (credit_balance cid amount noted kind sid db).1
unfolding credit_balance
credit_balance-IsReconciled cid amount noted kind sid db c h =
    elim (Bool-cases (already_refunded kind sid db)) [
      | inl again ↦ rw again h
      | inr first ↦ rw first (apply_credit-IsReconciled cid amount noted kind sid db c h)
    ]

apply_refund-marks :
    (cid amount sid : ℕ) (noted : Option ℕ) (db : Db)
    → has_refunded_submission sid (apply_credit cid amount noted refund (some sid) db) ≡ true
unfolding has_refunded_submission apply_credit
apply_refund-marks cid amount sid noted db = rw (==_refl sid)

-- A refund leaves its submission refunded, whether it was refunded before or is now.
pub credit_refunded :
    (cid amount sid : ℕ) (noted : Option ℕ) (db : Db)
    → has_refunded_submission sid (credit_balance cid amount noted refund (some sid) db).1 ≡ true
unfolding credit_balance
credit_refunded cid amount sid noted db = elim (Bool-cases (has_refunded_submission sid db)) [
  | inl again ↦ rw again again
  | inr first ↦ rw first (apply_refund-marks cid amount sid noted db)
]

-- After a refund, a refund of the same submission changes nothing and returns the balance as it is.
pub credit_balance_once :
    (cid cid' amount amount' sid : ℕ) (noted noted' : Option ℕ) (db : Db)
    → let db' = (credit_balance cid amount noted refund (some sid) db).1 in
      credit_balance cid' amount' noted' refund (some sid) db' ≡ (balance_of cid' db', db')
unfolding credit_balance
credit_balance_once cid cid' amount amount' sid noted noted' db =
    rw (credit_refunded cid amount sid noted db)

pub refund_campaign_balance-IsReconciled :
    (fee : Option ℕ) (is_gold : Bool) (campaign : Option ℕ) (sid amount : ℕ) (db : Db)
    → IsReconciled db
    → IsReconciled (refund_campaign_balance fee is_gold campaign sid amount db)
unfolding refund_campaign_balance
refund_campaign_balance-IsReconciled fee is_gold none sid amount db h = h
refund_campaign_balance-IsReconciled fee true (some cid) sid amount db h = h
refund_campaign_balance-IsReconciled none false (some cid) sid amount db h = h
refund_campaign_balance-IsReconciled (some f) false (some cid) sid amount db h =
    credit_balance-IsReconciled cid (amount + f) (some sid) refund (some sid) db refl h

refund_first :
    (fee cid sid amount : ℕ) (db : Db)
    → has_refunded_submission sid db ≡ false
    → refund_campaign_balance (some fee) false (some cid) sid amount db
      ≡ apply_credit cid (amount + fee) (some sid) refund (some sid) db
unfolding refund_campaign_balance credit_balance
refund_first fee cid sid amount db new = ground arith

refund_again :
    (fee cid sid amount : ℕ) (db : Db)
    → has_refunded_submission sid db ≡ true
    → refund_campaign_balance (some fee) false (some cid) sid amount db ≡ db
unfolding refund_campaign_balance credit_balance
refund_again fee cid sid amount db again = ground arith

-- A refund of a submission's debit that was not refunded before gives back reward and fee, and
-- from then on the submission reads as refunded and a further refund changes nothing.
pub refund_campaign_balance_once :
    (fee cid sid amount : ℕ) (db : Db)
    → has_refunded_submission sid db ≡ false
    → let db' = refund_campaign_balance (some fee) false (some cid) sid amount db in
      (balance_of cid db' ≡ balance_of cid db + (amount + fee))
      × (has_refunded_submission sid db' ≡ true)
      × (refund_campaign_balance (some fee) false (some cid) sid amount db' ≡ db')
refund_campaign_balance_once fee cid sid amount db new =
    let marked = apply_refund-marks cid (amount + fee) sid (some sid) db in
    rw (refund_first fee cid sid amount db new) (
      rw (apply_credit-balance cid cid (amount + fee) (some sid) refund (some sid) db, ==_refl cid)
          refl,
      marked,
      refund_again fee cid sid amount
          (apply_credit cid (amount + fee) (some sid) refund (some sid) db) marked,
    )

-- A refund by submission id keeps every campaign's balance accounted for by its ledger.
pub refund_submission_debit-IsReconciled :
    (fee : Option ℕ) (sid amount : ℕ) (db : Db)
    → IsReconciled db
    → IsReconciled (refund_submission_debit fee sid amount db)
unfolding refund_submission_debit refund_campaign_balance
refund_submission_debit-IsReconciled fee sid amount db h =
    elim (Option-cases (find_by (λ s. s.id) sid db.submissions)) [
      | inl missing ↦ rw missing h
      | inr (s, found) ↦
          rw found
            (refund_campaign_balance-IsReconciled fee s.is_gold s.campaign_id sid amount db h)
    ]

-- A refund by submission id leaves the submissions alone.
pub refund_submission_debit-submissions :
    (fee : Option ℕ) (sid amount : ℕ) (db : Db)
    → (refund_submission_debit fee sid amount db).submissions ≡ db.submissions
unfolding refund_submission_debit refund_campaign_balance credit_balance
refund_submission_debit-submissions fee sid amount db = ground arith

-- A refund by submission id of a campaign-backed submission leaves it refunded.
pub refund_submission_debit-marks :
    (fee sid amount cid : ℕ) (s : Submission) (db : Db)
    → find_by (λ s. s.id) sid db.submissions ≡ some s
    → s.is_gold ≡ false
    → s.campaign_id ≡ some cid
    → has_refunded_submission sid (refund_submission_debit (some fee) sid amount db) ≡ true
unfolding refund_submission_debit refund_campaign_balance
refund_submission_debit-marks fee sid amount cid s db found not_gold backed =
    rw (found, backed, not_gold) (credit_refunded cid (amount + fee) sid (some sid) db)

-- ===== src/Balance/Campaign.antt =====
-- lib/campaign-balance.ts and lib/payout-refund.ts: the budget that a campaign's submissions draw
-- from. A transaction that throws writes nothing, so it returns no database. `fee` is the parsed
-- `PLATFORM_FEE_UNITS`, `none` where that setting is refused.
pub mod Laws
use centient.Common.{
  ℕ, ◌+◌, ◌-◌, ◌/◌, Bool, true, false, Option, none, some, List, [], ◌∷◌, ◌&&◌, ◌||◌, ltb,
  if◌then◌else◌, or_else, opt_eq, any, find_by, update_by, always, Result, ok, err,
}
use centient.Payout.Db.{
  Db, LedgerRow, LedgerType, deposit, debit_reward, debit_fee, refund, CampaignBalance, Submission,
}

pub data DebitError : Type 0 where
  fee_not_configured : DebitError
  insufficient_balance : ℕ → ℕ → DebitError
  balance_row_missing : DebitError

abbrev pub is_refund : LedgerType → Bool
is_refund refund = true
is_refund _ = false

abbrev pub find_balance : ℕ → Db → Option CampaignBalance
find_balance cid db = find_by (λ r. r.campaign_id) cid db.balances

abbrev pub units_of : Option CampaignBalance → ℕ
units_of none = 0
units_of (some r) = r.balance_units

-- `locked[0]?.balanceUnits ?? 0n`
abbrev pub balance_of : ℕ → Db → ℕ
balance_of cid db = units_of (find_balance cid db)

-- `totalDebitUnits`
unfoldable pub total_debit_units : Option ℕ → ℕ → Option ℕ
total_debit_units none reward = none
total_debit_units (some fee) reward = some (reward + fee)

abbrev pub ledger_row : ℕ → LedgerType → ℕ → Option ℕ → Option ℕ → LedgerRow
ledger_row cid kind amount sid noted = record {
  campaign_id = cid;
  row_type = kind;
  amount_units = amount;
  submission_id = sid;
  noted_submission = noted;
}

abbrev pub set_units : (ℕ → ℕ) → CampaignBalance → CampaignBalance
set_units f r = record r { balance_units = f r.balance_units }

-- The `debit` callback, once the fee is known.
abbrev pub debit : ℕ → ℕ → ℕ → ℕ → Option CampaignBalance → Db → Result DebitError Db
debit fee cid reward sid row db =
    if ltb (units_of row) (reward + fee)
    then err (insufficient_balance (units_of row) (reward + fee))
    else elim row [
      | none ↦ err balance_row_missing
      | some _ ↦ ok (record db {
        balances =
            update_by (λ r. r.campaign_id) cid always (set_units (λ n. n - (reward + fee)))
              db.balances;
        ledger =
            ledger_row cid debit_fee fee (some sid) none
            ∷ ledger_row cid debit_reward reward (some sid) none
            ∷ db.ledger;
      })
    ]

unfoldable pub check_and_debit : Option ℕ → ℕ → ℕ → ℕ → Db → Result DebitError Db
check_and_debit none cid reward sid db = err fee_not_configured
check_and_debit (some fee) cid reward sid db = debit fee cid reward sid (find_balance cid db) db

-- Either by the row's submission, or by the note that a refund written earlier ends in.
abbrev pub is_refund_of : ℕ → LedgerRow → Bool
is_refund_of sid row =
    is_refund row.row_type
    && (opt_eq row.submission_id (some sid) || opt_eq row.noted_submission (some sid))

unfoldable pub has_refunded_submission : ℕ → Db → Bool
has_refunded_submission sid db = any (is_refund_of sid) db.ledger

abbrev pub upsert_balance :
    ℕ → ℕ → Option CampaignBalance → List CampaignBalance → List CampaignBalance
upsert_balance cid amount none rows = record { campaign_id = cid; balance_units = amount } ∷ rows
upsert_balance cid amount (some _) rows =
    update_by (λ r. r.campaign_id) cid always (set_units (λ n. n + amount)) rows

-- The credit itself, past the check for an earlier refund.
pub apply_credit : ℕ → ℕ → Option ℕ → LedgerType → Option ℕ → Db → Db
apply_credit cid amount noted kind sid db = record db {
  balances = upsert_balance cid amount (find_balance cid db) db.balances;
  ledger = ledger_row cid kind amount sid noted ∷ db.ledger;
}

-- Is this the `REFUND` of a submission that already has one?
abbrev pub already_refunded : LedgerType → Option ℕ → Db → Bool
already_refunded kind none db = false
already_refunded kind (some sid) db = is_refund kind && has_refunded_submission sid db

-- `noted` is the submission that the note names at its end, if it does.
unfoldable pub credit_balance : ℕ → ℕ → Option ℕ → LedgerType → Option ℕ → Db → ℕ × Db
unfolding apply_credit
credit_balance cid amount noted kind sid db =
    if already_refunded kind sid db
    then (balance_of cid db, db)
    else let db' = apply_credit cid amount noted kind sid db in (balance_of cid db', db')

-- `refundCampaignBalance`: a task with no campaign, and a gold task, draw from no budget. The call
-- is best effort, so a fee that is refused refunds nothing.
abbrev pub refund_units : ℕ → ℕ → Option ℕ → Db → Db
refund_units cid sid none db = db
refund_units cid sid (some total) db = (credit_balance cid total (some sid) refund (some sid) db).1

unfoldable pub refund_campaign_balance : Option ℕ → Bool → Option ℕ → ℕ → ℕ → Db → Db
unfolding total_debit_units
refund_campaign_balance fee is_gold none sid amount db = db
refund_campaign_balance fee is_gold (some cid) sid amount db =
    if is_gold then db else refund_units cid sid (total_debit_units fee amount) db

-- `refundSubmissionDebit`
abbrev pub refund_found : Option ℕ → ℕ → ℕ → Option Submission → Db → Db
refund_found fee sid amount none db = db
refund_found fee sid amount (some s) db =
    refund_campaign_balance fee s.is_gold s.campaign_id sid amount db

unfoldable pub refund_submission_debit : Option ℕ → ℕ → ℕ → Db → Db
refund_submission_debit fee sid amount db =
    refund_found fee sid amount (find_by (λ r. r.id) sid db.submissions) db

-- `getBalanceSummary`: how many more submissions the balance pays for, if that is known.
pub estimated_submissions : Option ℕ → ℕ → ℕ → Option ℕ
estimated_submissions none reward balance = none
estimated_submissions (some fee) reward balance =
    if ltb 0 (reward + fee) then some (balance / (reward + fee)) else none

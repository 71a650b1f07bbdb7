-- ===== src/Payout/Db.antt =====
-- The rows that the payout rail reads and writes (prisma/schema.prisma), one record for each
-- table. Identifiers, wallets and envelope hashes are only compared by the code, so they are
-- numbers; a `Date` is its milliseconds. `isGold` and `campaignId` of a submission's task are
-- carried on the submission, since the rail reads them through that relation and never writes
-- them. A message is kept by its kind, as far as the code reads it back.
use centient.Common.{ℕ, Bool, Option, List}

pub data PayoutStatus : Type 0 where
  pending sent confirmed failed abandoned skipped needs_reconciliation accrued : PayoutStatus

pub data JobStatus : Type 0 where
  queued processing done job_failed : JobStatus

pub data JobType : Type 0 where
  submission_payout withdrawal : JobType

pub data AttemptStatus : Type 0 where
  open_attempt confirmed_attempt void_attempt : AttemptStatus

-- `StellarPaymentError.code`, as far as the rail tells the codes apart.
pub data StellarCode : Type 0 where
  ambiguous_submit attempt_unsettled : StellarCode
  other_code : ℕ → StellarCode

-- What a `payoutError`, a job's `lastError` or an attempt's `outcome` says.
pub data Note : Type 0 where
  horizon_read_failed cannot_verify payout_mismatch no_linked_wallet retries_exhausted : Note
  submission_not_found job_not_found no_destination claimed_by_another cap_exceeded : Note
  manual_reconciliation reconciliation_error payer_error included_and_failed : Note
  expired_unincluded never_applied unsettled transaction_failed invalid_job applied : Note
  rejected : Note
  non_retryable : StellarCode → Note
  landed : ℕ → Note

pub record Submission : Type 0 where
  pub id : ℕ
  pub user_id : ℕ
  pub wallet_address : Option ℕ
  pub payout_amount_units : ℕ
  pub payout_status : PayoutStatus
  pub payout_tx_hash : Option ℕ
  pub payout_error : Option Note
  pub retry_count : ℕ
  pub last_retried_at : Option ℕ
  pub created_at : ℕ
  pub is_gold : Bool
  pub campaign_id : Option ℕ

pub record PayoutJob : Type 0 where
  pub id : ℕ
  pub job_type : JobType
  pub submission_id : Option ℕ
  pub user_id : Option ℕ
  pub amount_units : Option ℕ
  pub destination_address : Option ℕ
  pub tx_hash : Option ℕ
  pub broadcast_at : Option ℕ
  pub status : JobStatus
  pub worker_heartbeat_at : Option ℕ
  pub completed_at : Option ℕ
  pub last_error : Option Note
  pub retry_count : ℕ
  pub not_before : Option ℕ
  pub created_at : ℕ

pub record PayoutAttempt : Type 0 where
  pub submission_id : ℕ
  pub envelope_hash : ℕ
  pub expires_at : ℕ
  pub status : AttemptStatus
  pub outcome : Option Note
  pub created_at : ℕ

pub record User : Type 0 where
  pub id : ℕ
  pub wallet_address : Option ℕ
  pub pending_balance_units : ℕ
  pub submission_count : ℕ
  pub total_earned_units : ℕ

pub data UserLedgerType : Type 0 where
  credit_reward withdrawal_debit reversal : UserLedgerType

pub record UserLedgerRow : Type 0 where
  pub user_id : ℕ
  pub row_type : UserLedgerType
  pub amount_units : ℕ
  pub submission_id : Option ℕ

pub data LedgerType : Type 0 where
  deposit debit_reward debit_fee refund : LedgerType

-- `noted_submission` is the id that a note ends in, `… for submission <id>`.
pub record LedgerRow : Type 0 where
  pub campaign_id : ℕ
  pub row_type : LedgerType
  pub amount_units : ℕ
  pub submission_id : Option ℕ
  pub noted_submission : Option ℕ

pub record CampaignBalance : Type 0 where
  pub campaign_id : ℕ
  pub balance_units : ℕ

pub record Db : Type 0 where
  pub submissions : List Submission
  pub jobs : List PayoutJob
  pub attempts : List PayoutAttempt
  pub users : List User
  pub user_ledger : List UserLedgerRow
  pub balances : List CampaignBalance
  pub ledger : List LedgerRow

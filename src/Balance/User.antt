-- ===== src/Balance/User.antt =====
-- lib/user-balance.ts: the withdrawable balance of a labeler and its ledger. Each call is one
-- transaction under the lock of the user's row, so it either returns the new database or throws
-- and writes nothing. `update` on a user that is not there throws.
pub mod Laws
pub mod Withdrawals
use centient.Common.{
  ℕ, ◌+◌, ◌-◌, Bool, true, false, Option, none, some, List, [], ◌∷◌, ◌&&◌, ltb, ◌==◌, if◌then◌else◌,
  opt_eq, any, find_by, update_by, always, Result, ok, err,
}
use centient.Payout.Db.{
  Db, User, UserLedgerRow, UserLedgerType, withdrawal_debit, reversal, PayoutJob, JobStatus,
  JobType, queued, processing, withdrawal,
}

pub data BalanceError : Type 0 where
  insufficient_user_balance : ℕ → ℕ → BalanceError
  no_balance_to_withdraw : ℕ → BalanceError
  withdrawal_in_flight : ℕ → BalanceError
  user_missing : BalanceError

abbrev pub find_user : ℕ → Db → Option User
find_user uid db = find_by (λ u. u.id) uid db.users

abbrev pub pending_of : Option User → ℕ
pending_of none = 0
pending_of (some u) = u.pending_balance_units

-- `getUserPendingBalance`, and the balance that each call reads under its lock.
unfoldable pub get_user_pending_balance : ℕ → Db → ℕ
get_user_pending_balance uid db = pending_of (find_user uid db)

abbrev pub set_pending : (ℕ → ℕ) → User → User
set_pending f u = record u { pending_balance_units = f u.pending_balance_units }

abbrev pub user_ledger_row : ℕ → UserLedgerType → ℕ → Option ℕ → UserLedgerRow
user_ledger_row uid kind amount job = record {
  user_id = uid;
  row_type = kind;
  amount_units = amount;
  submission_id = job;
}

-- The balance of `uid` changed by `f`, with a ledger row beside it.
abbrev pub move_balance : ℕ → (ℕ → ℕ) → UserLedgerRow → Db → Db
move_balance uid f row db = record db {
  users = update_by (λ u. u.id) uid always (set_pending f) db.users;
  user_ledger = row ∷ db.user_ledger;
}

abbrev pub debit_user : ℕ → ℕ → Option ℕ → Option User → Db → Result BalanceError (ℕ × Db)
debit_user uid amount job row db =
    if ltb (pending_of row) amount
    then err (insufficient_user_balance (pending_of row) amount)
    else elim row [
      | none ↦ err user_missing
      | some u ↦ ok (
        u.pending_balance_units - amount,
        move_balance uid (λ n. n - amount) (user_ledger_row uid withdrawal_debit amount job) db,
      )
    ]

unfoldable pub debit_for_withdrawal : ℕ → ℕ → Option ℕ → Db → Result BalanceError (ℕ × Db)
debit_for_withdrawal uid amount job db = debit_user uid amount job (find_user uid db) db

abbrev pub is_reversal : UserLedgerType → Bool
is_reversal reversal = true
is_reversal _ = false

abbrev pub is_reversal_of : ℕ → ℕ → UserLedgerRow → Bool
is_reversal_of uid job row =
    row.user_id == uid && is_reversal row.row_type && opt_eq row.submission_id (some job)

unfoldable pub already_reversed : ℕ → Option ℕ → Db → Bool
already_reversed uid none db = false
already_reversed uid (some job) db = any (is_reversal_of uid job) db.user_ledger

abbrev pub restore : ℕ → ℕ → Option ℕ → Option User → Db → Result BalanceError (ℕ × Db)
restore uid amount job none db = err user_missing
restore uid amount job (some u) db = ok (
  u.pending_balance_units + amount,
  move_balance uid (λ n. n + amount) (user_ledger_row uid reversal amount job) db,
)

unfoldable pub refund_reversal : ℕ → ℕ → Option ℕ → Db → Result BalanceError (ℕ × Db)
refund_reversal uid amount job db =
    if already_reversed uid job db
    then ok (pending_of (find_user uid db), db)
    else restore uid amount job (find_user uid db) db

abbrev pub is_in_flight : JobStatus → Bool
is_in_flight queued = true
is_in_flight processing = true
is_in_flight _ = false

abbrev pub is_withdrawal : JobType → Bool
is_withdrawal withdrawal = true
is_withdrawal _ = false

-- The rows of the partial unique index `payout_jobs_user_inflight_withdrawal_key`.
abbrev pub is_in_flight_of : ℕ → PayoutJob → Bool
is_in_flight_of uid j =
    is_withdrawal j.job_type && opt_eq j.user_id (some uid) && is_in_flight j.status

pub record WithdrawalResult : Type 0 where
  pub payout_job_id : ℕ
  pub amount_units : ℕ
  pub new_balance_units : ℕ

abbrev pub withdrawal_job : ℕ → ℕ → ℕ → ℕ → ℕ → PayoutJob
withdrawal_job id uid amount destination now = record {
  id = id;
  job_type = withdrawal;
  submission_id = none;
  user_id = some uid;
  amount_units = some amount;
  destination_address = some destination;
  tx_hash = none;
  broadcast_at = none;
  status = queued;
  worker_heartbeat_at = none;
  completed_at = none;
  last_error = none;
  retry_count = 0;
  not_before = none;
  created_at = now;
}

-- The decrement, the ledger row and the job, in one transaction.
abbrev pub queue_job : ℕ → ℕ → ℕ → ℕ → ℕ → Db → WithdrawalResult × Db
queue_job id uid amount destination now db = (
  record { payout_job_id = id; amount_units = amount; new_balance_units = amount - amount },
  record (move_balance uid (λ n. n - amount) (user_ledger_row uid withdrawal_debit amount none)
      db) { jobs = withdrawal_job id uid amount destination now ∷ db.jobs },
)

abbrev pub enqueue : ℕ → ℕ → ℕ → ℕ → ℕ → Db → Result BalanceError (WithdrawalResult × Db)
enqueue id uid amount destination now db =
    if any (is_in_flight_of uid) db.jobs
    then err (withdrawal_in_flight uid)
    else ok (queue_job id uid amount destination now db)

-- `id` is the fresh key of the job.
unfoldable pub enqueue_withdrawal : ℕ → ℕ → ℕ → ℕ → Db → Result BalanceError (WithdrawalResult × Db)
unfolding get_user_pending_balance
enqueue_withdrawal id uid destination now db =
    let balance = get_user_pending_balance uid db in
    if balance == 0
    then err (no_balance_to_withdraw balance)
    else enqueue id uid balance destination now db

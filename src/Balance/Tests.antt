-- ===== src/Balance/Tests.antt =====
-- The campaigns' and the labelers' balances, at concrete rows.
mod Route
use centient.Common.{◌≡◌, refl, none, some, [], ◌∷◌, arith, find_by, update_by, ok}
use centient.Payout.Db.{Db, debit_fee, debit_reward, reversal}
use centient.Payout.Samples.{labeler, answer, reward_job, db_of}
use centient.Balance.Campaign.{check_and_debit, ledger_row}
use centient.Balance.Campaign.Laws.{IsReconciled, check_and_debit-IsReconciled}
use centient.Balance.User.{
  refund_reversal, get_user_pending_balance, enqueue_withdrawal, WithdrawalResult, already_reversed,
  user_ledger_row, queue_job,
}
use centient.Balance.User.Laws.{refund_reversal_once}

-- No withdrawal is in flight.
abbrev idle_db : Db
idle_db = db_of (answer ∷ []) (reward_job ∷ []) []

idle-IsReconciled : IsReconciled idle_db
unfolding find_by
idle-IsReconciled k = ground arith

-- The reward and its fee, debited.
abbrev debited_db : Db
debited_db = record idle_db {
  balances = record { campaign_id = 9; balance_units = 890 } ∷ [];
  ledger =
      ledger_row 9 debit_fee 10 (some 1) none
      ∷ ledger_row 9 debit_reward 100 (some 1) none
      ∷ idle_db.ledger;
}

debits_idle : check_and_debit (some 10) 9 100 1 idle_db ≡ ok debited_db
unfolding check_and_debit find_by update_by
debits_idle = refl

check_and_debit-IsReconciled_example : IsReconciled debited_db
check_and_debit-IsReconciled_example =
    check_and_debit-IsReconciled (some 10) 9 100 1 idle_db debited_db idle-IsReconciled debits_idle

abbrev reversed_db : Db
reversed_db = record idle_db {
  users = record labeler { pending_balance_units = 90 } ∷ [];
  user_ledger = user_ledger_row 7 reversal 40 (some 4) ∷ idle_db.user_ledger;
}

reverses : refund_reversal 7 40 (some 4) idle_db ≡ ok (90, reversed_db)
unfolding refund_reversal find_by update_by already_reversed
reverses = refl

refund_reversal_once_example :
    refund_reversal 7 40 (some 4) reversed_db
    ≡ ok (get_user_pending_balance 7 reversed_db, reversed_db)
refund_reversal_once_example = refund_reversal_once 7 40 40 4 idle_db 90 reversed_db reverses

abbrev queued_result : WithdrawalResult × Db
queued_result = queue_job 5 7 50 70 99 idle_db

queues : enqueue_withdrawal 5 7 70 99 idle_db ≡ ok queued_result
unfolding enqueue_withdrawal get_user_pending_balance find_by
queues = refl

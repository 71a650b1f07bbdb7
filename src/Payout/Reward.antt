-- ===== src/Payout/Reward.antt =====
-- lib/payout.ts: `payReward`, which puts the cap before the submitter, and the reward that is owed.
-- The cap reads the database as `seen`, before the submission; the analytics events are output.
pub mod Laws
use centient.Common.{
  ℕ, Bool, true, false, Option, none, some, ◌&&◌, ltb, if◌then◌else◌, or_else, is_some, Result, ok,
  err,
}
use centient.Payout.Db.{Db}
use centient.Payout.Attempts.{TxStatus, tx_confirmed, tx_failed, tx_not_found}
use centient.Payout.Cap.{
  CapSetting, CapError, CapCheck, CapAlert, check_payout_cap, maybe_send_cap_alert,
}
use centient.Stellar.Units.{Text, usdc_to_units}
use centient.Stellar.Ledger.{PayoutReference, Kind, submission, payout_job}
use centient.Stellar.Submitter.{SubmitError, Outcome}
use centient.Stellar.Submitter.Cycle.{Setup, PayoutRequest, Cycle, World, submit_multisig_payout}

-- `rewardInUnits`; `none` when `REWARD_AMOUNT` does not parse.
unfoldable pub reward_in_units : Text → Option ℕ
reward_in_units reward_amount = usdc_to_units reward_amount

-- A reward that is null or zero is unset.
abbrev pub nonzero_units : Option ℕ → Option ℕ
nonzero_units none = none
nonzero_units (some units) = if ltb 0 units then some units else none

abbrev pub or_next : Option ℕ → Option ℕ → Option ℕ
or_next none next = next
or_next (some units) next = some units

-- `resolveRewardUnits`
unfoldable pub resolve_reward_units : Option ℕ → Option ℕ → Text → Option ℕ
unfolding reward_in_units
resolve_reward_units task_reward campaign_reward reward_amount =
    or_next (nonzero_units task_reward)
      (or_next (nonzero_units campaign_reward) (reward_in_units reward_amount))

pub data RewardError : Type 0 where
  amount_unreadable co_signer_missing : RewardError
  cap_reached : CapError → RewardError
  not_submitted : SubmitError → RewardError

-- What one call of `payReward` meets. `co_signer` tells whether `resolvePayoutCoSigner` returns.
pub record Paying : Type 0 where
  pub reward_amount : Text
  pub cap : CapSetting
  pub since : ℕ
  pub threshold : ℕ
  pub seen : Db
  pub co_signer : Bool
  pub setup : Setup
  pub first : Cycle
  pub second : Cycle

-- How the call ends, with the alert that it raises.
pub record Reward : Type 0 where
  pub outcome : Result RewardError ℕ
  pub alert : Option CapAlert
  pub rail : World

abbrev pub ended : Result RewardError ℕ → World → Reward
ended outcome rail = record { outcome = outcome; alert = none; rail = rail }

-- Only a submission has a journal.
abbrev pub journal_of : PayoutReference → Option ℕ
journal_of reference = journal_of_kind reference.kind reference.id
  where
    journal_of_kind : Kind → ℕ → Option ℕ
    journal_of_kind submission id = some id
    journal_of_kind payout_job id = none

abbrev pub setup_of : Paying → PayoutReference → Setup
setup_of p reference = record p.setup { journal = journal_of reference }

abbrev pub reward_outcome : Outcome → Result RewardError ℕ
reward_outcome (ok hash) = ok hash
reward_outcome (err e) = err (not_submitted e)

abbrev pub after_submission : Option (Outcome × World) → Option Reward
after_submission none = none
after_submission (some (outcome, rail)) = some (ended (reward_outcome outcome) rail)

abbrev pub submit_reward : Paying → PayoutRequest → World → Option Reward
submit_reward p request rail =
    if p.co_signer
    then after_submission
        (submit_multisig_payout (setup_of p request.reference) request p.first p.second rail)
    else some (ended (err co_signer_missing) rail)

abbrev pub after_cap : Paying → PayoutRequest → World → Result CapError CapCheck → Option Reward
after_cap p request rail (err e) = some (record {
  outcome = err (cap_reached e);
  alert = maybe_send_cap_alert p.cap p.since p.threshold request.amount_units p.seen;
  rail = rail;
})
after_cap p request rail (ok check) = submit_reward p request rail

abbrev pub pay_amount : Paying → ℕ → PayoutReference → Option ℕ → World → Option Reward
pay_amount p destination reference none rail = some (ended (err amount_unreadable) rail)
pay_amount p destination reference (some amount) rail =
    after_cap p (record { reference = reference; destination = destination; amount_units = amount })
      rail (check_payout_cap p.cap p.since amount p.seen)

-- `payReward`; `none` while the submitter has used up its fuel.
unfoldable pub pay_reward : Paying → ℕ → Option ℕ → PayoutReference → World → Option Reward
unfolding reward_in_units
pay_reward p destination amount_units reference rail =
    pay_amount p destination reference (or_next amount_units (reward_in_units p.reward_amount)) rail

-- `waitForTx`: whether it succeeded; `none` when it throws.
unfoldable pub wait_for_tx : TxStatus → Option Bool
wait_for_tx tx_not_found = none
wait_for_tx tx_confirmed = some true
wait_for_tx tx_failed = some false

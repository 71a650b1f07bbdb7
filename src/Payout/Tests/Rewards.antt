-- ===== src/Payout/Tests/Rewards.antt =====
-- `payReward`, over a sequence collision and its rebuild.
use centient.Common.{
  ◌≡◌, ◌⊎◌, inr, refl, sym, ◌∙◌, subst, ok-inj, true, none, some, [], ok, err, find_by,
}
use centient.Payout.Samples.{waiting_db, in_flight_db, envelope}
use centient.Payout.Attempts.{journal_open}
use centient.Payout.Cap.{units, check_payout_cap, get_payout_activity_since}
use centient.Payout.Reward.{Paying, Reward, not_submitted, ended, pay_reward}
use centient.Payout.Reward.Laws.{
  WithinCap, IsPaidOnce, request_for, pay_reward-IsPaidOnce, pay_reward-CannotOpen,
}
use centient.Stellar.Ledger.{PayoutReference, submission, payout_job}
use centient.Stellar.Envelope.{
  FeeBump, bump_hash, build_payout_payment, apply_co_signature, assert_payout_fully_signed,
  build_multisig_fee_bump,
}
use centient.Stellar.Submitter.{envelope_expiry_ms, journal_refused}
use centient.Stellar.Submitter.Cycle.{signed_envelope, submit_multisig_payout}
use centient.Stellar.Submitter.Cycle.Safe.{IsHonest, HonestCycle, applied_count}
use centient.Stellar.Submitter.Samples.{
  collided-IsHonest, rebuilt-IsHonest, toy_sdk, setup_for, collided, rebuilt, idle_rail,
  envelope_at, paid_rail, applies,
}

abbrev paying : Paying
paying = record {
  reward_amount = [];
  cap = units 500;
  since = 500;
  threshold = 8_000;
  seen = waiting_db;
  co_signer = true;
  setup = setup_for none;
  first = collided;
  second = rebuilt;
}

abbrev job_reference : PayoutReference
job_reference = record { kind = payout_job; id = 1 }

pays_rebuilt :
    pay_reward paying 70 (some 100) job_reference (idle_rail waiting_db)
    ≡ some (ended (ok 106) paid_rail)
unfolding pay_reward check_payout_cap get_payout_activity_since submit_multisig_payout
    build_payout_payment apply_co_signature assert_payout_fully_signed build_multisig_fee_bump
pays_rebuilt = refl

collided_reward :
    signed_envelope (setup_for none) (request_for job_reference 70 100) collided
    ≡ ok (envelope_at 5)
unfolding signed_envelope build_payout_payment apply_co_signature assert_payout_fully_signed
    build_multisig_fee_bump
collided_reward = refl

rebuilt_reward :
    signed_envelope (setup_for none) (request_for job_reference 70 100) rebuilt ≡ ok (envelope_at 6)
unfolding signed_envelope build_payout_payment apply_co_signature assert_payout_fully_signed
    build_multisig_fee_bump
rebuilt_reward = refl

first_is_honest : HonestCycle applies (setup_for none) (request_for job_reference 70 100) collided
first_is_honest bump signed =
    subst (λ (b : FeeBump). IsHonest applies (bump_hash toy_sdk b) (envelope_expiry_ms b) collided)
      (ok-inj (sym collided_reward ∙ signed)) collided-IsHonest

second_is_honest : HonestCycle applies (setup_for none) (request_for job_reference 70 100) rebuilt
second_is_honest bump signed =
    subst (λ (b : FeeBump). IsHonest applies (bump_hash toy_sdk b) (envelope_expiry_ms b) rebuilt)
      (ok-inj (sym rebuilt_reward ∙ signed)) rebuilt-IsHonest

pay_reward-IsPaidOnce_example :
    IsPaidOnce 0 (applied_count applies toy_sdk paid_rail.sent) (ok 106)
    × ((paid_rail ≡ idle_rail waiting_db) ⊎ WithinCap paying 100)
pay_reward-IsPaidOnce_example =
    pay_reward-IsPaidOnce applies paying 70 100 (some 100) job_reference (idle_rail waiting_db)
      (ended (ok 106) paid_rail) refl (first_is_honest, second_is_honest) pays_rebuilt

abbrev refused_reward : Reward
refused_reward = ended (err (not_submitted journal_refused)) (idle_rail in_flight_db)

refused_in_flight :
    pay_reward paying 70 (some 100) (record { kind = submission; id = 1 }) (idle_rail in_flight_db)
    ≡ some refused_reward
unfolding pay_reward check_payout_cap get_payout_activity_since submit_multisig_payout
    build_payout_payment apply_co_signature assert_payout_fully_signed build_multisig_fee_bump
    journal_open find_by
refused_in_flight = refl

pay_reward-CannotOpen_example : idle_rail in_flight_db ≡ idle_rail in_flight_db
pay_reward-CannotOpen_example =
    pay_reward-CannotOpen paying 70 1 (some 100) (idle_rail in_flight_db) refused_reward
      (inr (envelope, refl)) refused_in_flight

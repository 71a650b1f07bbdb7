-- ===== src/Stellar/Submitter/Tests.antt =====
-- The submitter at concrete inputs: a sequence collision, its rebuild, and an unknown outcome.
use centient.Common.{
  sym, ◌∙◌, subst, ok-inj, find_by, ◌≡◌, refl, true, false, none, some, ok, err, arith, All,
}
use centient.Payout.Db.{Db}
use centient.Payout.Samples.{waiting_db, in_flight_db}
use centient.Payout.Attempts.{journal_open}
use centient.Stellar.Envelope.{
  bump_hash, FeeBump, build_payout_payment, apply_co_signature, assert_payout_fully_signed,
  build_multisig_fee_bump,
}
use centient.Stellar.Submitter.{
  Unknown, Outcome, resolve_ambiguous_submit, ambiguous_submit, payment_error, journal_refused,
  envelope_expiry_ms,
}
use centient.Stellar.Submitter.Samples.{
  collided-IsHonest, rebuilt-IsHonest, absent_rounds, toy_sdk, setup_for, reward_request, collided,
  rebuilt, idle_rail, envelope_at, paid_rail, applies,
}
use centient.Stellar.Submitter.Laws.{Fate, resolve_ambiguous_submit-Fate}
use centient.Stellar.Submitter.Deadline.{Ticks, resolve_ambiguous_submit_ends}
use centient.Stellar.Submitter.Cycle.{submit_multisig_payout, signed_envelope}
use centient.Stellar.Submitter.Cycle.Signed.{IsSignedPayout, submit_multisig_payout-IsSignedPayout}
use centient.Stellar.Submitter.Cycle.Safe.{
  IsHonest, HonestCycle, Paid, applied_count, submit_multisig_payout-Paid,
}

abbrev unknown_envelope : Unknown
unknown_envelope = record {
  envelope_hash = 33;
  expires_at = some 900;
  resolve_grace_ms = 60_000;
  journalled = false;
}

absent_then_dead :
    resolve_ambiguous_submit 5 unknown_envelope absent_rounds in_flight_db
    ≡ some (err (payment_error ambiguous_submit true), in_flight_db)
unfolding resolve_ambiguous_submit
absent_then_dead = refl

resolve_ambiguous_submit-Fate_example :
    Fate unknown_envelope absent_rounds in_flight_db
      (err (payment_error ambiguous_submit true))
      in_flight_db
resolve_ambiguous_submit-Fate_example =
    resolve_ambiguous_submit-Fate 5 unknown_envelope absent_rounds in_flight_db _ in_flight_db
      absent_then_dead

absent_rounds-Ticks : Ticks 2_000 absent_rounds
absent_rounds-Ticks i = omega arith

resolve_ambiguous_submit_ends_example :
    (outcome : Outcome) × (db : Db) × (resolve_ambiguous_submit 60_902 unknown_envelope
        absent_rounds waiting_db
      ≡ some (outcome, db))
resolve_ambiguous_submit_ends_example =
    resolve_ambiguous_submit_ends unknown_envelope 2_000 absent_rounds waiting_db (omega arith)
      absent_rounds-Ticks

collision_is_rebuilt :
    submit_multisig_payout (setup_for none) reward_request collided rebuilt (idle_rail waiting_db)
    ≡ some (ok 106, paid_rail)
unfolding submit_multisig_payout build_payout_payment apply_co_signature assert_payout_fully_signed
    build_multisig_fee_bump
collision_is_rebuilt = refl

submit_multisig_payout-IsSignedPayout_example :
    All (IsSignedPayout (setup_for none) reward_request) paid_rail.sent
submit_multisig_payout-IsSignedPayout_example =
    submit_multisig_payout-IsSignedPayout (setup_for none) reward_request collided rebuilt
      (idle_rail waiting_db) (ok 106) paid_rail tt collision_is_rebuilt

collided_envelope : signed_envelope (setup_for none) reward_request collided ≡ ok (envelope_at 5)
unfolding signed_envelope build_payout_payment apply_co_signature assert_payout_fully_signed
    build_multisig_fee_bump
collided_envelope = refl

rebuilt_envelope : signed_envelope (setup_for none) reward_request rebuilt ≡ ok (envelope_at 6)
unfolding signed_envelope build_payout_payment apply_co_signature assert_payout_fully_signed
    build_multisig_fee_bump
rebuilt_envelope = refl

collided-HonestCycle : HonestCycle applies (setup_for none) reward_request collided
collided-HonestCycle bump signed =
    subst (λ (b : FeeBump). IsHonest applies (bump_hash toy_sdk b) (envelope_expiry_ms b) collided)
      (ok-inj (sym collided_envelope ∙ signed)) collided-IsHonest

rebuilt-HonestCycle : HonestCycle applies (setup_for none) reward_request rebuilt
rebuilt-HonestCycle bump signed =
    subst (λ (b : FeeBump). IsHonest applies (bump_hash toy_sdk b) (envelope_expiry_ms b) rebuilt)
      (ok-inj (sym rebuilt_envelope ∙ signed)) rebuilt-IsHonest

submit_multisig_payout-Paid_example : Paid 0 (applied_count applies toy_sdk paid_rail.sent) (ok 106)
submit_multisig_payout-Paid_example =
    submit_multisig_payout-Paid applies (setup_for none) reward_request collided rebuilt
      (idle_rail waiting_db) (ok 106) paid_rail collided-HonestCycle rebuilt-HonestCycle
      collision_is_rebuilt

refused_at_journal :
    submit_multisig_payout
      (setup_for (some 1))
      reward_request
      collided
      rebuilt
      (idle_rail in_flight_db)
    ≡ some (err journal_refused, idle_rail in_flight_db)
unfolding submit_multisig_payout build_payout_payment apply_co_signature assert_payout_fully_signed
    build_multisig_fee_bump journal_open find_by
refused_at_journal = refl

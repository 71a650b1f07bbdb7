-- ===== src/Stellar/Submitter/Samples.antt =====
-- A toy signature scheme, and runs of the submission cycle under it.
use centient.Common.{
  ℕ, ◌+◌, ◌*◌, refl, Bool, false, Option, none, some, List, [], ◌∷◌, ◌==◌, ltb, arith,
  if◌then◌else◌,
}
use centient.Payout.Db.{Db}
use centient.Payout.Samples.{waiting_db}
use centient.Payout.Attempts.{tx_not_found}
use centient.Stellar.Ledger.{submission}
use centient.Stellar.Envelope.{Sdk, bump_hash, DecoratedSignature, FeeBump}
use centient.Stellar.Units.{units_to_usdc_string}
use centient.Stellar.Submitter.{
  Round, tx_bad_seq, tx_fee_bump_inner_failed, no_codes, envelope_expiry_ms,
}
use centient.Stellar.Submitter.Cycle.{
  Setup, PayoutRequest, Cycle, World, SubmitAnswer, accepted, refused,
}
use centient.Stellar.Submitter.Cycle.Safe.{IsHonest}

-- Horizon never sees the envelope; a ledger past its expiry closes in the second round.
abbrev pub absent_rounds : ℕ → Round
absent_rounds i = record {
  status = some tx_not_found;
  ledger_close_ms = if ltb 0 i then some 1_000 else some 800;
  void_fails = false;
  clock = i * 2_000;
}

-- A key signs by a code that only it and the hash give.
abbrev pub toy_sdk : Sdk
toy_sdk = record {
  verify = λ key hash signature. signature == key * 1_000 + hash;
  signature_hint = λ key. key;
  sign = λ key hash. key * 1_000 + hash;
  is_public_key = λ key. ltb 0 key;
  payment_hash = λ tx. tx.sequence;
  fee_bump_hash = λ source fee inner. inner.tx.sequence + 100;
  network_base_fee = 100;
}

abbrev pub setup_for : Option ℕ → Setup
setup_for journal = record {
  sdk = toy_sdk;
  config = record { payout_account = 500; platform_signer = 11; co_signer_public_key = 12 };
  asset = 600;
  timeout_seconds = none;
  resolve_grace_ms = 60_000;
  journal = journal;
  fuel = 5;
}

abbrev pub reward_request : PayoutRequest
reward_request = record {
  reference = record { kind = submission; id = 1 };
  destination = 70;
  amount_units = 100;
}

-- A run against that sequence number, honestly co-signed.
abbrev pub run_at : ℕ → SubmitAnswer → Cycle
run_at sequence answer = record {
  account = some sequence;
  base_fee = none;
  built_at = 1;
  payment_signature = some (record { public_key = 12; signature = 12_001 + sequence });
  fee_bump_signature = some (record { public_key = 12; signature = 12_101 + sequence });
  opened_at = 2;
  answer = answer;
  void_fails = false;
  rounds = absent_rounds;
}

abbrev pub collided : Cycle
collided = run_at 4 (
    refused (record no_codes {
      transaction = some tx_fee_bump_inner_failed;
      inner_transaction = some tx_bad_seq;
    }))

abbrev pub rebuilt : Cycle
rebuilt = run_at 5 (accepted 106)

abbrev pub idle_rail : Db → World
idle_rail db = record { db = db; sent = [] }

abbrev pub signatures_on : ℕ → List DecoratedSignature
signatures_on hash =
    record { hint = 11; signature = 11_000 + hash }
    ∷ record { hint = 12; signature = 12_000 + hash }
    ∷ []

abbrev pub envelope_at : ℕ → FeeBump
envelope_at sequence = record {
  fee_source = 500;
  base_fee = 100;
  inner = record {
    tx = record {
      source = 500;
      sequence = sequence;
      destination = 70;
      asset = 600;
      amount = units_to_usdc_string 100;
      fee = 100;
      max_time = some 181;
    };
    signatures = signatures_on sequence;
  };
  signatures = signatures_on (sequence + 100);
}

abbrev pub paid_rail : World
paid_rail = record { db = waiting_db; sent = envelope_at 6 ∷ envelope_at 5 ∷ [] }

-- The network applies the rebuilt envelope.
abbrev pub applies : ℕ → Bool
applies hash = hash == 106

pub collided-IsHonest :
    IsHonest applies
      (bump_hash toy_sdk (envelope_at 5))
      (envelope_expiry_ms (envelope_at 5))
      collided
collided-IsHonest = record {
  acceptance = λ h e. absurd (ground arith);
  rejection = λ codes e definite. refl;
  confirmation = λ i e. absurd (ground arith);
  absence = λ e i j close_ms bound before read past absent. refl;
}

pub rebuilt-IsHonest :
    IsHonest applies
      (bump_hash toy_sdk (envelope_at 6))
      (envelope_expiry_ms (envelope_at 6))
      rebuilt
rebuilt-IsHonest = record {
  acceptance = λ h e. (ground arith, refl);
  rejection = λ codes e definite. absurd (ground arith);
  confirmation = λ i e. absurd (ground arith);
  absence = λ e i j close_ms bound before read past absent. absurd (ground arith);
}

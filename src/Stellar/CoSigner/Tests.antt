-- ===== src/Stellar/CoSigner/Tests.antt =====
-- The co-signer at concrete requests: one payout's two stages, and a captured request.
use centient.Common.{
  ◌≤◌, subst, ◌+◌, ◌≡◌, ◌≢◌, refl, none, some, List, [], ◌∷◌, arith, find_by, some-inj,
}
use centient.Payout.Samples.{waiting_db}
use centient.Stellar.Units.{trim, Text, zeros, payout_amount_string}
use centient.Stellar.Verify.{payment, DecodedTx, plain, text_eq}
use centient.Stellar.Ledger.{
  submission, PayoutCoSignRequest, volume_of, assert_ledger_agrees, read_ledger_payout,
}
use centient.Stellar.CoSigner.Transport.{
  Platform, SeenNonce, seen_after, verify_co_sign_request, take_nonce,
}
use centient.Stellar.CoSigner.Transport.Laws.{
  headers_of, verify_co_sign_request_no_replay, verify_co_sign_request_replay_ahead,
}
use centient.Stellar.CoSigner.Request.{
  WireBody, payment_stage, stage_word, kind_word, separate_account, testnet, parse_request,
  assert_envelope_matches_request,
}
use centient.Stellar.CoSigner.Commitments.{Commitment, record_commitment, expire, outstanding}
use centient.Stellar.CoSigner.Service.{
  Deps, Clock, CoSignerState, CoSignerResponse, signed, decide, handle_co_sign_request,
}
use centient.Stellar.CoSigner.Service.Laws.{RestsOn, handle_co_sign_request-RestsOn}
use centient.Stellar.CoSigner.Commitments.Flight.{in_flight}
use centient.Stellar.CoSigner.Service.Decided.{requested}
use centient.Stellar.CoSigner.Service.Cap.{Reach, started, served, logged, Reach-WithinCap}
use centient.Stellar.CoSigner.Service.Stages.{charged, decide_second_stage}

abbrev shared_secret : Text
shared_secret = zeros 32

-- Numbers stand for the digests, and a header is its number.
abbrev toy_platform : Platform
toy_platform = record {
  digest = λ body secret timestamp nonce. body + timestamp + nonce;
  number_of = λ timestamp. some timestamp;
}

abbrev just_seen : List SeenNonce
just_seen = record { nonce = 9; seen_at = 1_000_000 } ∷ []

accepted_on_time :
    verify_co_sign_request toy_platform shared_secret 1_000_000 1_000_000 5
      (headers_of 999_014 999_000 9)
      []
    ≡ (none, just_seen)
unfolding verify_co_sign_request take_nonce trim
accepted_on_time = refl

verify_co_sign_request_no_replay_example :
    (verify_co_sign_request toy_platform shared_secret 1_400_000 1_400_002 5
      (headers_of 999_014 999_000 9)
      (seen_after toy_platform shared_secret [] just_seen)).0
    ≢ none
verify_co_sign_request_no_replay_example =
    verify_co_sign_request_no_replay toy_platform shared_secret 5 5 999_014 999_000 9 1_000_000
      1_000_000 1_400_000 1_400_002 [] [] just_seen accepted_on_time
      (λ s e. omega (arith, some-inj e)) (omega arith) (omega arith)

accepted_early :
    verify_co_sign_request toy_platform shared_secret 1_000_000 1_000_000 5
      (headers_of 1_001_014 1_001_000 9)
      []
    ≡ (none, just_seen)
unfolding verify_co_sign_request take_nonce trim
accepted_early = refl

verify_co_sign_request_replay_ahead_example :
    (verify_co_sign_request toy_platform shared_secret 1_300_001 1_300_001 5
      (headers_of 1_001_014 1_001_000 9)
      just_seen).0
    ≡ none
verify_co_sign_request_replay_ahead_example =
    verify_co_sign_request_replay_ahead toy_platform shared_secret 5 1_001_014 1_001_000 9 1_000_000
      1_000_000 1_001_000 just_seen accepted_early refl (omega arith) (omega arith)

abbrev envelope_tx : DecodedTx
envelope_tx = plain (record {
  source = 500;
  operations =
      record {
        op_type = payment;
        source = none;
        destination = some 70;
        amount = payout_amount_string 100;
        asset = some 600;
      }
      ∷ [];
})

abbrev wire : WireBody
wire = record {
  stage = stage_word payment_stage;
  xdr = some 8;
  destination = some 70;
  amount_units = some (b'1' ∷ b'0' ∷ b'0' ∷ []);
  reference = some (record { kind = kind_word submission; id = some 1 });
}

abbrev deps : Deps
deps = record {
  platform = toy_platform;
  secret = shared_secret;
  policy_public_key = 12;
  sign = λ hash. 12_000 + hash;
  tx_hash = λ tx. 44;
  from_xdr = λ xdr. some envelope_tx;
  read_body = λ body. some wire;
  asset = 600;
  cap_units = 150;
  isolation = separate_account;
  network = testnet;
}

abbrev first_clock : Clock
first_clock = record { verified_at = 1_000_000; taken_at = 1_000_000; decided_at = 1_000_000 }

abbrev fresh_state : CoSignerState
fresh_state = record { seen = []; committed = [] }

abbrev reward_request : PayoutCoSignRequest
reward_request = record {
  reference = record { kind = submission; id = 1 };
  destination = 70;
  amount_units = 100;
}

abbrev committed_state : CoSignerState
committed_state = record {
  seen = just_seen;
  committed = record { at = 1_000_000; key = reward_request.reference; units = 100 } ∷ [];
}

signs_what_is_owed :
    handle_co_sign_request deps first_clock waiting_db 5 (headers_of 999_014 999_000 9) fresh_state
    ≡ (signed 12 12_044, committed_state)
unfolding handle_co_sign_request verify_co_sign_request take_nonce trim parse_request
    assert_envelope_matches_request find_by record_commitment expire outstanding volume_of text_eq
signs_what_is_owed = refl

handle_co_sign_request-RestsOn_example :
    RestsOn deps 1_000_000 waiting_db []
      (handle_co_sign_request deps first_clock waiting_db 5
        (headers_of 999_014 999_000 9)
        fresh_state).0
handle_co_sign_request-RestsOn_example =
    handle_co_sign_request-RestsOn deps first_clock waiting_db 5 (headers_of 999_014 999_000 9)
      fresh_state

abbrev signature_log : List Commitment
signature_log = record { at = 1_000_000; key = reward_request.reference; units = 100 } ∷ []

committed_state-Reach : Reach deps committed_state signature_log 1_000_000
unfolding parse_request
committed_state-Reach =
    subst
      (λ (r : CoSignerResponse × CoSignerState).
        Reach deps r.1 (logged 1_000_000 (requested deps 5) r.0 []) 1_000_000)
      signs_what_is_owed
      (served first_clock waiting_db 5 (headers_of 999_014 999_000 9) started (omega arith))

Reach-WithinCap_example : in_flight 1_100_000 signature_log ≤ 150
Reach-WithinCap_example = Reach-WithinCap 1_100_000 committed_state-Reach (omega arith)

still_in_flight : in_flight 1_100_000 signature_log ≡ 100
still_in_flight = refl

first_stage_is_signed :
    (decide deps 1_000_000 waiting_db envelope_tx reward_request fresh_state).0 ≡ signed 12 12_044
unfolding find_by outstanding volume_of expire
first_stage_is_signed = refl

owed_still :
    assert_ledger_agrees (read_ledger_payout waiting_db reward_request.reference) reward_request
    ≡ none
unfolding find_by
owed_still = refl

decide_second_stage_example :
    ((decide deps 1_000_500 waiting_db envelope_tx reward_request
        (decide deps 1_000_000 waiting_db envelope_tx reward_request fresh_state).1).0
      ≡ signed 12 12_044)
    × (charged reward_request.reference
          (decide deps 1_000_500 waiting_db envelope_tx reward_request
            (decide deps 1_000_000 waiting_db envelope_tx reward_request fresh_state).1).1.committed
        ≡ 100)
decide_second_stage_example =
    decide_second_stage deps 1_000_000 1_000_500 waiting_db waiting_db envelope_tx envelope_tx
      reward_request fresh_state 12 12_044 refl first_stage_is_signed owed_still (omega arith)

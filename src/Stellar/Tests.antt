-- ===== src/Stellar/Tests.antt =====
-- Amounts, settled envelopes and the co-signer's ledger, at concrete inputs.
use centient.Common.{◌≡◌, ◌≢◌, ◌↔◌, refl, none, some, [], ◌∷◌, find_by}
use centient.Payout.Samples.{waiting_db, in_flight_db}
use centient.Payout.Attempts.{journal_open}
use centient.Stellar.Units.{usdc_to_units, units_to_usdc_string, payout_amount_string}
use centient.Stellar.Units.Laws.{usdc_to_units-units_to_usdc_string}
use centient.Stellar.Verify.{
  payment, DecodedTx, fee_bump, ExpectedPayout, verified, verify_settled_payout,
}
use centient.Stellar.Verify.Laws.{IsPayout, verify_settled_payout_iff}
use centient.Stellar.Ledger.{
  submission, PayoutCoSignRequest, LedgerPayout, assert_ledger_agrees, read_ledger_payout,
}
use centient.Stellar.Ledger.Laws.{Owes, assert_ledger_agrees_iff, assert_ledger_agrees_in_flight}

usdc_to_units-units_to_usdc_string_example :
    usdc_to_units (units_to_usdc_string 1_234_567) ≡ some 1_234_567
usdc_to_units-units_to_usdc_string_example = usdc_to_units-units_to_usdc_string 1_234_567

abbrev expected : ExpectedPayout
expected = record { payout_account = 500; destination = 70; amount_units = 100; asset = 600 }

abbrev envelope_tx : DecodedTx
envelope_tx = fee_bump 500 (record {
  source = 500;
  operations =
      record {
        op_type = payment;
        source = none;
        destination = some 70;
        amount = payout_amount_string 100;
        asset = some 600;
      }
      ∷ [];
})

verify_settled_payout_iff_example :
    (verify_settled_payout (some envelope_tx) expected ≡ some verified)
    ↔ IsPayout envelope_tx expected
verify_settled_payout_iff_example = verify_settled_payout_iff envelope_tx expected

abbrev request : PayoutCoSignRequest
request = record {
  reference = record { kind = submission; id = 1 };
  destination = 70;
  amount_units = 100;
}

assert_ledger_agrees_iff_example :
    (assert_ledger_agrees (read_ledger_payout waiting_db request.reference) request ≡ none) ↔ (
      (r : LedgerPayout) × (read_ledger_payout waiting_db request.reference ≡ some r)
      × Owes r request)
assert_ledger_agrees_iff_example =
    assert_ledger_agrees_iff (read_ledger_payout waiting_db request.reference) request

opens : journal_open 1 33 900 600 waiting_db ≡ some in_flight_db
unfolding journal_open find_by
opens = refl

assert_ledger_agrees_in_flight_example :
    assert_ledger_agrees (read_ledger_payout in_flight_db request.reference) request ≢ none
assert_ledger_agrees_in_flight_example =
    assert_ledger_agrees_in_flight 1 33 900 600 waiting_db request opens refl refl

-- ===== src/Stellar/CoSigner/Request/Laws.antt =====
-- On `assertEnvelopeMatchesRequest` of lib/stellar/cosigner-verify.ts.
use centient.Common.{
  ℕ, ◌≡◌, refl, sym, ap, ◌∙◌, ◌>>=◌, Bool, true, false, Option, none, some, [], ◌∷◌, opt_eq,
  opt_eq_iff, Result, ok, ok-inj, >>=-eq-ok,
}
use centient.Stellar.Units.{Text}
use centient.Stellar.Verify.{DecodedTx, payment, PaymentOp, inner_of, only_payment, opt_text_eq}
use centient.Stellar.Verify.Laws.{opt_text_eq_iff, only_payment-inv}
use centient.Stellar.CoSigner.Request.{
  SigningRequest, EnvelopeMismatch, agrees, decoded, expected_amount, inner_payment,
  not_one_payment, wrong_asset, wrong_destination, unpayable_amount, wrong_amount,
  assert_envelope_matches_request,
}

-- The envelope holds one operation, a payment of that amount of the asset to the destination.
pub record IsPaymentOf (tx : DecodedTx) (destination asset : ℕ) (amount : Option Text)
    : Type 0 where
  pub op : PaymentOp
  pub alone : (inner_of tx).operations ≡ op ∷ []
  pub pays : op.op_type ≡ payment
  pub asset_paid : op.asset ≡ some asset
  pub paid_to : op.destination ≡ some destination
  pub paid : op.amount ≡ amount
  pub text : Text
  pub payable : amount ≡ some text

agrees-ok : (b : Bool) (e : EnvelopeMismatch) {u : Unit {0}} → agrees b e ≡ ok u → b ≡ true
agrees-ok true e h = refl
agrees-ok false e h = cc

decoded-ok {ℓ} :
    {A : Type ℓ} (o : Option A) (e : EnvelopeMismatch) (a : A) → decoded o e ≡ ok a → o ≡ some a
decoded-ok none e a h = cc
decoded-ok (some b) e a h = cc

-- The tests on the one payment, in their order.
abbrev match_text :
    SigningRequest → DecodedTx → PaymentOp → Text → Result EnvelopeMismatch DecodedTx
match_text request tx op amount = agrees (opt_text_eq op.amount amount) wrong_amount >>= λ _. ok tx

abbrev match_payment :
    SigningRequest → ℕ → DecodedTx → PaymentOp → Result EnvelopeMismatch DecodedTx
match_payment request asset tx op = agrees (opt_eq op.asset (some asset)) wrong_asset >>= (λ _.
    agrees (opt_eq op.destination (some request.destination)) wrong_destination >>= (λ _.
      decoded (expected_amount request.amount_units) unpayable_amount >>= match_text request tx op))

match_payment-IsPaymentOf :
    (request : SigningRequest) (asset : ℕ) (tx : DecodedTx) (op : PaymentOp) (out : DecodedTx)
    → only_payment (inner_of tx).operations ≡ some op
    → match_payment request asset tx op ≡ ok out
    → (out ≡ tx) × IsPaymentOf tx request.destination asset (expected_amount request.amount_units)
match_payment-IsPaymentOf request asset tx op out only h =
    let (_, asset_ok, rest) =
      >>=-eq-ok (agrees (opt_eq op.asset (some asset)) wrong_asset)
        (λ _. agrees (opt_eq op.destination (some request.destination)) wrong_destination >>= (λ _.
          decoded (expected_amount request.amount_units) unpayable_amount
          >>= match_text request tx op))
        out h in
    let (_, destination_ok, amounts) =
      >>=-eq-ok (agrees (opt_eq op.destination (some request.destination)) wrong_destination)
        (λ _.
          decoded (expected_amount request.amount_units) unpayable_amount
          >>= match_text request tx op)
        out rest in
    let (text, text_ok, last) =
      >>=-eq-ok (decoded (expected_amount request.amount_units) unpayable_amount)
        (match_text request tx op) out amounts in
    let (_, amount_ok, same) =
      >>=-eq-ok (agrees (opt_text_eq op.amount text) wrong_amount) (λ _. ok tx) out last in
    let (one, pays) = only_payment-inv (inner_of tx).operations op only in
    let payable = decoded-ok (expected_amount request.amount_units) unpayable_amount text text_ok in
    (
      sym (ok-inj same),
      record {
        op = op;
        alone = one;
        pays = pays;
        asset_paid = (opt_eq_iff op.asset (some asset)).0 (agrees-ok _ wrong_asset asset_ok);
        paid_to =
            (opt_eq_iff op.destination (some request.destination)).0
              (agrees-ok _ wrong_destination destination_ok);
        paid =
            (opt_text_eq_iff op.amount text).0 (agrees-ok _ wrong_amount amount_ok) ∙ sym payable;
        text = text;
        payable = payable;
      },
    )

-- The envelope that passes is the one that was decoded, and its only operation is the requested
-- payment, of the configured asset.
pub assert_envelope_matches_request-IsPaymentOf :
    (request : SigningRequest) (from_xdr : Option DecodedTx) (asset : ℕ) (tx : DecodedTx)
    → assert_envelope_matches_request request from_xdr asset ≡ ok tx
    → (from_xdr ≡ some tx)
      × IsPaymentOf tx request.destination asset (expected_amount request.amount_units)
unfolding assert_envelope_matches_request
assert_envelope_matches_request-IsPaymentOf request none asset tx h = cc
assert_envelope_matches_request-IsPaymentOf request (some t) asset tx h =
    let (op, only, rest) = >>=-eq-ok (inner_payment t) (match_payment request asset t) tx h in
    let (same, paid) =
      match_payment-IsPaymentOf request asset t op tx
        (decoded-ok (only_payment (inner_of t).operations) not_one_payment op only) rest in
    (ap some (sym same), rw same paid)

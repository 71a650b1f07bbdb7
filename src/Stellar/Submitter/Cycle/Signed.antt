-- ===== src/Stellar/Submitter/Cycle/Signed.antt =====
-- On the envelopes that lib/stellar/payout-submitter.ts hands to Horizon.
use centient.Common.{
  ℕ, ◌≡◌, ◌≢◌, sym, Option, some, ok, arith, List, [], subst, All, >>=-eq-ok, ok-inj,
}
use centient.Stellar.Units.{units_to_usdc_string}
use centient.Stellar.Envelope.{
  Sdk, FeeBump, Payment, PaymentTx, PayoutCoSignature, DecoratedSignature, bump_hash,
  build_payout_payment, build_usdc_payment_tx, build_multisig_fee_bump, assert_payout_fully_signed,
  apply_co_signature, sign_as_platform, co_signer_refused, account_unavailable,
}
use centient.Stellar.Envelope.Laws.{SignedBy, assert_payout_fully_signed-All}
use centient.Stellar.Submitter.{Outcome, envelope_expiry_ms}
use centient.Stellar.Submitter.Cycle.{
  Setup, PayoutRequest, Cycle, World, answered, fully_signed, co_signed, sign_twice, signed_payment,
  signed_envelope, payment_at, sign_payment, sign_bump, wrapped, required_signers, fee_of,
  submit_multisig_payout,
}
use centient.Stellar.Submitter.Cycle.Laws.{
  Ran, stopped, went, after_submit-sent, submit_multisig_payout-keeps,
}

-- Signed by two different keys, the platform's and the co-signer's.
abbrev pub TwiceSigned : Setup → ℕ → List DecoratedSignature → Type 0
TwiceSigned s hash signatures =
    (s.config.platform_signer ≢ s.config.co_signer_public_key)
    × SignedBy s.sdk hash signatures s.config.platform_signer
    × SignedBy s.sdk hash signatures s.config.co_signer_public_key

-- The payment that the request asks for.
abbrev pub PaysRequest : Setup → PayoutRequest → PaymentTx → Type 0
PaysRequest s request tx =
    (tx.source ≡ s.config.payout_account)
    × (tx.destination ≡ request.destination)
    × (tx.amount ≡ units_to_usdc_string request.amount_units)
    × (tx.asset ≡ s.asset)

-- A payment of the request out of the payout account, and the fee bump around it, each signed twice.
pub record IsSignedPayout (s : Setup) (request : PayoutRequest) (bump : FeeBump) : Type 0 where
  pub inner : TwiceSigned s (s.sdk.payment_hash bump.inner.tx) bump.inner.signatures
  pub outer : TwiceSigned s (bump_hash s.sdk bump) bump.signatures
  pub pays : PaysRequest s request bump.inner.tx
  pub fee_source : bump.fee_source ≡ s.config.payout_account

TwiceSigned-of-assert :
    (s : Setup) (hash : ℕ) (signatures : List DecoratedSignature)
    → assert_payout_fully_signed s.sdk hash signatures (required_signers s) ≡ ok tt
    → TwiceSigned s hash signatures
TwiceSigned-of-assert s hash signatures h =
    let (_, distinct, signed) =
      assert_payout_fully_signed-All s.sdk hash signatures (required_signers s) h in
    (λ same. absurd (ground arith), signed.0, signed.1.0)

sign_twice-TwiceSigned :
    (s : Setup) (hash : ℕ) (answer : Option PayoutCoSignature)
    (signatures : List DecoratedSignature)
    → sign_twice s hash answer ≡ ok signatures
    → TwiceSigned s hash signatures
unfolding sign_twice
sign_twice-TwiceSigned s hash answer signatures h =
    let (co, _, co_ok) =
      >>=-eq-ok (answered answer co_signer_refused) (co_signed s hash) signatures h in
    let (merged, _, asserted) =
      >>=-eq-ok
        (apply_co_signature s.sdk hash co s.config.co_signer_public_key
          (sign_as_platform s.sdk s.config.platform_signer hash []))
        (fully_signed s hash) signatures co_ok in
    let (_, passed, same) =
      >>=-eq-ok (assert_payout_fully_signed s.sdk hash merged (required_signers s)) (λ _. ok merged)
        signatures asserted in
    subst (TwiceSigned s hash) (ok-inj same) (TwiceSigned-of-assert s hash merged passed)

build_payout_payment-Pays :
    (s : Setup) (request : PayoutRequest) (c : Cycle) (sequence : ℕ) (tx : PaymentTx)
    → build_payout_payment s.sdk s.config.payout_account sequence request.destination s.asset
        request.amount_units
        (fee_of s c)
        s.timeout_seconds
        c.built_at
      ≡ ok tx
    → PaysRequest s request tx
unfolding build_payout_payment build_usdc_payment_tx
build_payout_payment-Pays s request c sequence tx h = ground arith

build_multisig_fee_bump-inner :
    (sdk : Sdk) (source fee : ℕ) (payment : Payment) (required : List ℕ) (bump : FeeBump)
    → build_multisig_fee_bump sdk source fee payment required ≡ ok bump
    → (bump.inner ≡ payment) × (bump.fee_source ≡ source)
unfolding build_multisig_fee_bump
build_multisig_fee_bump-inner sdk source fee payment required bump h = ground arith

signed_payment-Pays :
    (s : Setup) (request : PayoutRequest) (c : Cycle) (payment : Payment)
    → signed_payment s request c ≡ ok payment
    → PaysRequest s request payment.tx
      × TwiceSigned s (s.sdk.payment_hash payment.tx) payment.signatures
unfolding signed_payment
signed_payment-Pays s request c payment h =
    let (sequence, _, at) =
      >>=-eq-ok (answered c.account account_unavailable) (payment_at s request c) payment h in
    let (tx, built, signing) =
      >>=-eq-ok
        (build_payout_payment s.sdk s.config.payout_account sequence request.destination s.asset
          request.amount_units (fee_of s c) s.timeout_seconds c.built_at)
        (sign_payment s c) payment at in
    let (signatures, signed, same) =
      >>=-eq-ok (sign_twice s (s.sdk.payment_hash tx) c.payment_signature)
        (λ sigs. ok (record { tx = tx; signatures = sigs })) payment signing in
    subst
      (λ (p : Payment).
        PaysRequest s request p.tx × TwiceSigned s (s.sdk.payment_hash p.tx) p.signatures)
      (ok-inj same)
      (
        build_payout_payment-Pays s request c sequence tx built,
        sign_twice-TwiceSigned s _ c.payment_signature signatures signed,
      )

signed_envelope-IsSignedPayout :
    (s : Setup) (request : PayoutRequest) (c : Cycle) (bump : FeeBump)
    → signed_envelope s request c ≡ ok bump
    → IsSignedPayout s request bump
unfolding signed_envelope
signed_envelope-IsSignedPayout s request c bump h =
    let (payment, paid, wrapping) = >>=-eq-ok (signed_payment s request c) (wrapped s c) bump h in
    let (pays, inner) = signed_payment-Pays s request c payment paid in
    let (unsigned, built, signing) =
      >>=-eq-ok
        (build_multisig_fee_bump s.sdk s.config.payout_account (fee_of s c) payment
          (required_signers s))
        (sign_bump s c) bump wrapping in
    let (kept, source) = build_multisig_fee_bump-inner s.sdk _ _ payment _ unsigned built in
    let (signatures, signed, same) =
      >>=-eq-ok (sign_twice s (bump_hash s.sdk unsigned) c.fee_bump_signature)
        (λ sigs. ok (record unsigned { signatures = sigs })) bump signing in
    subst (IsSignedPayout s request) (ok-inj same) (record {
      inner =
          subst (λ (p : Payment). TwiceSigned s (s.sdk.payment_hash p.tx) p.signatures) (sym kept)
            inner;
      outer = sign_twice-TwiceSigned s _ c.fee_bump_signature signatures signed;
      pays = subst (λ (p : Payment). PaysRequest s request p.tx) (sym kept) pays;
      fee_source = source;
    })

Ran-IsSignedPayout :
    (s : Setup) (request : PayoutRequest) (c : Cycle) (rail : World) (outcome : Outcome)
    (rail' : World)
    → All (IsSignedPayout s request) rail.sent
    → Ran s request c rail outcome rail'
    → All (IsSignedPayout s request) rail'.sent
Ran-IsSignedPayout s request c rail outcome rail' before (stopped e o early kept) = rw kept before
Ran-IsSignedPayout s request c rail outcome rail' before (went bump db signed opened ended) =
    rw
      (after_submit-sent s c (bump_hash s.sdk bump) (envelope_expiry_ms bump) c.answer _ outcome
        rail' ended)
      (signed_envelope-IsSignedPayout s request c bump signed, before)

-- Every envelope that a submission hands to Horizon, the rebuilt one included, pays the request out
-- of the payout account and is signed by two different keys, the platform's and the co-signer's,
-- both on the payment and on the fee bump around it.
pub submit_multisig_payout-IsSignedPayout :
    (s : Setup) (request : PayoutRequest) (first second : Cycle) (rail : World) (outcome : Outcome)
    (rail' : World)
    → All (IsSignedPayout s request) rail.sent
    → submit_multisig_payout s request first second rail ≡ some (outcome, rail')
    → All (IsSignedPayout s request) rail'.sent
submit_multisig_payout-IsSignedPayout s request first second rail outcome rail' before e =
    submit_multisig_payout-keeps (λ r. All (IsSignedPayout s request) r.sent) s request first second
      rail outcome rail' (λ c r r' o kept ran. Ran-IsSignedPayout s request c r o r' kept ran)
      before e

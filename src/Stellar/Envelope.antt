-- ===== src/Stellar/Envelope.antt =====
-- lib/stellar/payout-envelope.ts and lib/stellar/multisig-payout.ts: the payment, its fee bump and
-- the signatures on both. Keys, hashes, signatures and assets are only compared. What the Stellar
-- SDK computes enters as `Sdk`; a fee is its number of stroops.
pub mod Laws
use centient.Common.{
  ℕ, ◌+◌, ◌-◌, ◌*◌, ◌/◌, max, Bool, true, false, Option, none, some, List, [], ◌∷◌, ◌++◌, ◌&&◌,
  ◌||◌, not, ◌==◌, ltb, if◌then◌else◌, any, length, Result, ok, err, ◌>>=◌,
}
use centient.Stellar.Units.{Text, units_to_usdc_string, is_payable_amount}

pub record DecoratedSignature : Type 0 where
  pub hint : ℕ
  pub signature : ℕ

-- `maxTime` of an envelope without time bounds is `none`; it is in seconds.
pub record PaymentTx : Type 0 where
  pub source : ℕ
  pub sequence : ℕ
  pub destination : ℕ
  pub asset : ℕ
  pub amount : Text
  pub fee : ℕ
  pub max_time : Option ℕ

pub record Payment : Type 0 where
  pub tx : PaymentTx
  pub signatures : List DecoratedSignature

pub record FeeBump : Type 0 where
  pub fee_source : ℕ
  pub base_fee : ℕ
  pub inner : Payment
  pub signatures : List DecoratedSignature

-- `verify` is `Keypair.verify` of a key, a hash and a signature; `sign` is what a held key signs.
pub record Sdk : Type 0 where
  pub verify : ℕ → ℕ → ℕ → Bool
  pub signature_hint : ℕ → ℕ
  pub sign : ℕ → ℕ → ℕ
  pub is_public_key : ℕ → Bool
  pub payment_hash : PaymentTx → ℕ
  pub fee_bump_hash : ℕ → ℕ → Payment → ℕ
  pub network_base_fee : ℕ

-- `FeeBumpTransaction.hash()`, which does not depend on the signatures of the fee bump.
abbrev pub bump_hash : Sdk → FeeBump → ℕ
bump_hash sdk bump = sdk.fee_bump_hash bump.fee_source bump.base_fee bump.inner

pub data EnvelopeError : Type 0 where
  bad_destination bad_amount bad_fee bad_timeout wrong_co_signer bad_co_signature : EnvelopeError
  too_few_signers missing_signer bad_fee_source too_few_signatures bad_signer_key : EnvelopeError
  no_operation account_unavailable co_signer_refused : EnvelopeError

abbrev pub Checked {ℓ} : Type ℓ → Type ℓ
Checked A = Result EnvelopeError A

abbrev pub ensure : Bool → EnvelopeError → Checked (Unit {0})
ensure true e = ok tt
ensure false e = err e

-- `assertPayoutAmountUnits`
abbrev pub assert_payout_amount_units : ℕ → Checked (Unit {0})
assert_payout_amount_units units = ensure (is_payable_amount units) bad_amount

-- `assertPayoutDestination`
abbrev pub assert_payout_destination : Sdk → ℕ → Checked (Unit {0})
assert_payout_destination sdk destination = ensure (sdk.is_public_key destination) bad_destination

-- `buildUsdcPaymentTx`; the SDK takes the next sequence number, and `setTimeout` counts from
-- `built_at`, the wall clock in seconds.
unfoldable pub build_usdc_payment_tx : Sdk → ℕ → ℕ → ℕ → ℕ → ℕ → ℕ → ℕ → ℕ → Checked PaymentTx
build_usdc_payment_tx sdk source sequence destination asset amount fee timeout built_at = do
  _ ← ensure (sdk.is_public_key destination) bad_destination
  _ ← ensure (ltb 0 amount) bad_amount
  _ ← ensure (ltb 0 fee) bad_fee
  _ ← ensure (ltb 0 timeout) bad_timeout
  ok (record {
    source = source;
    sequence = sequence + 1;
    destination = destination;
    asset = asset;
    amount = units_to_usdc_string amount;
    fee = fee;
    max_time = some (built_at + timeout);
  })

abbrev pub default_timeout_seconds : ℕ
default_timeout_seconds = 180

abbrev pub timeout_or_default : Option ℕ → ℕ
timeout_or_default none = default_timeout_seconds
timeout_or_default (some t) = t

-- `buildPayoutPayment`
unfoldable pub build_payout_payment : Sdk → ℕ → ℕ → ℕ → ℕ → ℕ → ℕ → Option ℕ → ℕ → Checked PaymentTx
unfolding build_usdc_payment_tx
build_payout_payment sdk source sequence destination asset amount fee timeout built_at = do
  _ ← assert_payout_destination sdk destination
  _ ← assert_payout_amount_units amount
  build_usdc_payment_tx sdk source sequence destination asset amount fee
      (timeout_or_default timeout) built_at

-- A signature as the envelope carries it.
abbrev pub decorate : Sdk → ℕ → ℕ → DecoratedSignature
decorate sdk key signature = record { hint = sdk.signature_hint key; signature = signature }

-- `signAsPlatform`
abbrev pub sign_as_platform : Sdk → ℕ → ℕ → List DecoratedSignature → List DecoratedSignature
sign_as_platform sdk platform hash signatures =
    signatures ++ (decorate sdk platform (sdk.sign platform hash) ∷ [])

pub record PayoutCoSignature : Type 0 where
  pub public_key : ℕ
  pub signature : ℕ

-- `applyCoSignature`, on the envelope of that hash.
unfoldable pub apply_co_signature :
    Sdk → ℕ → PayoutCoSignature → ℕ → List DecoratedSignature → Checked (List DecoratedSignature)
apply_co_signature sdk hash co expected signatures = do
  _ ← ensure (co.public_key == expected) wrong_co_signer
  _ ← ensure (sdk.verify expected hash co.signature) bad_co_signature
  ok (signatures ++ (decorate sdk co.public_key co.signature ∷ []))

abbrev pub has_valid_signature : Sdk → ℕ → List DecoratedSignature → ℕ → Bool
has_valid_signature sdk hash signatures key =
    any (λ s. s.hint == sdk.signature_hint key && sdk.verify key hash s.signature) signatures

-- `new Set(keys).size === keys.length`
abbrev pub all_distinct : List ℕ → Bool
all_distinct [] = true
all_distinct (k ∷ keys) = not (any (λ j. j == k) keys) && all_distinct keys

-- The loop over the required signers.
pub every_signed : Sdk → ℕ → List DecoratedSignature → List ℕ → Checked (Unit {0})
every_signed sdk hash signatures [] = ok tt
every_signed sdk hash signatures (key ∷ keys) =
    ensure (has_valid_signature sdk hash signatures key) missing_signer >>= λ _.
    every_signed sdk hash signatures keys

-- `assertPayoutFullySigned`
unfoldable pub assert_payout_fully_signed :
    Sdk → ℕ → List DecoratedSignature → List ℕ → Checked (Unit {0})
unfolding every_signed
assert_payout_fully_signed sdk hash signatures required = do
  _ ← ensure (not (ltb (length required) 2 || not (all_distinct required))) too_few_signers
  every_signed sdk hash signatures required

-- `minimumFeeBumpBaseFee` of an inner transaction with so many operations and this fee.
unfoldable pub minimum_fee_bump_base_fee : Sdk → ℕ → ℕ → ℕ → Checked ℕ
minimum_fee_bump_base_fee sdk operations inner_fee requested = do
  _ ← ensure (ltb 0 operations) no_operation
  _ ← ensure (ltb 0 inner_fee) bad_fee
  _ ← ensure (ltb 0 requested) bad_fee
  ok (max (max sdk.network_base_fee ((inner_fee + operations - 1) / operations)) requested)

-- The loop over the required signers of the inner transaction, which also checks each key.
pub every_inner_signed : Sdk → ℕ → List DecoratedSignature → List ℕ → Checked (Unit {0})
every_inner_signed sdk hash signatures [] = ok tt
every_inner_signed sdk hash signatures (key ∷ keys) =
    ensure (sdk.is_public_key key) bad_signer_key
    >>= (λ _. ensure (has_valid_signature sdk hash signatures key) missing_signer)
    >>= (λ _. every_inner_signed sdk hash signatures keys)

-- `buildMultisigFeeBump` of a payment, which has one operation.
unfoldable pub build_multisig_fee_bump : Sdk → ℕ → ℕ → Payment → List ℕ → Checked FeeBump
unfolding every_inner_signed minimum_fee_bump_base_fee
build_multisig_fee_bump sdk fee_source base_fee inner required = do
  _ ← ensure (sdk.is_public_key fee_source) bad_fee_source
  _ ← ensure (not (ltb (length inner.signatures) 2)) too_few_signatures
  _ ← ensure (not (ltb (length required) 2 || not (all_distinct required))) too_few_signers
  _ ← every_inner_signed sdk (sdk.payment_hash inner.tx) inner.signatures required
  fee ← minimum_fee_bump_base_fee sdk 1 inner.tx.fee base_fee
  ok (record { fee_source = fee_source; base_fee = fee; inner = inner; signatures = [] })

-- ===== src/Stellar/CoSigner/Request.antt =====
-- lib/stellar/cosigner-verify.ts, lib/stellar/cosigner-isolation.ts and `parseRequest` of
-- lib/stellar/cosigner-service.ts. The fields of the body are those that `JSON.parse` of the
-- platform returns; an envelope is what the Stellar SDK decodes.
pub mod Laws
use centient.Common.{
  ℕ, ◌+◌, ◌-◌, ◌*◌, Bool, true, false, Option, none, some, List, [], ◌∷◌, ◌==◌, ◌&&◌, ◌||◌, leb,
  if◌then◌else◌, opt_eq, Result, ok, err, ◌>>=◌,
}
use centient.Stellar.Units.{Text, trim, is_digit, value_from, payout_amount_string}
use centient.Stellar.Verify.{
  DecodedTx, fee_bump, plain, InnerTx, PaymentOp, inner_of, only_payment, opt_text_eq,
}
use centient.Stellar.Ledger.{Kind, PayoutReference, submission, payout_job}

pub data Stage : Type 0 where
  payment_stage fee_bump_stage : Stage

-- An amount as `BigInt` reads it.
pub data BigIntValue : Type 0 where
  natural below_zero : ℕ → BigIntValue

-- A word of the body: one of those that the code knows, or another.
pub data StageWord : Type 0 where
  stage_word : Stage → StageWord
  other_stage : StageWord

pub data KindWord : Type 0 where
  kind_word : Kind → KindWord
  other_kind : KindWord

pub record WireReference : Type 0 where
  pub kind : KindWord
  pub id : Option ℕ

-- A field that is missing, of the wrong type or empty is `none`; `amountUnits` is `none` when it is
-- no text.
pub record WireBody : Type 0 where
  pub stage : StageWord
  pub xdr : Option ℕ
  pub destination : Option ℕ
  pub amount_units : Option Text
  pub reference : Option WireReference

-- `PayoutCoSignRequest` as it was received.
pub record SigningRequest : Type 0 where
  pub stage : Stage
  pub xdr : ℕ
  pub destination : ℕ
  pub amount_units : BigIntValue
  pub reference : PayoutReference

pub data RequestError : Type 0 where
  unknown_stage no_envelope no_destination amount_not_text no_reference amount_not_integer :
      RequestError

abbrev pub all_digits : Text → Bool
all_digits [] = true
all_digits (c ∷ cs) = is_digit c && all_digits cs

-- The digits of a literal in that radix, below sixteen.
abbrev pub digit_value : ℕ → ℕ
digit_value c =
    if is_digit c
    then c - b'0'
    else (if leb b'a' c && leb c b'f'
        then c - b'a' + 10
        else (if leb b'A' c && leb c b'F' then c - b'A' + 10 else 16))

pub radix_value : ℕ → ℕ → Text → Option ℕ
radix_value radix acc [] = some acc
radix_value radix acc (c ∷ cs) =
    let rest = radix_value radix (acc * radix + digit_value c) cs in
    if leb radix (digit_value c) then none else rest

abbrev pub natural_of : Option ℕ → Option BigIntValue
natural_of none = none
natural_of (some n) = some (natural n)

abbrev pub below_zero_of : ℕ → BigIntValue
below_zero_of n = if n == 0 then natural 0 else below_zero n

-- A literal with a prefix needs a digit.
abbrev pub prefixed : ℕ → Text → Option BigIntValue
prefixed radix [] = none
prefixed radix (c ∷ cs) = natural_of (radix_value radix 0 (c ∷ cs))

abbrev pub after_zero : ℕ → Text → Option BigIntValue
after_zero c cs =
    if c == b'x' || c == b'X'
    then prefixed 16 cs
    else (if c == b'o' || c == b'O'
        then prefixed 8 cs
        else (if c == b'b' || c == b'B'
            then prefixed 2 cs
            else (if all_digits (c ∷ cs) then some (natural (value_from 0 (c ∷ cs))) else none)))

abbrev pub signed_digits : Bool → Text → Option BigIntValue
signed_digits minus [] = none
signed_digits minus (c ∷ cs) =
    if all_digits (c ∷ cs)
    then some
        (if minus then below_zero_of (value_from 0 (c ∷ cs)) else natural (value_from 0 (c ∷ cs)))
    else none

abbrev pub trimmed_big_int : Text → Option BigIntValue
trimmed_big_int [] = some (natural 0)
trimmed_big_int (c ∷ []) = if is_digit c then some (natural (c - b'0')) else none
trimmed_big_int (c ∷ d ∷ cs) =
    if c == b'-'
    then signed_digits true (d ∷ cs)
    else (if c == b'+'
        then signed_digits false (d ∷ cs)
        else (if c == b'0' then after_zero d cs else signed_digits false (c ∷ d ∷ cs)))

-- `BigInt(text)` of the language, `none` when it throws: an empty text is zero.
unfoldable pub big_int : Text → Option BigIntValue
unfolding trim value_from radix_value
big_int text = trimmed_big_int (trim text)

abbrev pub present {ℓ} : {A : Type ℓ} → Option A → RequestError → Result RequestError A
present none e = err e
present (some a) e = ok a

abbrev pub known_stage : StageWord → Result RequestError Stage
known_stage (stage_word s) = ok s
known_stage other_stage = err unknown_stage

abbrev pub usable_kind : KindWord → Option ℕ → Result RequestError PayoutReference
usable_kind (kind_word k) (some id) = ok (record { kind = k; id = id })
usable_kind _ _ = err no_reference

abbrev pub usable_reference : Option WireReference → Result RequestError PayoutReference
usable_reference none = err no_reference
usable_reference (some r) = usable_kind r.kind r.id

-- `parseRequest`, after `JSON.parse`.
unfoldable pub parse_request : WireBody → Result RequestError SigningRequest
unfolding big_int
parse_request body = do
  stage ← known_stage body.stage
  xdr ← present body.xdr no_envelope
  destination ← present body.destination no_destination
  text ← present body.amount_units amount_not_text
  reference ← usable_reference body.reference
  amount ← present (big_int text) amount_not_integer
  ok (record {
    stage = stage;
    xdr = xdr;
    destination = destination;
    amount_units = amount;
    reference = reference;
  })

pub data EnvelopeMismatch : Type 0 where
  does_not_decode not_one_payment wrong_asset wrong_destination wrong_amount unpayable_amount :
      EnvelopeMismatch

abbrev pub agrees : Bool → EnvelopeMismatch → Result EnvelopeMismatch (Unit {0})
agrees true e = ok tt
agrees false e = err e

abbrev pub decoded {ℓ} : {A : Type ℓ} → Option A → EnvelopeMismatch → Result EnvelopeMismatch A
decoded none e = err e
decoded (some a) e = ok a

-- The amount's text; one below zero is not payable.
abbrev pub expected_amount : BigIntValue → Option Text
expected_amount (natural units) = payout_amount_string units
expected_amount (below_zero units) = none

-- `innerPayment`
abbrev pub inner_payment : DecodedTx → Result EnvelopeMismatch PaymentOp
inner_payment tx = decoded (only_payment (inner_of tx).operations) not_one_payment

-- `assertEnvelopeMatchesRequest`, of what `TransactionBuilder.fromXDR` returned for the request's
-- envelope.
unfoldable pub assert_envelope_matches_request :
    SigningRequest → Option DecodedTx → ℕ → Result EnvelopeMismatch DecodedTx
unfolding payout_amount_string
assert_envelope_matches_request request from_xdr asset = do
  tx ← decoded from_xdr does_not_decode
  payment ← inner_payment tx
  _ ← agrees (opt_eq payment.asset (some asset)) wrong_asset
  _ ← agrees (opt_eq payment.destination (some request.destination)) wrong_destination
  amount ← decoded (expected_amount request.amount_units) unpayable_amount
  _ ← agrees (opt_text_eq payment.amount amount) wrong_amount
  ok tx

-- `COSIGNER_ISOLATION_LEVEL` and the network.
pub data IsolationSetting : Type 0 where
  unset unknown_level same_workspace separate_account : IsolationSetting

pub data Network : Type 0 where
  public_network testnet invalid_network : Network

-- `assertIsolationPermitted`: whether it returns. `stellarNetwork` is read only for a shared
-- workspace, and throws for an invalid setting.
abbrev pub permits_network : Network → Bool
permits_network testnet = true
permits_network _ = false

abbrev pub is_isolation_permitted : IsolationSetting → Network → Bool
is_isolation_permitted unset network = false
is_isolation_permitted unknown_level network = false
is_isolation_permitted separate_account network = true
is_isolation_permitted same_workspace network = permits_network network

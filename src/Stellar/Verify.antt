-- ===== src/Stellar/Verify.antt =====
-- lib/stellar/payout-verify.ts: what a settled envelope paid, held to what the submission owed. The
-- decoder is the Stellar SDK's (`TransactionBuilder.fromXDR`): it enters as its result, `none` when
-- it throws. Accounts and assets are only compared.
pub mod Laws
use centient.Common.{
  ℕ, Bool, true, false, Option, none, some, List, [], ◌∷◌, ◌++◌, ◌==◌, not, if◌then◌else◌, opt_eq,
}
use centient.Stellar.Units.{Text, payout_amount_string}

pub data OpType : Type 0 where
  payment other_op : OpType

pub record PaymentOp : Type 0 where
  pub op_type : OpType
  pub source : Option ℕ
  pub destination : Option ℕ
  pub amount : Option Text
  pub asset : Option ℕ

pub record InnerTx : Type 0 where
  pub source : ℕ
  pub operations : List PaymentOp

pub data DecodedTx : Type 0 where
  fee_bump : ℕ → InnerTx → DecodedTx
  plain : InnerTx → DecodedTx

pub record ExpectedPayout : Type 0 where
  pub payout_account : ℕ
  pub destination : ℕ
  pub amount_units : ℕ
  pub asset : ℕ

pub data Mismatch : Type 0 where
  does_not_decode fee_source not_a_fee_bump transaction_source not_one_payment : Mismatch
  payment_source wrong_destination wrong_asset wrong_amount : Mismatch

pub data PayoutVerification : Type 0 where
  verified : PayoutVerification
  mismatched : List Mismatch → PayoutVerification

-- A mismatch unless the test holds.
abbrev pub unless : Bool → Mismatch → List Mismatch
unless b m = if b then [] else m ∷ []

unfoldable pub text_eq : Text → Text → Bool
text_eq [] [] = true
text_eq (a ∷ rest_a) (b ∷ rest_b) =
    let same = text_eq rest_a rest_b in if a == b then same else false
text_eq _ _ = false

abbrev pub opt_text_eq : Option Text → Text → Bool
opt_text_eq none t = false
opt_text_eq (some s) t = text_eq s t

-- `source !== undefined && source !== account`, negated.
abbrev pub absent_or : Option ℕ → ℕ → Bool
absent_or none account = true
absent_or (some s) account = s == account

abbrev pub inner_of : DecodedTx → InnerTx
inner_of (fee_bump payer inner) = inner
inner_of (plain inner) = inner

abbrev pub fee_mismatch : DecodedTx → ExpectedPayout → List Mismatch
fee_mismatch (fee_bump payer inner) e = unless (payer == e.payout_account) fee_source
fee_mismatch (plain inner) e = not_a_fee_bump ∷ []

-- The one operation, if there is exactly one and it is a payment.
abbrev pub only_payment : List PaymentOp → Option PaymentOp
only_payment [] = none
only_payment (op ∷ []) = elim op.op_type [ payment ↦ some op | other_op ↦ none ]
only_payment (op ∷ _ ∷ _) = none

abbrev pub payment_mismatches : PaymentOp → ExpectedPayout → Text → List Mismatch
payment_mismatches op e amount =
    unless (absent_or op.source e.payout_account) payment_source
    ++ (unless (opt_eq op.destination (some e.destination)) wrong_destination
        ++ (unless (opt_eq op.asset (some e.asset)) wrong_asset
            ++ unless (opt_text_eq op.amount amount) wrong_amount))

abbrev pub verdict : List Mismatch → PayoutVerification
verdict [] = verified
verdict (m ∷ ms) = mismatched (m ∷ ms)

-- The envelope's own mismatches, before the payment's.
abbrev pub envelope_mismatches : DecodedTx → ExpectedPayout → List Mismatch
envelope_mismatches tx e =
    fee_mismatch tx e ++ unless ((inner_of tx).source == e.payout_account) transaction_source

-- The amount that is printed for the comparison throws for one that is not payable.
abbrev pub verify_payment :
    List Mismatch → PaymentOp → ExpectedPayout → Option Text → Option PayoutVerification
verify_payment ms op e none = none
verify_payment ms op e (some amount) = some (verdict (ms ++ payment_mismatches op e amount))

abbrev pub verify_operation :
    List Mismatch → Option PaymentOp → ExpectedPayout → Option PayoutVerification
verify_operation ms none e = some (mismatched (ms ++ (not_one_payment ∷ [])))
verify_operation ms (some op) e = verify_payment ms op e (payout_amount_string e.amount_units)

-- `verifySettledPayout`; `none` when it throws.
unfoldable pub verify_settled_payout : Option DecodedTx → ExpectedPayout → Option PayoutVerification
unfolding text_eq
verify_settled_payout none e = some (mismatched (does_not_decode ∷ []))
verify_settled_payout (some tx) e =
    verify_operation (envelope_mismatches tx e) (only_payment (inner_of tx).operations) e

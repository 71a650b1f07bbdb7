-- ===== src/Stellar/Verify/Laws.antt =====
-- On `verifySettledPayout` of lib/stellar/payout-verify.ts.
use centient.Common.{
  ℕ, ◌≡◌, ◌⊎◌, ◌↔◌, inl, inr, refl, ap, subst, true, Option, none, some, List, [], ◌∷◌, arith,
  opt_eq_iff, Option-cases,
}
use centient.Stellar.Units.{Text, payout_amount_string}
use centient.Stellar.Verify.{
  payment, PaymentOp, InnerTx, DecodedTx, fee_bump, plain, ExpectedPayout, verified, text_eq,
  opt_text_eq, inner_of, only_payment, payment_mismatches, envelope_mismatches,
  verify_settled_payout, verify_operation, verify_payment,
}

text_eq_iff : (s t : Text) → (text_eq s t ≡ true) ↔ (s ≡ t)
unfolding text_eq
text_eq_iff [] [] = ground arith
text_eq_iff [] (b ∷ rest_b) = ground arith
text_eq_iff (a ∷ rest_a) [] = ground arith
text_eq_iff (a ∷ rest_a) (b ∷ rest_b) = ground (arith, text_eq_iff rest_a rest_b)

pub opt_text_eq_iff : (o : Option Text) (t : Text) → (opt_text_eq o t ≡ true) ↔ (o ≡ some t)
unfolding text_eq
opt_text_eq_iff none t = ground arith
opt_text_eq_iff (some s) t = ground (arith, text_eq_iff s t)

-- The envelope that settles a payout: a fee bump paid by the payout account around a transaction of
-- that account, which carries one operation, the payment of the amount in the asset to the wallet.
pub record IsPayout (tx : DecodedTx) (e : ExpectedPayout) : Type 0 where
  pub inner : InnerTx
  pub op : PaymentOp
  pub amount : Text
  pub bumped : tx ≡ fee_bump e.payout_account inner
  pub account : inner.source ≡ e.payout_account
  pub only : inner.operations ≡ op ∷ []
  pub pays : op.op_type ≡ payment
  pub source : (op.source ≡ none) ⊎ (op.source ≡ some e.payout_account)
  pub destination : op.destination ≡ some e.destination
  pub asset : op.asset ≡ some e.asset
  pub printed : payout_amount_string e.amount_units ≡ some amount
  pub paid : op.amount ≡ some amount

pub only_payment-inv :
    (ops : List PaymentOp) (op : PaymentOp)
    → only_payment ops ≡ some op
    → (ops ≡ op ∷ []) × (op.op_type ≡ payment)
only_payment-inv [] op h = absurd (ground arith)
only_payment-inv (o ∷ []) op h = ground arith
only_payment-inv (o ∷ (p ∷ ps)) op h = absurd (ground arith)

verify_payment-IsPayout :
    (tx : DecodedTx) (op : PaymentOp) (e : ExpectedPayout) (amount : Text)
    → only_payment (inner_of tx).operations ≡ some op
    → payout_amount_string e.amount_units ≡ some amount
    → verify_payment (envelope_mismatches tx e) op e (some amount) ≡ some verified
    → IsPayout tx e
verify_payment-IsPayout (plain inner) op e amount only printed h = absurd (ground arith)
verify_payment-IsPayout (fee_bump payer inner) op e amount only printed h =
    let (one, pays) = only_payment-inv inner.operations op only in
    record {
      inner = inner;
      op = op;
      amount = amount;
      bumped = ap (λ (p : ℕ). fee_bump p inner) (ground arith);
      account = ground arith;
      only = one;
      pays = pays;
      source = ground arith;
      destination = ground (arith, opt_eq_iff op.destination (some e.destination));
      asset = ground (arith, opt_eq_iff op.asset (some e.asset));
      printed = printed;
      paid = ground (arith, opt_text_eq_iff op.amount amount);
    }

unpayable_lem :
    (tx : DecodedTx) (op : PaymentOp) (e : ExpectedPayout)
    → verify_payment (envelope_mismatches tx e) op e none ≡ some verified
    → ⊥
unpayable_lem tx op e h = ground arith

verify_operation-IsPayout :
    (tx : DecodedTx) (only : Option PaymentOp) (e : ExpectedPayout)
    → only_payment (inner_of tx).operations ≡ only
    → verify_operation (envelope_mismatches tx e) only e ≡ some verified
    → IsPayout tx e
verify_operation-IsPayout tx none e o h = absurd (ground arith)
verify_operation-IsPayout tx (some op) e o h =
    elim (Option-cases (payout_amount_string e.amount_units)) [
      | inl unpayable ↦ absurd (
          unpayable_lem tx op e (
            subst
              (λ (a : Option Text).
                verify_payment (envelope_mismatches tx e) op e a ≡ some verified)
              unpayable h))
      | inr (amount, printed) ↦ verify_payment-IsPayout tx op e amount o printed (
          subst
            (λ (a : Option Text). verify_payment (envelope_mismatches tx e) op e a ≡ some verified)
            printed h)
    ]

only_payment-one :
    (ops : List PaymentOp) (op : PaymentOp)
    → ops ≡ op ∷ []
    → op.op_type ≡ payment
    → only_payment ops ≡ some op
only_payment-one [] op one pays = ground arith
only_payment-one (o ∷ []) op one pays = ground arith
only_payment-one (o ∷ (p ∷ ps)) op one pays = ground arith

payment_verified :
    (op : PaymentOp) (e : ExpectedPayout) (amount : Text)
    → (op.source ≡ none) ⊎ (op.source ≡ some e.payout_account)
    → op.destination ≡ some e.destination
    → op.asset ≡ some e.asset
    → op.amount ≡ some amount
    → payment_mismatches op e amount ≡ []
payment_verified op e amount s d a t = ground (
  arith,
  opt_eq_iff op.destination (some e.destination),
  opt_eq_iff op.asset (some e.asset),
  opt_text_eq_iff op.amount amount,
)

envelope_verified :
    (inner : InnerTx) (e : ExpectedPayout)
    → inner.source ≡ e.payout_account
    → envelope_mismatches (fee_bump e.payout_account inner) e ≡ []
envelope_verified inner e s = ground arith

IsPayout-verified :
    (tx : DecodedTx) (e : ExpectedPayout)
    → IsPayout tx e
    → verify_settled_payout (some tx) e ≡ some verified
unfolding verify_settled_payout
IsPayout-verified tx e p = rw p.bumped (
    rw (only_payment-one p.inner.operations p.op p.only p.pays) (
      rw
        (
          envelope_verified p.inner e p.account,
          p.printed,
          payment_verified p.op e p.amount p.source p.destination p.asset p.paid,
        )
        refl))

-- A settled envelope is verified exactly if it is the payout that was owed: every check is needed,
-- and no other is made.
pub verify_settled_payout_iff :
    (tx : DecodedTx) (e : ExpectedPayout)
    → (verify_settled_payout (some tx) e ≡ some verified) ↔ IsPayout tx e
unfolding verify_settled_payout
verify_settled_payout_iff tx e = (
  verify_operation-IsPayout tx (only_payment (inner_of tx).operations) e refl,
  IsPayout-verified tx e,
)

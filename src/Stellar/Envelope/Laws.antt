-- ===== src/Stellar/Envelope/Laws.antt =====
-- On the signatures of lib/stellar/payout-envelope.ts.
use centient.Common.{
  ℕ, ◌≤◌, ◌≡◌, ◌⊎◌, inl, inr, true, List, [], ◌∷◌, ok, length, All, arith, Bool-cases,
}
use centient.Stellar.Envelope.{
  Sdk, DecoratedSignature, has_valid_signature, every_signed, assert_payout_fully_signed,
  all_distinct,
}

-- One of the signatures on an envelope of that hash is the key's.
abbrev pub SignedBy : Sdk → ℕ → List DecoratedSignature → ℕ → Type 0
SignedBy sdk hash [] key = ⊥
SignedBy sdk hash (d ∷ ds) key = (sdk.verify key hash d.signature ≡ true) ⊎ SignedBy sdk hash ds key

has_valid_signature-SignedBy :
    (sdk : Sdk) (hash : ℕ) (signatures : List DecoratedSignature) (key : ℕ)
    → has_valid_signature sdk hash signatures key ≡ true
    → SignedBy sdk hash signatures key
has_valid_signature-SignedBy sdk hash [] key h = absurd (ground arith)
has_valid_signature-SignedBy sdk hash (d ∷ ds) key h =
    elim (Bool-cases (sdk.verify key hash d.signature)) [
      | inl own ↦ inl own
      | inr other ↦ inr (has_valid_signature-SignedBy sdk hash ds key (ground arith))
    ]

every_signed-All :
    (sdk : Sdk) (hash : ℕ) (signatures : List DecoratedSignature) (keys : List ℕ)
    → every_signed sdk hash signatures keys ≡ ok tt
    → All (SignedBy sdk hash signatures) keys
unfolding every_signed
every_signed-All sdk hash signatures [] h = tt
every_signed-All sdk hash signatures (key ∷ keys) h =
    elim (Bool-cases (has_valid_signature sdk hash signatures key)) [
      | inl found ↦ (
        has_valid_signature-SignedBy sdk hash signatures key found,
        every_signed-All sdk hash signatures keys (ground arith),
      )
      | inr missing ↦ absurd (ground arith)
    ]

-- The assertion passes only for two required keys or more, all of which have signed.
pub assert_payout_fully_signed-All :
    (sdk : Sdk) (hash : ℕ) (signatures : List DecoratedSignature) (required : List ℕ)
    → assert_payout_fully_signed sdk hash signatures required ≡ ok tt
    → (2 ≤ length required)
      × (all_distinct required ≡ true)
      × All (SignedBy sdk hash signatures) required
unfolding assert_payout_fully_signed
assert_payout_fully_signed-All sdk hash signatures required h =
    (ground arith, ground arith, every_signed-All sdk hash signatures required (ground arith))

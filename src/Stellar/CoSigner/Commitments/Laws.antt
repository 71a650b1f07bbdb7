-- ===== src/Stellar/CoSigner/Commitments/Laws.antt =====
-- On `SignedCommitments` of lib/stellar/cosigner-service.ts.
use centient.Common.{
  ℕ, ◌+◌, ◌≤◌, ◌≡◌, refl, ap, ◌==◌, ◌&&◌, true, false, List, [], ◌∷◌, ◌++◌, arith, Bool-cases, inl,
  inr, if◌then◌else◌,
}
use centient.Stellar.Ledger.{PayoutReference, Kind, submission, payout_job, kind_eq}
use centient.Stellar.CoSigner.Commitments.{
  Commitment, key_eq, expire, outstanding, is_committed, record_commitment,
}

-- All that is committed.
abbrev pub total : List Commitment → ℕ
total [] = 0
total (c ∷ entries) = c.units + total entries

pub total-expire-le :
    (now : ℕ) (entries : List Commitment) → total (expire now entries) ≤ total entries
unfolding expire
total-expire-le now [] = omega arith
total-expire-le now (c ∷ entries) = ground (arith, total-expire-le now entries)

pub outstanding-expire-le :
    (now : ℕ) (key : PayoutReference) (entries : List Commitment)
    → outstanding key (expire now entries) ≤ outstanding key entries
unfolding outstanding expire
outstanding-expire-le now key [] = omega arith
outstanding-expire-le now key (c ∷ entries) = ground (arith, outstanding-expire-le now key entries)

-- What is not committed yet is excluded from nothing.
pub outstanding-eq-total :
    (key : PayoutReference) (entries : List Commitment)
    → is_committed key entries ≡ false
    → outstanding key entries ≡ total entries
unfolding outstanding
outstanding-eq-total key [] h = refl
outstanding-eq-total key (c ∷ entries) h = ground (arith, outstanding-eq-total key entries)

pub total-push :
    (now : ℕ) (key : PayoutReference) (units : ℕ) (entries : List Commitment)
    → total (entries ++ (record { at = now; key = key; units = units } ∷ []))
      ≡ total entries + units
total-push now key units [] = omega arith
total-push now key units (c ∷ entries) = omega (arith, total-push now key units entries)

key_parts_refl : (kind : Kind) (id : ℕ) → (kind_eq kind kind && id == id) ≡ true
key_parts_refl submission id = ground arith
key_parts_refl payout_job id = ground arith

pub key_eq_refl : (key : PayoutReference) → key_eq key key ≡ true
key_eq_refl key = key_parts_refl key.kind key.id

outstanding-push :
    (now : ℕ) (key : PayoutReference) (units : ℕ) (entries : List Commitment)
    → outstanding key (entries ++ (record { at = now; key = key; units = units } ∷ []))
      ≡ outstanding key entries
unfolding outstanding
outstanding-push now key units [] = rw (key_eq_refl key) refl
outstanding-push now key units (c ∷ entries) =
    ap (λ (n : ℕ). (if key_eq c.key key then 0 else c.units) + n)
      (outstanding-push now key units entries)

-- The commitment of a payout is not charged to it.
pub outstanding-record_commitment-le :
    (now : ℕ) (key : PayoutReference) (units : ℕ) (entries : List Commitment)
    → outstanding key (record_commitment now key units entries) ≤ outstanding key entries
unfolding record_commitment
outstanding-record_commitment-le now key units entries =
    elim (Bool-cases (is_committed key (expire now entries))) [
      | inl committed ↦ rw committed (outstanding-expire-le now key entries)
      | inr unseen ↦ rw unseen (
          omega (
            arith,
            outstanding-push now key units (expire now entries),
            outstanding-expire-le now key entries,
          ))
    ]

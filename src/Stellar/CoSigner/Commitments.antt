-- ===== src/Stellar/CoSigner/Commitments.antt =====
-- `SignedCommitments` of lib/stellar/cosigner-service.ts: what this process has signed and not yet
-- seen broadcast. Entries stand in the order in which they were pushed; a payout's key is its
-- reference.
pub mod Laws
pub mod Flight
use centient.Common.{ℕ, ◌+◌, ◌-◌, Bool, List, [], ◌∷◌, ◌++◌, ◌==◌, ◌&&◌, ltb, if◌then◌else◌, any}
use centient.Stellar.Ledger.{PayoutReference, kind_eq}

pub record Commitment : Type 0 where
  pub at : ℕ
  pub key : PayoutReference
  pub units : ℕ

abbrev pub signed_commitment_ttl_ms : ℕ
signed_commitment_ttl_ms = 180_000

abbrev pub key_eq : PayoutReference → PayoutReference → Bool
key_eq a b = kind_eq a.kind b.kind && a.id == b.id

-- `expire`: the loop stops at the first entry that may still settle.
unfoldable pub expire : ℕ → List Commitment → List Commitment
expire now [] = []
expire now (c ∷ entries) =
    let rest = expire now entries in
    if ltb signed_commitment_ttl_ms (now - c.at) then rest else c ∷ entries

pub total_excluding : PayoutReference → List Commitment → ℕ
total_excluding key [] = 0
total_excluding key (c ∷ entries) =
    (if key_eq c.key key then 0 else c.units) + total_excluding key entries

-- `outstanding`, once the entries are expired.
unfoldable pub outstanding : PayoutReference → List Commitment → ℕ
unfolding total_excluding
outstanding key entries = total_excluding key entries

abbrev pub is_committed : PayoutReference → List Commitment → Bool
is_committed key entries = any (λ c. key_eq c.key key) entries

-- `record`
abbrev pub push_once : ℕ → PayoutReference → ℕ → List Commitment → List Commitment
push_once now key units entries =
    if is_committed key entries
    then entries
    else entries ++ (record { at = now; key = key; units = units } ∷ [])

unfoldable pub record_commitment : ℕ → PayoutReference → ℕ → List Commitment → List Commitment
unfolding expire
record_commitment now key units entries = push_once now key units (expire now entries)

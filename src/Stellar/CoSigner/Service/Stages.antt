-- ===== src/Stellar/CoSigner/Service/Stages.antt =====
-- On the two stages of a payout under `handleCoSignRequest` of lib/stellar/cosigner-service.ts.
use centient.Common.{
  ℕ, ◌+◌, ◌≤◌, ◌≡◌, ◌≢◌, ◌⊎◌, ◌-◌, ◌∷◌, ◌++◌, ltb, false, if◌then◌else◌, refl, ◌∙◌, true, Option,
  none, some, List, [], leb, arith, Bool-cases, inl, inr,
}
use centient.Payout.Db.{Db}
use centient.Stellar.Verify.{DecodedTx}
use centient.Stellar.Ledger.{
  PayoutReference, PayoutCoSignRequest, Refusal, assert_ledger_agrees, read_ledger_payout,
  read_broadcast_volume_since,
}
use centient.Stellar.CoSigner.Commitments.{
  Commitment, signed_commitment_ttl_ms, key_eq, is_committed, push_once, expire, record_commitment,
}
use centient.Stellar.CoSigner.Commitments.Laws.{
  outstanding-expire-le, outstanding-record_commitment-le, key_eq_refl,
}
use centient.Stellar.CoSigner.Service.{
  Deps, CoSignerState, CoSignerResponse, signed, cap_reached, spent_units, start_of_day,
  sign_within_cap, unless_refused, decide,
}

-- The state after a signature.
abbrev after_signing : ℕ → PayoutCoSignRequest → CoSignerState → CoSignerState
after_signing now request state = record state {
  committed =
      record_commitment now request.reference request.amount_units (expire now state.committed);
}

refused_signature : (key signature : ℕ) → cap_reached ≢ signed key signature
refused_signature key signature h = cc

sign_within_cap-signed :
    (deps : Deps) (now : ℕ) (db : Db) (tx : DecodedTx) (request : PayoutCoSignRequest)
    (state : CoSignerState) (key signature : ℕ)
    → (sign_within_cap deps now db tx request state).0 ≡ signed key signature
    → (leb
          (spent_units now request.reference db state.committed + request.amount_units)
          deps.cap_units
        ≡ true)
      × ((sign_within_cap deps now db tx request state).1 ≡ after_signing now request state)
sign_within_cap-signed deps now db tx request state key signature h =
    elim (Bool-cases (
      leb (spent_units now request.reference db state.committed + request.amount_units)
        deps.cap_units)) [
          | inl fits ↦ (fits, rw fits refl)
          | inr full ↦ absurd (refused_signature key signature (rw full at h))
        ]

unless_refused-signed :
    (r : Option Refusal) (state : CoSignerState) (decided : CoSignerResponse × CoSignerState)
    (key signature : ℕ)
    → (unless_refused r state decided).0 ≡ signed key signature
    → (decided.0 ≡ signed key signature) × ((unless_refused r state decided).1 ≡ decided.1)
unless_refused-signed (some refusal) state decided key signature h = cc
unless_refused-signed none state decided key signature h = (h, refl)

fits_later :
    (now later : ℕ) (key : PayoutReference) (db db' : Db) (units cap : ℕ)
    (committed : List Commitment)
    → leb (spent_units now key db committed + units) cap ≡ true
    → read_broadcast_volume_since db' (start_of_day later)
      ≤ read_broadcast_volume_since db (start_of_day now)
    → leb
        (spent_units later key db' (record_commitment now key units (expire now committed)) + units)
        cap
      ≡ true
fits_later now later key db db' units cap committed fits same_day = ground (
  arith,
  outstanding-expire-le later key (record_commitment now key units (expire now committed)),
  outstanding-record_commitment-le now key units (expire now committed),
)

-- What is committed for a payout.
abbrev pub charged : PayoutReference → List Commitment → ℕ
charged key [] = 0
charged key (c ∷ entries) = (if key_eq c.key key then c.units else 0) + charged key entries

expire-uncommitted :
    (now : ℕ) (key : PayoutReference) (entries : List Commitment)
    → is_committed key entries ≡ false
    → is_committed key (expire now entries) ≡ false
unfolding expire
expire-uncommitted now key [] h = h
expire-uncommitted now key (c ∷ entries) h = ground (arith, expire-uncommitted now key entries)

charged-push :
    (key : PayoutReference) (c : Commitment) (entries : List Commitment)
    → is_committed key entries ≡ false
    → c.key ≡ key
    → charged key (entries ++ (c ∷ [])) ≡ c.units
charged-push key c [] h same = rw same (rw (key_eq_refl key) (omega arith))
charged-push key c (d ∷ entries) h same =
    let other : key_eq d.key key ≡ false = ground arith in
    rw other (omega (arith, charged-push key c entries (rw other at h) same))

push-committed :
    (key : PayoutReference) (c : Commitment) (entries : List Commitment)
    → c.key ≡ key
    → is_committed key (entries ++ (c ∷ [])) ≡ true
push-committed key c [] same = rw same (rw (key_eq_refl key) refl)
push-committed key c (d ∷ entries) same = ground (arith, push-committed key c entries same)

-- The payout's one entry stands last, or there is none.
abbrev HasOne : PayoutReference → Commitment → List Commitment → Type 0
HasOne key c entries =
    (entries ≡ [])
    ⊎ ((before : List Commitment) × (is_committed key before ≡ false)
        × (entries ≡ before ++ (c ∷ [])))

push-HasOne :
    (now : ℕ) (key : PayoutReference) (c : Commitment) (before : List Commitment)
    → is_committed key before ≡ false
    → HasOne key c (expire now (before ++ (c ∷ [])))
unfolding expire
push-HasOne now key c [] h = elim (Bool-cases (ltb signed_commitment_ttl_ms (now - c.at))) [
  | inl old ↦ rw old (inl refl)
  | inr held ↦ rw held (inr ([], refl, refl))
]
push-HasOne now key c (d ∷ before) h =
    elim (Bool-cases (ltb signed_commitment_ttl_ms (now - d.at))) [
      | inl old ↦ rw old (push-HasOne now key c before (ground arith))
      | inr held ↦ rw held (inr (d ∷ before, h, refl))
    ]

expire-HasOne :
    (now : ℕ) (key : PayoutReference) (c : Commitment) (entries : List Commitment)
    → HasOne key c entries
    → HasOne key c (expire now entries)
unfolding expire
expire-HasOne now key c entries (inl empty) = rw empty (inl refl)
expire-HasOne now key c entries (inr (before, free, same)) =
    rw same (push-HasOne now key c before free)

-- Whether the entry is still there or not, recording the payout leaves it charged once.
push_once-charged :
    (now : ℕ) (key : PayoutReference) (units : ℕ) (c : Commitment) (entries : List Commitment)
    → c.key ≡ key
    → c.units ≡ units
    → HasOne key c entries
    → charged key (push_once now key units entries) ≡ units
push_once-charged now key units c entries mine same (inl empty) =
    rw empty (rw (key_eq_refl key) (omega arith))
push_once-charged now key units c entries mine same (inr (before, free, shape)) =
    rw shape (rw (push-committed key c before mine) (charged-push key c before free mine ∙ same))

record_twice-charged :
    (now later : ℕ) (key : PayoutReference) (units : ℕ) (entries : List Commitment)
    → is_committed key entries ≡ false
    → charged key (
        record_commitment later key units
          (expire later (record_commitment now key units (expire now entries))))
      ≡ units
unfolding record_commitment
record_twice-charged now later key units entries free =
    let left = expire now (expire now entries) in
    let still =
      expire-uncommitted now key (expire now entries) (expire-uncommitted now key entries free) in
    let c : Commitment = record { at = now; key = key; units = units } in
    rw still (
      push_once-charged later key units c _ refl refl
        (expire-HasOne later key c _ (push-HasOne later key c left still)))

-- Once a payout that was not committed is signed, its second envelope is signed too, however late, if
-- the ledger still agrees and the broadcasts of the day have not grown; and after both, what is
-- committed for the payout is its amount, once.
pub decide_second_stage :
    (deps : Deps) (now later : ℕ) (db db' : Db) (tx tx' : DecodedTx) (request : PayoutCoSignRequest)
    (state : CoSignerState) (key signature : ℕ)
    → is_committed request.reference state.committed ≡ false
    → (decide deps now db tx request state).0 ≡ signed key signature
    → assert_ledger_agrees (read_ledger_payout db' request.reference) request ≡ none
    → read_broadcast_volume_since db' (start_of_day later)
      ≤ read_broadcast_volume_since db (start_of_day now)
    → ((decide deps later db' tx' request (decide deps now db tx request state).1).0
        ≡ signed deps.policy_public_key (deps.sign (deps.tx_hash tx')))
      × (charged request.reference
            (decide deps later db' tx' request (decide deps now db tx request state).1).1.committed
          ≡ request.amount_units)
decide_second_stage deps now later db db' tx tx' request state key signature free h agrees
      same_day =
    let (given, same) =
      unless_refused-signed (assert_ledger_agrees (read_ledger_payout db request.reference) request)
        state (sign_within_cap deps now db tx request state) key signature h in
    let (fits, after) = sign_within_cap-signed deps now db tx request state key signature given in
    rw
      (
        same ∙ after,
        agrees,
        fits_later now later request.reference db db' request.amount_units deps.cap_units
            state.committed fits same_day,
      )
      (
        refl,
        record_twice-charged now later request.reference request.amount_units state.committed free,
      )

-- ===== src/Stellar/CoSigner/Commitments/Flight.antt =====
-- What of a log of signatures may still settle, against the entries that `SignedCommitments` of
-- lib/stellar/cosigner-service.ts keeps.
use centient.Common.{
  ℕ, ◌+◌, ◌-◌, ◌≤◌, ◌≡◌, refl, Bool, true, false, List, [], ◌∷◌, ◌++◌, ◌&&◌, ◌||◌, ◌∙◌, not, ltb,
  leb, arith, Bool-cases, inl, inr, if◌then◌else◌,
}
use centient.Stellar.Ledger.{PayoutReference}
use centient.Stellar.CoSigner.Commitments.{
  Commitment, signed_commitment_ttl_ms, key_eq, expire, is_committed, record_commitment,
  outstanding,
}
use centient.Stellar.CoSigner.Commitments.Laws.{
  total, total-push, total-expire-le, outstanding-eq-total,
}

-- Whether the log has a signature of the payout that counts and was given within the lifetime of an
-- envelope before `at`. A signature counts unless one that counts, of the same payout, was given
-- within that lifetime before it. The log has the last signature first.
abbrev pub is_counted : PayoutReference → ℕ → List Commitment → Bool
is_counted key at [] = false
is_counted key at (s ∷ log) =
    (key_eq s.key key
      && (leb at (s.at + signed_commitment_ttl_ms) && not (is_counted s.key s.at log)))
    || is_counted key at log

-- The amounts of the signatures that count and were given within the lifetime of an envelope before
-- `now`.
abbrev pub in_flight : ℕ → List Commitment → ℕ
in_flight now [] = 0
in_flight now (s ∷ log) =
    (if leb now (s.at + signed_commitment_ttl_ms) && not (is_counted s.key s.at log)
      then s.units
      else 0)
    + in_flight now log

-- What the entries that are young at `now` add up to.
abbrev pub young : ℕ → List Commitment → ℕ
young now [] = 0
young now (c ∷ entries) =
    (if leb now (c.at + signed_commitment_ttl_ms) then c.units else 0) + young now entries

pub young-le-total : (now : ℕ) (entries : List Commitment) → young now entries ≤ total entries
young-le-total now [] = omega arith
young-le-total now (c ∷ entries) = ground (arith, young-le-total now entries)

pub young-expire :
    (at now : ℕ) (entries : List Commitment)
    → at ≤ now
    → young now (expire at entries) ≡ young now entries
unfolding expire
young-expire at now [] later = refl
young-expire at now (c ∷ entries) later = ground (arith, young-expire at now entries later)

young-push :
    (now : ℕ) (c : Commitment) (entries : List Commitment)
    → young now (entries ++ (c ∷ []))
      ≡ young now entries + (if leb now (c.at + signed_commitment_ttl_ms) then c.units else 0)
young-push now c [] = omega arith
young-push now c (d ∷ entries) = omega (arith, young-push now c entries)

-- The entries are in the order of time, from `from` to `to`.
abbrev pub Timely : ℕ → List Commitment → ℕ → Type 0
Timely from [] to = from ≤ to
Timely from (c ∷ entries) to = (from ≤ c.at) × Timely c.at entries to

Timely-from :
    (early from : ℕ) (entries : List Commitment) (to : ℕ)
    → early ≤ from
    → Timely from entries to
    → Timely early entries to
Timely-from early from [] to le h = omega arith
Timely-from early from (c ∷ entries) to le h = (omega (arith, h.0), h.1)

pub Timely-to :
    (from : ℕ) (entries : List Commitment) (to late : ℕ)
    → to ≤ late
    → Timely from entries to
    → Timely from entries late
Timely-to from [] to late le h = omega arith
Timely-to from (c ∷ entries) to late le h = (h.0, Timely-to c.at entries to late le h.1)

pub Timely-expire :
    (from : ℕ) (entries : List Commitment) (to at : ℕ)
    → Timely from entries to
    → Timely from (expire at entries) to
unfolding expire
Timely-expire from [] to at h = h
Timely-expire from (c ∷ entries) to at h =
    elim (Bool-cases (ltb signed_commitment_ttl_ms (at - c.at))) [
      | inl old ↦
          rw old (
            Timely-from from c.at (expire at entries) to h.0 (Timely-expire c.at entries to at h.1))
      | inr held ↦ rw held h
    ]

Timely-bounds : (from : ℕ) (entries : List Commitment) (to : ℕ) → Timely from entries to → from ≤ to
Timely-bounds from [] to h = h
Timely-bounds from (c ∷ entries) to h = omega (arith, h.0, Timely-bounds c.at entries to h.1)

Timely-push :
    (from : ℕ) (entries : List Commitment) (key : PayoutReference) (units to : ℕ)
    → Timely from entries to
    → Timely from (entries ++ (record { at = to; key = key; units = units } ∷ [])) to
Timely-push from [] key units to h = (h, omega arith)
Timely-push from (c ∷ entries) key units to h = (h.0, Timely-push c.at entries key units to h.1)

expire_twice :
    (at later : ℕ) (entries : List Commitment)
    → at ≤ later
    → expire later (expire at entries) ≡ expire later entries
unfolding expire
expire_twice at later [] le = refl
expire_twice at later (c ∷ entries) le =
    elim (Bool-cases (ltb signed_commitment_ttl_ms (at - c.at))) [
      | inl old ↦
          let still : ltb signed_commitment_ttl_ms (later - c.at) ≡ true = ground arith in
          rw (old, still) (expire_twice at later entries le)
      | inr held ↦ rw held refl
    ]

is_committed-push :
    (key : PayoutReference) (c : Commitment) (entries : List Commitment)
    → is_committed key (entries ++ (c ∷ [])) ≡ (key_eq c.key key || is_committed key entries)
is_committed-push key c [] = refl
is_committed-push key c (d ∷ entries) = ground (arith, is_committed-push key c entries)

-- A commitment that was pushed last is there as long as it is young.
is_committed-expire_push :
    (at from : ℕ) (key : PayoutReference) (c : Commitment) (entries : List Commitment)
    → Timely from entries c.at
    → is_committed key (expire at (entries ++ (c ∷ []))) ≡ (
        key_eq c.key key && leb at (c.at + signed_commitment_ttl_ms)
        || is_committed key (expire at entries))
unfolding expire
is_committed-expire_push at from key c [] order = ground arith
is_committed-expire_push at from key c (d ∷ entries) order =
    elim (Bool-cases (ltb signed_commitment_ttl_ms (at - d.at))) [
      | inl old ↦ rw old (is_committed-expire_push at d.at key c entries order.1)
      | inr held ↦
          let since : d.at ≤ c.at = Timely-bounds d.at entries c.at order.1 in
          let young_still : leb at (c.at + signed_commitment_ttl_ms) ≡ true = ground arith in
          rw (held, young_still) (ground (arith, is_committed-push key c entries))
    ]

-- The entries at the time `last` against the log of signatures.
pub record IsCovered (cap last : ℕ) (entries log : List Commitment) : Type 0 where
  pub order : Timely 0 entries last
  pub agrees :
      (key : PayoutReference) (at : ℕ)
      → last ≤ at
      → is_counted key at log ≡ is_committed key (expire at entries)
  pub covered : (now : ℕ) → last ≤ now → in_flight now log ≤ young now entries
  pub room : total entries ≤ cap

pub IsCovered-later :
    (cap last at : ℕ) (entries log : List Commitment)
    → last ≤ at
    → IsCovered cap last entries log
    → IsCovered cap at entries log
IsCovered-later cap last at entries log le h = record {
  order = Timely-to 0 entries last at le h.order;
  agrees = λ key now later. h.agrees key now (omega arith);
  covered = λ now later. h.covered now (omega arith);
  room = h.room;
}

pub IsCovered-expire :
    (cap at : ℕ) (entries log : List Commitment)
    → IsCovered cap at entries log
    → IsCovered cap at (expire at entries) log
IsCovered-expire cap at entries log h = record {
  order = Timely-expire 0 entries at at h.order;
  agrees = λ key now later. rw (expire_twice at now entries later) (h.agrees key now later);
  covered = λ now later. rw (young-expire at now entries later) (h.covered now later);
  room = omega (arith, h.room, total-expire-le at entries);
}

-- A signature that the cap has room for is covered.
pub IsCovered-record_commitment :
    (cap at : ℕ) (key : PayoutReference) (units : ℕ) (entries log : List Commitment)
    → outstanding key (expire at entries) + units ≤ cap
    → IsCovered cap at entries log
    → IsCovered cap at
        (record_commitment at key units entries)
        (record { at = at; key = key; units = units } ∷ log)
unfolding record_commitment
IsCovered-record_commitment cap at key units entries log fits h =
    let left = IsCovered-expire cap at entries log h in
    let s : Commitment = record { at = at; key = key; units = units } in
    elim (Bool-cases (is_committed key (expire at entries))) [
      | inl committed ↦
          let again : is_counted key at log ≡ true = h.agrees key at (omega arith) ∙ committed in
          rw committed (record {
            order = left.order;
            agrees = λ other now later. rw again (ground (arith, left.agrees other now later));
            covered = λ now later. rw again (ground (arith, left.covered now later));
            room = left.room;
          })
      | inr unseen ↦
          let fresh : is_counted key at log ≡ false = h.agrees key at (omega arith) ∙ unseen in
          rw unseen (record {
            order = Timely-push 0 (expire at entries) key units at left.order;
            agrees = λ other now later.
                rw (fresh, is_committed-expire_push now 0 other s (expire at entries) left.order)
                  (ground (arith, left.agrees other now later));
            covered = λ now later.
                rw fresh
                  (ground (arith, left.covered now later, young-push now s (expire at entries)));
            room = omega (
              arith,
              fits,
              total-push at key units (expire at entries),
              outstanding-eq-total key (expire at entries) unseen,
            );
          })
    ]

-- ===== src/Stellar/Submitter/Laws.antt =====
-- On `resolveAmbiguousSubmit` of lib/stellar/payout-submitter.ts.
use centient.Common.{
  ℕ, zero, suc, ◌+◌, ◌<◌, ◌≡◌, refl, true, false, Option, none, some, ok, err, arith, Bool-cases,
  ltb, leb, subst, inl, inr, some-inj,
}
use centient.Payout.Db.{Db}
use centient.Payout.Attempts.{TxStatus, tx_confirmed, tx_failed, tx_not_found}
use centient.Stellar.Submitter.{
  Round, Unknown, Outcome, Pass, resolved, again, payment_error, included_failed, ambiguous_submit,
  see_ledger, not_included, unless_late, pass, after_pass, resolve_from, resolve_ambiguous_submit,
}

-- Before round `i` a ledger was read that closed past the expiry.
abbrev SeenBefore : Unknown → (ℕ → Round) → ℕ → Option ℕ → Type 0
SeenBefore u rounds i none = Unit {0}
SeenBefore u rounds i (some close_ms) =
    (e : ℕ) × (j : ℕ) × (u.expires_at ≡ some e)
    × (j < i)
    × ((rounds j).ledger_close_ms ≡ some close_ms)
    × (e < close_ms)

-- The envelope was absent in a lookup that followed the reading of a ledger past its expiry.
abbrev pub IsDead : Unknown → (ℕ → Round) → Type 0
IsDead u rounds =
    (i : ℕ) × (close_ms : ℕ) × ((rounds i).status ≡ some tx_not_found)
    × SeenBefore u rounds i (some close_ms)

-- What an outcome rests on, and what became of the journal.
abbrev pub Fate : Unknown → (ℕ → Round) → Db → Outcome → Db → Type 0
Fate u rounds db (ok hash) db' =
    (hash ≡ u.envelope_hash) × (db' ≡ db) × (i : ℕ) × ((rounds i).status ≡ some tx_confirmed)
Fate u rounds db (err (payment_error included_failed retryable)) db' =
    (retryable ≡ false) × (i : ℕ) × ((rounds i).status ≡ some tx_failed)
Fate u rounds db (err (payment_error ambiguous_submit true)) db' = IsDead u rounds
Fate u rounds db (err (payment_error ambiguous_submit false)) db' = db' ≡ db
Fate u rounds db (err _) db' = ⊥

SeenBefore-suc :
    (u : Unknown) (rounds : ℕ → Round) (i : ℕ) (seen : Option ℕ)
    → SeenBefore u rounds i seen
    → SeenBefore u rounds (suc i) seen
SeenBefore-suc u rounds i none h = tt
SeenBefore-suc u rounds i (some ms) (e, j, x, lt, read, past) = (e, j, x, omega arith, read, past)

abbrev GoodPass : Unknown → (ℕ → Round) → ℕ → Db → Pass → Type 0
GoodPass u rounds i db (resolved outcome db') = Fate u rounds db outcome db'
GoodPass u rounds i db (again seen) = SeenBefore u rounds (suc i) seen

unless_late-GoodPass :
    (u : Unknown) (rounds : ℕ → Round) (i e : ℕ) (seen : Option ℕ) (db : Db)
    → SeenBefore u rounds (suc i) seen
    → GoodPass u rounds i db (unless_late u e (rounds i) seen db)
unless_late-GoodPass u rounds i e seen db h =
    elim (Bool-cases (ltb (e + u.resolve_grace_ms) (rounds i).clock)) [
      | inl late ↦ rw late refl
      | inr early ↦ rw early h
    ]

see_ledger-SeenBefore :
    (u : Unknown) (rounds : ℕ → Round) (i e : ℕ) (close_ms : Option ℕ)
    → (rounds i).ledger_close_ms ≡ close_ms
    → u.expires_at ≡ some e
    → SeenBefore u rounds (suc i) (see_ledger close_ms e)
see_ledger-SeenBefore u rounds i e none h x = tt
see_ledger-SeenBefore u rounds i e (some ms) h x = elim (Bool-cases (leb ms e)) [
  | inl open_still ↦ rw open_still tt
  | inr past ↦ rw past (e, i, x, omega arith, h, ground arith)
]

not_included-GoodPass :
    (u : Unknown) (rounds : ℕ → Round) (i : ℕ) (status : Option TxStatus) (bound seen : Option ℕ)
    (db : Db)
    → (rounds i).status ≡ status
    → u.expires_at ≡ bound
    → SeenBefore u rounds i seen
    → GoodPass u rounds i db (not_included u bound (rounds i) status seen db)
not_included-GoodPass u rounds i status none seen db h x before = refl
not_included-GoodPass u rounds i (some tx_not_found) (some e) (some ms) db h x before =
    (i, ms, h, before)
not_included-GoodPass u rounds i (some tx_not_found) (some e) none db h x before =
    unless_late-GoodPass u rounds i e _ db
      (see_ledger-SeenBefore u rounds i e (rounds i).ledger_close_ms refl x)
not_included-GoodPass u rounds i none (some e) seen db h x before =
    unless_late-GoodPass u rounds i e seen db (SeenBefore-suc u rounds i seen before)
not_included-GoodPass u rounds i (some tx_confirmed) (some e) seen db h x before =
    unless_late-GoodPass u rounds i e seen db (SeenBefore-suc u rounds i seen before)
not_included-GoodPass u rounds i (some tx_failed) (some e) seen db h x before =
    unless_late-GoodPass u rounds i e seen db (SeenBefore-suc u rounds i seen before)

pass-GoodPass :
    (u : Unknown) (rounds : ℕ → Round) (i : ℕ) (status : Option TxStatus) (seen : Option ℕ)
    (db : Db)
    → (rounds i).status ≡ status
    → SeenBefore u rounds i seen
    → GoodPass u rounds i db (pass u (rounds i) status seen db)
pass-GoodPass u rounds i (some tx_confirmed) seen db h before = (refl, refl, i, h)
pass-GoodPass u rounds i (some tx_failed) seen db h before = (refl, i, h)
pass-GoodPass u rounds i none seen db h before =
    not_included-GoodPass u rounds i none u.expires_at seen db h refl before
pass-GoodPass u rounds i (some tx_not_found) seen db h before =
    not_included-GoodPass u rounds i (some tx_not_found) u.expires_at seen db h refl before

after_pass-Fate :
    (u : Unknown) (rounds : ℕ → Round) (i : ℕ) (db : Db) (p : Pass)
    (continue : Option ℕ → Option (Outcome × Db)) (outcome : Outcome) (db' : Db)
    → GoodPass u rounds i db p
    → ((seen : Option ℕ)
        → SeenBefore u rounds (suc i) seen
        → continue seen ≡ some (outcome, db')
        → Fate u rounds db outcome db')
    → after_pass p continue ≡ some (outcome, db')
    → Fate u rounds db outcome db'
after_pass-Fate u rounds i db (resolved o d) continue outcome db' good rest e =
    let same : ◌≡◌ {A = Outcome × Db} (o, d) (outcome, db') = some-inj e in
    subst (λ (r : Outcome × Db). Fate u rounds db r.0 r.1) same good
after_pass-Fate u rounds i db (again seen) continue outcome db' good rest e = rest seen good e

resolve_from-Fate :
    (fuel : ℕ) (u : Unknown) (rounds : ℕ → Round) (i : ℕ) (seen : Option ℕ) (db : Db)
    (outcome : Outcome) (db' : Db)
    → SeenBefore u rounds i seen
    → resolve_from fuel u rounds i seen db ≡ some (outcome, db')
    → Fate u rounds db outcome db'
unfolding resolve_from
resolve_from-Fate zero u rounds i seen db outcome db' before e = absurd (ground arith)
resolve_from-Fate (suc fuel) u rounds i seen db outcome db' before e =
    after_pass-Fate u rounds i db (pass u (rounds i) (rounds i).status seen db)
      (λ later. resolve_from fuel u rounds (suc i) later db) outcome db'
      (pass-GoodPass u rounds i (rounds i).status seen db refl before)
      (λ later known rest. resolve_from-Fate fuel u rounds (suc i) later db outcome db' known rest)
      e

-- The resolution returns the envelope's hash only when Horizon confirmed it, and then writes
-- nothing; it reports a failure only when the envelope was included and failed; it allows a
-- rebuild only when a lookup found the envelope absent after a ledger had been read that closed
-- past its expiry; and where it asks for a manual reconciliation the journal is as it was.
pub resolve_ambiguous_submit-Fate :
    (fuel : ℕ) (u : Unknown) (rounds : ℕ → Round) (db : Db) (outcome : Outcome) (db' : Db)
    → resolve_ambiguous_submit fuel u rounds db ≡ some (outcome, db')
    → Fate u rounds db outcome db'
unfolding resolve_ambiguous_submit
resolve_ambiguous_submit-Fate fuel u rounds db outcome db' e =
    resolve_from-Fate fuel u rounds 0 none db outcome db' tt e

-- ===== src/Stellar/Submitter/Deadline.antt =====
-- On the loop of `resolveAmbiguousSubmit` of lib/stellar/payout-submitter.ts, and how long it runs.
use centient.Common.{
  ℕ, zero, suc, ◌+◌, ◌*◌, ◌≤◌, ◌<◌, ◌≡◌, refl, Option, none, some, or_else, arith, Bool-cases, ltb,
  inl, inr,
}
use centient.Payout.Db.{Db}
use centient.Payout.Attempts.{TxStatus, tx_confirmed, tx_failed, tx_not_found}
use centient.Stellar.Submitter.{
  Round, Unknown, Outcome, Pass, resolved, again, unless_late, not_included, pass, after_pass,
  resolve_from, resolve_ambiguous_submit,
}

-- The loop waits `interval` between two rounds: `clock` advances by at least that.
abbrev pub Ticks : ℕ → (ℕ → Round) → Type 0
Ticks interval rounds = (i : ℕ) → i * interval ≤ (rounds i).clock

abbrev HasOutcome : Option (Outcome × Db) → Type 0
HasOutcome r = (outcome : Outcome) × (db : Db) × (r ≡ some (outcome, db))

abbrev EndsUnless : Pass → Type 0 → Type 0
EndsUnless (resolved outcome db) P = Unit {0}
EndsUnless (again seen) P = P

-- The last round that the deadline allows.
abbrev deadline : Unknown → ℕ
deadline u = or_else u.expires_at 0 + u.resolve_grace_ms

unless_late-Ends :
    (u : Unknown) (e : ℕ) (r : Round) (seen : Option ℕ) (db : Db)
    → u.expires_at ≡ some e
    → EndsUnless (unless_late u e r seen db) (r.clock ≤ deadline u)
unless_late-Ends u e r seen db x = elim (Bool-cases (ltb (e + u.resolve_grace_ms) r.clock)) [
  | inl late ↦ rw late tt
  | inr early ↦ rw early (rw x (ground arith))
]

not_included-Ends :
    (u : Unknown) (r : Round) (status : Option TxStatus) (bound seen : Option ℕ) (db : Db)
    → u.expires_at ≡ bound
    → EndsUnless (not_included u bound r status seen db) (r.clock ≤ deadline u)
not_included-Ends u r status none seen db x = tt
not_included-Ends u r (some tx_not_found) (some e) (some ms) db x = tt
not_included-Ends u r (some tx_not_found) (some e) none db x = unless_late-Ends u e r _ db x
not_included-Ends u r none (some e) seen db x = unless_late-Ends u e r seen db x
not_included-Ends u r (some tx_confirmed) (some e) seen db x = unless_late-Ends u e r seen db x
not_included-Ends u r (some tx_failed) (some e) seen db x = unless_late-Ends u e r seen db x

pass-Ends :
    (u : Unknown) (r : Round) (status : Option TxStatus) (seen : Option ℕ) (db : Db)
    → EndsUnless (pass u r status seen db) (r.clock ≤ deadline u)
pass-Ends u r (some tx_confirmed) seen db = tt
pass-Ends u r (some tx_failed) seen db = tt
pass-Ends u r none seen db = not_included-Ends u r none u.expires_at seen db refl
pass-Ends u r (some tx_not_found) seen db =
    not_included-Ends u r (some tx_not_found) u.expires_at seen db refl

after_pass-HasOutcome :
    (p : Pass) (P : Type 0) (continue : Option ℕ → Option (Outcome × Db))
    → EndsUnless p P
    → (P → (seen : Option ℕ) → HasOutcome (continue seen))
    → HasOutcome (after_pass p continue)
after_pass-HasOutcome (resolved outcome db) P continue ends rest = (outcome, db, refl)
after_pass-HasOutcome (again seen) P continue ends rest = rest ends seen

round-early :
    (i interval last clock : ℕ)
    → 0 < interval
    → i * interval ≤ clock
    → clock ≤ last
    → suc i ≤ last + 1
round-early i interval last clock pos ticks early = grind arith

resolve_from-HasOutcome :
    (fuel : ℕ) (u : Unknown) (interval : ℕ) (rounds : ℕ → Round) (i : ℕ) (seen : Option ℕ) (db : Db)
    → 0 < interval
    → Ticks interval rounds
    → deadline u + 1 < i + fuel
    → i ≤ deadline u + 1
    → HasOutcome (resolve_from fuel u rounds i seen db)
unfolding resolve_from
resolve_from-HasOutcome zero u interval rounds i seen db pos ticks enough h = absurd (omega arith)
resolve_from-HasOutcome (suc fuel) u interval rounds i seen db pos ticks enough h =
    after_pass-HasOutcome (pass u (rounds i) (rounds i).status seen db)
      ((rounds i).clock ≤ deadline u) (λ later. resolve_from fuel u rounds (suc i) later db)
      (pass-Ends u (rounds i) (rounds i).status seen db)
      (λ early later.
        resolve_from-HasOutcome fuel u interval rounds (suc i) later db pos ticks (omega arith)
          (round-early i interval (deadline u) (rounds i).clock pos (ticks i) early))

-- The loop ends, whatever Horizon answers and also when it never does: while the clock advances by
-- the poll interval between two rounds, it has an outcome after at most as many rounds as the
-- resolve deadline has milliseconds, and two.
pub resolve_ambiguous_submit_ends :
    (u : Unknown) (interval : ℕ) (rounds : ℕ → Round) (db : Db)
    → 0 < interval
    → Ticks interval rounds
    → (outcome : Outcome) × (db' : Db) × (resolve_ambiguous_submit
          (or_else u.expires_at 0 + u.resolve_grace_ms + 2)
          u
          rounds
          db
        ≡ some (outcome, db'))
unfolding resolve_ambiguous_submit
resolve_ambiguous_submit_ends u interval rounds db pos ticks =
    resolve_from-HasOutcome _ u interval rounds 0 none db pos ticks (omega arith) (omega arith)

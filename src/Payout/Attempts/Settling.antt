-- ===== src/Payout/Attempts/Settling.antt =====
-- On `settleOpenAttempt` of lib/payout-attempts.ts.
use centient.Common.{
  ℕ, ◌+◌, ◌≤◌, ◌≡◌, ◌⊎◌, ap, inl, inr, refl, true, Option, none, some, find_first, arith,
  Option-cases, Bool-cases,
}
use centient.Payout.Db.{Db, PayoutAttempt, void_attempt, Note}
use centient.Payout.Attempts.{
  is_open_of, void_attempt_row, TxStatus, tx_confirmed, tx_failed, tx_not_found, HorizonAnswers,
  Settlement, clear, paid, wait, settle_open_attempt, closed_after, settle_row, settle_absent,
  recheck_after_ms,
}
use centient.Payout.Attempts.Laws.{
  open_count, HasOneOpen, open_count-resolve-lt, resolve-HasOneOpen,
  open_count-eq-zero_of_find_first,
}

-- Horizon reported the envelope included and failed, or absent in a lookup that followed a ledger
-- closed past its time bound.
abbrev pub IsDead : HorizonAnswers → PayoutAttempt → Type 0
IsDead hz a =
    (hz.first ≡ some tx_failed)
    ⊎ ((hz.first ≡ some tx_not_found)
        × (closed_after hz.ledger_close_ms a.expires_at ≡ true)
        × ((hz.second ≡ some tx_failed) ⊎ (hz.second ≡ some tx_not_found)))

-- Horizon reported the envelope as applied.
abbrev pub IsApplied : HorizonAnswers → Type 0
IsApplied hz = (hz.first ≡ some tx_confirmed) ⊎ (hz.second ≡ some tx_confirmed)

-- What the settlement of the open envelope `a` has done, by its outcome.
abbrev pub Settles : HorizonAnswers → ℕ → PayoutAttempt → Db → Settlement × Db → Type 0
Settles hz now a db (clear, db') =
    IsDead hz a × ((n : Note) × (db' ≡ void_attempt_row a.envelope_hash n db))
Settles hz now a db (paid h, db') = IsApplied hz × (h ≡ a.envelope_hash) × (db' ≡ db)
Settles hz now a db (wait until, db') =
    (now + recheck_after_ms ≤ until) × (a.expires_at + recheck_after_ms ≤ until) × (db' ≡ db)

settle_absent-Settles :
    (hz : HorizonAnswers) (now : ℕ) (a : PayoutAttempt) (db : Db)
    → hz.first ≡ some tx_not_found
    → closed_after hz.ledger_close_ms a.expires_at ≡ true
    → (second : Option TxStatus) → hz.second ≡ second
    → Settles hz now a db (settle_absent second now a db)
settle_absent-Settles hz now a db f c none e = ground arith
settle_absent-Settles hz now a db f c (some tx_confirmed) e = (inr e, refl, refl)
settle_absent-Settles hz now a db f c (some tx_failed) e = (inr (f, c, inl e), (_, refl))
settle_absent-Settles hz now a db f c (some tx_not_found) e = (inr (f, c, inr e), (_, refl))

settle_row-Settles :
    (hz : HorizonAnswers) (now : ℕ) (a : PayoutAttempt) (db : Db) (first : Option TxStatus)
    → hz.first ≡ first
    → Settles hz now a db (settle_row hz first now a db)
settle_row-Settles hz now a db none e = ground arith
settle_row-Settles hz now a db (some tx_confirmed) e = (inl e, refl, refl)
settle_row-Settles hz now a db (some tx_failed) e = (inl e, (_, refl))
settle_row-Settles hz now a db (some tx_not_found) e =
    elim (Bool-cases (closed_after hz.ledger_close_ms a.expires_at)) [
      | inl late ↦ rw late (settle_absent-Settles hz now a db e late hz.second refl)
      | inr early ↦ rw early (ground arith)
    ]

-- With an open envelope, the settlement clears it only on proof that it is dead, and then it is
-- void; it reports it paid only if Horizon reported it applied, and leaves it open; otherwise it
-- waits out both the recheck delay and the time bound, and writes nothing.
pub settle_open_attempt-Settles :
    (sid : ℕ) (hz : HorizonAnswers) (now : ℕ) (db : Db) (a : PayoutAttempt)
    → find_first (is_open_of sid) db.attempts ≡ some a
    → Settles hz now a db (settle_open_attempt sid hz now db)
unfolding settle_open_attempt
settle_open_attempt-Settles sid hz now db a e = rw e (settle_row-Settles hz now a db hz.first refl)

clear-open_count :
    (sid : ℕ) (hz : HorizonAnswers) (now : ℕ) (a : PayoutAttempt) (db db' : Db)
    → HasOneOpen db
    → find_first (is_open_of sid) db.attempts ≡ some a
    → Settles hz now a db (clear, db')
    → (open_count sid db'.attempts ≡ 0) × HasOneOpen db'
unfolding void_attempt_row
clear-open_count sid hz now a db db' one e (_, (n, same)) = rw same (
  omega (arith, one sid, open_count-resolve-lt sid void_attempt n db.attempts a refl e),
  (resolve-HasOneOpen a.envelope_hash n db one).1,
)

-- After a settlement that answers `clear` the submission has no open envelope, so the journal
-- lets the next one open; the journal's index is kept.
pub settle_clears :
    (sid : ℕ) (hz : HorizonAnswers) (now : ℕ) (db db' : Db)
    → HasOneOpen db
    → settle_open_attempt sid hz now db ≡ (clear, db')
    → (open_count sid db'.attempts ≡ 0) × HasOneOpen db'
unfolding settle_open_attempt
settle_clears sid hz now db db' one e =
    elim (Option-cases (find_first (is_open_of sid) db.attempts)) [
      | inl nothing ↦
          let same : db ≡ db' = ap (λ r. r.1) (rw nothing at e) in
          rw (← same) (open_count-eq-zero_of_find_first sid db.attempts nothing, one)
      | inr (a, found) ↦
          clear-open_count sid hz now a db db' one found
            (rw e at (settle_open_attempt-Settles sid hz now db a found))
    ]

-- A settlement writes to the journal alone.
pub settle_open_attempt-frame :
    (sid : ℕ) (hz : HorizonAnswers) (now : ℕ) (db : Db)
    → (settle_open_attempt sid hz now db).1
      ≡ (record db { attempts = (settle_open_attempt sid hz now db).1.attempts })
unfolding settle_open_attempt void_attempt_row
settle_open_attempt-frame sid hz now db = ground arith

-- ===== src/Payout/Broadcast/Laws.antt =====
-- On `attemptWrite` and `persistAcceptedPayment` of lib/payout-broadcast.ts.
use centient.Common.{
  ℕ, zero, suc, ◌≡◌, ◌⊎◌, inl, inr, refl, sym, ◌∙◌, Bool, true, false, some, List, arith,
  Option-cases,
}
use centient.Payout.Db.{Db}
use centient.Payout.Broadcast.{
  Fault, fine, rolled_back, commit_lost, Write, run_write, Written, attempts_left, next_fault,
  later_faults, unless_landed, persistence_attempts, attempt_write, persist_accepted_payment,
  abandon_accepted_payment,
}

-- Run on what it has written, the write changes nothing.
abbrev pub IsIdempotent : Write → Type 0
IsIdempotent write = (db db' : Db) → write db ≡ some db' → write db' ≡ some db'

-- The write was applied once and may be reported, or was not applied and is not.
abbrev pub IsOnce : Write → Db → Bool → Db → Type 0
IsOnce write db landed db' = (write db ≡ some db') ⊎ ((landed ≡ false) × (db' ≡ db))

module _ (write : Write) (idem : IsIdempotent write) where
  run_write-IsOnce :
      (fault : Fault) (db : Db)
      → IsOnce write db (run_write fault write db).0 (run_write fault write db).1
  run_write-IsOnce fine db = elim (Option-cases (write db)) [
    | inl threw ↦ rw threw (inr (refl, refl))
    | inr (db', wrote) ↦ rw wrote (inl refl)
  ]
  run_write-IsOnce rolled_back db = inr (refl, refl)
  run_write-IsOnce commit_lost db = elim (Option-cases (write db)) [
    | inl threw ↦ rw threw (inr (refl, refl))
    | inr (db', wrote) ↦ rw wrote (inl refl)
  ]

  -- A further run after one that was, or was not, applied.
  IsOnce-trans :
      (db db' db'' : Db) (landed landed' : Bool)
      → IsOnce write db landed db'
      → IsOnce write db' landed' db''
      → IsOnce write db landed' db''
  IsOnce-trans db db' db'' landed landed' (inl first) (inl again) =
      inl (first ∙ sym (idem db db' first) ∙ again)
  IsOnce-trans db db' db'' landed landed' (inl first) (inr (_, same)) = inl (rw same first)
  IsOnce-trans db db' db'' landed landed' (inr (_, same)) second = rw (← same) second

  unless_landed-IsOnce :
      (db : Db) (tried : Bool × Db) (faults : List Fault) (again : Written)
      → IsOnce write db tried.0 tried.1
      → IsOnce write tried.1 again.landed again.db
      → let w = unless_landed tried faults again in IsOnce write db w.landed w.db
  unless_landed-IsOnce db (true, db') faults again first second = first
  unless_landed-IsOnce db (false, db') faults again first second =
      IsOnce-trans db db' again.db false again.landed first second

  attempts_left-IsOnce :
      (n : ℕ) (faults : List Fault) (db : Db)
      → let w = attempts_left n write faults db in IsOnce write db w.landed w.db
  unfolding attempts_left
  attempts_left-IsOnce zero faults db = inr (refl, refl)
  attempts_left-IsOnce (suc n) faults db =
      unless_landed-IsOnce db (run_write (next_fault faults) write db) (later_faults faults)
        (attempts_left n write (later_faults faults) (run_write (next_fault faults) write db).1)
        (run_write-IsOnce (next_fault faults) db)
        (attempts_left-IsOnce n (later_faults faults) (run_write (next_fault faults) write db).1)

-- A payment's record is applied at most once: after any faults, the write has been applied exactly
-- once to the database, or it has not been applied, nothing changed and the caller is told so.
pub attempt_write-IsOnce :
    (write : Write) (faults : List Fault) (db : Db)
    → IsIdempotent write
    → let w = attempt_write write faults db in IsOnce write db w.landed w.db
unfolding attempt_write
attempt_write-IsOnce write faults db idem =
    attempts_left-IsOnce write idem persistence_attempts faults db

-- What `persistAcceptedPayment` leaves: the record, once; or, if the caller may not go on, the
-- quarantine once, over the record or over nothing; or nothing, and then the page says that
-- retries are not blocked.
pub persist_accepted_payment_outcomes :
    (persist quarantine : Write) (faults : List Fault) (db : Db)
    → IsIdempotent persist
    → IsIdempotent quarantine
    → let p = persist_accepted_payment persist quarantine faults db in
      (db' : Db) × ((persist db ≡ some db') ⊎ ((p.may_continue ≡ false) × (db' ≡ db)))
      × ((p.db ≡ db') ⊎ ((p.may_continue ≡ false) × (quarantine db' ≡ some p.db)))
      × ((p.may_continue ≡ false) ⊎ (p.db ≡ db'))
      × ((p.may_continue ≡ true) ⊎ ((p.retries_blocked ≡ false) ⊎ (quarantine db' ≡ some p.db)))
unfolding persist_accepted_payment abandon_accepted_payment
persist_accepted_payment_outcomes persist quarantine faults db ip iq =
    let w = attempt_write persist faults db in
    let q = attempt_write quarantine w.faults w.db in
    let wo = attempt_write-IsOnce persist faults db ip in
    let qo = attempt_write-IsOnce quarantine w.faults w.db iq in
    (w.db, ground arith, ground arith, ground arith, ground arith)

-- ===== src/Payout/Broadcast/Keeps.antt =====
-- On the predicates that the bounded writes of lib/payout-broadcast.ts keep.
use centient.Common.{
  ℕ, zero, suc, ◌≡◌, inl, inr, Bool, true, false, some, List, Option-cases, Bool-cases,
}
use centient.Payout.Db.{Db}
use centient.Payout.Broadcast.{
  Fault, fine, rolled_back, commit_lost, Write, Written, run_write, attempts_left, next_fault,
  later_faults, unless_landed, attempt_write, persistence_attempts, persist_accepted_payment,
  abandon_accepted_payment,
}

module _ {ℓ} (P : Db → Type ℓ) where
  abbrev pub Keeps : Write → Type ℓ
  Keeps write = (db db' : Db) → write db ≡ some db' → P db → P db'

  run_write-keeps :
      (write : Write)
      → Keeps write
      → (fault : Fault) (db : Db) → P db
      → P (run_write fault write db).1
  run_write-keeps write k fine db p = elim (Option-cases (write db)) [
    | inl threw ↦ rw threw p
    | inr (db', wrote) ↦ rw wrote (k db db' wrote p)
  ]
  run_write-keeps write k rolled_back db p = p
  run_write-keeps write k commit_lost db p = elim (Option-cases (write db)) [
    | inl threw ↦ rw threw p
    | inr (db', wrote) ↦ rw wrote (k db db' wrote p)
  ]

  unless_landed-keeps :
      (tried : Bool × Db) (faults : List Fault) (again : Written)
      → P tried.1
      → P again.db
      → P (unless_landed tried faults again).db
  unless_landed-keeps (true, db) faults again p q = p
  unless_landed-keeps (false, db) faults again p q = q

  attempts_left-keeps :
      (n : ℕ) (write : Write) (faults : List Fault) (db : Db)
      → Keeps write
      → P db
      → P (attempts_left n write faults db).db
  unfolding attempts_left
  attempts_left-keeps zero write faults db k p = p
  attempts_left-keeps (suc n) write faults db k p =
      let tried = run_write (next_fault faults) write db in
      let q = run_write-keeps write k (next_fault faults) db p in
      unless_landed-keeps tried (later_faults faults)
        (attempts_left n write (later_faults faults) tried.1) q
        (attempts_left-keeps n write (later_faults faults) tried.1 k q)

  pub attempt_write-keeps :
      (write : Write) (faults : List Fault) (db : Db)
      → Keeps write
      → P db
      → P (attempt_write write faults db).db
  unfolding attempt_write
  attempt_write-keeps write faults db k p =
      attempts_left-keeps persistence_attempts write faults db k p

  pub persist_accepted_payment-keeps :
      (persist quarantine : Write) (faults : List Fault) (db : Db)
      → Keeps persist
      → Keeps quarantine
      → P db
      → P (persist_accepted_payment persist quarantine faults db).db
  unfolding persist_accepted_payment abandon_accepted_payment
  persist_accepted_payment-keeps persist quarantine faults db kp kq p =
      let w = attempt_write persist faults db in
      let q = attempt_write-keeps persist faults db kp p in
      elim (Bool-cases w.landed) [
        | inl landed ↦ rw landed q
        | inr gave_up ↦ rw gave_up (attempt_write-keeps quarantine w.faults w.db kq q)
      ]

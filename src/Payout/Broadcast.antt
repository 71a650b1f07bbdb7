-- ===== src/Payout/Broadcast.antt =====
-- lib/payout-broadcast.ts: the bounded, idempotent write that records an accepted payment. A write
-- is a transaction: `none` when it throws. The database may also fail it: `rolled_back`, or
-- `commit_lost` when it committed and the response was lost, which the caller cannot tell apart.
pub mod Laws
pub mod Keeps
use centient.Common.{ℕ, zero, suc, Bool, true, false, Option, none, some, List, [], ◌∷◌, or_else}
use centient.Payout.Db.{Db}

pub data Fault : Type 0 where
  fine rolled_back commit_lost : Fault

abbrev pub Write : Type 0
Write = Db → Option Db

-- What one attempt reports and leaves.
abbrev pub reported : Option Db → Db → Bool × Db
reported none db = (false, db)
reported (some db') db = (true, db')

abbrev pub run_write : Fault → Write → Db → Bool × Db
run_write fine write db = reported (write db) db
run_write rolled_back write db = (false, db)
run_write commit_lost write db = (false, or_else (write db) db)

-- What became of a bounded write: whether it is known to have landed, the database, and the faults
-- that are still to come.
pub record Written : Type 0 where
  pub landed : Bool
  pub db : Db
  pub faults : List Fault

-- Once the faults are used up the database answers.
abbrev pub next_fault : List Fault → Fault
next_fault [] = fine
next_fault (f ∷ _) = f

abbrev pub later_faults : List Fault → List Fault
later_faults [] = []
later_faults (_ ∷ fs) = fs

-- The loop ends at the first attempt that reports success.
abbrev pub unless_landed : Bool × Db → List Fault → Written → Written
unless_landed (true, db) faults again = record { landed = true; db = db; faults = faults }
unless_landed (false, db) faults again = again

-- The loop of `attemptWrite` over the attempts left.
pub attempts_left : ℕ → Write → List Fault → Db → Written
attempts_left zero write faults db = record { landed = false; db = db; faults = faults }
attempts_left (suc n) write faults db =
    let tried = run_write (next_fault faults) write db in
    unless_landed tried (later_faults faults) (attempts_left n write (later_faults faults) tried.1)

abbrev pub persistence_attempts : ℕ
persistence_attempts = 3

unfoldable pub attempt_write : Write → List Fault → Db → Written
unfolding attempts_left
attempt_write write faults db = attempts_left persistence_attempts write faults db

-- `persistAcceptedPayment`: whether the caller may continue. `abandonAcceptedPayment` is its second
-- half; `retries_blocked` is what its page says.
pub record Persisted : Type 0 where
  pub may_continue : Bool
  pub retries_blocked : Bool
  pub db : Db

unfoldable pub abandon_accepted_payment : Write → List Fault → Db → Persisted
unfolding attempt_write
abandon_accepted_payment quarantine faults db =
    let w = attempt_write quarantine faults db in
    record { may_continue = false; retries_blocked = w.landed; db = w.db }

abbrev pub unless_recorded : Write → Bool → Written → Persisted
unless_recorded quarantine true w = record {
  may_continue = true;
  retries_blocked = true;
  db = w.db;
}
unless_recorded quarantine false w = abandon_accepted_payment quarantine w.faults w.db

unfoldable pub persist_accepted_payment : Write → Write → List Fault → Db → Persisted
unfolding attempt_write abandon_accepted_payment
persist_accepted_payment persist quarantine faults db =
    let w = attempt_write persist faults db in unless_recorded quarantine w.landed w

-- ===== src/Balance/User/Withdrawals.antt =====
-- On `enqueueWithdrawal` of lib/user-balance.ts.
use centient.Common.{
  ℕ, ◌+◌, ◌-◌, ◌≤◌, ◌<◌, ◌≡◌, ◌↔◌, refl, ap, true, false, none, some, List, [], ◌∷◌, ◌==◌,
  if◌then◌else◌, arith, any, ok, err, Option-cases, inl, inr, ==_iff, ==_refl,
}
use centient.Payout.Db.{Db, User, PayoutJob}
use centient.Balance.User.{
  find_user, pending_of, get_user_pending_balance, is_in_flight_of, enqueue, queue_job,
  enqueue_withdrawal, withdrawal_job, WithdrawalResult, no_balance_to_withdraw,
  withdrawal_in_flight,
}
use centient.Balance.User.Laws.{IsUserReconciled, move_balance-debit, pending-update_by}

-- How many withdrawals of a labeler are queued or processing, and how much they carry.
abbrev pub in_flight : ℕ → List PayoutJob → ℕ
in_flight uid [] = 0
in_flight uid (j ∷ jobs) = (if is_in_flight_of uid j then 1 else 0) + in_flight uid jobs

in_flight-eq-zero :
    (uid : ℕ) (jobs : List PayoutJob)
    → any (is_in_flight_of uid) jobs ≡ false
    → in_flight uid jobs ≡ 0
in_flight-eq-zero uid [] h = refl
in_flight-eq-zero uid (j ∷ jobs) h = ground (arith, in_flight-eq-zero uid jobs)

-- The partial unique index.
abbrev pub HasOneInFlight : Db → Type 0
HasOneInFlight db = (uid : ℕ) → in_flight uid db.jobs ≤ 1

-- What a withdrawal that was queued has done.
pub record IsQueued (id uid destination now : ℕ) (db : Db) (r : WithdrawalResult × Db)
    : Type 0 where
  pub whole : r.0.amount_units ≡ get_user_pending_balance uid db
  pub positive : 0 < r.0.amount_units
  pub emptied : get_user_pending_balance uid r.1 ≡ 0
  pub job : r.1.jobs ≡ withdrawal_job id uid r.0.amount_units destination now ∷ db.jobs
  pub nothing_before : in_flight uid db.jobs ≡ 0
  pub reconciled : IsUserReconciled r.1

enqueue-IsQueued :
    (id uid destination now : ℕ) (db : Db) (u : User)
    → find_user uid db ≡ some u
    → (u.pending_balance_units == 0) ≡ false
    → any (is_in_flight_of uid) db.jobs ≡ false
    → IsUserReconciled db
    → (r : WithdrawalResult × Db) × (enqueue id uid u.pending_balance_units destination now db
        ≡ ok r)
      × IsQueued id uid destination now db r
unfolding get_user_pending_balance
enqueue-IsQueued id uid destination now db u found some_money free kept = (
  queue_job id uid u.pending_balance_units destination now db,
  rw free,
  record {
    whole = rw found;
    positive = ground arith;
    emptied = ground (
      arith,
      ==_refl uid,
      pending-update_by uid uid (λ (n : ℕ). n - u.pending_balance_units) db.users u found,
    );
    job = refl;
    nothing_before = in_flight-eq-zero uid db.jobs free;
    reconciled = move_balance-debit uid u.pending_balance_units none db u found (omega arith) kept;
  },
)

-- A labeler with a balance and no withdrawal in flight withdraws the whole of it: the balance falls
-- to zero, exactly one job is queued, for that amount and that destination, and the account of
-- the ledger is kept.
pub enqueue_withdrawal-IsQueued :
    (id uid destination now : ℕ) (db : Db)
    → 0 < get_user_pending_balance uid db
    → any (is_in_flight_of uid) db.jobs ≡ false
    → IsUserReconciled db
    → (r : WithdrawalResult × Db) × (enqueue_withdrawal id uid destination now db ≡ ok r)
      × IsQueued id uid destination now db r
unfolding enqueue_withdrawal get_user_pending_balance
enqueue_withdrawal-IsQueued id uid destination now db money free kept =
    elim (Option-cases (find_user uid db)) [
      | inl missing ↦ absurd (omega (arith, ap pending_of missing))
      | inr (u, found) ↦
          let some_money : (u.pending_balance_units == 0) ≡ false =
            ground (arith, ap pending_of found) in
          rw (found, some_money)
            (enqueue-IsQueued id uid destination now db u found some_money free kept)
    ]

-- A withdrawal is refused exactly when the balance is zero or one is in flight already; no third
-- outcome takes money.
pub enqueue_withdrawal_refusals :
    (id uid destination now : ℕ) (db : Db)
    → ((enqueue_withdrawal id uid destination now db ≡ err (no_balance_to_withdraw 0))
        ↔ (get_user_pending_balance uid db ≡ 0))
      × ((enqueue_withdrawal id uid destination now db ≡ err (withdrawal_in_flight uid))
          ↔ ((0 < get_user_pending_balance uid db) × (any (is_in_flight_of uid) db.jobs ≡ true)))
unfolding enqueue_withdrawal
enqueue_withdrawal_refusals id uid destination now db = ground arith

-- If no labeler has two withdrawals in flight, none has after a withdrawal that goes through.
pub enqueue_withdrawal-HasOneInFlight :
    (id uid destination now : ℕ) (db : Db) (r : WithdrawalResult × Db)
    → HasOneInFlight db
    → enqueue_withdrawal id uid destination now db ≡ ok r
    → HasOneInFlight r.1
unfolding enqueue_withdrawal
enqueue_withdrawal-HasOneInFlight id uid destination now db r one e k =
    ground (arith, one k, in_flight-eq-zero uid db.jobs, ==_iff uid k)

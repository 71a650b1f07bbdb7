-- ===== src/Payout/Worker/Claiming.antt =====
-- On `claimNextJob` of lib/payout-worker.ts.
use centient.Common.{
  ℕ, ◌+◌, ◌≤◌, ◌≡◌, ◌⊎◌, All-map, leb, refl, Bool, true, false, Option, none, some, List, [], ◌∷◌,
  arith, Option-cases, Bool-cases, inl, inr, All,
}
use centient.Payout.Db.{Db, PayoutJob}
use centient.Payout.Record.{update_job}
use centient.Payout.Worker.{
  stale_processing_ms, is_claimable, oldest, start_job, claim_job, claim_next_job,
}

-- Claimable jobs were not created before `at`.
abbrev NotOlder : (PayoutJob → Bool) → ℕ → PayoutJob → Type 0
NotOlder p at j = (p j ≡ false) ⊎ (at ≤ j.created_at)

NotOlder-down :
    (p : PayoutJob → Bool) (a b : ℕ) → b ≤ a → (j : PayoutJob) → NotOlder p a j → NotOlder p b j
NotOlder-down p a b h j n = ground arith

oldest-none :
    (p : PayoutJob → Bool) (at : ℕ) (jobs : List PayoutJob)
    → oldest p jobs ≡ none
    → All (NotOlder p at) jobs
oldest-none p at [] e = tt
oldest-none p at (j ∷ jobs) e = (ground arith, oldest-none p at jobs (ground arith))

oldest-NotOlder :
    (p : PayoutJob → Bool) (jobs : List PayoutJob) (j : PayoutJob)
    → oldest p jobs ≡ some j
    → (p j ≡ true) × All (NotOlder p j.created_at) jobs
oldest-NotOlder p [] j e = absurd (ground arith)
oldest-NotOlder p (k ∷ jobs) j e = elim (Option-cases (oldest p jobs)) [
  | inl alone ↦
      let same : k ≡ j = ground arith in
      let claims : p k ≡ true = ground arith in
      (rw (← same) claims, (rw (← same) (inr (omega arith)), oldest-none p j.created_at jobs alone))
  | inr (m, found) ↦
      let (m_claims, m_oldest) = oldest-NotOlder p jobs m found in
      elim (Bool-cases (p k)) [
        | inl claims ↦ elim (Bool-cases (leb k.created_at m.created_at)) [
          | inl first ↦
              let same : k ≡ j = ground arith in
              (
                rw (← same) claims,
                (
                  rw (← same) (inr (omega arith)),
                  All-map jobs (NotOlder-down p m.created_at j.created_at (ground arith)) m_oldest,
                ),
              )
          | inr later ↦
              let same : m ≡ j = ground arith in
              (
                rw (← same) m_claims,
                (
                  ground arith,
                  All-map jobs (NotOlder-down p m.created_at j.created_at (ground arith)) m_oldest,
                ),
              )
        ]
        | inr not_due ↦
            let same : m ≡ j = ground arith in
            (
              rw (← same) m_claims,
              (
                inl not_due,
                All-map jobs (NotOlder-down p m.created_at j.created_at (ground arith)) m_oldest,
              ),
            )
      ]
]

-- What a claim has taken: a job that was due, none due was created before it, it is now in
-- processing under this worker's heartbeat, and no worker can claim it again while that is fresh.
pub record IsTaken (now : ℕ) (db : Db) (j : PayoutJob) (db' : Db) : Type 0 where
  pub before : PayoutJob
  pub due : is_claimable now before ≡ true
  pub first : All (NotOlder (is_claimable now) before.created_at) db.jobs
  pub started : j ≡ start_job now before
  pub written : db' ≡ update_job before.id (start_job now) db

claim_job-IsTaken :
    (now : ℕ) (db : Db) (found : Option PayoutJob) (j : PayoutJob) (db' : Db)
    → oldest (is_claimable now) db.jobs ≡ found
    → claim_job now found db ≡ (some j, db')
    → IsTaken now db j db'
claim_job-IsTaken now db none j db' o e = absurd (ground arith)
claim_job-IsTaken now db (some b) j db' o e =
    let (due, first) = oldest-NotOlder (is_claimable now) db.jobs b o in
    record { before = b; due = due; first = first; started = ground arith; written = ground arith }

-- A claim takes a job that is due, of those the oldest, and starts it.
pub claim_next_job-IsTaken :
    (now : ℕ) (db : Db) (j : PayoutJob) (db' : Db)
    → claim_next_job now db ≡ (some j, db')
    → IsTaken now db j db'
unfolding claim_next_job
claim_next_job-IsTaken now db j db' e =
    claim_job-IsTaken now db (oldest (is_claimable now) db.jobs) j db' refl e

-- No worker can claim the job again before its heartbeat is a minute old.
pub claim_next_job_excludes :
    (now later : ℕ) (db : Db) (j : PayoutJob) (db' : Db)
    → claim_next_job now db ≡ (some j, db')
    → later ≤ now + stale_processing_ms
    → is_claimable later j ≡ false
claim_next_job_excludes now later db j db' e soon =
    rw (claim_next_job-IsTaken now db j db' e).started (ground arith)

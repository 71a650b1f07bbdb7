-- ===== src/Payout/Record/Replays.antt =====
-- On replays of the recording callbacks of lib/payout-service.ts and lib/payout-worker.ts.
use mathlib.Core.Option
use centient.Common.{
  ℕ, ◌≡◌, ◌⊎◌, inl, inr, refl, ap, some-inj, subst, sym, ◌∙◌, Bool, false, Option, none, some, List,
  [], ◌∷◌, arith, update_by, always, Option-cases, ==_refl,
}
use centient.Payout.Db.{Db, Submission, PayoutJob}
use centient.Payout.Attempts.{confirm_attempt}
use centient.Payout.Claim.{find_submission}
use centient.Payout.Broadcast.{attempt_write, Fault}
use centient.Payout.Broadcast.Laws.{IsIdempotent, attempt_write-IsOnce}
use centient.Payout.Record.{
  record_row, replay_of, upsert_job, record_retry, record_worker, update_job, set_tuple,
  set_quarantined, quarantine_retry,
}
use centient.Payout.Record.Laws.{IsRecorded, record_hash-fresh}

hash_of : ℕ → Db → Option (Option ℕ)
hash_of sid db = Option.map (λ s. s.payout_tx_hash) (find_submission sid db)

-- A row that carries this very hash is a replay, whatever else the callback wrote.
replay_row :
    (sid uid amount hash : ℕ) (at : Option ℕ) (finish : Db → Db) (row : Option Submission) (db : Db)
    → Option.map (λ s. s.payout_tx_hash) row ≡ some (some hash)
    → record_row sid uid amount hash at finish row db ≡ some db
replay_row sid uid amount hash at finish none db e = absurd (ground arith)
replay_row sid uid amount hash at finish (some s) db e =
    let h : s.payout_tx_hash ≡ some hash = ground arith in rw (h, ==_refl hash) refl

replay_of-inv :
    (hash h : ℕ) (db db' : Db) → replay_of hash h db ≡ some db' → (h ≡ hash) × (db ≡ db')
replay_of-inv hash h db db' e = ground arith

-- What the row carries after a record that went through, if `finish` leaves the rows alone.
recorded_hash :
    (sid uid amount hash : ℕ) (at : Option ℕ) (finish : Db → Db) (db db' : Db)
    → ((d : Db) → (finish d).submissions ≡ d.submissions)
    → record_row sid uid amount hash at finish (find_submission sid db) db ≡ some db'
    → Option.map (λ s. s.payout_tx_hash) (find_submission sid db') ≡ some (some hash)
recorded_hash sid uid amount hash at finish db db' keeps e =
    elim (Option-cases (find_submission sid db)) [
      | inl missing ↦ absurd (ground arith)
      | inr (s, found) ↦ elim (Option-cases s.payout_tx_hash) [
        | inl no_hash ↦
            let (d, after, r) =
              record_hash-fresh sid uid amount hash at finish s db db' found no_hash e in
            rw (after, keeps d) r.hashed
        | inr (h, has_hash) ↦
            let (same_hash, same) = replay_of-inv hash h db db' (rw (found, has_hash) at e) in
            rw (← same, found) (ap some (has_hash ∙ ap some same_hash))
      ]
    ]

upsert_job-submissions :
    (id sid hash amount at : ℕ) (db : Db)
    → (upsert_job id sid hash amount at db).submissions ≡ db.submissions
unfolding upsert_job
upsert_job-submissions id sid hash amount at db = ground arith

upsert_job-users :
    (id sid hash amount at : ℕ) (db : Db) → (upsert_job id sid hash amount at db).users ≡ db.users
unfolding upsert_job
upsert_job-users id sid hash amount at db = ground arith

-- The retry path's record, run again on what it wrote, writes nothing.
pub record_retry-IsIdempotent :
    (id sid uid amount hash at : ℕ) → IsIdempotent (record_retry id sid uid amount hash at)
unfolding record_retry
record_retry-IsIdempotent id sid uid amount hash at db db' e =
    replay_row sid uid amount hash (some at) (upsert_job id sid hash amount at)
      (find_submission sid db') db'
      (recorded_hash sid uid amount hash (some at) (upsert_job id sid hash amount at) db db'
        (upsert_job-submissions id sid hash amount at) e)

pub set_tuple-jobs :
    (jid hash amount at : ℕ) (jobs : List PayoutJob)
    → let once = update_by (λ j. j.id) jid always (set_tuple hash amount at) jobs in
      update_by (λ j. j.id) jid always (set_tuple hash amount at) once ≡ once
unfolding update_by
set_tuple-jobs jid hash amount at [] = refl
set_tuple-jobs jid hash amount at (j ∷ jobs) =
    ground (arith, set_tuple-jobs jid hash amount at jobs)

record_row-jobs :
    (sid uid amount hash : ℕ) (at : Option ℕ) (row : Option Submission) (db db' : Db)
    → record_row sid uid amount hash at (λ d. d) row db ≡ some db'
    → db'.jobs ≡ db.jobs
unfolding confirm_attempt
record_row-jobs sid uid amount hash at row db db' e = ground arith

-- The worker's record too: it rewrites the same tuple.
pub record_worker-IsIdempotent :
    (jid sid uid amount hash at : ℕ) → IsIdempotent (record_worker jid sid uid amount hash at)
unfolding record_worker
record_worker-IsIdempotent jid sid uid amount hash at db db' e =
    let before = update_job jid (set_tuple hash amount at) db in
    let jobs = record_row-jobs sid uid amount hash none (find_submission sid before) before db' e in
    let same : update_job jid (set_tuple hash amount at) db' ≡ db' =
      ap (λ (js : List PayoutJob). record db' { jobs = js })
        (ap (update_by (λ j. j.id) jid always (set_tuple hash amount at)) jobs
          ∙ set_tuple-jobs jid hash amount at db.jobs
          ∙ sym jobs) in
    rw same (
      replay_row sid uid amount hash none (λ d. d) (find_submission sid db') db'
        (recorded_hash sid uid amount hash none (λ d. d) before db' (λ d. refl) e))

quarantined-rows :
    (sid hash at : ℕ) (rows : List Submission)
    → let f : Submission → Submission = set_quarantined hash at in
      let once = update_by (λ s. s.id) sid always f rows in
      update_by (λ s. s.id) sid always f once ≡ once
unfolding update_by
quarantined-rows sid hash at [] = refl
quarantined-rows sid hash at (s ∷ rows) = ground (arith, quarantined-rows sid hash at rows)

-- The retry path's quarantine, run again on what it wrote, writes nothing.
pub quarantine_retry-IsIdempotent : (sid hash at : ℕ) → IsIdempotent (quarantine_retry sid hash at)
unfolding quarantine_retry
quarantine_retry-IsIdempotent sid hash at db db' e =
    subst (λ (d : Db). quarantine_retry sid hash at d ≡ some d) (some-inj e)
      (ap (λ (rows : List Submission). some (record db { submissions = rows }))
        (quarantined-rows sid hash at db.submissions))

-- The lifetime total of the labeler after a bounded write of the record of a payment: up by the
-- amount once, with the row carrying the hash, or unchanged, and then the caller is told so.
abbrev pub IsCreditedOnce : ℕ → ℕ → ℕ → ℕ → Db → Bool → Db → Type 0
IsCreditedOnce sid uid amount hash db landed db' =
    IsRecorded sid uid amount hash db db' ⊎ ((landed ≡ false) × (db' ≡ db))

upsert_job-IsRecorded :
    (id sid uid amount hash at : ℕ) (db d : Db)
    → IsRecorded sid uid amount hash db d
    → IsRecorded sid uid amount hash db (upsert_job id sid hash amount at d)
upsert_job-IsRecorded id sid uid amount hash at db d r = record {
  hashed = rw (upsert_job-submissions id sid hash amount at d) r.hashed;
  marked = rw (upsert_job-submissions id sid hash amount at d) r.marked;
  credited = rw (upsert_job-users id sid hash amount at d) r.credited;
}

-- However the database fails the three attempts, the retry path's record of a payment of a row with
-- no hash credits the labeler once or not at all, and then the caller is told so.
pub record_retry_credits_once :
    (id sid uid amount hash at : ℕ) (faults : List Fault) (s : Submission) (db : Db)
    → find_submission sid db ≡ some s
    → s.payout_tx_hash ≡ none
    → let w = attempt_write (record_retry id sid uid amount hash at) faults db in
      IsCreditedOnce sid uid amount hash db w.landed w.db
unfolding record_retry
record_retry_credits_once id sid uid amount hash at faults s db found no_hash =
    elim (attempt_write-IsOnce (record_retry id sid uid amount hash at) faults db
      (record_retry-IsIdempotent id sid uid amount hash at)) [
        | inl once ↦
            let (d, after, r) =
              record_hash-fresh sid uid amount hash (some at) (upsert_job id sid hash amount at) s
                db _ found no_hash once in
            inl (rw after (upsert_job-IsRecorded id sid uid amount hash at db d r))
        | inr untouched ↦ inr untouched
      ]

-- However the database fails the three attempts, the worker's record of a payment of a row with no
-- hash credits the labeler once or not at all, and then the caller is told so.
pub record_worker_credits_once :
    (jid sid uid amount hash at : ℕ) (faults : List Fault) (s : Submission) (db : Db)
    → find_submission sid db ≡ some s
    → s.payout_tx_hash ≡ none
    → let w = attempt_write (record_worker jid sid uid amount hash at) faults db in
      IsCreditedOnce sid uid amount hash db w.landed w.db
unfolding record_worker
record_worker_credits_once jid sid uid amount hash at faults s db found no_hash =
    elim (attempt_write-IsOnce (record_worker jid sid uid amount hash at) faults db
      (record_worker-IsIdempotent jid sid uid amount hash at)) [
        | inl once ↦
            let before = update_job jid (set_tuple hash amount at) db in
            let (d, after, r) =
              record_hash-fresh sid uid amount hash none (λ e. e) s before _ found no_hash once in
            inl (rw after (record { hashed = r.hashed; marked = r.marked; credited = r.credited }))
        | inr untouched ↦ inr untouched
      ]

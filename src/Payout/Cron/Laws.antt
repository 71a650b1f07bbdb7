-- ===== src/Payout/Cron/Laws.antt =====
-- On the retry cron of app/api/cron/payout-retry/route.ts.
use centient.Common.{
  ℕ, ◌+◌, ◌≤◌, ◌<◌, ◌≡◌, ◌∙◌, inl, inr, refl, ap, sym, Bool, true, false, Option, none, some, List,
  [], ◌∷◌, ◌==◌, arith, if◌then◌else◌, find_by, update_many, some-inj, Bool-cases, All,
}
use centient.Payout.Db.{Db, Submission, failed}
use centient.Payout.Claim.{
  find_submission, update_submission, is_terminal_status, submission_retry_budget,
}
use centient.Payout.Claim.Laws.{find-update_submission}
use centient.Payout.Service.{Retry, payable_address, reprocess_payout, set_unpayable}
use centient.Payout.Cron.{
  retry_one, abandon_sweep, cron_pass, retry_all, is_eligible, has_live_job, is_exhausted,
  set_abandoned, max_backoff_ms,
}

head_found :
    (b : Bool) (x s : Submission) (rest : Option Submission)
    → b ≡ true
    → (if b then some x else rest) ≡ some s
    → x ≡ s
head_found true x s rest e h = some-inj h
head_found false x s rest e h = absurd (ground arith)

tail_found :
    (b : Bool) (x s : Submission) (rest : Option Submission)
    → b ≡ false
    → (if b then some x else rest) ≡ some s
    → rest ≡ some s
tail_found true x s rest e h = absurd (ground arith)
tail_found false x s rest e h = h

clash : (b : Bool) → b ≡ true → b ≡ false → ⊥
clash b t f = ground arith

swept :
    (sid : ℕ) (s : Submission) (rows : List Submission)
    → find_by (λ x. x.id) sid rows ≡ some s
    → is_exhausted s ≡ false
    → find_by (λ x. x.id) sid (update_many is_exhausted set_abandoned rows) ≡ some s
unfolding find_by
swept sid s [] h e = ground arith
swept sid s (x ∷ rows) h e = elim (Bool-cases (is_exhausted x)) [
  | inl spent ↦ elim (Bool-cases (x.id == sid)) [
    | inl same ↦
        let here = head_found (x.id == sid) x s _ same h in
        absurd (clash (is_exhausted s) (sym (ap is_exhausted here) ∙ spent) e)
    | inr other ↦ rw spent (rw other (swept sid s rows (tail_found (x.id == sid) x s _ other h) e))
  ]
  | inr left ↦ elim (Bool-cases (x.id == sid)) [
    | inl same ↦ rw left (rw same (ap some (head_found (x.id == sid) x s _ same h)))
    | inr other ↦ rw left (rw other (swept sid s rows (tail_found (x.id == sid) x s _ other h) e))
  ]
]

unpayable_retried :
    (r : Retry) (sid : ℕ) (s : Submission) (db : Db)
    → find_submission sid db ≡ some s
    → is_terminal_status s.payout_status ≡ false
    → payable_address r.is_valid_address s.wallet_address ≡ none
    → (retry_one r sid db).1 ≡ update_submission sid (set_unpayable r.claim_at) db
unfolding retry_one reprocess_payout
unpayable_retried r sid s db found open_status unpayable =
    rw found (rw open_status (rw unpayable refl))

-- The row after one more pass.
cron_pass-unpayable :
    (r : Retry) (sid : ℕ) (s : Submission) (db : Db)
    → find_submission sid db ≡ some s
    → is_terminal_status s.payout_status ≡ false
    → payable_address r.is_valid_address s.wallet_address ≡ none
    → s.retry_count < submission_retry_budget
    → (find_submission sid (cron_pass ((sid, r) ∷ []) db) ≡ some (set_unpayable r.claim_at s))
      × ((cron_pass ((sid, r) ∷ []) db).jobs ≡ db.jobs)
unfolding cron_pass retry_all abandon_sweep
cron_pass-unpayable r sid s db found open_status unpayable left =
    rw (unpayable_retried r sid s db found open_status unpayable) (
      swept sid (set_unpayable r.claim_at s)
          (update_submission sid (set_unpayable r.claim_at) db).submissions
          (find-update_submission sid (set_unpayable r.claim_at) db s (λ a. refl) found)
          (ground (arith, left)),
      refl,
    )

-- Passes that each take the one row, the latest first.
unfoldable pub retry_passes : ℕ → List Retry → Db → Db
retry_passes sid [] db = db
retry_passes sid (r ∷ passes) db = cron_pass ((sid, r) ∷ []) (retry_passes sid passes db)

-- What the passes keep of the row and of the jobs.
record IsKept (sid : ℕ) (s : Submission) (db : Db) (s' : Submission) (db' : Db) : Type 0 where
  found : find_submission sid db' ≡ some s'
  open_status : is_terminal_status s'.payout_status ≡ false
  wallet : s'.wallet_address ≡ s.wallet_address
  count : s'.retry_count ≡ s.retry_count
  same_id : s'.id ≡ s.id
  jobs : db'.jobs ≡ db.jobs

-- A wallet that no pass can pay.
abbrev pub IsUnpayable : Submission → List Retry → Type 0
IsUnpayable s passes = All (λ r. payable_address r.is_valid_address s.wallet_address ≡ none) passes

retry_passes-IsKept :
    (sid : ℕ) (passes : List Retry) (s : Submission) (db : Db)
    → find_submission sid db ≡ some s
    → is_terminal_status s.payout_status ≡ false
    → IsUnpayable s passes
    → s.retry_count < submission_retry_budget
    → (s' : Submission) × IsKept sid s db s' (retry_passes sid passes db)
unfolding retry_passes
retry_passes-IsKept sid [] s db found open_status unpayable left = (
  s,
  record {
    found = found;
    open_status = open_status;
    wallet = refl;
    count = refl;
    same_id = refl;
    jobs = refl;
  },
)
retry_passes-IsKept sid (r ∷ passes) s db found open_status unpayable left =
    let (s', kept) = retry_passes-IsKept sid passes s db found open_status unpayable.1 left in
    let (now_found, same_jobs) =
      cron_pass-unpayable r sid s' (retry_passes sid passes db) kept.found kept.open_status
        (rw kept.wallet unpayable.0) (rw kept.count left) in
    (
      set_unpayable r.claim_at s',
      record {
        found = now_found;
        open_status = refl;
        wallet = kept.wallet;
        count = kept.count;
        same_id = kept.same_id;
        jobs = same_jobs ∙ kept.jobs;
      },
    )

-- A payout in no terminal status, with retries left and no live job, whose wallet every pass finds
-- missing or malformed: after one or more passes that each retry it alone, it is failed with none of
-- its retries spent, and the condition of the query for failed payouts, its order and limit aside,
-- holds of it again once the longest backoff has passed since the last pass.
pub retry_passes_unpayable :
    (sid now : ℕ) (r : Retry) (passes : List Retry) (s : Submission) (db : Db)
    → find_submission sid db ≡ some s
    → is_terminal_status s.payout_status ≡ false
    → IsUnpayable s (r ∷ passes)
    → s.retry_count < submission_retry_budget
    → has_live_job s.id db ≡ false
    → r.claim_at + max_backoff_ms ≤ now
    → let after = retry_passes sid (r ∷ passes) db in
      (s' : Submission) × (find_submission sid after ≡ some s')
      × (s'.retry_count ≡ s.retry_count)
      × (s'.payout_status ≡ failed)
      × (is_eligible now after s' ≡ true)
unfolding retry_passes
retry_passes_unpayable sid now r passes s db found open_status unpayable left idle late =
    let (s', kept) = retry_passes-IsKept sid passes s db found open_status unpayable.1 left in
    let (now_found, same_jobs) =
      cron_pass-unpayable r sid s' (retry_passes sid passes db) kept.found kept.open_status
        (rw kept.wallet unpayable.0) (rw kept.count left) in
    let still : has_live_job s'.id (cron_pass ((sid, r) ∷ []) (retry_passes sid passes db))
        ≡ false =
      rw (kept.same_id, same_jobs, kept.jobs) idle in
    let few : s'.retry_count < submission_retry_budget = rw kept.count left in
    (set_unpayable r.claim_at s', now_found, kept.count, refl, rw still (ground (arith, few, late)))

-- ===== src/Payout/Revival/Laws.antt =====
-- On `revive` of lib/payout-attempt-revival.ts.
use centient.Common.{
  ℕ, ◌≡◌, ◌∙◌, refl, ap, sym, subst, Bool, true, false, Option, none, some, arith, if◌then◌else◌,
  is_some, not,
}
use centient.Payout.Db.{Db, Submission, Note, landed, never_applied}
use centient.Payout.Attempts.{HorizonAnswers, Settlement, clear, paid, wait, settle_open_attempt}
use centient.Payout.Attempts.Settling.{settle_open_attempt-frame}
use centient.Payout.Claim.{
  claimed, claim_for_retry, find_submission, update_submission, set_last_retried,
}
use centient.Payout.Claim.Laws.{IsClaimable, claim_for_retry_grants, find-update_submission}
use centient.Payout.Settled.Laws.{find_submission-update_where}
use centient.Payout.Revival.{
  Revival, revived, revive, revive_settled, set_revived, no_hash_yet, hand_to_retry,
}
use centient.Balance.Campaign.{has_refunded_submission}

-- The outcome of a settlement is proof either way.
abbrev pub is_proven : Settlement → Bool
is_proven (wait until) = false
is_proven _ = true

handed-IsClaimable :
    (sid later : ℕ) (note : Note) (s : Submission) (db : Db)
    → find_submission sid db ≡ some s
    → s.payout_tx_hash ≡ none
    → has_refunded_submission sid db ≡ false
    → (row : Submission) × (find_submission sid (hand_to_retry sid note db) ≡ some row)
      × IsClaimable sid row later (hand_to_retry sid note db)
unfolding has_refunded_submission
handed-IsClaimable sid later note s db found unhashed funded = (
  set_revived note s,
  find_submission-update_where sid no_hash_yet (set_revived note) s db (λ x. refl) found
      ∙ ap (λ (h : Option ℕ). some (if not (is_some h) then set_revived note s else s)) unhashed,
  record { not_terminal = refl; no_hash = unhashed; free = refl; funded = funded },
)

settled-IsClaimable :
    (sid later : ℕ) (outcome : Settlement) (s : Submission) (d : Db)
    → is_proven outcome ≡ true
    → find_submission sid d ≡ some s
    → s.payout_tx_hash ≡ none
    → has_refunded_submission sid d ≡ false
    → ((revive_settled sid (outcome, d)).0 ≡ revived)
      × ((row : Submission) × (find_submission sid (revive_settled sid (outcome, d)).1 ≡ some row)
          × IsClaimable sid row later (revive_settled sid (outcome, d)).1)
settled-IsClaimable sid later (wait until) s d proven found unhashed funded = absurd (ground arith)
settled-IsClaimable sid later (paid hash) s d proven found unhashed funded =
    (refl, handed-IsClaimable sid later (landed hash) s d found unhashed funded)
settled-IsClaimable sid later clear s d proven found unhashed funded =
    (refl, handed-IsClaimable sid later never_applied s d found unhashed funded)

-- The payout was revived, and its row can be claimed at the time `later`.
abbrev pub IsHandedBack : ℕ → ℕ → Revival × Db → Type 0
IsHandedBack sid later (result, after) =
    (result ≡ revived)
    × ((row : Submission) × (find_submission sid after ≡ some row)
        × IsClaimable sid row later after)

revives :
    (sid at : ℕ) (hz : HorizonAnswers) (outcome : Settlement) (s : Submission) (db d : Db)
    → find_submission sid db ≡ some s
    → IsClaimable sid s at db
    → settle_open_attempt sid hz at (update_submission sid (set_last_retried (some at)) db)
      ≡ (outcome, d)
    → revive sid hz at db ≡ revive_settled sid (outcome, d)
unfolding revive
revives sid at hz outcome s db d found claim settles =
    let leased = update_submission sid (set_last_retried (some at)) db in
    let granted : claim_for_retry sid at db ≡ (claimed s, leased) =
      (claim_for_retry_grants sid at db s leased).1 (found, claim, refl) in
    rw claim.funded (rw granted (ap (revive_settled sid) settles))

-- Once the claim of a stranded payout is free and the settlement of its envelope has proven its
-- fate, the revival hands the row back: from then on, at any time, the retry path can claim it.
pub revive-IsClaimable :
    (sid at later : ℕ) (hz : HorizonAnswers) (outcome : Settlement) (s : Submission) (db d : Db)
    → find_submission sid db ≡ some s
    → IsClaimable sid s at db
    → settle_open_attempt sid hz at (update_submission sid (set_last_retried (some at)) db)
      ≡ (outcome, d)
    → is_proven outcome ≡ true
    → IsHandedBack sid later (revive sid hz at db)
unfolding has_refunded_submission
revive-IsClaimable sid at later hz outcome s db d found claim settles proven =
    let leased = update_submission sid (set_last_retried (some at)) db in
    let framed : d ≡ (record leased { attempts = d.attempts }) =
      subst (λ (p : Settlement × Db). p.1 ≡ (record leased { attempts = p.1.attempts })) settles
        (settle_open_attempt-frame sid hz at leased) in
    subst (λ (p : Revival × Db). IsHandedBack sid later p)
      (sym (revives sid at hz outcome s db d found claim settles))
      (settled-IsClaimable sid later outcome (set_last_retried (some at) s) d proven
        (ap (find_submission sid) framed
          ∙ find-update_submission sid (set_last_retried (some at)) db s (λ a. refl) found)
        claim.no_hash (ap (has_refunded_submission sid) framed ∙ claim.funded))

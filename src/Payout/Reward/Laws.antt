-- ===== src/Payout/Reward/Laws.antt =====
-- On `payReward` of lib/payout.ts.
use centient.Common.{
  ℕ, ◌+◌, ◌≤◌, ◌≡◌, ◌≢◌, ◌⊎◌, inl, inr, refl, sym, ap, subst, Bool, true, Option, none, some,
  Result, ok, err, arith, Bool-cases, some-inj, if◌then◌else◌,
}
use centient.Payout.Cap.{
  get_daily_payout_cap_units, get_payout_activity_since, check_payout_cap, CapError, CapCheck,
}
use centient.Payout.Cap.Laws.{check_payout_cap_allows}
use centient.Stellar.Ledger.{PayoutReference, submission}
use centient.Stellar.Submitter.{Outcome}
use centient.Stellar.Submitter.Cycle.{PayoutRequest, World, submit_multisig_payout}
use centient.Stellar.Submitter.Cycle.Safe.{
  HonestCycle, may_retry, Paid, applied_count, submit_multisig_payout-Paid,
}
use centient.Stellar.Submitter.Cycle.Journalled.{CannotOpen, submit_multisig_payout-CannotOpen}
use centient.Payout.Reward.{
  reward_in_units, or_next, RewardError, not_submitted, Paying, Reward, setup_of, ended,
  reward_outcome, after_submission, submit_reward, after_cap, pay_amount, pay_reward,
}

-- Under a cap that is not zero, what was broadcast in the window and the payout together stay within
-- it.
abbrev pub WithinCap : Paying → ℕ → Type 0
WithinCap p amount =
    get_daily_payout_cap_units p.cap ≢ 0
    → (get_payout_activity_since p.since p.seen).volume_units + amount
      ≤ get_daily_payout_cap_units p.cap

-- What a payer does with the error of `payReward`.
abbrev pub may_pay_again : RewardError → Bool
may_pay_again (not_submitted e) = may_retry e
may_pay_again _ = true

-- A reward that was paid was paid once; one that may be paid again was not paid; any other was paid
-- at most once.
abbrev pub IsPaidOnce : ℕ → ℕ → Result RewardError ℕ → Type 0
IsPaidOnce before after (ok hash) = after ≡ before + 1
IsPaidOnce before after (err e) = if may_pay_again e then after ≡ before else after ≤ before + 1

-- The request of a call that has this amount.
abbrev pub request_for : PayoutReference → ℕ → ℕ → PayoutRequest
request_for reference destination amount = record {
  reference = reference;
  destination = destination;
  amount_units = amount;
}

-- What `after_cap` leaves: the rail as it was, or what the submission left, under the cap.
data Left (p : Paying) (request : PayoutRequest) (rail : World) : Reward → Type 0 where
  untouched :
      (r : Reward) (e : RewardError)
      → r.outcome ≡ err e
      → may_pay_again e ≡ true
      → r.rail ≡ rail
      → Left p request rail r
  submitted :
      (outcome : Outcome) (rail' : World)
      → WithinCap p request.amount_units
      → submit_multisig_payout (setup_of p request.reference) request p.first p.second rail
        ≡ some (outcome, rail')
      → Left p request rail (ended (reward_outcome outcome) rail')

after_submission-Left :
    (p : Paying) (request : PayoutRequest) (rail : World) (o : Option (Outcome × World))
    (r : Reward)
    → WithinCap p request.amount_units
    → submit_multisig_payout (setup_of p request.reference) request p.first p.second rail ≡ o
    → after_submission o ≡ some r
    → Left p request rail r
after_submission-Left p request rail none r within ran e = absurd (ground arith)
after_submission-Left p request rail (some (outcome, rail')) r within ran e =
    subst (λ (x : Reward). Left p request rail x) (some-inj e) (submitted outcome rail' within ran)

submit_reward-Left :
    (p : Paying) (request : PayoutRequest) (rail : World) (r : Reward)
    → WithinCap p request.amount_units
    → submit_reward p request rail ≡ some r
    → Left p request rail r
submit_reward-Left p request rail r within e = elim (Bool-cases p.co_signer) [
  | inl there ↦ after_submission-Left p request rail _ r within refl (rw there at e)
  | inr missing ↦
      subst (λ (x : Reward). Left p request rail x) (some-inj (rw missing at e))
        (untouched _ _ refl refl refl)
]

after_cap-Left :
    (p : Paying) (request : PayoutRequest) (rail : World) (c : Result CapError CapCheck)
    (r : Reward)
    → check_payout_cap p.cap p.since request.amount_units p.seen ≡ c
    → after_cap p request rail c ≡ some r
    → Left p request rail r
after_cap-Left p request rail (err e) r checked same =
    subst (λ (x : Reward). Left p request rail x) (some-inj same) (untouched _ _ refl refl refl)
after_cap-Left p request rail (ok c) r checked e =
    submit_reward-Left p request rail r
      (λ capped.
        (check_payout_cap_allows p.cap p.since request.amount_units p.seen capped).0 (c, checked))
      e

-- What a call leaves, when its amount is known.
pay_amount-Left :
    (p : Paying) (destination : ℕ) (reference : PayoutReference) (amount : ℕ) (rail : World)
    (r : Reward)
    → pay_amount p destination reference (some amount) rail ≡ some r
    → Left p (request_for reference destination amount) rail r
pay_amount-Left p destination reference amount rail r e =
    after_cap-Left p (request_for reference destination amount) rail _ r refl e

IsPaidOnce-reward_outcome :
    (before after : ℕ) (outcome : Outcome)
    → Paid before after outcome
    → IsPaidOnce before after (reward_outcome outcome)
IsPaidOnce-reward_outcome before after (ok hash) paid = paid
IsPaidOnce-reward_outcome before after (err e) paid = paid

-- Both runs of the submission meet an honest Horizon.
abbrev pub IsHonestPayment : (ℕ → Bool) → Paying → PayoutRequest → Type 0
IsHonestPayment applied p request =
    HonestCycle applied (setup_of p request.reference) request p.first
    × HonestCycle applied (setup_of p request.reference) request p.second

module _ (p : Paying) (request : PayoutRequest) (rail : World) where
  Left-IsPaidOnce :
      (applied : ℕ → Bool) (r : Reward)
      → IsHonestPayment applied p request
      → Left p request rail r
      → IsPaidOnce
          (applied_count applied p.setup.sdk rail.sent)
          (applied_count applied p.setup.sdk r.rail.sent)
          r.outcome
  Left-IsPaidOnce applied r honest (untouched s e failed again same) = rw (failed, again, same) refl
  Left-IsPaidOnce applied r honest (submitted outcome rail' within ran) =
      IsPaidOnce-reward_outcome _ _ outcome (
        submit_multisig_payout-Paid applied (setup_of p request.reference) request p.first p.second
          rail outcome rail' honest.0 honest.1 ran)

  Left-WithinCap :
      (r : Reward) → Left p request rail r → (r.rail ≡ rail) ⊎ WithinCap p request.amount_units
  Left-WithinCap r (untouched s e failed again same) = inl same
  Left-WithinCap r (submitted outcome rail' within ran) = inr within

  Left-CannotOpen :
      (r : Reward) (sid : ℕ)
      → request.reference ≡ record { kind = submission; id = sid }
      → CannotOpen sid rail.db
      → Left p request rail r
      → r.rail ≡ rail
  Left-CannotOpen r sid ref h (untouched s e failed again same) = same
  Left-CannotOpen r sid ref h (submitted outcome rail' within ran) =
      submit_multisig_payout-CannotOpen (setup_of p request.reference) request p.first p.second sid
        rail outcome rail' (rw ref refl) h ran

-- While Horizon's answers are honest, a reward that `payReward` returns was paid by exactly one
-- envelope, one whose error lets a payer try again by none, and any other by at most one; and the
-- rail was touched only if the cap in force leaves room for the amount.
pub pay_reward-IsPaidOnce :
    (applied : ℕ → Bool) (p : Paying) (destination amount : ℕ) (amount_units : Option ℕ)
    (reference : PayoutReference) (rail : World) (r : Reward)
    → or_next amount_units (reward_in_units p.reward_amount) ≡ some amount
    → IsHonestPayment applied p (request_for reference destination amount)
    → pay_reward p destination amount_units reference rail ≡ some r
    → IsPaidOnce
        (applied_count applied p.setup.sdk rail.sent)
        (applied_count applied p.setup.sdk r.rail.sent)
        r.outcome
      × ((r.rail ≡ rail) ⊎ WithinCap p amount)
unfolding pay_reward
pay_reward-IsPaidOnce applied p destination amount amount_units reference rail r known honest e =
    let left = pay_amount-Left p destination reference amount rail r (rw known at e) in
    (
      Left-IsPaidOnce p (request_for reference destination amount) rail applied r honest left,
      Left-WithinCap p (request_for reference destination amount) rail r left,
    )

pay_amount-CannotOpen :
    (p : Paying) (destination sid : ℕ) (amount : Option ℕ) (rail : World) (r : Reward)
    → CannotOpen sid rail.db
    → pay_amount p destination (record { kind = submission; id = sid }) amount rail ≡ some r
    → r.rail ≡ rail
pay_amount-CannotOpen p destination sid none rail r h e =
    ap (λ (x : Reward). x.rail) (sym (some-inj e))
pay_amount-CannotOpen p destination sid (some amount) rail r h e =
    Left-CannotOpen p (request_for (record { kind = submission; id = sid }) destination amount) rail
      r sid refl h
      (pay_amount-Left p destination (record { kind = submission; id = sid }) amount rail r e)

-- `payReward` for a submission that is paid, not payable or missing, or that has an open envelope,
-- hands nothing to Horizon and writes nothing, whatever setting the submitter is given.
pub pay_reward-CannotOpen :
    (p : Paying) (destination sid : ℕ) (amount_units : Option ℕ) (rail : World) (r : Reward)
    → CannotOpen sid rail.db
    → pay_reward p destination amount_units (record { kind = submission; id = sid }) rail ≡ some r
    → r.rail ≡ rail
unfolding pay_reward
pay_reward-CannotOpen p destination sid amount_units rail r h e =
    pay_amount-CannotOpen p destination sid _ rail r h e

-- ===== src/Gamification/Tiers/Laws.antt =====
-- On `evaluateTier` of lib/gamification/tiers.ts.
use centient.Common.{
  ℕ, zero, suc, ◌+◌, ◌≤◌, ◌<◌, ◌≡◌, List, [], ◌∷◌, sym, ap, ◌∙◌, ◌↔◌, inl, inr, refl, true, false,
  Option, none, some, ◌&&◌, not, leb, ltb, if◌then◌else◌, subst, some-inj, ◌==◌, ==_iff, arith,
  Bool-cases,
}
use centient.Gamification.Tiers.{
  tier_at, TierState, TierSignals, TierEvent, check_passed, opens_tiers, qualifies, TierResult,
  held, passes_after, highest_qualified, open_tier, open_highest, evaluate_tier, evaluate_all,
  is_check_passed, is_check_failed, max_difficulty, tier_of_difficulty, reopen_after_passes,
}

-- The tier that the loop finds: above the current one, qualified for, and no higher one is.
pub record IsHighest (tier n : ℕ) (s : TierSignals) (t : ℕ) : Type 0 where
  pub above : tier < t
  pub within : t ≤ n
  pub qualified : qualifies (tier_at t) s ≡ true
  pub highest : (u : ℕ) → t < u → u ≤ n → qualifies (tier_at u) s ≡ false

IsHighest-suc :
    (tier n : ℕ) (s : TierSignals) (t : ℕ)
    → qualifies (tier_at (suc n)) s ≡ false
    → IsHighest tier n s t
    → IsHighest tier (suc n) s t
IsHighest-suc tier n s t not_it h = record {
  above = h.above;
  within = omega (arith, h.within);
  qualified = h.qualified;
  highest = λ u low high. elim (Bool-cases (u == suc n)) [
    | inl last ↦ rw ((==_iff u (suc n)).0 last) not_it
    | inr lower ↦ h.highest u low (ground arith)
  ];
}

not-some : (t : ℕ) → ◌≡◌ {A = Option ℕ} none (some t) → ⊥
not-some t e = cc

highest_qualified-IsHighest :
    (tier n : ℕ) (s : TierSignals) (t : ℕ)
    → highest_qualified tier n s ≡ some t
    → IsHighest tier n s t
unfolding highest_qualified
highest_qualified-IsHighest tier zero s t h = absurd (ground arith)
highest_qualified-IsHighest tier (suc n) s t h = elim (Bool-cases (ltb tier (suc n))) [
  | inl above ↦ elim (Bool-cases (qualifies (tier_at (suc n)) s)) [
    | inl it ↦
        let same : suc n ≡ t = some-inj (rw (above, it) at h) in
        rw (← same) (record {
          above = ground arith;
          within = omega arith;
          qualified = it;
          highest = λ u low high. absurd (omega arith);
        })
    | inr not_it ↦
        IsHighest-suc tier n s t not_it
          (highest_qualified-IsHighest tier n s t (rw (above, not_it) at h))
  ]
  | inr done_here ↦ absurd (not-some t (rw done_here at h))
]

held-tier :
    (current : TierState) (s : TierSignals) (event : TierEvent)
    → (held current s event).state.tier ≡ current.tier
held-tier current s event = ground arith

held-tier_up :
    (current : TierState) (s : TierSignals) (event : TierEvent)
    → (held current s event).tier_up ≡ none
held-tier_up current s event = ground arith

open_tier-le :
    (r : TierResult) (n : ℕ) (s : TierSignals) (o : Option ℕ)
    → highest_qualified r.state.tier n s ≡ o
    → r.state.tier ≤ (open_tier r o).state.tier
open_tier-le r n s none h = omega arith
open_tier-le r n s (some t) h =
    omega (arith, (highest_qualified-IsHighest r.state.tier n s t h).above)

-- No event takes a tier away.
pub evaluate_tier_keeps :
    (current : TierState) (s : TierSignals) (event : TierEvent)
    → current.tier ≤ (evaluate_tier current s event).state.tier
unfolding evaluate_tier
evaluate_tier_keeps current s event =
    elim (Bool-cases (not (held current s event).state.on_hold && opens_tiers event)) [
      | inl opens ↦ rw opens (
          subst
            (λ (n : ℕ).
              n
              ≤ (open_tier (held current s event)
                  (highest_qualified (held current s event).state.tier 3 s)).state.tier)
            (held-tier current s event) (open_tier-le (held current s event) 3 s _ refl))
      | inr shut ↦ rw shut (omega (arith, held-tier current s event))
    ]

-- A task is served to a labeler whose tier is open exactly if that tier is no lower than the task's.
pub tier_of_difficulty_iff :
    (difficulty tier : ℕ)
    → difficulty ≤ 9
    → tier ≤ 3
    → (difficulty ≤ max_difficulty tier false) ↔ (tier_of_difficulty (some difficulty) ≤ tier)
unfolding max_difficulty tier_of_difficulty
tier_of_difficulty_iff difficulty zero d t = ground arith
tier_of_difficulty_iff difficulty (suc zero) d t = ground arith
tier_of_difficulty_iff difficulty (suc (suc zero)) d t = ground arith
tier_of_difficulty_iff difficulty (suc (suc (suc zero))) d t = ground arith
tier_of_difficulty_iff difficulty (suc (suc (suc (suc n)))) d t = absurd (omega arith)

open_tier-up :
    (r : TierResult) (s : TierSignals) (o : Option ℕ) (t : ℕ)
    → r.tier_up ≡ none
    → highest_qualified r.state.tier 3 s ≡ o
    → (open_tier r o).tier_up ≡ some t
    → IsHighest r.state.tier 3 s t
      × ((open_tier r o).state.tier ≡ t)
      × ((open_tier r o).state.on_hold ≡ r.state.on_hold)
open_tier-up r s none t shut found h = absurd (not-some t (sym shut ∙ h))
open_tier-up r s (some u) t shut found h =
    let same : u ≡ t = some-inj h in
    rw (← same) (highest_qualified-IsHighest r.state.tier 3 s u found, refl, refl)

open_highest-up :
    (r : TierResult) (s : TierSignals) (event : TierEvent) (t : ℕ)
    → r.tier_up ≡ none
    → (open_highest r s event).tier_up ≡ some t
    → IsHighest r.state.tier 3 s t
      × ((open_highest r s event).state.tier ≡ t)
      × ((open_highest r s event).state.on_hold ≡ false)
      × (opens_tiers event ≡ true)
open_highest-up r s event t shut h = elim (Bool-cases (not r.state.on_hold && opens_tiers event)) [
  | inl opens ↦
      let (highest, tier, hold) = open_tier-up r s _ t shut refl (rw opens at h) in
      rw opens (highest, tier, hold ∙ (ground arith), ground arith)
  | inr closed ↦ absurd (not-some t (sym shut ∙ (rw closed at h)))
]

-- A tier opens only on an answer or a passed check, and it is the highest above the current one that
-- the signals qualify for; the labeler is then in it and not on hold.
pub evaluate_tier_opens :
    (current : TierState) (s : TierSignals) (event : TierEvent) (t : ℕ)
    → (evaluate_tier current s event).tier_up ≡ some t
    → IsHighest current.tier 3 s t
      × ((evaluate_tier current s event).state.tier ≡ t)
      × ((evaluate_tier current s event).state.on_hold ≡ false)
      × (opens_tiers event ≡ true)
unfolding evaluate_tier
evaluate_tier_opens current s event t h =
    let (highest, tier, hold, opens) =
      open_highest-up (held current s event) s event t (held-tier_up current s event) h in
    (subst (λ (n : ℕ). IsHighest n 3 s t) (held-tier current s event) highest, tier, hold, opens)

-- No check fails among the events.
abbrev pub NoFailure : List (TierSignals × TierEvent) → Type 0
NoFailure [] = Unit
NoFailure ((s, event) ∷ events) = (is_check_failed event ≡ false) × NoFailure events

abbrev pub passes_in : List (TierSignals × TierEvent) → ℕ
passes_in [] = 0
passes_in ((s, event) ∷ events) = (if is_check_passed event then 1 else 0) + passes_in events

on_hold-step :
    (tier passes : ℕ) (s : TierSignals) (event : TierEvent)
    → is_check_failed event ≡ false
    → (if is_check_passed event then 1 else 0) + passes < reopen_after_passes
    → (evaluate_tier
        (record { tier = tier; on_hold = true; hold_checks_passed = passes })
        s
        event).state
      ≡ record {
        tier = tier;
        on_hold = true;
        hold_checks_passed = (if is_check_passed event then 1 else 0) + passes;
      }
unfolding evaluate_tier
on_hold-step tier passes s event fine few =
    let counted : passes_after event passes ≡ (if is_check_passed event then 1 else 0) + passes =
      ground arith in
    let held_on : leb reopen_after_passes (passes_after event passes) ≡ false = ground arith in
    rw held_on
      (ap (λ (n : ℕ). record { tier = tier; on_hold = true; hold_checks_passed = n }) counted)

-- A hold lasts, whatever the signals have become, until three checks have passed in a row.
pub evaluate_all-on_hold :
    (tier passes : ℕ) (events : List (TierSignals × TierEvent))
    → NoFailure events
    → passes_in events + passes < reopen_after_passes
    → evaluate_all (record { tier = tier; on_hold = true; hold_checks_passed = passes }) events
      ≡ record { tier = tier; on_hold = true; hold_checks_passed = passes_in events + passes }
unfolding evaluate_all
evaluate_all-on_hold tier passes [] fine few =
    ap (λ (n : ℕ). record { tier = tier; on_hold = true; hold_checks_passed = n }) (omega arith)
evaluate_all-on_hold tier passes ((s, event) ∷ events) fine few =
    rw (on_hold-step tier passes s event fine.0 (omega arith)) (
      evaluate_all-on_hold tier ((if is_check_passed event then 1 else 0) + passes) events fine.1
        (omega arith)
      ∙ ap (λ (n : ℕ). record { tier = tier; on_hold = true; hold_checks_passed = n })
          (omega arith))

open_tier-kept :
    (r : TierResult) (o : Option ℕ)
    → ((open_tier r o).reopened ≡ r.reopened) × ((open_tier r o).state.on_hold ≡ r.state.on_hold)
open_tier-kept r none = (refl, refl)
open_tier-kept r (some t) = (refl, refl)

open_highest-kept :
    (r : TierResult) (s : TierSignals) (event : TierEvent)
    → r.reopened ≡ true
    → r.state.on_hold ≡ false
    → ((open_highest r s event).reopened ≡ true) × ((open_highest r s event).state.on_hold ≡ false)
open_highest-kept r s event reopened free =
    elim (Bool-cases (not r.state.on_hold && opens_tiers event)) [
      | inl opens ↦
          let (same, hold) = open_tier-kept r (highest_qualified r.state.tier 3 s) in
          rw opens (same ∙ reopened, hold ∙ free)
      | inr shut ↦ rw shut (reopened, free)
    ]

-- The third check passed in a row reopens the tier.
pub evaluate_tier_reopens :
    (tier : ℕ) (s : TierSignals)
    → ((evaluate_tier
          (record { tier = tier; on_hold = true; hold_checks_passed = 2 })
          s
          check_passed).reopened
        ≡ true)
      × ((evaluate_tier
            (record { tier = tier; on_hold = true; hold_checks_passed = 2 })
            s
            check_passed).state.on_hold
          ≡ false)
unfolding evaluate_tier
evaluate_tier_reopens tier s = open_highest-kept _ s check_passed refl refl

-- ===== src/Gamification/Streak/Laws.antt =====
-- On `settleStreak` and `effectiveStreak` of lib/gamification/rules.ts.
use centient.Common.{
  ℕ, zero, suc, ◌+◌, ◌-◌, ◌≤◌, ◌<◌, ◌≡◌, ◌≢◌, ◌⊎◌, inl, inr, refl, Bool, true, false, Option, none,
  some, List, [], ◌∷◌, ◌==◌, ltb, not, filter, length, opt_eq, opt_eq_iff, ==_iff, ==_refl, arith,
  Bool-cases, any,
}
use centient.Gamification.Streak.{
  StreakState, Gap, cover, missed_days, gap_since, cover_gap, settle_gap, settle_streak,
  effective_gap, has_ended, ended_at, effective_streak, is_goal_day, days_from, day_keys_between,
  max_rest_days, next_days,
}

-- The rest days are within their bound and the best streak is no shorter than the streak.
pub record IsStreak (s : StreakState) : Type 0 where
  pub rested : s.rest_days ≤ max_rest_days
  pub best : s.streak_days ≤ s.best_streak

cover_bounds :
    (rest_days : ℕ) (missed : List ℕ) → length (cover rest_days missed).rest_used_days ≤ rest_days
cover_bounds rest_days missed = ground arith

gap_since_bounds :
    (last : Option ℕ) (rest_days today : ℕ) (is_protected : ℕ → Bool)
    → length (gap_since last rest_days today is_protected).rest_used_days ≤ rest_days
gap_since_bounds none rest_days today is_protected = omega arith
gap_since_bounds (some last) rest_days today is_protected = cover_bounds rest_days _

cover_gap_bounds :
    (s : StreakState) (today : ℕ) (is_protected : ℕ → Bool)
    → length (cover_gap s today is_protected).rest_used_days ≤ s.rest_days
unfolding cover_gap
cover_gap_bounds s today is_protected =
    gap_since_bounds s.last_goal_day s.rest_days today is_protected

settle_gap-IsStreak :
    (s : StreakState) (today : ℕ) (gap : Gap)
    → IsStreak s
    → length gap.rest_used_days ≤ s.rest_days
    → IsStreak (settle_gap s today gap).state
settle_gap-IsStreak s today gap h used = record {
  rested = ground (arith, h.rested);
  best = ground (arith, h.best);
}

-- Settling keeps both bounds, never spends more rest days than are held, and leaves a streak of at
-- least one day, whose last day is today.
pub settle_streak-IsStreak :
    (s : StreakState) (today : ℕ) (is_protected : ℕ → Bool)
    → IsStreak s
    → is_goal_day s today ≡ false
    → IsStreak (settle_streak s today is_protected).state
      × (length (settle_streak s today is_protected).rest_used_days ≤ s.rest_days)
      × (0 < (settle_streak s today is_protected).state.streak_days)
      × ((settle_streak s today is_protected).state.last_goal_day ≡ some today)
unfolding settle_streak
settle_streak-IsStreak s today is_protected h new = rw new (
  settle_gap-IsStreak s today _ h (cover_gap_bounds s today is_protected),
  cover_gap_bounds s today is_protected,
  omega arith,
  refl,
)

opt_eq_self : (today : ℕ) → opt_eq (some today) (some today) ≡ true
opt_eq_self today = (opt_eq_iff (some today) (some today)).1 refl

-- Settling the same day once more changes nothing and awards nothing.
pub settle_streak_again :
    (s : StreakState) (today : ℕ) (is_protected later : ℕ → Bool)
    → (settle_streak (settle_streak s today is_protected).state today later).state
        ≡ (settle_streak s today is_protected).state
      × ((settle_streak (settle_streak s today is_protected).state today later).milestone ≡ 0)
unfolding settle_streak
settle_streak_again s today is_protected later = elim (Bool-cases (is_goal_day s today)) [
  | inl met ↦ rw (met, met) (refl, refl)
  | inr new ↦ rw (new, opt_eq_self today) (refl, refl)
]

cover-broken :
    (rest_days : ℕ) (missed : List ℕ)
    → (cover rest_days missed).broken ≡ true
    → (cover rest_days missed).rest_used_days ≡ []
cover-broken rest_days missed h = ground arith

gap_since-broken :
    (last : Option ℕ) (rest_days today : ℕ) (is_protected : ℕ → Bool)
    → (gap_since last rest_days today is_protected).broken ≡ true
    → (gap_since last rest_days today is_protected).rest_used_days ≡ []
gap_since-broken none rest_days today is_protected h = refl
gap_since-broken (some last) rest_days today is_protected h = cover-broken rest_days _ h

cover_gap-broken :
    (s : StreakState) (today : ℕ) (is_protected : ℕ → Bool)
    → (cover_gap s today is_protected).broken ≡ true
    → (cover_gap s today is_protected).rest_used_days ≡ []
unfolding cover_gap
cover_gap-broken s today is_protected h =
    gap_since-broken s.last_goal_day s.rest_days today is_protected h

effective_gap_lem :
    (s : StreakState) (gap : Gap)
    → (gap.broken ≡ true → gap.rest_used_days ≡ [])
    → (gap.rest_used_days ≡ (effective_gap s gap).rest_used_days)
      × (has_ended s gap ≡ (effective_gap s gap).ended)
      × (ended_at s gap ≡ (effective_gap s gap).ended_at_days)
      × (next_days s gap ≡ (effective_gap s gap).days + 1)
effective_gap_lem s gap spent = elim (Bool-cases gap.broken) [
  | inl broken ↦ elim (Bool-cases (ltb 0 s.streak_days)) [
    | inl running ↦ rw (broken, running) (spent broken, refl, refl, refl)
    | inr none_yet ↦ rw (broken, none_yet) (refl, refl, refl, ground arith)
  ]
  | inr whole ↦ rw whole (refl, refl, refl, refl)
]

-- What the streak shows before the goal is met is what meeting it settles: the same rest days are
-- spent, it has ended for the one exactly if for the other, and the new streak is one day longer
-- than the one that was shown.
pub settle_streak-effective_streak :
    (s : StreakState) (today : ℕ) (is_protected : ℕ → Bool)
    → is_goal_day s today ≡ false
    → ((settle_streak s today is_protected).rest_used_days
        ≡ (effective_streak s today is_protected).rest_used_days)
      × ((settle_streak s today is_protected).ended ≡ (effective_streak s today is_protected).ended)
      × ((settle_streak s today is_protected).ended_at_days
          ≡ (effective_streak s today is_protected).ended_at_days)
      × ((settle_streak s today is_protected).state.streak_days
          ≡ (effective_streak s today is_protected).days + 1)
unfolding settle_streak effective_streak
settle_streak-effective_streak s today is_protected new =
    rw new
      (effective_gap_lem s (cover_gap s today is_protected) (cover_gap-broken s today is_protected))

-- The day is one of those.
abbrev pub IsAmong : ℕ → List ℕ → Type 0
IsAmong d days = any (λ x. x == d) days ≡ true

IsAmong-filter :
    (p : ℕ → Bool) (d : ℕ) (days : List ℕ)
    → IsAmong d days
    → (p d ≡ false) ⊎ IsAmong d (filter p days)
IsAmong-filter p d [] h = cc
IsAmong-filter p d (x ∷ days) h = elim (Bool-cases (x == d)) [
  | inl same ↦
      let here : x ≡ d = (==_iff x d).0 same in
      elim (Bool-cases (p d)) [
        | inl kept ↦ inr (rw here (rw kept (rw (==_refl d) refl)))
        | inr dropped ↦ inl dropped
      ]
  | inr other ↦ elim (IsAmong-filter p d days (rw other at h)) [
    | inl dropped ↦ inl dropped
    | inr kept ↦ inr (ground (arith, kept))
  ]
]

IsAmong-days_from : (from n d : ℕ) → from ≤ d → d < from + n → IsAmong d (days_from from n)
unfolding days_from
IsAmong-days_from from zero d low high = absurd (omega arith)
IsAmong-days_from from (suc n) d low high = elim (Bool-cases (from == d)) [
  | inl same ↦ rw same refl
  | inr other ↦ rw other (IsAmong-days_from (suc from) n d (ground arith) (ground arith))
]

IsAmong-missed :
    (last today : ℕ) (is_protected : ℕ → Bool) (d : ℕ)
    → last < d
    → d < today
    → (is_protected d ≡ true) ⊎ IsAmong d (missed_days last today is_protected)
unfolding day_keys_between
IsAmong-missed last today is_protected d low high =
    elim (IsAmong-filter (λ x. not (is_protected x)) d (days_from (suc last) (today - suc last))
      (IsAmong-days_from (suc last) (today - suc last) d (omega arith) (omega arith))) [
        | inl dropped ↦ inl (ground arith)
        | inr missed ↦ inr missed
      ]

gap_since-covers :
    (last rest_days today : ℕ) (is_protected : ℕ → Bool) (d : ℕ)
    → (gap_since (some last) rest_days today is_protected).broken ≡ false
    → last < d
    → d < today
    → (is_protected d ≡ true)
      ⊎ IsAmong d (gap_since (some last) rest_days today is_protected).rest_used_days
gap_since-covers last rest_days today is_protected d whole low high =
    let enough : ltb rest_days (length (missed_days last today is_protected)) ≡ false =
      ground arith in
    rw enough (IsAmong-missed last today is_protected d low high)

restarts : (days : ℕ) → 0 < days → 1 ≢ days + 1
restarts days running e = omega arith

-- A streak that goes on is unbroken: when meeting today's goal makes it longer, every day since the
-- last goal was one on which nothing was open for the labeler, or is covered by a rest day that the
-- settlement spends, and it spends no more rest days than the labeler holds.
pub settle_streak-covers :
    (s : StreakState) (last today : ℕ) (is_protected : ℕ → Bool) (d : ℕ)
    → s.last_goal_day ≡ some last
    → (settle_streak s today is_protected).state.streak_days ≡ s.streak_days + 1
    → 0 < s.streak_days
    → last < d
    → d < today
    → ((is_protected d ≡ true) ⊎ IsAmong d (settle_streak s today is_protected).rest_used_days)
      × (length (settle_streak s today is_protected).rest_used_days ≤ s.rest_days)
unfolding settle_streak cover_gap
settle_streak-covers s last today is_protected d goal longer running low high =
    let new : is_goal_day s today ≡ false = rw goal (ground arith) in
    elim (Bool-cases (gap_since (some last) s.rest_days today is_protected).broken) [
      | inl broken ↦ absurd (restarts s.streak_days running (rw (new, goal, broken) at longer))
      | inr whole ↦
          rw (new, goal)
            (
              gap_since-covers last s.rest_days today is_protected d whole low high,
              gap_since_bounds (some last) s.rest_days today is_protected,
            )
    ]

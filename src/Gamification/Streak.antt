-- ===== src/Gamification/Streak.antt =====
-- lib/gamification/rules.ts and the day keys of lib/gamification/time.ts.
pub mod Laws
use centient.Common.{
  ℕ, zero, suc, ◌+◌, ◌-◌, ◌%◌, max, Bool, true, false, Option, none, some, List, [], ◌∷◌, ◌==◌,
  ◌&&◌, not, ltb, leb, if◌then◌else◌, filter, length, opt_eq,
}

abbrev pub quality_check_xp : ℕ
quality_check_xp = 5

abbrev pub daily_goal_xp : ℕ
daily_goal_xp = 20

abbrev pub daily_goal : ℕ
daily_goal = 5

abbrev pub rest_day_every : ℕ
rest_day_every = 7

abbrev pub max_rest_days : ℕ
max_rest_days = 2

-- `STREAK_MILESTONES[days] ?? 0`
abbrev pub milestone_xp : ℕ → ℕ
milestone_xp days =
    if days == 3
    then 25
    else (if days == 7 then 50 else (if days == 14 then 100 else (if days == 30 then 200 else 0)))

-- `answerXp`
abbrev pub answer_xp : Option ℕ → ℕ
answer_xp none = 10
answer_xp (some difficulty) = if leb difficulty 3 then 10 else (if leb difficulty 6 then 15 else 20)

pub record StreakState : Type 0 where
  pub streak_days : ℕ
  pub best_streak : ℕ
  pub rest_days : ℕ
  pub last_goal_day : Option ℕ

-- The days from `from` on, so many of them.
unfoldable pub days_from : ℕ → ℕ → List ℕ
days_from from zero = []
days_from from (suc n) = from ∷ days_from (suc from) n

-- `dayKeysBetween`: strictly after `from` and strictly before `to`.
unfoldable pub day_keys_between : ℕ → ℕ → List ℕ
unfolding days_from
day_keys_between from to = days_from (suc from) (to - suc from)

pub record Gap : Type 0 where
  pub rest_used_days : List ℕ
  pub broken : Bool

abbrev pub cover : ℕ → List ℕ → Gap
cover rest_days missed =
    if ltb rest_days (length missed)
    then record { rest_used_days = []; broken = true }
    else record { rest_used_days = missed; broken = false }

-- The days that a rest day must cover.
abbrev pub missed_days : ℕ → ℕ → (ℕ → Bool) → List ℕ
missed_days last today is_protected =
    filter (λ d. not (is_protected d)) (day_keys_between last today)

-- `coverGap`
abbrev pub gap_since : Option ℕ → ℕ → ℕ → (ℕ → Bool) → Gap
gap_since none rest_days today is_protected = record { rest_used_days = []; broken = false }
gap_since (some last) rest_days today is_protected =
    cover rest_days (missed_days last today is_protected)

unfoldable pub cover_gap : StreakState → ℕ → (ℕ → Bool) → Gap
unfolding day_keys_between
cover_gap state today is_protected =
    gap_since state.last_goal_day state.rest_days today is_protected

pub record Settlement : Type 0 where
  pub state : StreakState
  pub already_met : Bool
  pub rest_used_days : List ℕ
  pub ended : Bool
  pub ended_at_days : Option ℕ
  pub milestone : ℕ
  pub rest_earned : Bool

abbrev pub is_goal_day : StreakState → ℕ → Bool
is_goal_day state today = opt_eq state.last_goal_day (some today)

abbrev pub has_ended : StreakState → Gap → Bool
has_ended state gap = gap.broken && ltb 0 state.streak_days

abbrev pub ended_at : StreakState → Gap → Option ℕ
ended_at state gap = if has_ended state gap then some state.streak_days else none

abbrev pub next_days : StreakState → Gap → ℕ
next_days state gap = (if gap.broken then 0 else state.streak_days) + 1

abbrev pub earns_rest : ℕ → ℕ → Bool
earns_rest days rest_days = days % rest_day_every == 0 && ltb rest_days max_rest_days

abbrev pub settle_gap : StreakState → ℕ → Gap → Settlement
settle_gap state today gap =
    let days = next_days state gap in
    let left = state.rest_days - length gap.rest_used_days in
    let earned = earns_rest days left in
    record {
      state = record {
        streak_days = days;
        best_streak = max state.best_streak days;
        rest_days = if earned then left + 1 else left;
        last_goal_day = some today;
      };
      already_met = false;
      rest_used_days = gap.rest_used_days;
      ended = has_ended state gap;
      ended_at_days = ended_at state gap;
      milestone = milestone_xp days;
      rest_earned = earned;
    }

-- `settleStreak`
unfoldable pub settle_streak : StreakState → ℕ → (ℕ → Bool) → Settlement
unfolding cover_gap
settle_streak state today is_protected =
    if is_goal_day state today
    then record {
      state = state;
      already_met = true;
      rest_used_days = [];
      ended = false;
      ended_at_days = none;
      milestone = 0;
      rest_earned = false;
    }
    else settle_gap state today (cover_gap state today is_protected)

pub record EffectiveStreak : Type 0 where
  pub days : ℕ
  pub rest_days : ℕ
  pub rest_used_days : List ℕ
  pub ended : Bool
  pub ended_at_days : Option ℕ

abbrev pub effective_gap : StreakState → Gap → EffectiveStreak
effective_gap state gap =
    if has_ended state gap
    then record {
      days = 0;
      rest_days = state.rest_days;
      rest_used_days = [];
      ended = true;
      ended_at_days = some state.streak_days;
    }
    else record {
      days = state.streak_days;
      rest_days = state.rest_days - length gap.rest_used_days;
      rest_used_days = gap.rest_used_days;
      ended = false;
      ended_at_days = none;
    }

-- `effectiveStreak`
unfoldable pub effective_streak : StreakState → ℕ → (ℕ → Bool) → EffectiveStreak
unfolding cover_gap
effective_streak state today is_protected =
    if is_goal_day state today
    then record {
      days = state.streak_days;
      rest_days = state.rest_days;
      rest_used_days = [];
      ended = false;
      ended_at_days = none;
    }
    else effective_gap state (cover_gap state today is_protected)

-- `weekKeyOf`: the Monday of the week. The first of January 1970 was a Thursday.
unfoldable pub week_key_of : ℕ → ℕ
week_key_of day = day - (day + 3) % 7

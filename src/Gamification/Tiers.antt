-- ===== src/Gamification/Tiers.antt =====
-- lib/gamification/tiers.ts. Floors are in hundredths: `hits / total >= floor` compares the rounded
-- quotient with the rounded literal, which decides as the exact fractions do for the window sizes
-- in use. `TIERS[t]` beyond the table is not read by the code.
pub mod Laws
use centient.Common.{
  ℕ, zero, suc, ◌+◌, ◌-◌, ◌*◌, Bool, true, false, Option, none, some, List, [], ◌∷◌, ◌&&◌, ◌||◌,
  not, leb, ltb, ◌==◌, if◌then◌else◌, get_elem?, length,
}

pub record TierDef : Type 0 where
  pub id : ℕ
  pub xp : ℕ
  pub max_difficulty : ℕ
  pub check_floor : Option ℕ
  pub crowd_floor : Option ℕ
  pub active_days : Option ℕ

abbrev pub starter : TierDef
starter = record {
  id = 0;
  xp = 0;
  max_difficulty = 3;
  check_floor = none;
  crowd_floor = none;
  active_days = none;
}

abbrev pub skilled : TierDef
skilled = record {
  id = 1;
  xp = 250;
  max_difficulty = 5;
  check_floor = some 80;
  crowd_floor = none;
  active_days = none;
}

abbrev pub trusted : TierDef
trusted = record {
  id = 2;
  xp = 1_500;
  max_difficulty = 7;
  check_floor = some 85;
  crowd_floor = some 70;
  active_days = none;
}

abbrev pub expert : TierDef
expert = record {
  id = 3;
  xp = 4_000;
  max_difficulty = 9;
  check_floor = some 90;
  crowd_floor = some 75;
  active_days = some 20;
}

-- `TIERS`
abbrev pub tiers : List TierDef
tiers = starter ∷ skilled ∷ trusted ∷ expert ∷ []

abbrev pub or_starter : Option TierDef → TierDef
or_starter none = starter
or_starter (some def) = def

-- `TIERS[t]`
abbrev pub tier_at : ℕ → TierDef
tier_at t = or_starter (get_elem? tiers t)

abbrev pub min_checks : ℕ
min_checks = 5

abbrev pub min_crowd : ℕ
min_crowd = 20

abbrev pub reopen_after_passes : ℕ
reopen_after_passes = 3

pub record TierState : Type 0 where
  pub tier : ℕ
  pub on_hold : Bool
  pub hold_checks_passed : ℕ

pub record TierSignals : Type 0 where
  pub xp : ℕ
  pub checks_passed : ℕ
  pub checks_total : ℕ
  pub crowd_matched : ℕ
  pub crowd_total : ℕ
  pub active_days : ℕ

pub data TierEvent : Type 0 where
  answer check_passed check_failed crowd_match crowd_miss payout : TierEvent

-- `OPENS_TIERS`
abbrev pub opens_tiers : TierEvent → Bool
opens_tiers answer = true
opens_tiers check_passed = true
opens_tiers _ = false

abbrev pub is_check_passed : TierEvent → Bool
is_check_passed check_passed = true
is_check_passed _ = false

abbrev pub is_check_failed : TierEvent → Bool
is_check_failed check_failed = true
is_check_failed _ = false

abbrev pub is_crowd_miss : TierEvent → Bool
is_crowd_miss crowd_miss = true
is_crowd_miss _ = false

-- `effectiveTier`
abbrev pub effective_tier : ℕ → Bool → ℕ
effective_tier tier on_hold = if on_hold then tier - 1 else tier

-- `maxDifficulty`
unfoldable pub max_difficulty : ℕ → Bool → ℕ
max_difficulty tier on_hold = (tier_at (effective_tier tier on_hold)).max_difficulty

abbrev pub first_serving : ℕ → List TierDef → ℕ
first_serving difficulty [] = 3
first_serving difficulty (def ∷ defs) =
    if leb difficulty def.max_difficulty then def.id else first_serving difficulty defs

-- `tierOfDifficulty`
unfoldable pub tier_of_difficulty : Option ℕ → ℕ
tier_of_difficulty none = 0
tier_of_difficulty (some difficulty) = first_serving difficulty tiers

abbrev pub floor_met : ℕ → ℕ → ℕ → Option ℕ → Bool
floor_met hits total min none = true
floor_met hits total min (some floor) =
    if ltb total min then true else leb (floor * total) (hits * 100)

abbrev pub checks_met : TierDef → TierSignals → Bool
checks_met def s = floor_met s.checks_passed s.checks_total min_checks def.check_floor

abbrev pub crowd_met : TierDef → TierSignals → Bool
crowd_met def s = floor_met s.crowd_matched s.crowd_total min_crowd def.crowd_floor

abbrev pub days_met : Option ℕ → ℕ → Bool
days_met none days = true
days_met (some needed) days = leb needed days

-- `qualifies`
unfoldable pub qualifies : TierDef → TierSignals → Bool
qualifies def s =
    leb def.xp s.xp
    && (checks_met def s && (crowd_met def s && days_met def.active_days s.active_days))

pub record TierResult : Type 0 where
  pub state : TierState
  pub tier_up : Option ℕ
  pub held_now : Bool
  pub reopened : Bool

-- The passes in a row after the event, on a hold.
abbrev pub passes_after : TierEvent → ℕ → ℕ
passes_after event passes =
    if is_check_failed event then 0 else (if is_check_passed event then passes + 1 else passes)

abbrev pub on_a_hold : TierState → TierEvent → TierResult
on_a_hold current event =
    let passes = passes_after event current.hold_checks_passed in
    if leb reopen_after_passes passes
    then record {
      state = record { tier = current.tier; on_hold = false; hold_checks_passed = 0 };
      tier_up = none;
      held_now = false;
      reopened = true;
    }
    else record {
      state = record { tier = current.tier; on_hold = true; hold_checks_passed = passes };
      tier_up = none;
      held_now = false;
      reopened = false;
    }

-- Did the event lower a signal below a floor of the tier?
abbrev pub has_dropped : TierDef → TierSignals → TierEvent → Bool
has_dropped def s event =
    (is_check_failed event && not (checks_met def s))
    || (is_crowd_miss event && not (crowd_met def s))

abbrev pub unchanged : TierState → TierResult
unchanged current = record { state = current; tier_up = none; held_now = false; reopened = false }

abbrev pub not_on_hold : TierState → TierSignals → TierEvent → TierResult
not_on_hold current s event =
    if ltb 0 current.tier && has_dropped (tier_at current.tier) s event
    then record {
      state = record { tier = current.tier; on_hold = true; hold_checks_passed = 0 };
      tier_up = none;
      held_now = true;
      reopened = false;
    }
    else unchanged current

-- The hold that starts, goes on or ends.
abbrev pub held : TierState → TierSignals → TierEvent → TierResult
held current s event =
    if current.on_hold then on_a_hold current event else not_on_hold current s event

-- The loop from the highest tier down to the one above the current.
unfoldable pub highest_qualified : ℕ → ℕ → TierSignals → Option ℕ
highest_qualified tier zero s = none
highest_qualified tier (suc t) s =
    let lower = highest_qualified tier t s in
    if ltb tier (suc t)
    then (if qualifies (tier_at (suc t)) s then some (suc t) else lower)
    else none

abbrev pub open_tier : TierResult → Option ℕ → TierResult
open_tier r none = r
open_tier r (some t) = record r {
  state = record {
    tier = t;
    on_hold = r.state.on_hold;
    hold_checks_passed = r.state.hold_checks_passed;
  };
  tier_up = some t;
}

abbrev pub open_highest : TierResult → TierSignals → TierEvent → TierResult
open_highest r s event =
    if not r.state.on_hold && opens_tiers event
    then open_tier r (highest_qualified r.state.tier 3 s)
    else r

-- `evaluateTier`
unfoldable pub evaluate_tier : TierState → TierSignals → TierEvent → TierResult
unfolding highest_qualified qualifies
evaluate_tier current s event = open_highest (held current s event) s event

-- A labeler's events in order, each with the signals that it meets.
pub evaluate_all : TierState → List (TierSignals × TierEvent) → TierState
evaluate_all current [] = current
evaluate_all current ((s, event) ∷ events) =
    evaluate_all (evaluate_tier current s event).state events

-- ===== src/Gamification/Tests.antt =====
-- Runs of lib/gamification on small inputs.
use centient.Common.{
  ℕ, ◌≡◌, ◌≤◌, length, ◌⊎◌, refl, true, false, none, some, [], ◌∷◌, ◌==◌, if◌then◌else◌, find_by,
  update_by, arith,
}
use centient.Gamification.Streak.{
  week_key_of, StreakState, settle_streak, cover_gap, day_keys_between, days_from,
}
use centient.Gamification.Streak.Laws.{IsAmong, settle_streak-covers}
use centient.Gamification.Tiers.{
  TierState, TierSignals, check_passed, evaluate_tier, highest_qualified, qualifies, opens_tiers,
}
use centient.Gamification.Tiers.Laws.{IsHighest, evaluate_tier_opens}
use centient.Gamification.Ledger.{
  Labeler, XpDb, AcceptedAnswer, record_accepted, recorded, already, award, create_event,
  increment_xp, upsert_day, day_count,
}
use centient.Gamification.Ledger.Laws.{IsReconciled, record_accepted-IsReconciled}
use centient.Gamification.Ledger.Once.{record_accepted_once}
use centient.Gamification.Ledger.Quests.{award_quests, pay_quests, pay_event}
use centient.Gamification.Ledger.Quests.Once.{award_quests_once, is_line, week_rows}
use centient.Gamification.Ledger.Invites.{qualify_invite, pay_side, rewarded_count}
use centient.Gamification.Ledger.Invites.Laws.{
  paid_count, WithinInviteCap, qualify_invite-WithinInviteCap,
}

abbrev three_days : StreakState
three_days = record { streak_days = 3; best_streak = 5; rest_days = 1; last_goal_day = some 100 }

abbrev invited : Labeler
invited = record {
  id = 1;
  xp = 0;
  streak = three_days;
  tier = 1;
  is_banned = false;
  invited_by = some 2;
}

abbrev inviting : Labeler
inviting = record {
  id = 2;
  xp = 0;
  streak = three_days;
  tier = 0;
  is_banned = false;
  invited_by = none;
}

-- The invited labeler has four answers counted on the day 102.
abbrev four_answers : XpDb
four_answers = record {
  labelers = invited ∷ inviting ∷ [];
  events = [];
  daily =
      record {
        user_id = 1;
        day = 102;
        counted = 4;
        goal_met = false;
        is_protected = false;
        rest_used = false;
      }
      ∷ [];
  stamps = [];
  invite_rewards = [];
}

abbrev fifth : AcceptedAnswer
fifth = record {
  user_id = 1;
  submission_id = 9;
  difficulty = some 5;
  is_quality_check = false;
  day = 102;
}

fifth_is_recorded : (record_accepted fifth four_answers).0 ≡ recorded 35
unfolding record_accepted award create_event upsert_day day_count settle_streak cover_gap
    day_keys_between days_from find_by update_by
fifth_is_recorded = refl

four_answers-IsReconciled : IsReconciled four_answers
unfolding find_by
four_answers-IsReconciled uid l h = ground arith

record_accepted-IsReconciled_example : IsReconciled (record_accepted fifth four_answers).1
record_accepted-IsReconciled_example =
    record_accepted-IsReconciled fifth four_answers four_answers-IsReconciled

-- The same submission, reported again on the next day.
abbrev replayed : AcceptedAnswer
replayed = record fifth { difficulty = none; day = 103 }

record_accepted_once_example :
    record_accepted replayed (record_accepted fifth four_answers).1
    ≡ (already, (record_accepted fifth four_answers).1)
record_accepted_once_example =
    record_accepted_once fifth replayed four_answers 35 refl refl fifth_is_recorded

abbrev counts : ℕ → ℕ
counts q = if q == 0 then 6 else 0

quest_is_paid : (award_quests 1 102 counts four_answers).lines ≡ 0 ∷ []
unfolding award_quests pay_quests pay_event create_event increment_xp find_by update_by
quest_is_paid = refl

quest_is_a_line : is_line 0 (award_quests 1 102 counts four_answers).lines ≡ true
unfolding award_quests pay_quests pay_event create_event increment_xp find_by update_by
quest_is_a_line = refl

same_week : week_key_of 103 ≡ week_key_of 102
unfolding week_key_of
same_week = refl

award_quests_once_example :
    (is_line 0 (award_quests 1 103 (λ k. 7) (award_quests 1 102 counts four_answers).db).lines
      ≡ false)
    × (week_rows 1
          (week_key_of 102)
          0
          (award_quests 1 103 (λ k. 7) (award_quests 1 102 counts four_answers).db).db.events
        ≡ week_rows 1 (week_key_of 102) 0 (award_quests 1 102 counts four_answers).db.events)
award_quests_once_example =
    award_quests_once 1 102 103 0 counts (λ k. 7) four_answers
      (award_quests 1 102 counts four_answers).db same_week quest_is_a_line (λ key h. h)

fourth_day : (settle_streak three_days 102 (λ d. false)).state.streak_days ≡ 4
unfolding settle_streak cover_gap day_keys_between days_from
fourth_day = refl

settle_streak-covers_example :
    ((false ≡ true) ⊎ IsAmong 101 (settle_streak three_days 102 (λ d. false)).rest_used_days)
    × (length (settle_streak three_days 102 (λ d. false)).rest_used_days ≤ 1)
settle_streak-covers_example =
    settle_streak-covers three_days 100 102 (λ d. false) 101 refl fourth_day (omega arith)
      (omega arith) (omega arith)

abbrev starting : TierState
starting = record { tier = 0; on_hold = false; hold_checks_passed = 0 }

abbrev good_signals : TierSignals
good_signals = record {
  xp = 2_000;
  checks_passed = 17;
  checks_total = 20;
  crowd_matched = 15;
  crowd_total = 20;
  active_days = 3;
}

trusted_opens : (evaluate_tier starting good_signals check_passed).tier_up ≡ some 2
unfolding evaluate_tier highest_qualified qualifies
trusted_opens = refl

evaluate_tier_opens_example :
    IsHighest 0 3 good_signals 2
    × ((evaluate_tier starting good_signals check_passed).state.tier ≡ 2)
    × ((evaluate_tier starting good_signals check_passed).state.on_hold ≡ false)
    × (opens_tiers check_passed ≡ true)
evaluate_tier_opens_example = evaluate_tier_opens starting good_signals check_passed 2 trusted_opens

four_answers-WithinInviteCap : WithinInviteCap four_answers
unfolding rewarded_count paid_count
four_answers-WithinInviteCap uid = (omega arith, omega arith)

inviter_is_rewarded : rewarded_count 2 (qualify_invite 1 102 four_answers).invite_rewards ≡ 1
unfolding qualify_invite pay_side create_event increment_xp rewarded_count find_by update_by
inviter_is_rewarded = refl

qualify_invite-WithinInviteCap_example : WithinInviteCap (qualify_invite 1 102 four_answers)
qualify_invite-WithinInviteCap_example =
    qualify_invite-WithinInviteCap 1 102 four_answers four_answers-WithinInviteCap

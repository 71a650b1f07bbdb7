-- ===== src/Gamification/Ledger.antt =====
-- The writer of lib/gamification/ledger.ts, as one transaction on the rows.
mod Rows
unfoldable pub use Rows.*
pub mod Laws
pub mod Once
pub mod Quests
pub mod Invites
use centient.Common.{
  ℕ, ◌+◌, Bool, true, false, Option, none, some, List, [], ◌∷◌, ◌==◌, ◌&&◌, ltb, if◌then◌else◌, any,
  find_by, update_by, update_many, always, find_first, or_else,
}
use centient.Gamification.Streak.{
  StreakState, Settlement, settle_streak, answer_xp, quality_check_xp, daily_goal_xp, daily_goal,
  week_key_of,
}

pub record AcceptedAnswer : Type 0 where
  pub user_id : ℕ
  pub submission_id : ℕ
  pub difficulty : Option ℕ
  pub is_quality_check : Bool
  pub day : ℕ

-- The answer's own XP row.
abbrev pub own_event : AcceptedAnswer → XpEvent
own_event a =
    if a.is_quality_check
    then record {
      user_id = a.user_id;
      kind = quality_check_kind;
      amount = quality_check_xp;
      submission_id = some a.submission_id;
      key = check_key a.submission_id;
      day = a.day;
      week = week_key_of a.day;
    }
    else record {
      user_id = a.user_id;
      kind = answer_kind;
      amount = answer_xp a.difficulty;
      submission_id = some a.submission_id;
      key = answer_key a.submission_id;
      day = a.day;
      week = week_key_of a.day;
    }

abbrev pub day_event : AcceptedAnswer → XpKind → ℕ → DedupeKey → XpEvent
day_event a kind amount key = record {
  user_id = a.user_id;
  kind = kind;
  amount = amount;
  submission_id = none;
  key = key;
  day = a.day;
  week = week_key_of a.day;
}

-- The XP of the receipt's lines so far, and the database.
pub record Gained : Type 0 where
  pub xp : ℕ
  pub db : XpDb

abbrev pub gained_more : ℕ → ℕ → Option XpDb → Option Gained
gained_more xp amount none = none
gained_more xp amount (some db) = some (record { xp = xp + amount; db = db })

-- `award`
unfoldable pub award : XpEvent → Gained → Option Gained
award event g = gained_more g.xp event.amount (create_event event g.db)

abbrev pub award_milestone : AcceptedAnswer → ℕ → Gained → Option Gained
award_milestone a xp g =
    if ltb 0 xp
    then award (day_event a streak_milestone_kind xp (streak_key a.user_id a.day)) g
    else some g

pub spend_rest_days : ℕ → List ℕ → List DailyProgress → List DailyProgress
spend_rest_days uid [] daily = daily
spend_rest_days uid (d ∷ days) daily =
    spend_rest_days uid days (upsert_day uid d set_rest_used daily)

abbrev pub with_daily : List DailyProgress → Gained → Gained
with_daily daily g = record g { db = record g.db { daily = daily } }

-- The last write of the transaction.
abbrev pub set_progress : AcceptedAnswer → StreakState → Gained → Option Gained
set_progress a streak g =
    gained_more g.xp 0
      (set_found a.user_id (add_xp g.xp streak) (find_by (λ r. r.id) a.user_id g.db.labelers) g.db)

abbrev pub after_milestone : AcceptedAnswer → Settlement → Option Gained → Option Gained
after_milestone a s none = none
after_milestone a s (some g) =
    set_progress a s.state (with_daily (spend_rest_days a.user_id s.rest_used_days g.db.daily) g)

abbrev pub goal_settlement : AcceptedAnswer → Labeler → List DailyProgress → Settlement
goal_settlement a l daily = settle_streak l.streak a.day (was_protected a.user_id daily)

abbrev pub settle_goal : AcceptedAnswer → Settlement → Gained → Option Gained
settle_goal a s g = after_milestone a s (award_milestone a s.milestone g)

abbrev pub meet_goal : AcceptedAnswer → Labeler → Option Gained → Option Gained
meet_goal a l none = none
meet_goal a l (some g) =
    let daily = upsert_day a.user_id a.day set_goal_met g.db.daily in
    settle_goal a (goal_settlement a l daily) (with_daily daily g)

abbrev pub for_labeler : AcceptedAnswer → Option Labeler → Gained → Option Gained
for_labeler a none g = none
for_labeler a (some l) g =
    if day_count a.user_id a.day g.db.daily == daily_goal
    then meet_goal a l
        (award (day_event a daily_goal_kind daily_goal_xp (goal_key a.user_id a.day)) g)
    else set_progress a l.streak g

abbrev pub count_answer : AcceptedAnswer → Gained → Option Gained
count_answer a g =
    for_labeler a (find_by (λ r. r.id) a.user_id g.db.labelers)
      (with_daily (upsert_day a.user_id a.day count_one g.db.daily) g)

-- How `recordAccepted` ends: with the XP of its own lines, as recorded before, or by throwing; in
-- the last two cases the transaction is rolled back.
pub data Recorded : Type 0 where
  recorded : ℕ → Recorded
  already thrown : Recorded

abbrev pub committed : Option Gained → XpDb → Recorded × XpDb
committed none db = (thrown, db)
committed (some g) db = (recorded g.xp, g.db)

abbrev pub after_own : AcceptedAnswer → Option Gained → XpDb → Recorded × XpDb
after_own a none db = (already, db)
after_own a (some g) db = committed (count_answer a g) db

-- The transaction of `recordAccepted`.
unfoldable pub record_accepted : AcceptedAnswer → XpDb → Recorded × XpDb
unfolding award create_event
record_accepted a db = after_own a (award (own_event a) (record { xp = 0; db = db })) db

-- `markProtected`
unfoldable pub mark_protected : ℕ → ℕ → XpDb → XpDb
mark_protected uid day db = record db { daily = upsert_day uid day set_protected db.daily }

-- ===== src/Gamification/Ledger/Quests.antt =====
-- lib/gamification/quests.ts, lib/gamification/quest-ledger.ts, and the award of
-- lib/gamification/crowd.ts. A quest is its place in `QUESTS`; the week's counts, which the code
-- reads from the submissions, enter as a function.
pub mod Laws
pub mod Once
use centient.Common.{
  ℕ, ◌+◌, min, Bool, true, false, Option, none, some, List, [], ◌∷◌, ◌==◌, ◌&&◌, not, leb,
  if◌then◌else◌, any, filter,
}
use centient.Gamification.Streak.{week_key_of}
use centient.Gamification.Ledger.{
  XpKind, quest_kind, crowd_match_kind, DedupeKey, quest_key, crowd_key, XpEvent, XpDb,
  create_event, increment_xp,
}

-- A transaction of one XP row and the user's increment: it commits, its key is taken, or it fails.
pub data Paid : Type 0 where
  paid : XpDb → Paid
  taken failed : Paid

abbrev pub after_increment : Option XpDb → Paid
after_increment none = failed
after_increment (some db) = paid db

abbrev pub after_create : XpEvent → Option XpDb → Paid
after_create e none = taken
after_create e (some db) = after_increment (increment_xp e.user_id e.amount db)

unfoldable pub pay_event : XpEvent → XpDb → Paid
pay_event e db = after_create e (create_event e db)

abbrev pub quest_xp : ℕ
quest_xp = 30

-- `QUESTS`: five health answers, three checks, four goal days.
abbrev pub quests : List ℕ
quests = 0 ∷ 1 ∷ 2 ∷ []

abbrev pub quest_target : ℕ → ℕ
quest_target q = if q == 0 then 5 else (if q == 1 then 3 else 4)

abbrev pub quest_event : ℕ → ℕ → ℕ → XpEvent
quest_event uid day q = record {
  user_id = uid;
  kind = quest_kind;
  amount = quest_xp;
  submission_id = none;
  key = quest_key q uid (week_key_of day);
  day = day;
  week = week_key_of day;
}

abbrev pub is_quest_kind : XpKind → Bool
is_quest_kind quest_kind = true
is_quest_kind _ = false

-- `dedupeKey.split(":")[1]`
abbrev pub is_key_of_quest : ℕ → DedupeKey → Bool
is_key_of_quest q (quest_key r uid week) = r == q
is_key_of_quest q _ = false

-- `awardedThisWeek`
abbrev pub is_awarded_this_week : ℕ → ℕ → List XpEvent → ℕ → Bool
is_awarded_this_week uid week events q =
    any
      (λ e.
        e.user_id == uid && (e.week == week && (is_quest_kind e.kind && is_key_of_quest q e.key)))
      events

-- `newlyComplete`
abbrev pub newly_complete : (ℕ → ℕ) → (ℕ → Bool) → List ℕ
newly_complete stats awarded =
    filter (λ q. not (awarded q) && leb (quest_target q) (stats q)) quests

pub record QuestRun : Type 0 where
  pub lines : List ℕ
  pub has_thrown : Bool
  pub db : XpDb

abbrev pub with_line : ℕ → QuestRun → QuestRun
with_line q r = record r { lines = q ∷ r.lines }

abbrev pub after_quest : ℕ → XpDb → Paid → (XpDb → QuestRun) → QuestRun
after_quest q db (paid next) rest = with_line q (rest next)
after_quest q db taken rest = rest db
after_quest q db failed rest = record { lines = []; has_thrown = true; db = db }

unfoldable pub pay_quests : ℕ → ℕ → List ℕ → XpDb → QuestRun
pay_quests uid day [] db = record { lines = []; has_thrown = false; db = db }
pay_quests uid day (q ∷ qs) db =
    after_quest q db (pay_event (quest_event uid day q) db) (λ next. pay_quests uid day qs next)

-- `awardQuests`
unfoldable pub award_quests : ℕ → ℕ → (ℕ → ℕ) → XpDb → QuestRun
unfolding pay_quests
award_quests uid day stats db =
    pay_quests uid day (newly_complete stats (is_awarded_this_week uid (week_key_of day) db.events))
      db

pub record QuestStatus : Type 0 where
  pub quest : ℕ
  pub current : ℕ
  pub target : ℕ
  pub done : Bool

-- `questProgress`
pub quest_progress : (ℕ → ℕ) → (ℕ → Bool) → List ℕ → List QuestStatus
quest_progress stats awarded [] = []
quest_progress stats awarded (q ∷ qs) =
    record {
      quest = q;
      current = min (stats q) (quest_target q);
      target = quest_target q;
      done = awarded q;
    }
    ∷ quest_progress stats awarded qs

abbrev pub crowd_match_xp : ℕ
crowd_match_xp = 5

abbrev pub match_event : ℕ → ℕ → ℕ → XpEvent
match_event uid sid day = record {
  user_id = uid;
  kind = crowd_match_kind;
  amount = crowd_match_xp;
  submission_id = some sid;
  key = crowd_key sid;
  day = day;
  week = week_key_of day;
}

-- `awardMatch`
unfoldable pub award_match : ℕ → ℕ → ℕ → XpDb → Paid
unfolding pay_event
award_match uid sid day db = pay_event (match_event uid sid day) db

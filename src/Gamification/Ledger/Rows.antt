-- ===== src/Gamification/Ledger/Rows.antt =====
-- The XP rows of prisma/schema.prisma and the writes on them. A unique index refuses a second row
-- with the same key.
use centient.Common.{
  ℕ, ◌+◌, Bool, true, false, Option, none, some, List, ◌∷◌, ◌==◌, ◌&&◌, if◌then◌else◌, any, find_by,
  update_by, update_many, always, find_first,
}
use centient.Gamification.Streak.{StreakState}

pub data XpKind : Type 0 where
  answer_kind quality_check_kind daily_goal_kind streak_milestone_kind : XpKind
  crowd_match_kind event_code_kind quest_kind invite_kind : XpKind

pub data Side : Type 0 where
  invitee_side inviter_side : Side

pub data DedupeKey : Type 0 where
  answer_key check_key crowd_key : ℕ → DedupeKey
  goal_key streak_key event_key : ℕ → ℕ → DedupeKey
  quest_key : ℕ → ℕ → ℕ → DedupeKey
  invite_key : ℕ → Side → DedupeKey

abbrev pub side_eq : Side → Side → Bool
side_eq invitee_side invitee_side = true
side_eq inviter_side inviter_side = true
side_eq _ _ = false

abbrev pub dedupe_eq : DedupeKey → DedupeKey → Bool
dedupe_eq (answer_key a) (answer_key b) = a == b
dedupe_eq (check_key a) (check_key b) = a == b
dedupe_eq (crowd_key a) (crowd_key b) = a == b
dedupe_eq (goal_key a d) (goal_key b e) = a == b && d == e
dedupe_eq (streak_key a d) (streak_key b e) = a == b && d == e
dedupe_eq (event_key a d) (event_key b e) = a == b && d == e
dedupe_eq (quest_key a d w) (quest_key b e v) = a == b && (d == e && w == v)
dedupe_eq (invite_key a s) (invite_key b t) = a == b && side_eq s t
dedupe_eq _ _ = false

pub record XpEvent : Type 0 where
  pub user_id : ℕ
  pub kind : XpKind
  pub amount : ℕ
  pub submission_id : Option ℕ
  pub key : DedupeKey
  pub day : ℕ
  pub week : ℕ

pub record DailyProgress : Type 0 where
  pub user_id : ℕ
  pub day : ℕ
  pub counted : ℕ
  pub goal_met : Bool
  pub is_protected : Bool
  pub rest_used : Bool

-- The columns of a user that the XP loop reads or writes.
pub record Labeler : Type 0 where
  pub id : ℕ
  pub xp : ℕ
  pub streak : StreakState
  pub tier : ℕ
  pub is_banned : Bool
  pub invited_by : Option ℕ

pub record UserStamp : Type 0 where
  pub user_id : ℕ
  pub stamp : ℕ

pub record InviteReward : Type 0 where
  pub invitee_id : ℕ
  pub inviter_id : ℕ
  pub inviter_rewarded : Bool

pub record XpDb : Type 0 where
  pub labelers : List Labeler
  pub events : List XpEvent
  pub daily : List DailyProgress
  pub stamps : List UserStamp
  pub invite_rewards : List InviteReward

abbrev pub has_key : DedupeKey → List XpEvent → Bool
has_key key events = any (λ e. dedupe_eq e.key key) events

-- `xpEvent.create`; `none` when the key is taken.
unfoldable pub create_event : XpEvent → XpDb → Option XpDb
create_event event db =
    if has_key event.key db.events then none else some (record db { events = event ∷ db.events })

-- `user.update({ xp: { increment } })` with the streak as it is settled; `none` without the user.
abbrev pub add_xp : ℕ → StreakState → Labeler → Labeler
add_xp amount streak l = record l { xp = l.xp + amount; streak = streak }

abbrev pub set_found : ℕ → (Labeler → Labeler) → Option Labeler → XpDb → Option XpDb
set_found uid f none db = none
set_found uid f (some l) db =
    some (record db { labelers = update_by (λ r. r.id) uid always f db.labelers })

abbrev pub increment : ℕ → Labeler → Labeler
increment amount l = record l { xp = l.xp + amount }

unfoldable pub increment_xp : ℕ → ℕ → XpDb → Option XpDb
increment_xp uid amount db =
    set_found uid (increment amount) (find_by (λ r. r.id) uid db.labelers) db

abbrev pub is_row : ℕ → ℕ → DailyProgress → Bool
is_row uid day r = r.user_id == uid && r.day == day

abbrev pub empty_day : ℕ → ℕ → DailyProgress
empty_day uid day = record {
  user_id = uid;
  day = day;
  counted = 0;
  goal_met = false;
  is_protected = false;
  rest_used = false;
}

-- `dailyProgress.upsert`, whose `create` is the update of an empty row.
abbrev pub upsert_found :
    ℕ
    → ℕ
    → (DailyProgress → DailyProgress)
    → Option DailyProgress
    → List DailyProgress
    → List DailyProgress
upsert_found uid day f none daily = f (empty_day uid day) ∷ daily
upsert_found uid day f (some r) daily = update_many (is_row uid day) f daily

unfoldable pub upsert_day :
    ℕ → ℕ → (DailyProgress → DailyProgress) → List DailyProgress → List DailyProgress
upsert_day uid day f daily = upsert_found uid day f (find_first (is_row uid day) daily) daily

abbrev pub counted_of : Option DailyProgress → ℕ
counted_of none = 0
counted_of (some r) = r.counted

-- The day's count.
unfoldable pub day_count : ℕ → ℕ → List DailyProgress → ℕ
day_count uid day daily = counted_of (find_first (is_row uid day) daily)

abbrev pub count_one : DailyProgress → DailyProgress
count_one r = record r { counted = r.counted + 1 }

abbrev pub set_goal_met : DailyProgress → DailyProgress
set_goal_met r = record r { goal_met = true }

abbrev pub set_rest_used : DailyProgress → DailyProgress
set_rest_used r = record r { rest_used = true }

abbrev pub set_protected : DailyProgress → DailyProgress
set_protected r = record r { is_protected = true }

-- `protectedDays`, as the test that is made of it.
abbrev pub was_protected : ℕ → List DailyProgress → ℕ → Bool
was_protected uid daily day = any (λ r. is_row uid day r && r.is_protected) daily

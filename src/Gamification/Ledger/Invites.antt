-- ===== src/Gamification/Ledger/Invites.antt =====
-- `attachInviter` and `qualifyInvite` of lib/gamification/invites.ts, with lib/gamification/invite-rules.ts.
-- The inviter's row is locked over the count, so a call is one step. A transaction that fails is
-- rolled back; whether the failure is thrown on is not kept.
pub mod Laws
use centient.Common.{
  ℕ, ◌+◌, Bool, true, false, Option, none, some, List, [], ◌∷◌, ◌==◌, ◌&&◌, not, ltb, if◌then◌else◌,
  any, find_by, update_by, or_else, is_some,
}
use centient.Gamification.Streak.{week_key_of}
use centient.Gamification.Ledger.{
  invite_kind, Side, invitee_side, inviter_side, invite_key, XpEvent, Labeler, UserStamp,
  InviteReward, XpDb, create_event, increment_xp,
}

abbrev pub invite_xp : ℕ
invite_xp = 50

-- Rewarded invites per inviter.
abbrev pub invite_cap : ℕ
invite_cap = 10

-- The two stamps, by number.
abbrev pub invitee_stamp : ℕ
invitee_stamp = 1

abbrev pub inviter_stamp : ℕ
inviter_stamp = 2

-- `attachInviter`, of the inviter that the code names: whether it was set.
abbrev pub set_inviter : ℕ → Labeler → Labeler
set_inviter inviter l = record l { invited_by = some inviter }

abbrev pub was_uninvited : Option Labeler → Bool
was_uninvited none = false
was_uninvited (some l) = not (is_some l.invited_by)

abbrev pub attach_found : ℕ → Option ℕ → XpDb → Bool × XpDb
attach_found invitee none db = (false, db)
attach_found invitee (some inviter) db = if inviter == invitee then (false, db) else (
  was_uninvited (find_by (λ l. l.id) invitee db.labelers),
  record db {
    labelers =
        update_by (λ l. l.id) invitee (λ l. not (is_some l.invited_by)) (set_inviter inviter)
          db.labelers;
  },
)

unfoldable pub attach_inviter : ℕ → Option ℕ → XpDb → Bool × XpDb
attach_inviter invitee inviter db = attach_found invitee inviter db

abbrev pub invite_event : ℕ → ℕ → Side → ℕ → XpEvent
invite_event invitee uid side day = record {
  user_id = uid;
  kind = invite_kind;
  amount = invite_xp;
  submission_id = none;
  key = invite_key invitee side;
  day = day;
  week = week_key_of day;
}

-- How many invites have paid off for the inviter.
unfoldable pub rewarded_count : ℕ → List InviteReward → ℕ
rewarded_count inviter [] = 0
rewarded_count inviter (r ∷ rewards) =
    (if r.inviter_id == inviter && r.inviter_rewarded then 1 else 0)
    + rewarded_count inviter rewards

abbrev pub is_unbanned : Option Labeler → Bool
is_unbanned none = false
is_unbanned (some l) = not l.is_banned

abbrev pub is_rewarded : ℕ → XpDb → Bool
is_rewarded inviter db =
    is_unbanned (find_by (λ l. l.id) inviter db.labelers)
    && ltb (rewarded_count inviter db.invite_rewards) invite_cap

abbrev pub has_reward : ℕ → List InviteReward → Bool
has_reward invitee rewards = any (λ r. r.invitee_id == invitee) rewards

-- `inviteReward.create`, under its key.
abbrev pub create_reward : ℕ → ℕ → Bool → XpDb → Option XpDb
create_reward invitee inviter rewarded db =
    if has_reward invitee db.invite_rewards
    then none
    else some (record db {
      invite_rewards =
          record { invitee_id = invitee; inviter_id = inviter; inviter_rewarded = rewarded }
          ∷ db.invite_rewards;
    })

abbrev pub has_stamp : ℕ → ℕ → List UserStamp → Bool
has_stamp uid stamp stamps = any (λ s. s.user_id == uid && s.stamp == stamp) stamps

-- `userStamp.createMany` with `skipDuplicates`.
abbrev pub add_stamp : ℕ → ℕ → XpDb → XpDb
add_stamp uid stamp db =
    if has_stamp uid stamp db.stamps
    then db
    else record db { stamps = record { user_id = uid; stamp = stamp } ∷ db.stamps }

abbrev pub stamped : ℕ → ℕ → Option XpDb → Option XpDb
stamped uid stamp none = none
stamped uid stamp (some db) = some (add_stamp uid stamp db)

abbrev pub incremented : ℕ → Option XpDb → Option XpDb
incremented uid none = none
incremented uid (some db) = increment_xp uid invite_xp db

-- One side's XP row, increment and stamp.
unfoldable pub pay_side : ℕ → ℕ → Side → ℕ → ℕ → XpDb → Option XpDb
pay_side invitee uid side stamp day db =
    stamped uid stamp (incremented uid (create_event (invite_event invitee uid side day) db))

abbrev pub pay_inviter : ℕ → ℕ → Bool → ℕ → Option XpDb → Option XpDb
pay_inviter invitee inviter rewarded day none = none
pay_inviter invitee inviter false day (some db) = some db
pay_inviter invitee inviter true day (some db) =
    pay_side invitee inviter inviter_side inviter_stamp day db

abbrev pub pay_sides : ℕ → ℕ → Bool → ℕ → Option XpDb → Option XpDb
pay_sides invitee inviter rewarded day none = none
pay_sides invitee inviter rewarded day (some db) =
    pay_inviter invitee inviter rewarded day
      (pay_side invitee invitee invitee_side invitee_stamp day db)

-- The transaction.
abbrev pub pay_invite : ℕ → ℕ → ℕ → XpDb → Option XpDb
pay_invite invitee inviter day db =
    let rewarded = is_rewarded inviter db in
    pay_sides invitee inviter rewarded day (create_reward invitee inviter rewarded db)

abbrev pub qualify_invited : ℕ → Option ℕ → ℕ → ℕ → XpDb → XpDb
qualify_invited invitee none tier day db = db
qualify_invited invitee (some inviter) tier day db =
    if ltb tier 1 then db else or_else (pay_invite invitee inviter day db) db

abbrev pub qualify_found : ℕ → Option Labeler → ℕ → XpDb → XpDb
qualify_found invitee none day db = db
qualify_found invitee (some l) day db = qualify_invited invitee l.invited_by l.tier day db

-- `qualifyInvite`
unfoldable pub qualify_invite : ℕ → ℕ → XpDb → XpDb
unfolding pay_side rewarded_count
qualify_invite invitee day db =
    qualify_found invitee (find_by (λ l. l.id) invitee db.labelers) day db

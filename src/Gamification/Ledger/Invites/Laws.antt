-- ===== src/Gamification/Ledger/Invites/Laws.antt =====
-- On `qualifyInvite` of lib/gamification/invites.ts.
use centient.Common.{
  ℕ, ◌≤◌, ◌≡◌, inl, inr, refl, sym, ap, ◌∙◌, Bool, true, false, Option, none, some, List, ltb,
  find_by, ◌+◌, ◌==◌, ◌&&◌, if◌then◌else◌, [], ◌∷◌, arith, Bool-cases, Option-cases, some-inj,
  or_else,
}
use centient.Gamification.Ledger.{
  Side, invitee_side, inviter_side, invite_key, DedupeKey, XpEvent, Labeler, XpDb, create_event,
  increment_xp,
}
use centient.Gamification.Ledger.Invites.{
  invite_cap, invitee_stamp, inviter_stamp, rewarded_count, is_rewarded, create_reward,
  invite_event, pay_side, pay_inviter, pay_sides, pay_invite, qualify_invited, qualify_found,
  qualify_invite,
}

abbrev pub is_inviter_key : DedupeKey → Bool
is_inviter_key (invite_key invitee inviter_side) = true
is_inviter_key _ = false

-- How many XP rows pay the user as an inviter.
unfoldable pub paid_count : ℕ → List XpEvent → ℕ
paid_count uid [] = 0
paid_count uid (e ∷ events) =
    (if e.user_id == uid && is_inviter_key e.key then 1 else 0) + paid_count uid events

-- No inviter was paid more often than rewards are marked as paid, nor marked more often than the cap
-- allows.
abbrev pub WithinInviteCap : XpDb → Type 0
WithinInviteCap db =
    (uid : ℕ)
    → (paid_count uid db.events ≤ rewarded_count uid db.invite_rewards)
      × (rewarded_count uid db.invite_rewards ≤ invite_cap)

pay_side-writes :
    (invitee uid : ℕ) (side : Side) (stamp day : ℕ) (db db' : XpDb)
    → pay_side invitee uid side stamp day db ≡ some db'
    → (db'.invite_rewards ≡ db.invite_rewards)
      × (db'.events ≡ invite_event invitee uid side day ∷ db.events)
unfolding pay_side create_event increment_xp
pay_side-writes invitee uid side stamp day db db' h =
    elim (Option-cases (find_by (λ (l : Labeler). l.id) uid db.labelers)) [
      | inl missing ↦ absurd (ground arith)
      | inr (l, found) ↦ (ground arith, ground arith)
    ]

create_reward-writes :
    (invitee inviter : ℕ) (rewarded : Bool) (db db' : XpDb)
    → create_reward invitee inviter rewarded db ≡ some db'
    → (db'.events ≡ db.events)
      × ((uid : ℕ)
          → rewarded_count uid db'.invite_rewards
            ≡ (if inviter == uid && rewarded then 1 else 0) + rewarded_count uid db.invite_rewards)
unfolding rewarded_count
create_reward-writes invitee inviter rewarded db db' h = (ground arith, λ uid. ground arith)

pay_inviter-writes :
    (invitee inviter : ℕ) (rewarded : Bool) (day : ℕ) (o : Option XpDb) (db' : XpDb)
    → pay_inviter invitee inviter rewarded day o ≡ some db'
    → (db : XpDb) × (o ≡ some db)
      × (db'.invite_rewards ≡ db.invite_rewards)
      × ((uid : ℕ)
          → paid_count uid db'.events
            ≡ (if inviter == uid && rewarded then 1 else 0) + paid_count uid db.events)
unfolding paid_count
pay_inviter-writes invitee inviter rewarded day none db' h = absurd (ground arith)
pay_inviter-writes invitee inviter false day (some db) db' h =
    let same = some-inj h in
    (
      db,
      refl,
      ap (λ (x : XpDb). x.invite_rewards) (sym same),
      λ uid.
          let kept : paid_count uid db'.events ≡ paid_count uid db.events =
            ap (λ (x : XpDb). paid_count uid x.events) (sym same) in
          ground (arith, kept),
    )
pay_inviter-writes invitee inviter true day (some db) db' h =
    let (kept, paid) = pay_side-writes invitee inviter inviter_side inviter_stamp day db db' h in
    (db, refl, kept, λ uid. rw paid (ground arith))

-- What the payments of an invite write: the inviter's row exactly where the reward is marked.
pay_sides-writes :
    (invitee inviter : ℕ) (rewarded : Bool) (day : ℕ) (o : Option XpDb) (db' : XpDb)
    → pay_sides invitee inviter rewarded day o ≡ some db'
    → (db : XpDb) × (o ≡ some db)
      × (db'.invite_rewards ≡ db.invite_rewards)
      × ((uid : ℕ)
          → paid_count uid db'.events
            ≡ (if inviter == uid && rewarded then 1 else 0) + paid_count uid db.events)
unfolding paid_count
pay_sides-writes invitee inviter rewarded day none db' h = absurd (ground arith)
pay_sides-writes invitee inviter rewarded day (some db) db' h =
    let (mid, own, kept, paid) =
      pay_inviter-writes invitee inviter rewarded day
        (pay_side invitee invitee invitee_side invitee_stamp day db) db' h in
    let (same, added) = pay_side-writes invitee invitee invitee_side invitee_stamp day db mid own in
    (
      db,
      refl,
      kept ∙ same,
      λ uid.
          let unpaid : paid_count uid mid.events ≡ paid_count uid db.events =
            rw added (ground arith) in
          rw (paid uid, unpaid) refl,
    )

pay_invite-WithinInviteCap :
    (invitee inviter day : ℕ) (db db' : XpDb)
    → WithinInviteCap db
    → pay_invite invitee inviter day db ≡ some db'
    → WithinInviteCap db'
pay_invite-WithinInviteCap invitee inviter day db db' within h =
    let (mid, made, kept, paid) =
      pay_sides-writes invitee inviter (is_rewarded inviter db) day
        (create_reward invitee inviter (is_rewarded inviter db) db) db' h in
    let (same, counted) =
      create_reward-writes invitee inviter (is_rewarded inviter db) db mid made in
    λ uid.
      let total : paid_count uid db'.events
          ≡ (if inviter == uid && is_rewarded inviter db then 1 else 0) + paid_count uid db.events =
        rw (sym same) (paid uid) in
      let marked : rewarded_count uid db'.invite_rewards
          ≡ (if inviter == uid && is_rewarded inviter db then 1 else 0)
            + rewarded_count uid db.invite_rewards =
        rw kept (counted uid) in
      (ground (arith, within uid, total, marked), ground (arith, within uid, marked))

or_else-WithinInviteCap :
    (o : Option XpDb) (db : XpDb)
    → WithinInviteCap db
    → ((db' : XpDb) → o ≡ some db' → WithinInviteCap db')
    → WithinInviteCap (or_else o db)
or_else-WithinInviteCap none db within step = within
or_else-WithinInviteCap (some db') db within step = step db' refl

qualify_invited-WithinInviteCap :
    (invitee : ℕ) (inviter : Option ℕ) (tier day : ℕ) (db : XpDb)
    → WithinInviteCap db
    → WithinInviteCap (qualify_invited invitee inviter tier day db)
qualify_invited-WithinInviteCap invitee none tier day db within = within
qualify_invited-WithinInviteCap invitee (some inviter) tier day db within =
    elim (Bool-cases (ltb tier 1)) [
      | inl low ↦ rw low within
      | inr high ↦ rw high (
          or_else-WithinInviteCap (pay_invite invitee inviter day db) db within
            (λ db' h. pay_invite-WithinInviteCap invitee inviter day db db' within h))
    ]

qualify_found-WithinInviteCap :
    (invitee : ℕ) (found : Option Labeler) (day : ℕ) (db : XpDb)
    → WithinInviteCap db
    → WithinInviteCap (qualify_found invitee found day db)
qualify_found-WithinInviteCap invitee none day db within = within
qualify_found-WithinInviteCap invitee (some l) day db within =
    qualify_invited-WithinInviteCap invitee l.invited_by l.tier day db within

-- Where no inviter has more XP rows for invites than rewards that are marked as paid, nor more than
-- ten of these, so it is after a call of `qualifyInvite`.
pub qualify_invite-WithinInviteCap :
    (invitee day : ℕ) (db : XpDb)
    → WithinInviteCap db
    → WithinInviteCap (qualify_invite invitee day db)
unfolding qualify_invite
qualify_invite-WithinInviteCap invitee day db within =
    qualify_found-WithinInviteCap invitee (find_by (λ (l : Labeler). l.id) invitee db.labelers) day
      db within

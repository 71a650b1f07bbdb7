-- ===== src/Gamification/Ledger/Once.antt =====
-- On what `recordAccepted` of lib/gamification/ledger.ts does with an answer that it has recorded.
use centient.Common.{
  ℕ, ◌≡◌, inl, inr, refl, sym, ap, subst, true, Option, none, some, List, ◌∷◌, ◌==◌, ltb, arith,
  Bool-cases, some-inj, ==_refl,
}
use centient.Gamification.Streak.{Settlement, daily_goal}
use centient.Gamification.Ledger.{
  XpEvent, invitee_side, inviter_side, DedupeKey, dedupe_eq, answer_key, check_key, crowd_key,
  goal_key, streak_key, event_key, quest_key, invite_key, Labeler, XpDb, has_key, create_event,
  add_xp, set_found, AcceptedAnswer, own_event, day_count, Gained, gained_more, award,
  award_milestone, with_daily, after_milestone, settle_goal, goal_settlement, upsert_day,
  set_goal_met, meet_goal, for_labeler, count_answer, committed, after_own, recorded, already,
  record_accepted,
}

-- A property of the events that lasts when one is added.
module _ (Q : List XpEvent → Type 0)
    (grow : (e : XpEvent) (events : List XpEvent) → Q events → Q (e ∷ events)) where
  award-keeps : (e : XpEvent) (g g' : Gained) → Q g.db.events → award e g ≡ some g' → Q g'.db.events
  unfolding award create_event
  award-keeps e g g' q h = elim (Bool-cases (has_key e.key g.db.events)) [
    | inl taken ↦ absurd (ground arith)
    | inr free ↦
        let same : g'.db.events ≡ e ∷ g.db.events = ground arith in
        subst Q (sym same) (grow e g.db.events q)
  ]

  set_found-keeps :
      (uid : ℕ) (f : Labeler → Labeler) (o : Option Labeler) (xp : ℕ) (g g' : Gained)
      → Q g.db.events
      → gained_more xp 0 (set_found uid f o g.db) ≡ some g'
      → Q g'.db.events
  set_found-keeps uid f none xp g g' q h = absurd (ground arith)
  set_found-keeps uid f (some l) xp g g' q h =
      subst Q (ap (λ (r : Gained). r.db.events) (some-inj h)) q

  after_milestone-keeps :
      (a : AcceptedAnswer) (s : Settlement) (o : Option Gained) (g' : Gained)
      → ((g : Gained) → o ≡ some g → Q g.db.events)
      → after_milestone a s o ≡ some g'
      → Q g'.db.events
  after_milestone-keeps a s none g' q h = absurd (ground arith)
  after_milestone-keeps a s (some g) g' q h =
      set_found-keeps a.user_id (add_xp g.xp s.state) _ g.xp (with_daily _ g) g' (q g refl) h

  award_milestone-keeps :
      (a : AcceptedAnswer) (xp : ℕ) (g g' : Gained)
      → Q g.db.events
      → award_milestone a xp g ≡ some g'
      → Q g'.db.events
  award_milestone-keeps a xp g g' q h = elim (Bool-cases (ltb 0 xp)) [
    | inl some_xp ↦ award-keeps _ g g' q (rw some_xp at h)
    | inr no_xp ↦ subst Q (ap (λ (r : Gained). r.db.events) (some-inj (rw no_xp at h))) q
  ]

  settle_goal-keeps :
      (a : AcceptedAnswer) (s : Settlement) (g g' : Gained)
      → Q g.db.events
      → settle_goal a s g ≡ some g'
      → Q g'.db.events
  settle_goal-keeps a s g g' q h =
      after_milestone-keeps a s (award_milestone a s.milestone g) g'
        (λ m e. award_milestone-keeps a s.milestone g m q e) h

  meet_goal-keeps :
      (a : AcceptedAnswer) (l : Labeler) (o : Option Gained) (g' : Gained)
      → ((g : Gained) → o ≡ some g → Q g.db.events)
      → meet_goal a l o ≡ some g'
      → Q g'.db.events
  meet_goal-keeps a l none g' q h = absurd (ground arith)
  meet_goal-keeps a l (some g) g' q h =
      settle_goal-keeps a (goal_settlement a l (upsert_day a.user_id a.day set_goal_met g.db.daily))
        (with_daily (upsert_day a.user_id a.day set_goal_met g.db.daily) g) g' (q g refl) h

  for_labeler-keeps :
      (a : AcceptedAnswer) (o : Option Labeler) (g g' : Gained)
      → Q g.db.events
      → for_labeler a o g ≡ some g'
      → Q g'.db.events
  for_labeler-keeps a none g g' q h = absurd (ground arith)
  for_labeler-keeps a (some l) g g' q h =
      elim (Bool-cases (day_count a.user_id a.day g.db.daily == daily_goal)) [
        | inl met ↦ meet_goal-keeps a l _ g' (λ m e. award-keeps _ g m q e) (rw met at h)
        | inr not_met ↦
            set_found-keeps a.user_id (add_xp g.xp l.streak) _ g.xp g g' q (rw not_met at h)
      ]

pub dedupe_eq_refl : (k : DedupeKey) → dedupe_eq k k ≡ true
dedupe_eq_refl (answer_key a) = ==_refl a
dedupe_eq_refl (check_key a) = ==_refl a
dedupe_eq_refl (crowd_key a) = ==_refl a
dedupe_eq_refl (goal_key a d) = ground arith
dedupe_eq_refl (streak_key a d) = ground arith
dedupe_eq_refl (event_key a d) = ground arith
dedupe_eq_refl (quest_key a d w) = ground arith
dedupe_eq_refl (invite_key a invitee_side) = ground arith
dedupe_eq_refl (invite_key a inviter_side) = ground arith

pub has_key-cons :
    (key : DedupeKey) (e : XpEvent) (events : List XpEvent)
    → has_key key events ≡ true
    → has_key key (e ∷ events) ≡ true
has_key-cons key e events h = ground arith

pub create_event-has_key :
    (e : XpEvent) (db db' : XpDb) → create_event e db ≡ some db' → has_key e.key db'.events ≡ true
unfolding create_event
create_event-has_key e db db' h = ground (arith, dedupe_eq_refl e.key)

award-has_key :
    (e : XpEvent) (g g' : Gained) → award e g ≡ some g' → has_key e.key g'.db.events ≡ true
unfolding award create_event
award-has_key e g g' h = ground (arith, dedupe_eq_refl e.key)

pub create_event-taken :
    (e : XpEvent) (db : XpDb) → has_key e.key db.events ≡ true → create_event e db ≡ none
unfolding create_event
create_event-taken e db h = rw h

committed-recorded :
    (o : Option Gained) (db : XpDb) (n : ℕ)
    → (committed o db).0 ≡ recorded n
    → (g : Gained) × (o ≡ some g) × ((committed o db).1 ≡ g.db)
committed-recorded none db n h = absurd (ground arith)
committed-recorded (some g) db n h = (g, refl, refl)

after_own-recorded :
    (a : AcceptedAnswer) (o : Option Gained) (db : XpDb) (n : ℕ)
    → ((g : Gained) → o ≡ some g → has_key (own_event a).key g.db.events ≡ true)
    → (after_own a o db).0 ≡ recorded n
    → has_key (own_event a).key (after_own a o db).1.events ≡ true
after_own-recorded a none db n kept h = absurd (ground arith)
after_own-recorded a (some g) db n kept h =
    let (m, counted, same) = committed-recorded (count_answer a g) db n h in
    rw same (
      for_labeler-keeps (λ events. has_key (own_event a).key events ≡ true)
        (has_key-cons (own_event a).key) a _ _ m (kept g refl) counted)

award-taken : (e : XpEvent) (g : Gained) → has_key e.key g.db.events ≡ true → award e g ≡ none
unfolding award create_event
award-taken e g h = rw h

-- The key of an answer's own row is that of its submission.
own_event-key :
    (a b : AcceptedAnswer)
    → b.submission_id ≡ a.submission_id
    → b.is_quality_check ≡ a.is_quality_check
    → (own_event b).key ≡ (own_event a).key
own_event-key a b same kind = elim (Bool-cases a.is_quality_check) [
  | inl check ↦ rw (kind, check) (ap check_key same)
  | inr answer ↦ rw (kind, answer) (ap answer_key same)
]

-- An answer that was recorded is not recorded again, on whatever day and with whatever difficulty
-- its submission comes back as an answer, or as a check if it was one: nothing is awarded, counted or
-- written.
pub record_accepted_once :
    (a b : AcceptedAnswer) (db : XpDb) (n : ℕ)
    → b.submission_id ≡ a.submission_id
    → b.is_quality_check ≡ a.is_quality_check
    → (record_accepted a db).0 ≡ recorded n
    → record_accepted b (record_accepted a db).1 ≡ (already, (record_accepted a db).1)
unfolding record_accepted
record_accepted_once a b db n same kind h =
    let kept : has_key (own_event a).key (record_accepted a db).1.events ≡ true =
      after_own-recorded a _ db n (λ g e. award-has_key (own_event a) _ g e) h in
    rw
      (award-taken (own_event b) (record { xp = 0; db = (record_accepted a db).1 })
        (rw (own_event-key a b same kind) kept))
      refl

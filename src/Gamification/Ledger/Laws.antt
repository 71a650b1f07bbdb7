-- ===== src/Gamification/Ledger/Laws.antt =====
-- On `recordAccepted` of lib/gamification/ledger.ts.
use centient.Common.{
  ℕ, ◌+◌, ◌≡◌, inl, inr, refl, sym, ap, ◌∙◌, subst, false, Option, none, some, List, [], ◌∷◌, ◌==◌,
  ltb, if◌then◌else◌, find_by, update_by, always, find_by-update_by, arith, Bool-cases, some-inj,
  ==_iff,
}
use mathlib.Core.Option
use centient.Gamification.Streak.{StreakState, Settlement, daily_goal}
use centient.Gamification.Ledger.{
  XpEvent, DailyProgress, day_count, Labeler, XpDb, create_event, add_xp, set_found, AcceptedAnswer,
  own_event, Gained, gained_more, award, award_milestone, with_daily, set_progress, after_milestone,
  settle_goal, goal_settlement, upsert_day, set_goal_met, meet_goal, for_labeler, count_answer,
  committed, after_own, record_accepted,
}

-- The XP of a labeler's events.
abbrev pub event_xp : ℕ → List XpEvent → ℕ
event_xp uid [] = 0
event_xp uid (e ∷ events) = (if e.user_id == uid then e.amount else 0) + event_xp uid events

-- A labeler's XP is the sum of their events.
abbrev pub IsReconciled : XpDb → Type 0
IsReconciled db =
    (uid : ℕ) (l : Labeler)
    → find_by (λ r. r.id) uid db.labelers ≡ some l
    → l.xp ≡ event_xp uid db.events

-- Inside the transaction: the events are ahead of the labeler's XP by what was gained.
pub record IsPending (uid : ℕ) (start : XpDb) (g : Gained) : Type 0 where
  pub labelers : g.db.labelers ≡ start.labelers
  pub own : event_xp uid g.db.events ≡ event_xp uid start.events + g.xp
  pub others : (u : ℕ) → (u == uid) ≡ false → event_xp u g.db.events ≡ event_xp u start.events

module _ (start : XpDb) (uid : ℕ) where
  award-IsPending :
      (e : XpEvent) (g g' : Gained)
      → e.user_id ≡ uid
      → IsPending uid start g
      → award e g ≡ some g'
      → IsPending uid start g'
  unfolding award create_event
  award-IsPending e g g' own p h = record {
    labelers = ground (arith, p.labelers);
    own = ground (arith, p.own);
    others = λ u other. ground (arith, p.others u other);
  }

-- The labeler whose progress is written has the gained XP added, and no other is touched.
set_found-xp :
    (uid : ℕ) (amount : ℕ) (f : Labeler → Labeler) (o : Option Labeler) (db db' : XpDb)
    → ((l : Labeler) → ((f l).id ≡ l.id) × ((f l).xp ≡ l.xp + amount))
    → set_found uid f o db ≡ some db'
    → (db'.events ≡ db.events)
      × ((u : ℕ)
          → find_by (λ r. r.id) u db'.labelers ≡ (
              if u == uid
              then Option.map f (find_by (λ r. r.id) u db.labelers)
              else find_by (λ r. r.id) u db.labelers))
set_found-xp uid amount f none db db' adds h = absurd (ground arith)
set_found-xp uid amount f (some l) db db' adds h =
    let same : db'
        ≡ record db { labelers = update_by (λ (r : Labeler). r.id) uid always f db.labelers } =
      sym (some-inj h) in
    rw same (
      refl,
      λ u. find_by-update_by (λ (r : Labeler). r.id) u uid always f db.labelers (λ l. (adds l).0),
    )

map-some :
    (f : Labeler → Labeler) (o : Option Labeler) (l : Labeler)
    → Option.map f o ≡ some l
    → (b : Labeler) × (o ≡ some b) × (f b ≡ l)
map-some f none l h = absurd (ground arith)
map-some f (some b) l h = (b, refl, some-inj h)

-- A write that adds to a labeler what their events were ahead restores the sum.
pub set_found-IsReconciled :
    (start : XpDb) (uid : ℕ) (f : Labeler → Labeler) (o : Option Labeler) (g : Gained) (db' : XpDb)
    → IsReconciled start
    → IsPending uid start g
    → ((l : Labeler) → ((f l).id ≡ l.id) × ((f l).xp ≡ l.xp + g.xp))
    → set_found uid f o g.db ≡ some db'
    → IsReconciled db'
set_found-IsReconciled start uid f o g db' sound p adds h u l found =
    let (events, lookup) = set_found-xp uid g.xp f o g.db db' adds h in
    elim (Bool-cases (u == uid)) [
      | inl own ↦
          let same : u ≡ uid = (==_iff u uid).0 own in
          let (b, before, after) =
            map-some f (find_by (λ (r : Labeler). r.id) u g.db.labelers) l
              (rw own at (sym (lookup u) ∙ found)) in
          let was : b.xp ≡ event_xp u start.events =
            sound u b (ap (find_by (λ (r : Labeler). r.id) u) (sym p.labelers) ∙ before) in
          let counted : event_xp u g.db.events ≡ event_xp u start.events + g.xp =
            subst (λ (n : ℕ). event_xp n g.db.events ≡ event_xp n start.events + g.xp) (sym same)
              p.own in
          omega (
            arith,
            ap (λ (r : Labeler). r.xp) after,
            (adds b).1,
            was,
            counted,
            ap (event_xp u) events,
          )
      | inr other ↦
          let before : find_by (λ (r : Labeler). r.id) u g.db.labelers ≡ some l =
            rw other at (sym (lookup u) ∙ found) in
          sound u l (ap (find_by (λ (r : Labeler). r.id) u) (sym p.labelers) ∙ before)
          ∙ sym (p.others u other)
          ∙ ap (event_xp u) (sym events)
    ]

gained_more-some :
    (xp amount : ℕ) (o : Option XpDb) (g : Gained)
    → gained_more xp amount o ≡ some g
    → (db : XpDb) × (o ≡ some db) × (g.db ≡ db)
gained_more-some xp amount none g h = absurd (ground arith)
gained_more-some xp amount (some db) g h = (db, refl, ap (λ (r : Gained). r.db) (sym (some-inj h)))

with_daily-IsPending :
    {start : XpDb} {uid : ℕ} (daily : List DailyProgress) (g : Gained)
    → IsPending uid start g
    → IsPending uid start (with_daily daily g)
with_daily-IsPending daily g p = record { labelers = p.labelers; own = p.own; others = p.others }

module _ (start : XpDb) (a : AcceptedAnswer) where
  set_progress-IsReconciled :
      (streak : StreakState) (g g' : Gained)
      → IsReconciled start
      → IsPending a.user_id start g
      → set_progress a streak g ≡ some g'
      → IsReconciled g'.db
  set_progress-IsReconciled streak g g' sound p h =
      let (db', written, same) =
        gained_more-some g.xp 0
          (set_found a.user_id (add_xp g.xp streak)
            (find_by (λ (r : Labeler). r.id) a.user_id g.db.labelers) g.db)
          g' h in
      subst IsReconciled (sym same) (
        set_found-IsReconciled start a.user_id (add_xp g.xp streak) _ g db' sound p
          (λ l. (refl, refl)) written)

  after_milestone-IsReconciled :
      (s : Settlement) (o : Option Gained) (g' : Gained)
      → IsReconciled start
      → ((g : Gained) → o ≡ some g → IsPending a.user_id start g)
      → after_milestone a s o ≡ some g'
      → IsReconciled g'.db
  after_milestone-IsReconciled s none g' sound p h = absurd (ground arith)
  after_milestone-IsReconciled s (some g) g' sound p h =
      set_progress-IsReconciled s.state _ g' sound (with_daily-IsPending _ g (p g refl)) h

  award_milestone-IsPending :
      (xp : ℕ) (g g' : Gained)
      → IsPending a.user_id start g
      → award_milestone a xp g ≡ some g'
      → IsPending a.user_id start g'
  award_milestone-IsPending xp g g' p h = elim (Bool-cases (ltb 0 xp)) [
    | inl some_xp ↦ award-IsPending start a.user_id _ g g' refl p (rw some_xp at h)
    | inr no_xp ↦ subst (IsPending a.user_id start) (some-inj (rw no_xp at h)) p
  ]

  settle_goal-IsReconciled :
      (s : Settlement) (g g' : Gained)
      → IsReconciled start
      → IsPending a.user_id start g
      → settle_goal a s g ≡ some g'
      → IsReconciled g'.db
  settle_goal-IsReconciled s g g' sound p h =
      after_milestone-IsReconciled s (award_milestone a s.milestone g) g' sound
        (λ m e. award_milestone-IsPending s.milestone g m p e) h

  meet_goal-IsReconciled :
      (l : Labeler) (o : Option Gained) (g' : Gained)
      → IsReconciled start
      → ((g : Gained) → o ≡ some g → IsPending a.user_id start g)
      → meet_goal a l o ≡ some g'
      → IsReconciled g'.db
  meet_goal-IsReconciled l none g' sound p h = absurd (ground arith)
  meet_goal-IsReconciled l (some g) g' sound p h =
      settle_goal-IsReconciled
        (goal_settlement a l (upsert_day a.user_id a.day set_goal_met g.db.daily)) _ g' sound
        (with_daily-IsPending _ g (p g refl)) h

  for_labeler-IsReconciled :
      (o : Option Labeler) (g g' : Gained)
      → IsReconciled start
      → IsPending a.user_id start g
      → for_labeler a o g ≡ some g'
      → IsReconciled g'.db
  for_labeler-IsReconciled none g g' sound p h = absurd (ground arith)
  for_labeler-IsReconciled (some l) g g' sound p h =
      elim (Bool-cases (day_count a.user_id a.day g.db.daily == daily_goal)) [
        | inl met ↦
            meet_goal-IsReconciled l _ g' sound
              (λ m e. award-IsPending start a.user_id _ g m refl p e) (rw met at h)
        | inr not_met ↦ set_progress-IsReconciled l.streak g g' sound p (rw not_met at h)
      ]

  committed-IsReconciled :
      (o : Option Gained)
      → IsReconciled start
      → ((g : Gained) → o ≡ some g → IsReconciled g.db)
      → IsReconciled (committed o start).1
  committed-IsReconciled none sound h = sound
  committed-IsReconciled (some g) sound h = h g refl

  after_own-IsReconciled :
      (o : Option Gained)
      → IsReconciled start
      → ((g : Gained) → o ≡ some g → IsPending a.user_id start g)
      → IsReconciled (after_own a o start).1
  after_own-IsReconciled none sound p = sound
  after_own-IsReconciled (some g) sound p =
      committed-IsReconciled (count_answer a g) sound
        (λ m e. for_labeler-IsReconciled _ _ m sound (with_daily-IsPending _ g (p g refl)) e)

own_event-user_id : (a : AcceptedAnswer) → (own_event a).user_id ≡ a.user_id
own_event-user_id a = ground arith

-- Recording an accepted answer keeps every labeler's XP the sum of their XP events, on every branch:
-- the goal and the streak's milestone, an answer that was recorded before, and a failure on the way.
pub record_accepted-IsReconciled :
    (a : AcceptedAnswer) (db : XpDb) → IsReconciled db → IsReconciled (record_accepted a db).1
unfolding record_accepted
record_accepted-IsReconciled a db sound = after_own-IsReconciled db a _ sound (λ g e.
    award-IsPending db a.user_id (own_event a) _ g (own_event-user_id a)
      (record { labelers = refl; own = omega arith; others = λ u other. refl }) e)

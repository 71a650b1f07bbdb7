-- ===== src/Gamification/Ledger/Quests/Laws.antt =====
-- On the awards of lib/gamification/quest-ledger.ts and lib/gamification/crowd.ts.
use centient.Common.{
  ℕ, ◌≡◌, inl, inr, refl, sym, ◌∙◌, subst, true, Option, none, some, List, [], ◌∷◌, find_by, arith,
  Option-cases,
}
use centient.Gamification.Ledger.{
  Labeler, XpEvent, XpDb, has_key, create_event, increment, increment_xp,
}
use centient.Gamification.Ledger.Laws.{IsReconciled, IsPending, set_found-IsReconciled}
use centient.Gamification.Ledger.Once.{create_event-taken}
use centient.Gamification.Ledger.Quests.{
  Paid, paid, taken, failed, after_increment, after_create, pay_event, quest_event, QuestRun,
  after_quest, pay_quests, award_quests,
}

-- A created XP row is not yet on its user.
pub create_event-IsPending :
    (e : XpEvent) (db db' : XpDb)
    → create_event e db ≡ some db'
    → IsPending e.user_id db (record { xp = e.amount; db = db' })
unfolding create_event
create_event-IsPending e db db' h = record {
  labelers = ground arith;
  own = ground arith;
  others = λ u other. ground arith;
}

after_increment-paid : (o : Option XpDb) (db : XpDb) → after_increment o ≡ paid db → o ≡ some db
after_increment-paid none db h = cc
after_increment-paid (some d) db h = cc

after_create-paid :
    (e : XpEvent) (db : XpDb) (o : Option XpDb) (db' : XpDb)
    → create_event e db ≡ o
    → after_create e o ≡ paid db'
    → (mid : XpDb) × (create_event e db ≡ some mid)
      × (increment_xp e.user_id e.amount mid ≡ some db')
after_create-paid e db none db' made h = cc
after_create-paid e db (some mid) db' made h =
    (mid, made, after_increment-paid (increment_xp e.user_id e.amount mid) db' h)

-- An XP row and its increment, committed together, keep the sums.
pub pay_event-IsReconciled :
    (e : XpEvent) (db db' : XpDb) → IsReconciled db → pay_event e db ≡ paid db' → IsReconciled db'
unfolding pay_event increment_xp
pay_event-IsReconciled e db db' sound h =
    let (mid, made, counted) = after_create-paid e db _ db' refl h in
    set_found-IsReconciled db e.user_id (increment e.amount) _ (record { xp = e.amount; db = mid })
      db' sound (create_event-IsPending e db mid made) (λ l. (refl, refl)) counted

set_found-events :
    (uid : ℕ) (amount : ℕ) (db db' : XpDb)
    → increment_xp uid amount db ≡ some db'
    → db'.events ≡ db.events
unfolding increment_xp
set_found-events uid amount db db' h =
    elim (Option-cases (find_by (λ (r : Labeler). r.id) uid db.labelers)) [
      | inl missing ↦ absurd (ground arith)
      | inr (l, found) ↦ ground arith
    ]

pub pay_event-events :
    (e : XpEvent) (db db' : XpDb) → pay_event e db ≡ paid db' → db'.events ≡ e ∷ db.events
unfolding pay_event create_event
pay_event-events e db db' h =
    let (mid, made, counted) = after_create-paid e db _ db' refl h in
    let added : mid.events ≡ e ∷ db.events = ground arith in
    set_found-events e.user_id e.amount mid db' counted ∙ added

pub pay_event-again :
    (e : XpEvent) (db : XpDb) → has_key e.key db.events ≡ true → pay_event e db ≡ taken
unfolding pay_event
pay_event-again e db h = rw (create_event-taken e db h) refl

-- What lasts when a row is added lasts over the quests.
module _ (Q : List XpEvent → Type 0)
    (grow : (e : XpEvent) (events : List XpEvent) → Q events → Q (e ∷ events)) (uid day : ℕ) where
  after_quest-keeps :
      (k : ℕ) (db : XpDb) (p : Paid) (rest : XpDb → QuestRun)
      → pay_event (quest_event uid day k) db ≡ p
      → Q db.events
      → ((next : XpDb) → Q next.events → Q (rest next).db.events)
      → Q (after_quest k db p rest).db.events
  after_quest-keeps k db (paid next) rest made q keep = keep next (
      subst Q (sym (pay_event-events (quest_event uid day k) db next made))
        (grow (quest_event uid day k) db.events q))
  after_quest-keeps k db taken rest made q keep = keep db q
  after_quest-keeps k db failed rest made q keep = q

  pub pay_quests-keeps :
      (qs : List ℕ) (db : XpDb) → Q db.events → Q (pay_quests uid day qs db).db.events
  unfolding pay_quests
  pay_quests-keeps [] db q = q
  pay_quests-keeps (k ∷ qs) db q =
      after_quest-keeps k db (pay_event (quest_event uid day k) db)
        (λ next. pay_quests uid day qs next) refl q (λ next kept. pay_quests-keeps qs next kept)

after_quest-IsReconciled :
    (uid day k : ℕ) (db : XpDb) (p : Paid) (rest : XpDb → QuestRun)
    → pay_event (quest_event uid day k) db ≡ p
    → IsReconciled db
    → ((next : XpDb) → IsReconciled next → IsReconciled (rest next).db)
    → IsReconciled (after_quest k db p rest).db
after_quest-IsReconciled uid day k db (paid next) rest made sound keep =
    keep next (pay_event-IsReconciled (quest_event uid day k) db next sound made)
after_quest-IsReconciled uid day k db taken rest made sound keep = keep db sound
after_quest-IsReconciled uid day k db failed rest made sound keep = sound

pay_quests-IsReconciled :
    (uid day : ℕ) (qs : List ℕ) (db : XpDb)
    → IsReconciled db
    → IsReconciled (pay_quests uid day qs db).db
unfolding pay_quests
pay_quests-IsReconciled uid day [] db sound = sound
pay_quests-IsReconciled uid day (k ∷ qs) db sound =
    after_quest-IsReconciled uid day k db (pay_event (quest_event uid day k) db)
      (λ next. pay_quests uid day qs next) refl sound
      (λ next kept. pay_quests-IsReconciled uid day qs next kept)

-- Awarding quests keeps every labeler's XP the sum of their XP events.
pub award_quests-IsReconciled :
    (uid day : ℕ) (stats : ℕ → ℕ) (db : XpDb)
    → IsReconciled db
    → IsReconciled (award_quests uid day stats db).db
unfolding award_quests
award_quests-IsReconciled uid day stats db sound = pay_quests-IsReconciled uid day _ db sound

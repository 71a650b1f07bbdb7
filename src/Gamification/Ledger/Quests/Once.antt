-- ===== src/Gamification/Ledger/Quests/Once.antt =====
-- On the awards of lib/gamification/quest-ledger.ts over a week.
use centient.Common.{
  ℕ, ◌+◌, ◌≡◌, ◌∙◌, inl, inr, refl, sym, subst, Bool, true, false, List, [], ◌∷◌, ◌==◌, ◌&&◌,
  if◌then◌else◌, any, arith, Bool-cases,
}
use centient.Gamification.Streak.{week_key_of}
use centient.Gamification.Ledger.{XpEvent, DedupeKey, quest_key, XpDb, has_key}
use centient.Gamification.Ledger.Once.{dedupe_eq_refl, has_key-cons}
use centient.Gamification.Ledger.Quests.{
  Paid, paid, taken, failed, pay_event, quest_event, is_quest_kind, is_key_of_quest, after_quest,
  pay_quests, award_quests,
}
use centient.Gamification.Ledger.Quests.Laws.{pay_quests-keeps, pay_event-events, pay_event-again}

abbrev pub is_line : ℕ → List ℕ → Bool
is_line q lines = any (λ x. x == q) lines

-- How many XP rows pay the user for the quest on the days of the week.
unfoldable pub week_rows : ℕ → ℕ → ℕ → List XpEvent → ℕ
week_rows uid week q [] = 0
week_rows uid week q (e ∷ events) =
    (if e.user_id == uid
        && (week_key_of e.day == week && (is_quest_kind e.kind && is_key_of_quest q e.key))
      then 1
      else 0)
    + week_rows uid week q events

-- The quest's key of the week is taken.
abbrev pub IsKeyed : ℕ → ℕ → ℕ → XpDb → Type 0
IsKeyed uid day q db = has_key (quest_key q uid (week_key_of day)) db.events ≡ true

same_quest : (a b : ℕ) → (a == b) ≡ true → a ≡ b
same_quest a b h = ground arith

after_quest-line :
    (uid day q k : ℕ) (qs : List ℕ) (db : XpDb) (p : Paid)
    → pay_event (quest_event uid day k) db ≡ p
    → ((next : XpDb)
        → is_line q (pay_quests uid day qs next).lines ≡ true
        → IsKeyed uid day q (pay_quests uid day qs next).db)
    → is_line q (after_quest k db p (λ next. pay_quests uid day qs next)).lines ≡ true
    → IsKeyed uid day q (after_quest k db p (λ next. pay_quests uid day qs next)).db
after_quest-line uid day q k qs db (paid next) made rest h = elim (Bool-cases (k == q)) [
  | inl same ↦
      let own : has_key (quest_key k uid (week_key_of day)) next.events ≡ true =
        rw (pay_event-events (quest_event uid day k) db next made)
          (rw (dedupe_eq_refl (quest_key k uid (week_key_of day))) refl) in
      pay_quests-keeps (λ events. has_key (quest_key q uid (week_key_of day)) events ≡ true)
        (has_key-cons (quest_key q uid (week_key_of day))) uid day qs next
        (subst (λ x. has_key (quest_key x uid (week_key_of day)) next.events ≡ true)
          (same_quest k q same) own)
  | inr other ↦ rest next (rw other at h)
]
after_quest-line uid day q k qs db taken made rest h = rest db h
after_quest-line uid day q k qs db failed made rest h = absurd (ground arith)

-- A quest that is paid has its key of the week.
pay_quests-line :
    (uid day q : ℕ) (qs : List ℕ) (db : XpDb)
    → is_line q (pay_quests uid day qs db).lines ≡ true
    → IsKeyed uid day q (pay_quests uid day qs db).db
unfolding pay_quests
pay_quests-line uid day q [] db h = absurd (ground arith)
pay_quests-line uid day q (k ∷ qs) db h =
    after_quest-line uid day q k qs db (pay_event (quest_event uid day k) db) refl
      (λ next line. pay_quests-line uid day q qs next line) h

abbrev IsUnpaid : ℕ → ℕ → ℕ → XpDb → List ℕ → XpDb → Type 0
IsUnpaid uid week q db lines db' =
    (is_line q lines ≡ false) × (week_rows uid week q db'.events ≡ week_rows uid week q db.events)

taken_not_paid {ℓ} :
    {A : Type ℓ} (uid day q k : ℕ) (db next : XpDb)
    → (k == q) ≡ true
    → IsKeyed uid day q db
    → pay_event (quest_event uid day k) db ≡ paid next
    → A
taken_not_paid uid day q k db next same keyed made =
    let again : pay_event (quest_event uid day k) db ≡ taken =
      pay_event-again (quest_event uid day k) db (
        subst (λ x. has_key (quest_key x uid (week_key_of day)) db.events ≡ true)
          (sym (same_quest k q same)) keyed) in
    let clash : paid next ≡ taken = sym made ∙ again in absurd cc

other_row :
    (uid week day q k : ℕ) (events : List XpEvent)
    → (k == q) ≡ false
    → week_rows uid week q (quest_event uid day k ∷ events) ≡ week_rows uid week q events
unfolding week_rows
other_row uid week day q k events other = ground arith

after_quest-IsUnpaid :
    (uid day week q k : ℕ) (qs : List ℕ) (db : XpDb) (p : Paid)
    → pay_event (quest_event uid day k) db ≡ p
    → ((next : XpDb)
        → IsKeyed uid day q next
        → IsUnpaid uid week q next
            (pay_quests uid day qs next).lines
            (pay_quests uid day qs next).db)
    → IsKeyed uid day q db
    → IsUnpaid uid week q db
        (after_quest k db p (λ next. pay_quests uid day qs next)).lines
        (after_quest k db p (λ next. pay_quests uid day qs next)).db
after_quest-IsUnpaid uid day week q k qs db (paid next) made rest keyed =
    elim (Bool-cases (k == q)) [
      | inl same ↦ taken_not_paid uid day q k db next same keyed made
      | inr other ↦
          let added = pay_event-events (quest_event uid day k) db next made in
          let kept : IsKeyed uid day q next =
            rw added (has_key-cons _ (quest_event uid day k) db.events keyed) in
          let (line, rows) = rest next kept in
          (rw other line, rows ∙ rw added (other_row uid week day q k db.events other))
    ]
after_quest-IsUnpaid uid day week q k qs db taken made rest keyed = rest db keyed
after_quest-IsUnpaid uid day week q k qs db failed made rest keyed = (refl, refl)

-- A quest whose key of the week is taken is not paid.
pay_quests-IsUnpaid :
    (uid day week q : ℕ) (qs : List ℕ) (db : XpDb)
    → IsKeyed uid day q db
    → IsUnpaid uid week q db (pay_quests uid day qs db).lines (pay_quests uid day qs db).db
unfolding pay_quests
pay_quests-IsUnpaid uid day week q [] db keyed = (refl, refl)
pay_quests-IsUnpaid uid day week q (k ∷ qs) db keyed =
    after_quest-IsUnpaid uid day week q k qs db (pay_event (quest_event uid day k) db) refl
      (λ next done. pay_quests-IsUnpaid uid day week q qs next done) keyed

-- A quest that was paid is not paid again in the same week: whatever the day of the week and the
-- counts, and whatever was written in between, as long as no dedupe key was taken back, a later
-- call does not report it and adds no XP row that pays the user for it on a day of the week.
pub award_quests_once :
    (uid day later_day q : ℕ) (stats later_stats : ℕ → ℕ) (db later : XpDb)
    → week_key_of later_day ≡ week_key_of day
    → is_line q (award_quests uid day stats db).lines ≡ true
    → ((key : DedupeKey)
        → has_key key (award_quests uid day stats db).db.events ≡ true
        → has_key key later.events ≡ true)
    → (is_line q (award_quests uid later_day later_stats later).lines ≡ false)
      × (week_rows uid (week_key_of day) q (award_quests uid later_day later_stats later).db.events
          ≡ week_rows uid (week_key_of day) q later.events)
unfolding award_quests
award_quests_once uid day later_day q stats later_stats db later same line kept =
    pay_quests-IsUnpaid uid later_day (week_key_of day) q _ later
      (rw same (kept (quest_key q uid (week_key_of day)) (pay_quests-line uid day q _ db line)))

-- ===== src/Payout/Cap/Laws.antt =====
-- On `checkPayoutCap` and the cap alert of lib/payout-cap.ts, and the co-signer's volume.
use native.Mathlib.Nat.{le-div_iff_mul-le}
use centient.Common.{
  ℕ, ◌+◌, ◌≤◌, ◌<◌, ◌≡◌, ◌≢◌, ◌↔◌, ◌∙◌, inl, inr, refl, subst, Bool, true, false, some, none, List,
  [], ◌∷◌, ◌==◌, ltb, leb, arith, if◌then◌else◌, Result, ok, err, Bool-cases,
}
use centient.Payout.Db.{Db, PayoutJob}
use centient.Payout.Cap.{
  CapSetting, get_daily_payout_cap_units, activity_of, get_payout_activity_since, check_payout_cap,
  check_against, CapError, CapCheck, cap_percent_consumed, CapAlert, alert_of,
  build_payout_cap_alert, maybe_send_cap_alert,
}
use centient.Stellar.Ledger.{is_broadcast_since, volume_of, read_broadcast_volume_since}

activity-volume :
    (since : ℕ) (rows : List PayoutJob)
    → (activity_of since rows).volume_units ≡ volume_of (is_broadcast_since since) rows
unfolding activity_of volume_of
activity-volume since [] = refl
activity-volume since (j ∷ rows) = elim (Bool-cases (is_broadcast_since since j)) [
  | inl sent_since ↦ rw (sent_since, activity-volume since rows) refl
  | inr other ↦ rw (other, activity-volume since rows) (omega arith)
]

-- The service's cap and the co-signer's measure the same spend over the same jobs.
pub get_payout_activity_since-volume :
    (since : ℕ) (db : Db)
    → (get_payout_activity_since since db).volume_units ≡ read_broadcast_volume_since db since
unfolding get_payout_activity_since
get_payout_activity_since-volume since db = activity-volume since db.jobs

allowed_at :
    (limit spent amount : ℕ)
    → ((c : CapCheck) × (check_against limit amount spent ≡ ok c)) ↔ (spent + amount ≤ limit)
allowed_at limit spent amount = elim (Bool-cases (leb (spent + amount) limit)) [
  | inl fits ↦ (λ p. ground arith, λ h. rw fits (_, refl))
  | inr over ↦ (λ (c, e). ground arith, λ h. ground arith)
]

-- Under a cap that is not zero, a payout is let through exactly if what was broadcast in the window
-- and the payout together stay within the cap.
pub check_payout_cap_allows :
    (setting : CapSetting) (since amount : ℕ) (db : Db)
    → get_daily_payout_cap_units setting ≢ 0
    → ((c : CapCheck) × (check_payout_cap setting since amount db ≡ ok c)) ↔ (
        (get_payout_activity_since since db).volume_units + amount
        ≤ get_daily_payout_cap_units setting)
unfolding check_payout_cap
check_payout_cap_allows setting since amount db capped =
    let some_limit : (get_daily_payout_cap_units setting == 0) ≡ false = ground (arith, capped) in
    rw some_limit (
      allowed_at (get_daily_payout_cap_units setting)
        (get_payout_activity_since since db).volume_units amount)

over-decision :
    (spent amount limit : ℕ)
    → 0 < limit
    → limit < spent + amount
    → 10_000 ≤ cap_percent_consumed (spent + amount) limit
over-decision spent amount limit some_cap over =
    (le-div_iff_mul-le some_cap).1 (omega (arith, over))

pages_at :
    (limit spent amount threshold : ℕ) (e : CapError)
    → 0 < limit
    → threshold ≤ 10_000
    → check_against limit amount spent ≡ err e
    → (alert : CapAlert) × (build_payout_cap_alert spent limit threshold amount ≡ some alert)
      × (alert.is_page ≡ true)
      × (alert.spent_units ≡ spent)
      × (alert.blocked_attempt ≡ (if ltb 0 amount then some amount else none))
unfolding build_payout_cap_alert
pages_at limit spent amount threshold e some_limit small refused =
    let over : limit < spent + amount = ground arith in
    let decision = cap_percent_consumed (spent + amount) limit in
    let high : 10_000 ≤ decision = over-decision spent amount limit some_limit over in
    let capped : (limit == 0) ≡ false = ground arith in
    let due : ltb decision threshold ≡ false = ground arith in
    let page : leb 10_000 decision ≡ true = ground arith in
    (alert_of spent limit amount decision, rw (capped, due) refl, page, refl, refl)

-- The check, by whether there is a cap at all.
abbrev refused_by : Bool → CapSetting → ℕ → ℕ → Db → Result CapError CapCheck
refused_by uncapped setting since amount db =
    if uncapped
    then ok (record { current = 0; cap = 0; remaining = 0 })
    else check_against (get_daily_payout_cap_units setting) amount
        (get_payout_activity_since since db).volume_units

sends :
    (setting : CapSetting) (since threshold blocked : ℕ) (db : Db)
    → (get_daily_payout_cap_units setting == 0) ≡ false
    → maybe_send_cap_alert setting since threshold blocked db
      ≡ build_payout_cap_alert
          (get_payout_activity_since since db).volume_units
          (get_daily_payout_cap_units setting)
          threshold
          blocked
unfolding maybe_send_cap_alert
sends setting since threshold blocked db capped = rw capped refl

-- A payout that the cap refused always raises the alert, at whatever threshold up to the whole cap: it
-- pages, reports the spend that the ledger holds, and names the amount of the attempt, if not zero.
pub refused_payout_pages :
    (setting : CapSetting) (since amount threshold : ℕ) (e : CapError) (db : Db)
    → threshold ≤ 10_000
    → check_payout_cap setting since amount db ≡ err e
    → (alert : CapAlert) × (maybe_send_cap_alert setting since threshold amount db ≡ some alert)
      × (alert.is_page ≡ true)
      × (alert.spent_units ≡ (get_payout_activity_since since db).volume_units)
      × (alert.blocked_attempt ≡ (if ltb 0 amount then some amount else none))
unfolding check_payout_cap
refused_payout_pages setting since amount threshold e db small refused =
    elim (Bool-cases (get_daily_payout_cap_units setting == 0)) [
      | inl uncapped ↦ absurd (ground arith)
      | inr capped ↦
          let (alert, built, page, spent, named) =
            pages_at (get_daily_payout_cap_units setting)
              (get_payout_activity_since since db).volume_units amount threshold e (ground arith)
              small
              (subst (λ (b : Bool). refused_by b setting since amount db ≡ err e) capped refused) in
          (alert, sends setting since threshold amount db capped ∙ built, page, spent, named)
    ]

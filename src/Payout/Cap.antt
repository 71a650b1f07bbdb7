-- ===== src/Payout/Cap.antt =====
-- lib/payout-cap.ts: the rolling daily cap on what the platform broadcasts, and its alert. The
-- window starts at `since`, which the code sets a day before now. Percentages are in hundredths, as the
-- code rounds them; the delivery of an alert is output.
pub mod Laws
use centient.Common.{
  ℕ, zero, suc, ◌+◌, ◌-◌, ◌*◌, ◌/◌, Bool, true, false, Option, none, some, List, [], ◌∷◌, ◌==◌, ltb,
  leb, if◌then◌else◌, is_some, or_else, Result, ok, err, ◌&&◌,
}
use centient.Payout.Db.{Db, PayoutJob}
use centient.Stellar.Ledger.{is_broadcast_since}

abbrev pub default_daily_cap_units : ℕ
default_daily_cap_units = 2_000_000_000

-- `DAILY_PAYOUT_CAP_UNITS`, as far as it parses: a text that is no integer throws.
pub data CapSetting : Type 0 where
  unset negative : CapSetting
  units : ℕ → CapSetting

abbrev pub get_daily_payout_cap_units : CapSetting → ℕ
get_daily_payout_cap_units unset = default_daily_cap_units
get_daily_payout_cap_units negative = default_daily_cap_units
get_daily_payout_cap_units (units n) = n

pub record PayoutActivity : Type 0 where
  pub count : ℕ
  pub volume_units : ℕ

abbrev pub add_activity : PayoutJob → PayoutActivity → PayoutActivity
add_activity j a = record {
  count = suc a.count;
  volume_units = or_else j.amount_units 0 + a.volume_units;
}

pub activity_of : ℕ → List PayoutJob → PayoutActivity
activity_of since [] = record { count = 0; volume_units = 0 }
activity_of since (j ∷ rows) =
    let rest = activity_of since rows in
    if is_broadcast_since since j then add_activity j rest else rest

-- `getPayoutActivitySince`
unfoldable pub get_payout_activity_since : ℕ → Db → PayoutActivity
unfolding activity_of
get_payout_activity_since since db = activity_of since db.jobs

-- `PayoutCapError`
pub record CapError : Type 0 where
  pub current_units : ℕ
  pub cap_units : ℕ

pub record CapCheck : Type 0 where
  pub current : ℕ
  pub cap : ℕ
  pub remaining : ℕ

-- `remaining >= amount`, where `remaining` may be below zero.
abbrev pub check_against : ℕ → ℕ → ℕ → Result CapError CapCheck
check_against cap amount current =
    if leb (current + amount) cap
    then ok (record { current = current; cap = cap; remaining = cap - current })
    else err (record { current_units = current; cap_units = cap })

-- `checkPayoutCap`; a cap of zero is no cap.
unfoldable pub check_payout_cap : CapSetting → ℕ → ℕ → Db → Result CapError CapCheck
check_payout_cap setting since amount db =
    let cap = get_daily_payout_cap_units setting in
    if cap == 0
    then ok (record { current = 0; cap = 0; remaining = 0 })
    else check_against cap amount (get_payout_activity_since since db).volume_units

-- `capPercentConsumed`, in hundredths of a percent.
abbrev pub cap_percent_consumed : ℕ → ℕ → ℕ
cap_percent_consumed spent cap = spent * 10_000 / cap

pub record CapAlert : Type 0 where
  pub is_page : Bool
  pub percent : ℕ
  pub spent_units : ℕ
  pub cap_units : ℕ
  pub remain_units : ℕ
  pub blocked_attempt : Option ℕ

abbrev pub blocked_line : ℕ → Option ℕ
blocked_line blocked = if ltb 0 blocked then some blocked else none

abbrev pub alert_of : ℕ → ℕ → ℕ → ℕ → CapAlert
alert_of spent cap blocked decision = record {
  is_page = leb 10_000 decision;
  percent = cap_percent_consumed spent cap;
  spent_units = spent;
  cap_units = cap;
  remain_units = if ltb spent cap then cap - spent else 0;
  blocked_attempt = blocked_line blocked;
}

-- `buildPayoutCapAlert`; what was blocked counts for the decision, never for the spend.
unfoldable pub build_payout_cap_alert : ℕ → ℕ → ℕ → ℕ → Option CapAlert
build_payout_cap_alert spent cap threshold blocked =
    if cap == 0
    then none
    else (let decision = cap_percent_consumed (spent + blocked) cap in
        if ltb decision threshold then none else some (alert_of spent cap blocked decision))

-- `maybeSendCapAlert`, up to the delivery.
unfoldable pub maybe_send_cap_alert : CapSetting → ℕ → ℕ → ℕ → Db → Option CapAlert
maybe_send_cap_alert setting since threshold blocked db =
    let cap = get_daily_payout_cap_units setting in
    if cap == 0
    then none
    else build_payout_cap_alert (get_payout_activity_since since db).volume_units cap threshold
        blocked

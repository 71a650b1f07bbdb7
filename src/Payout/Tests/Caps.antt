-- ===== src/Payout/Tests/Caps.antt =====
-- The rolling cap, at concrete rows.
use centient.Common.{◌≡◌, refl, true, some, [], ◌∷◌, arith, err}
use centient.Payout.Db.{Db, PayoutJob}
use centient.Payout.Samples.{reward_job, db_of}
use centient.Payout.Cap.{
  CapSetting, units, get_payout_activity_since, check_payout_cap, CapError, CapAlert,
  maybe_send_cap_alert,
}
use centient.Payout.Cap.Laws.{refused_payout_pages}

abbrev paid_job : PayoutJob
paid_job = record reward_job { tx_hash = some 33; amount_units = some 100; broadcast_at = some 600 }

abbrev spent_db : Db
spent_db = db_of [] (paid_job ∷ []) []

abbrev limit : CapSetting
limit = units 150

abbrev refusal : CapError
refusal = record { current_units = 100; cap_units = 150 }

refuses : check_payout_cap limit 500 60 spent_db ≡ err refusal
unfolding check_payout_cap get_payout_activity_since
refuses = refl

refused_payout_pages_example :
    (alert : CapAlert) × (maybe_send_cap_alert limit 500 8000 60 spent_db ≡ some alert)
    × (alert.is_page ≡ true)
    × (alert.spent_units ≡ (get_payout_activity_since 500 spent_db).volume_units)
    × (alert.blocked_attempt ≡ some 60)
refused_payout_pages_example =
    refused_payout_pages limit 500 60 8000 refusal spent_db (omega arith) refuses

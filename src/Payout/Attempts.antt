-- ===== src/Payout/Attempts.antt =====
-- lib/payout-attempts.ts: the journal of signed envelopes of a submission, and the settlement of
-- the one that is still open. A Horizon lookup that throws is `none`.
pub mod Laws
pub mod Settling
use centient.Common.{
  ℕ, ◌+◌, max, Bool, true, false, Option, none, some, List, [], ◌∷◌, ◌&&◌, ◌||◌, not, ◌==◌, leb,
  if◌then◌else◌, is_some, find_first, find_by, update_by, any,
}
use centient.Payout.Db.{
  Db, Submission, PayoutAttempt, PayoutStatus, pending, failed, AttemptStatus, open_attempt,
  confirmed_attempt, void_attempt, Note, expired_unincluded, included_and_failed, applied,
}

abbrev pub is_open : AttemptStatus → Bool
is_open open_attempt = true
is_open _ = false

abbrev pub is_open_row : PayoutAttempt → Bool
is_open_row a = is_open a.status

abbrev pub is_open_of : ℕ → PayoutAttempt → Bool
is_open_of sid a = a.submission_id == sid && is_open a.status

-- `PAYABLE_STATUSES`
abbrev pub is_payable : PayoutStatus → Bool
is_payable pending = true
is_payable failed = true
is_payable _ = false

abbrev pub recheck_after_ms : ℕ
recheck_after_ms = 15_000

-- The row that `open` reads under its lock, and whether an envelope may open for it.
abbrev pub may_open : Option Submission → Bool
may_open none = false
may_open (some row) = not (is_some row.payout_tx_hash) && is_payable row.payout_status

-- The unique index on `envelopeHash`, and the partial one that allows one open row.
abbrev pub violates_index : ℕ → ℕ → List PayoutAttempt → Bool
violates_index sid hash rows = any (λ a. a.envelope_hash == hash || is_open_of sid a) rows

-- The journal's `open`; `none` when it throws, and then nothing is written.
unfoldable pub journal_open : ℕ → ℕ → ℕ → ℕ → Db → Option Db
journal_open sid hash expires_at now db =
    if may_open (find_by (λ r. r.id) sid db.submissions)
    then (if violates_index sid hash db.attempts
        then none
        else some (record db {
          attempts =
              record {
                submission_id = sid;
                envelope_hash = hash;
                expires_at = expires_at;
                status = open_attempt;
                outcome = none;
                created_at = now;
              }
              ∷ db.attempts;
        }))
    else none

pub resolve : ℕ → AttemptStatus → Note → List PayoutAttempt → List PayoutAttempt
resolve hash status outcome rows =
    update_by (λ a. a.envelope_hash) hash is_open_row
      (λ a. record a { status = status; outcome = some outcome }) rows

-- `confirmAttempt`
unfoldable pub confirm_attempt : ℕ → Db → Db
confirm_attempt hash db = record db {
  attempts = resolve hash confirmed_attempt applied db.attempts;
}

-- `voidAttempt`
unfoldable pub void_attempt_row : ℕ → Note → Db → Db
void_attempt_row hash outcome db = record db {
  attempts = resolve hash void_attempt outcome db.attempts;
}

pub data TxStatus : Type 0 where
  tx_confirmed tx_failed tx_not_found : TxStatus

-- What Horizon answers, in the order in which the settlement asks.
pub record HorizonAnswers : Type 0 where
  pub first : Option TxStatus
  pub ledger_close_ms : Option ℕ
  pub second : Option TxStatus

pub data Settlement : Type 0 where
  clear : Settlement
  paid : ℕ → Settlement
  wait : ℕ → Settlement

-- `recheck`
abbrev pub recheck : ℕ → PayoutAttempt → Settlement
recheck now a = wait (max (now + recheck_after_ms) (a.expires_at + recheck_after_ms))

-- Has a ledger closed past the envelope's `maxTime`?
abbrev pub closed_after : Option ℕ → ℕ → Bool
closed_after none expires_at = false
closed_after (some ms) expires_at = not (leb ms expires_at)

-- The second lookup, which follows that ledger.
abbrev pub settle_absent : Option TxStatus → ℕ → PayoutAttempt → Db → Settlement × Db
settle_absent none now a db = (recheck now a, db)
settle_absent (some tx_confirmed) now a db = (paid a.envelope_hash, db)
settle_absent (some tx_failed) now a db =
    (clear, void_attempt_row a.envelope_hash included_and_failed db)
settle_absent (some tx_not_found) now a db =
    (clear, void_attempt_row a.envelope_hash expired_unincluded db)

abbrev pub settle_row : HorizonAnswers → Option TxStatus → ℕ → PayoutAttempt → Db → Settlement × Db
settle_row hz none now a db = (recheck now a, db)
settle_row hz (some tx_confirmed) now a db = (paid a.envelope_hash, db)
settle_row hz (some tx_failed) now a db =
    (clear, void_attempt_row a.envelope_hash included_and_failed db)
settle_row hz (some tx_not_found) now a db =
    if closed_after hz.ledger_close_ms a.expires_at
    then settle_absent hz.second now a db
    else (recheck now a, db)

abbrev pub settle_found : HorizonAnswers → ℕ → Option PayoutAttempt → Db → Settlement × Db
settle_found hz now none db = (clear, db)
settle_found hz now (some a) db = settle_row hz hz.first now a db

unfoldable pub settle_open_attempt : ℕ → HorizonAnswers → ℕ → Db → Settlement × Db
settle_open_attempt sid hz now db = settle_found hz now (find_first (is_open_of sid) db.attempts) db

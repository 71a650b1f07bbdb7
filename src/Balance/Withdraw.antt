-- ===== src/Balance/Withdraw.antt =====
-- `POST` of app/api/me/withdraw/route.ts, with lib/withdrawal-eligibility.ts and the flags of
-- lib/flagged-withdrawal.ts. The gold rate's threshold is in millionths and compared exactly, which
-- decides as the code's rounded quotient does for the counts in use. A user's row is split: `Db` has
-- its balance and wallet, `Profile` the rest.
pub mod Laws
pub mod Refusals
pub mod Gated
use centient.Common.{
  ℕ, ◌+◌, ◌*◌, Bool, true, false, Option, none, some, List, [], ◌∷◌, ◌==◌, ◌&&◌, not, ltb,
  if◌then◌else◌, find_by, find_first, update_many, Result, ok, err, ◌>>=◌,
}
use centient.Payout.Db.{Db, User}
use centient.Balance.User.{
  BalanceError, insufficient_user_balance, no_balance_to_withdraw, withdrawal_in_flight,
  user_missing, WithdrawalResult, find_user, pending_of, enqueue_withdrawal,
}
use centient.Balance.Identity.{
  Identifier, BannedIdentity, IdentifierHistory, is_any_identifier_banned, check_shared_wallet,
}

pub record Profile : Type 0 where
  pub id : ℕ
  pub email : Option ℕ
  pub is_banned : Bool
  pub gold_correct : ℕ
  pub gold_attempted : ℕ
  pub created_at : ℕ

pub record Thresholds : Type 0 where
  pub min_submissions : ℕ
  pub min_gold_rate : ℕ
  pub min_account_age_ms : ℕ

pub data Ineligibility : Type 0 where
  too_few_submissions low_gold_rate too_new : Ineligibility

abbrev pub gold_rate_below : ℕ → ℕ → ℕ → Bool
gold_rate_below floor correct attempted =
    if ltb 0 attempted then ltb (correct * 1_000_000) (floor * attempted) else ltb 0 floor

-- `checkWithdrawalEligibility`: `none` when eligible.
unfoldable pub check_withdrawal_eligibility : Thresholds → ℕ → ℕ → Profile → Option Ineligibility
check_withdrawal_eligibility t now submissions p =
    if ltb 0 t.min_submissions && ltb submissions t.min_submissions
    then some too_few_submissions
    else (if ltb 0 t.min_gold_rate
          && gold_rate_below t.min_gold_rate p.gold_correct p.gold_attempted
        then some low_gold_rate
        else (if ltb 0 t.min_account_age_ms && ltb now (p.created_at + t.min_account_age_ms)
            then some too_new
            else none))

pub data FlagReason : Type 0 where
  banned_identity shared_wallet ineligible : FlagReason

abbrev pub reason_eq : FlagReason → FlagReason → Bool
reason_eq banned_identity banned_identity = true
reason_eq shared_wallet shared_wallet = true
reason_eq ineligible ineligible = true
reason_eq _ _ = false

pub record FlaggedWithdrawal : Type 0 where
  pub user_id : ℕ
  pub reason : FlagReason
  pub wallet_address : ℕ
  pub balance_units : ℕ
  pub is_pending : Bool

abbrev pub is_open_flag : ℕ → FlagReason → FlaggedWithdrawal → Bool
is_open_flag uid reason f = f.is_pending && (f.user_id == uid && reason_eq f.reason reason)

abbrev pub refresh : ℕ → ℕ → FlaggedWithdrawal → FlaggedWithdrawal
refresh destination balance f = record f { wallet_address = destination; balance_units = balance }

abbrev pub upsert_flag :
    ℕ
    → FlagReason
    → ℕ
    → ℕ
    → Option FlaggedWithdrawal
    → List FlaggedWithdrawal
    → List FlaggedWithdrawal
upsert_flag uid reason destination balance none flags =
    record {
      user_id = uid;
      reason = reason;
      wallet_address = destination;
      balance_units = balance;
      is_pending = true;
    }
    ∷ flags
upsert_flag uid reason destination balance (some f) flags =
    update_many (is_open_flag uid reason) (refresh destination balance) flags

-- `recordFlaggedWithdrawal`
unfoldable pub record_flagged_withdrawal :
    ℕ → FlagReason → ℕ → ℕ → List FlaggedWithdrawal → List FlaggedWithdrawal
record_flagged_withdrawal uid reason destination balance flags =
    upsert_flag uid reason destination balance (find_first (is_open_flag uid reason) flags) flags

pub record Desk : Type 0 where
  pub db : Db
  pub profiles : List Profile
  pub bans : List BannedIdentity
  pub history : List IdentifierHistory
  pub flags : List FlaggedWithdrawal

pub data Response : Type 0 where
  unauthorized account_frozen wallet_required address_not_bound : Response
  identity_banned : Identifier → Response
  shared_wallet_detected : ℕ → Response
  not_eligible : Ineligibility → Response
  trustline_check_failed payout_setup_required no_balance in_flight server_error : Response
  withdrawal_queued : WithdrawalResult → Response

-- What a request meets: the session, the body's address, the environment, Horizon and the clock.
pub record Request : Type 0 where
  pub session : Option ℕ
  pub named : Option ℕ
  pub is_valid : ℕ → Bool
  pub thresholds : Thresholds
  pub max_shared_accounts : ℕ
  pub trustline : Option Bool
  pub flag_fails : Bool
  pub now : ℕ
  pub fresh_id : ℕ

-- A refusal, with the flag that it raises.
pub record Refused : Type 0 where
  pub response : Response
  pub flag : Option FlagReason

abbrev pub refused : Response → Refused
refused response = record { response = response; flag = none }

abbrev pub flagged : Response → FlagReason → Refused
flagged response reason = record { response = response; flag = some reason }

abbrev pub allow : Bool → Refused → Result Refused (Unit {0})
allow true r = ok tt
allow false r = err r

abbrev pub bound_wallet : (ℕ → Bool) → Option ℕ → Result Refused ℕ
bound_wallet is_valid none = err (refused wallet_required)
bound_wallet is_valid (some w) = if is_valid w then ok w else err (refused wallet_required)

abbrev pub is_named : Option ℕ → ℕ → Bool
is_named none destination = true
is_named (some named) destination = named == destination

abbrev pub unless_banned : Option Identifier → Result Refused (Unit {0})
unless_banned none = ok tt
unless_banned (some i) = err (flagged (identity_banned i) banned_identity)

abbrev pub unless_shared : Option ℕ → Result Refused (Unit {0})
unless_shared none = ok tt
unless_shared (some accounts) = err (flagged (shared_wallet_detected accounts) shared_wallet)

abbrev pub unless_ineligible : Option Ineligibility → Result Refused (Unit {0})
unless_ineligible none = ok tt
unless_ineligible (some reason) = err (flagged (not_eligible reason) ineligible)

abbrev pub trustline_gate : Option Bool → Result Refused (Unit {0})
trustline_gate none = err (refused trustline_check_failed)
trustline_gate (some false) = err (refused payout_setup_required)
trustline_gate (some true) = ok tt

-- The gates up to the bound wallet, and the ones on it.
abbrev pub wallet_gates : Request → User → Profile → Result Refused ℕ
wallet_gates q u p = do
  _ ← allow (not p.is_banned) (refused account_frozen)
  destination ← bound_wallet q.is_valid u.wallet_address
  _ ← allow (is_named q.named destination) (refused address_not_bound)
  ok destination

abbrev pub fraud_gates : Request → Desk → User → Profile → ℕ → Result Refused (Unit {0})
fraud_gates q desk u p destination = do
  _ ← unless_banned (
      is_any_identifier_banned q.is_valid q.now desk.bans desk.history p.email (some destination)
        u.id)
  _ ← unless_shared (check_shared_wallet q.max_shared_accounts destination u.id desk.db.jobs)
  _ ← unless_ineligible (check_withdrawal_eligibility q.thresholds q.now u.submission_count p)
  trustline_gate q.trustline

abbrev pub after_flag : Request → User → ℕ → Option FlagReason → Desk → Desk
after_flag q u destination none desk = desk
after_flag q u destination (some reason) desk = if q.flag_fails then desk else record desk {
  flags = record_flagged_withdrawal u.id reason destination u.pending_balance_units desk.flags;
}

abbrev pub balance_response : BalanceError → Response
balance_response (no_balance_to_withdraw balance) = no_balance
balance_response (withdrawal_in_flight uid) = in_flight
balance_response (insufficient_user_balance balance amount) = server_error
balance_response user_missing = server_error

abbrev pub after_enqueue : Desk → Result BalanceError (WithdrawalResult × Db) → Response × Desk
after_enqueue desk (err e) = (balance_response e, desk)
after_enqueue desk (ok (r, db)) = (withdrawal_queued r, record desk { db = db })

abbrev pub after_fraud : Request → Desk → User → ℕ → Result Refused (Unit {0}) → Response × Desk
after_fraud q desk u destination (err r) = (r.response, after_flag q u destination r.flag desk)
after_fraud q desk u destination (ok x) =
    after_enqueue desk (enqueue_withdrawal q.fresh_id u.id destination q.now desk.db)

abbrev pub after_wallet : Request → Desk → User → Profile → Result Refused ℕ → Response × Desk
after_wallet q desk u p (err r) = (r.response, desk)
after_wallet q desk u p (ok destination) =
    after_fraud q desk u destination (fraud_gates q desk u p destination)

abbrev pub for_account : Request → Desk → Option User → Option Profile → Response × Desk
for_account q desk (some u) (some p) = after_wallet q desk u p (wallet_gates q u p)
for_account q desk _ _ = (unauthorized, desk)

abbrev pub for_session : Request → Desk → Option ℕ → Response × Desk
for_session q desk none = (unauthorized, desk)
for_session q desk (some uid) =
    for_account q desk (find_user uid desk.db) (find_by (λ p. p.id) uid desk.profiles)

-- `POST`
unfoldable pub post_withdraw : Request → Desk → Response × Desk
post_withdraw q desk = for_session q desk q.session

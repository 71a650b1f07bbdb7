-- ===== src/Balance/Tests/Route.antt =====
-- POST of app/api/me/withdraw/route.ts and the bans behind it, at concrete rows.
use centient.Common.{◌≡◌, ◌≢◌, refl, true, false, none, some, List, [], ◌∷◌, ltb, find_by}
use centient.Payout.Samples.{answer, reward_job, db_of}
use centient.Balance.User.{WithdrawalResult, enqueue_withdrawal, get_user_pending_balance}
use centient.Balance.Identity.{
  wallet, Identifier, BannedIdentity, is_any_identifier_banned, check_shared_wallet, group_count,
  first_ban, check_identifier_ban, add_banned_identity,
}
use centient.Balance.Identity.Laws.{add_banned_identity-bans}
use centient.Balance.Withdraw.{
  Profile, check_withdrawal_eligibility, banned_identity, FlaggedWithdrawal, Desk, Request,
  withdrawal_queued, identity_banned, record_flagged_withdrawal, post_withdraw,
}

abbrev profile : Profile
profile = record {
  id = 7;
  email = some 3;
  is_banned = false;
  gold_correct = 4;
  gold_attempted = 5;
  created_at = 10;
}

abbrev desk : Desk
desk = record {
  db = db_of (answer ∷ []) (reward_job ∷ []) [];
  profiles = profile ∷ [];
  bans = [];
  history = [];
  flags = [];
}

abbrev request : Request
request = record {
  session = some 7;
  named = some 70;
  is_valid = λ w. ltb 0 w;
  thresholds = record { min_submissions = 0; min_gold_rate = 800_000; min_account_age_ms = 50 };
  max_shared_accounts = 3;
  trustline = some true;
  flag_fails = false;
  now = 99;
  fresh_id = 5;
}

abbrev fifty : WithdrawalResult
fifty = record { payout_job_id = 5; amount_units = 50; new_balance_units = 0 }

withdraws : (post_withdraw request desk).0 ≡ withdrawal_queued fifty
unfolding post_withdraw is_any_identifier_banned first_ban check_identifier_ban check_shared_wallet
    group_count check_withdrawal_eligibility enqueue_withdrawal get_user_pending_balance find_by
withdraws = refl

abbrev wallet_70 : Identifier
wallet_70 = record { identifier_type = wallet; identifier_value = 70 }

abbrev bans : List BannedIdentity
bans = record { identifier = wallet_70; banned_until = some 100 } ∷ []

abbrev flags : List FlaggedWithdrawal
flags =
    record {
      user_id = 7;
      reason = banned_identity;
      wallet_address = 70;
      balance_units = 50;
      is_pending = true;
    }
    ∷ []

banned_is_flagged :
    post_withdraw request (record desk { bans = bans })
    ≡ (identity_banned wallet_70, record desk { bans = bans; flags = flags })
unfolding post_withdraw is_any_identifier_banned first_ban check_identifier_ban
    record_flagged_withdrawal find_by
banned_is_flagged = refl

bans_the_wallet : add_banned_identity (λ w. ltb 0 w) wallet_70 (some 100) [] ≡ some bans
unfolding add_banned_identity
bans_the_wallet = refl

add_banned_identity-bans_example :
    is_any_identifier_banned (λ w. ltb 0 w) 99 bans [] (some 3) (some 70) 7 ≢ none
add_banned_identity-bans_example =
    add_banned_identity-bans (λ w. ltb 0 w) 99 70 (some 100) [] bans [] (some 3) 7 bans_the_wallet
      refl

-- ===== src/Balance/Withdraw/Gated.antt =====
-- On POST of app/api/me/withdraw/route.ts.
use centient.Common.{ℕ, ◌≡◌, ◌≢◌, ◌⊎◌, some, find_by, ok}
use centient.Payout.Db.{Db, User}
use centient.Balance.User.{WithdrawalResult, find_user, enqueue_withdrawal}
use centient.Balance.Withdraw.{Profile, Desk, Response, withdrawal_queued, Request}
use centient.Balance.Withdraw.Laws.{IsBound, IsClean}

-- A withdrawal that the route grants: of the account that asks, to its own wallet, with every gate
-- passed, and queued by `enqueueWithdrawal`.
pub record IsGranted (q : Request) (desk : Desk) (r : WithdrawalResult) (db' : Db) : Type 0 where
  pub uid : ℕ
  pub user : User
  pub profile : Profile
  pub destination : ℕ
  pub session : q.session ≡ some uid
  pub found : find_user uid desk.db ≡ some user
  pub known : find_by (λ p. p.id) uid desk.profiles ≡ some profile
  pub wallet : IsBound q user profile destination
  pub clean : IsClean q desk user profile destination
  pub queued : enqueue_withdrawal q.fresh_id user.id destination q.now desk.db ≡ ok (r, db')

-- What a request leaves: every table but the flags as it was, with an answer that is no withdrawal;
-- or a granted withdrawal.
abbrev pub IsGated : Request → Desk → Response × Desk → Type 0
IsGated q desk (response, desk') =
    ((desk'.db ≡ desk.db) × ((r : WithdrawalResult) → response ≢ withdrawal_queued r))
    ⊎ ((r : WithdrawalResult) × (response ≡ withdrawal_queued r) × IsGranted q desk r desk'.db)

-- ===== src/Balance/Withdraw/Refusals.antt =====
-- On the refusals of app/api/me/withdraw/route.ts.
use centient.Common.{
  ℕ, ◌≡◌, ◌≢◌, inl, inr, refl, subst, Bool, true, false, Option, none, some, not, Result, ok, err,
  ◌>>=◌, arith, Bool-cases,
}
use centient.Payout.Db.{User}
use centient.Balance.User.{
  BalanceError, insufficient_user_balance, no_balance_to_withdraw, withdrawal_in_flight,
  user_missing, WithdrawalResult,
}
use centient.Balance.Identity.{Identifier, is_any_identifier_banned, check_shared_wallet}
use centient.Balance.Withdraw.{
  Profile, Ineligibility, account_frozen, address_not_bound, check_withdrawal_eligibility,
  FlagReason, Desk, withdrawal_queued, Request, Refused, refused, allow, bound_wallet, is_named,
  unless_banned, unless_shared, unless_ineligible, trustline_gate, wallet_gates, fraud_gates,
  after_flag, balance_response,
}

-- A refusal's answer is no withdrawal.
pub refusal_is_none :
    (e : BalanceError) (r : WithdrawalResult) → balance_response e ≢ withdrawal_queued r
refusal_is_none (no_balance_to_withdraw n) r h = cc
refusal_is_none (withdrawal_in_flight n) r h = cc
refusal_is_none (insufficient_user_balance n m) r h = cc
refusal_is_none user_missing r h = cc

-- No gate answers with a withdrawal.
abbrev pub IsRefusal : Refused → Type 0
IsRefusal x = (r : WithdrawalResult) → x.response ≢ withdrawal_queued r

>>=-err {ℓ κ} :
    {A : Type ℓ} {B : Type κ} (m : Result Refused A) (f : A → Result Refused B) (x : Refused)
    → ((y : Refused) → m ≡ err y → IsRefusal y)
    → ((a : A) (y : Refused) → f a ≡ err y → IsRefusal y)
    → (m >>= f) ≡ err x
    → IsRefusal x
>>=-err (ok a) f x first later h = later a x h
>>=-err (err e) f x first later h = first x cc

pub after_flag-db :
    (q : Request) (u : User) (destination : ℕ) (flag : Option FlagReason) (desk : Desk)
    → (after_flag q u destination flag desk).db ≡ desk.db
after_flag-db q u destination none desk = refl
after_flag-db q u destination (some reason) desk = elim (Bool-cases q.flag_fails) [
  | inl fails ↦ rw fails refl
  | inr works ↦ rw works refl
]

allow-IsRefusal : (b : Bool) (r y : Refused) → IsRefusal r → allow b r ≡ err y → IsRefusal y
allow-IsRefusal true r y refusal h = cc
allow-IsRefusal false r y refusal h = subst IsRefusal (err-inj h) refusal
  where
    err-inj : ◌≡◌ {A = Result Refused (Unit {0})} (err r) (err y) → r ≡ y
    err-inj e = cc

bound_wallet-IsRefusal :
    (is_valid : ℕ → Bool) (w : Option ℕ) (y : Refused)
    → bound_wallet is_valid w ≡ err y
    → IsRefusal y
bound_wallet-IsRefusal is_valid none y h r e = cc
bound_wallet-IsRefusal is_valid (some w) y h r e = ground arith

pub wallet_gates-IsRefusal :
    (q : Request) (u : User) (p : Profile) (x : Refused) → wallet_gates q u p ≡ err x → IsRefusal x
wallet_gates-IsRefusal q u p x h =
    >>=-err (allow (not p.is_banned) (refused account_frozen)) _ x
      (λ y e. allow-IsRefusal (not p.is_banned) (refused account_frozen) y (λ r same. cc) e)
      (λ a y1 h1.
        >>=-err (bound_wallet q.is_valid u.wallet_address) _ y1
          (λ y e. bound_wallet-IsRefusal q.is_valid u.wallet_address y e)
          (λ d y2 h2.
            >>=-err (allow (is_named q.named d) (refused address_not_bound)) _ y2
              (λ y e.
                allow-IsRefusal (is_named q.named d) (refused address_not_bound) y (λ r same. cc) e)
              (λ b y3 h3. absurd (never d y3 h3)) h2)
          h1)
      h
  where
    never : (d : ℕ) (y : Refused) → ◌≡◌ {A = Result Refused ℕ} (ok d) (err y) → ⊥
    never d y e = cc

unless_banned-IsRefusal :
    (o : Option Identifier) (y : Refused) → unless_banned o ≡ err y → IsRefusal y
unless_banned-IsRefusal none y h r e = cc
unless_banned-IsRefusal (some i) y h r e = cc

unless_shared-IsRefusal : (o : Option ℕ) (y : Refused) → unless_shared o ≡ err y → IsRefusal y
unless_shared-IsRefusal none y h r e = cc
unless_shared-IsRefusal (some n) y h r e = cc

unless_ineligible-IsRefusal :
    (o : Option Ineligibility) (y : Refused) → unless_ineligible o ≡ err y → IsRefusal y
unless_ineligible-IsRefusal none y h r e = cc
unless_ineligible-IsRefusal (some i) y h r e = cc

trustline_gate-IsRefusal : (o : Option Bool) (y : Refused) → trustline_gate o ≡ err y → IsRefusal y
trustline_gate-IsRefusal none y h r e = cc
trustline_gate-IsRefusal (some false) y h r e = cc
trustline_gate-IsRefusal (some true) y h r e = cc

pub fraud_gates-IsRefusal :
    (q : Request) (desk : Desk) (u : User) (p : Profile) (destination : ℕ) (x : Refused)
    → fraud_gates q desk u p destination ≡ err x
    → IsRefusal x
fraud_gates-IsRefusal q desk u p destination x h =
    let banned =
      is_any_identifier_banned q.is_valid q.now desk.bans desk.history p.email (some destination)
        u.id in
    let shared = check_shared_wallet q.max_shared_accounts destination u.id desk.db.jobs in
    let barred = check_withdrawal_eligibility q.thresholds q.now u.submission_count p in
    >>=-err (unless_banned banned) _ x (unless_banned-IsRefusal banned)
      (λ a y1 h1.
        >>=-err (unless_shared shared) _ y1 (unless_shared-IsRefusal shared)
          (λ b y2 h2.
            >>=-err (unless_ineligible barred) _ y2 (unless_ineligible-IsRefusal barred)
              (λ c y3 h3. trustline_gate-IsRefusal q.trustline y3 h3) h2)
          h1)
      h

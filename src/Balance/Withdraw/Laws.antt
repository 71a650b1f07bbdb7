-- ===== src/Balance/Withdraw/Laws.antt =====
-- On the gates of app/api/me/withdraw/route.ts.
use centient.Common.{
  ℕ, ◌≡◌, inl, inr, refl, subst, Bool, true, false, Option, none, some, not, Result, ok, err,
  >>=-eq-ok, ok-inj, arith, Bool-cases, All,
}
use centient.Payout.Db.{User}
use centient.Balance.Identity.{
  Identifier, identifiers_of, is_any_identifier_banned, check_shared_wallet,
}
use centient.Balance.Identity.Laws.{IsFree, is_any_identifier_banned_iff}
use centient.Balance.Withdraw.{
  Profile, Ineligibility, account_frozen, address_not_bound, check_withdrawal_eligibility, Desk,
  Request, Refused, refused, allow, bound_wallet, is_named, unless_banned, unless_shared,
  unless_ineligible, trustline_gate, wallet_gates, fraud_gates,
}

-- The bound wallet of an account that is not frozen, named by the request if it names one.
pub record IsBound (q : Request) (u : User) (p : Profile) (destination : ℕ) : Type 0 where
  pub unfrozen : p.is_banned ≡ false
  pub bound : u.wallet_address ≡ some destination
  pub valid : q.is_valid destination ≡ true
  pub named : is_named q.named destination ≡ true

-- No gate of the route refuses the wallet.
pub record IsClean (q : Request) (desk : Desk) (u : User) (p : Profile) (destination : ℕ)
    : Type 0 where
  pub unbanned :
      All
        (IsFree q.now desk.bans)
        (identifiers_of q.is_valid p.email (some destination) u.id desk.history)
  pub unshared : check_shared_wallet q.max_shared_accounts destination u.id desk.db.jobs ≡ none
  pub eligible : check_withdrawal_eligibility q.thresholds q.now u.submission_count p ≡ none
  pub trusted : q.trustline ≡ some true

allow-eq-ok : (b : Bool) (r : Refused) → allow b r ≡ ok tt → b ≡ true
allow-eq-ok true r h = refl
allow-eq-ok false r h = cc

bound_wallet-eq-ok :
    (is_valid : ℕ → Bool) (w : Option ℕ) (destination : ℕ)
    → bound_wallet is_valid w ≡ ok destination
    → (w ≡ some destination) × (is_valid destination ≡ true)
bound_wallet-eq-ok is_valid none destination h = cc
bound_wallet-eq-ok is_valid (some w) destination h = elim (Bool-cases (is_valid w)) [
  | inl valid ↦
      subst (λ (d : ℕ). (some w ≡ some d) × (is_valid d ≡ true)) (ok-inj (rw valid at h))
        (refl, valid)
  | inr bad ↦ absurd (never (rw bad at h))
]
  where
    never : {r : Refused} → ◌≡◌ {A = Result Refused ℕ} (err r) (ok destination) → ⊥
    never e = cc

pub wallet_gates-IsBound :
    (q : Request) (u : User) (p : Profile) (destination : ℕ)
    → wallet_gates q u p ≡ ok destination
    → IsBound q u p destination
wallet_gates-IsBound q u p destination h =
    let (x, unfrozen, h1) = >>=-eq-ok (allow (not p.is_banned) (refused account_frozen)) _ _ h in
    let (d, wallet, h2) = >>=-eq-ok (bound_wallet q.is_valid u.wallet_address) _ _ h1 in
    let (y, named, h3) =
      >>=-eq-ok (allow (is_named q.named d) (refused address_not_bound)) _ _ h2 in
    let (bound, valid) = bound_wallet-eq-ok q.is_valid u.wallet_address d wallet in
    subst (λ (e : ℕ). IsBound q u p e) (ok-inj h3)
      (record {
        unfrozen = ground (arith, allow-eq-ok (not p.is_banned) _ unfrozen);
        bound = bound;
        valid = valid;
        named = allow-eq-ok (is_named q.named d) _ named;
      })

unless_banned-eq-ok : (o : Option Identifier) → unless_banned o ≡ ok tt → o ≡ none
unless_banned-eq-ok none h = refl
unless_banned-eq-ok (some i) h = cc

unless_shared-eq-ok : (o : Option ℕ) → unless_shared o ≡ ok tt → o ≡ none
unless_shared-eq-ok none h = refl
unless_shared-eq-ok (some n) h = cc

unless_ineligible-eq-ok : (o : Option Ineligibility) → unless_ineligible o ≡ ok tt → o ≡ none
unless_ineligible-eq-ok none h = refl
unless_ineligible-eq-ok (some i) h = cc

trustline_gate-eq-ok : (o : Option Bool) → trustline_gate o ≡ ok tt → o ≡ some true
trustline_gate-eq-ok none h = cc
trustline_gate-eq-ok (some false) h = cc
trustline_gate-eq-ok (some true) h = refl

pub fraud_gates-IsClean :
    (q : Request) (desk : Desk) (u : User) (p : Profile) (destination : ℕ)
    → fraud_gates q desk u p destination ≡ ok tt
    → IsClean q desk u p destination
fraud_gates-IsClean q desk u p destination h =
    let banned =
      is_any_identifier_banned q.is_valid q.now desk.bans desk.history p.email (some destination)
        u.id in
    let (x, unbanned, h1) = >>=-eq-ok (unless_banned banned) _ _ h in
    let (y, unshared, h2) =
      >>=-eq-ok
        (unless_shared (check_shared_wallet q.max_shared_accounts destination u.id desk.db.jobs)) _
        _ h1 in
    let (z, eligible, h3) =
      >>=-eq-ok
        (unless_ineligible (check_withdrawal_eligibility q.thresholds q.now u.submission_count p)) _
        _ h2 in
    record {
      unbanned =
          (is_any_identifier_banned_iff q.is_valid q.now desk.bans desk.history p.email
              (some destination) u.id).0
            (unless_banned-eq-ok banned unbanned);
      unshared = unless_shared-eq-ok _ unshared;
      eligible = unless_ineligible-eq-ok _ eligible;
      trusted = trustline_gate-eq-ok q.trustline h3;
    }

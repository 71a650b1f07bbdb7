-- ===== src/Balance/Identity.antt =====
-- lib/ban-identity.ts: bans on identifiers, and wallets that several accounts withdraw to. An
-- identifier's value is a number, compared within its type; `is_valid` is the check of a StrKey.
pub mod Laws
use centient.Common.{
  ℕ, zero, suc, ◌+◌, Bool, true, false, Option, none, some, List, [], ◌∷◌, ◌++◌, map, ◌==◌, ◌&&◌,
  not, ltb, leb, if◌then◌else◌, any, filter, opt_eq, find_first, update_many,
}
use centient.Payout.Db.{PayoutJob, JobStatus, done, job_failed}
use centient.Balance.User.{is_withdrawal}

pub data IdentifierType : Type 0 where
  email wallet user_id : IdentifierType

abbrev pub type_eq : IdentifierType → IdentifierType → Bool
type_eq email email = true
type_eq wallet wallet = true
type_eq user_id user_id = true
type_eq _ _ = false

pub record Identifier : Type 0 where
  pub identifier_type : IdentifierType
  pub identifier_value : ℕ

pub record BannedIdentity : Type 0 where
  pub identifier : Identifier
  pub banned_until : Option ℕ

pub record IdentifierHistory : Type 0 where
  pub user_id : ℕ
  pub identifier : Identifier
  pub is_active : Bool

abbrev pub identifier_eq : Identifier → Identifier → Bool
identifier_eq a b =
    type_eq a.identifier_type b.identifier_type && a.identifier_value == b.identifier_value

abbrev pub is_expired : ℕ → Option ℕ → Bool
is_expired now none = false
is_expired now (some until) = ltb until now

abbrev pub in_force : ℕ → Identifier → Option BannedIdentity → Option Identifier
in_force now i none = none
in_force now i (some b) = if is_expired now b.banned_until then none else some i

-- `checkIdentifierBan`, up to the ban's reason.
unfoldable pub check_identifier_ban : ℕ → List BannedIdentity → Identifier → Option Identifier
check_identifier_ban now bans i =
    in_force now i (find_first (λ b. identifier_eq b.identifier i) bans)

abbrev pub or_later : Option Identifier → Option Identifier → Option Identifier
or_later none later = later
or_later (some i) later = some i

unfoldable pub first_ban : ℕ → List BannedIdentity → List Identifier → Option Identifier
first_ban now bans [] = none
first_ban now bans (i ∷ is) = or_later (check_identifier_ban now bans i) (first_ban now bans is)

abbrev pub email_of : Option ℕ → List Identifier
email_of none = []
email_of (some e) = record { identifier_type = email; identifier_value = e } ∷ []

abbrev pub wallet_of : (ℕ → Bool) → Option ℕ → List Identifier
wallet_of is_valid none = []
wallet_of is_valid (some w) =
    if is_valid w then record { identifier_type = wallet; identifier_value = w } ∷ [] else []

-- `getHistoricalIdentifiers`: the unlinked ones too.
abbrev pub historical_identifiers : ℕ → List IdentifierHistory → List Identifier
historical_identifiers uid history =
    map (λ h. h.identifier) (filter (λ h. h.user_id == uid) history)

abbrev pub identifiers_of :
    (ℕ → Bool) → Option ℕ → Option ℕ → ℕ → List IdentifierHistory → List Identifier
identifiers_of is_valid e w uid history =
    email_of e
    ++ (wallet_of is_valid w
        ++ (record { identifier_type = user_id; identifier_value = uid }
            ∷ historical_identifiers uid history))

-- `isAnyIdentifierBanned`
unfoldable pub is_any_identifier_banned :
    (ℕ → Bool)
    → ℕ
    → List BannedIdentity
    → List IdentifierHistory
    → Option ℕ
    → Option ℕ
    → ℕ
    → Option Identifier
unfolding first_ban
is_any_identifier_banned is_valid now bans history e w uid =
    first_ban now bans (identifiers_of is_valid e w uid history)

abbrev pub is_completed : JobStatus → Bool
is_completed done = true
is_completed job_failed = true
is_completed _ = false

-- The query's `userId` filter: a job with no user is not among those of other accounts.
abbrev pub is_other_user : ℕ → Option ℕ → Bool
is_other_user uid none = false
is_other_user uid (some u) = not (u == uid)

-- A withdrawal of another account that went to the wallet.
abbrev pub is_shared_with : ℕ → ℕ → PayoutJob → Bool
is_shared_with destination uid j =
    opt_eq j.destination_address (some destination)
    && (is_withdrawal j.job_type && (is_completed j.status && is_other_user uid j.user_id))

-- The number of groups of `groupBy({ by: ["userId"] })`.
unfoldable pub group_count : List PayoutJob → ℕ
group_count [] = 0
group_count (j ∷ jobs) =
    (if any (λ k. opt_eq k.user_id j.user_id) jobs then 0 else 1) + group_count jobs

-- `checkSharedWallet`
unfoldable pub check_shared_wallet : ℕ → ℕ → ℕ → List PayoutJob → Option ℕ
unfolding group_count
check_shared_wallet limit destination uid jobs =
    let accounts = group_count (filter (is_shared_with destination uid) jobs) in
    if leb limit accounts then some accounts else none

abbrev pub lift_ban : Identifier → List BannedIdentity → List BannedIdentity
lift_ban i bans = filter (λ b. not (identifier_eq b.identifier i)) bans

abbrev pub upsert_ban :
    Identifier → Option ℕ → Option BannedIdentity → List BannedIdentity → List BannedIdentity
upsert_ban i until none bans = record { identifier = i; banned_until = until } ∷ bans
upsert_ban i until (some b) bans =
    update_many (λ r. identifier_eq r.identifier i) (λ r. record r { banned_until = until }) bans

abbrev pub is_storable_as : (ℕ → Bool) → IdentifierType → ℕ → Bool
is_storable_as is_valid wallet w = is_valid w
is_storable_as is_valid _ value = true

-- `addBannedIdentity`; `none` when it throws.
unfoldable pub add_banned_identity :
    (ℕ → Bool) → Identifier → Option ℕ → List BannedIdentity → Option (List BannedIdentity)
add_banned_identity is_valid i until bans =
    if is_storable_as is_valid i.identifier_type i.identifier_value
    then some (upsert_ban i until (find_first (λ b. identifier_eq b.identifier i) bans) bans)
    else none

-- `removeBannedIdentity`; `none` when there is no such row.
unfoldable pub remove_banned_identity :
    Identifier → List BannedIdentity → Option (List BannedIdentity)
remove_banned_identity i bans =
    if any (λ b. identifier_eq b.identifier i) bans then some (lift_ban i bans) else none

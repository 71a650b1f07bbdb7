-- ===== src/Balance/Identity/Laws.antt =====
-- On the bans of lib/ban-identity.ts.
use centient.Common.{
  ℕ, ◌≡◌, ◌≢◌, ◌↔◌, inl, inr, refl, sym, ap, subst, ◌∙◌, Bool, true, false, Option, none, some,
  List, [], ◌∷◌, ◌++◌, ◌==◌, ◌&&◌, arith, Bool-cases, some-inj, find_first, update_many, All,
  ==_refl,
}
use mathlib.Core.Option
use centient.Balance.Identity.{
  IdentifierType, email, wallet, user_id, type_eq, Identifier, BannedIdentity, IdentifierHistory,
  identifier_eq, is_expired, check_identifier_ban, or_later, first_ban, email_of, identifiers_of,
  is_any_identifier_banned, upsert_ban, add_banned_identity, is_storable_as,
}

-- No ban on the identifier is in force.
abbrev pub IsFree : ℕ → List BannedIdentity → Identifier → Type 0
IsFree now bans i = check_identifier_ban now bans i ≡ none

or_later-eq-none : (a b : Option Identifier) → (or_later a b ≡ none) ↔ ((a ≡ none) × (b ≡ none))
or_later-eq-none none b = (λ e. (refl, e), λ h. h.1)
or_later-eq-none (some i) b = (λ e. absurd (ground arith), λ h. h.0)

first_ban-eq-none :
    (now : ℕ) (bans : List BannedIdentity) (is : List Identifier)
    → (first_ban now bans is ≡ none) ↔ All (IsFree now bans) is
unfolding first_ban
first_ban-eq-none now bans [] = (λ e. tt, λ h. refl)
first_ban-eq-none now bans (i ∷ is) =
    let (apart, together) =
      or_later-eq-none (check_identifier_ban now bans i) (first_ban now bans is) in
    let (each, all) = first_ban-eq-none now bans is in
    (λ e. ((apart e).0, each (apart e).1), λ h. together (h.0, all h.1))

-- An account passes the ban check exactly if no ban is in force on its email, its valid wallet, the
-- account itself, or any identifier that was ever linked to it.
pub is_any_identifier_banned_iff :
    (is_valid : ℕ → Bool) (now : ℕ) (bans : List BannedIdentity) (history : List IdentifierHistory)
    (e w : Option ℕ) (uid : ℕ)
    → (is_any_identifier_banned is_valid now bans history e w uid ≡ none)
      ↔ All (IsFree now bans) (identifiers_of is_valid e w uid history)
unfolding is_any_identifier_banned
is_any_identifier_banned_iff is_valid now bans history e w uid =
    first_ban-eq-none now bans (identifiers_of is_valid e w uid history)

identifier_eq_refl : (i : Identifier) → identifier_eq i i ≡ true
identifier_eq_refl i = type_then_value i.identifier_type i.identifier_value
  where
    type_then_value : (t : IdentifierType) (v : ℕ) → type_eq t t && v == v ≡ true
    type_then_value email v = ==_refl v
    type_then_value wallet v = ==_refl v
    type_then_value user_id v = ==_refl v

abbrev is_ban_of : Identifier → BannedIdentity → Bool
is_ban_of i b = identifier_eq b.identifier i

abbrev set_until : Option ℕ → BannedIdentity → BannedIdentity
set_until until b = record b { banned_until = until }

find_first-set_until :
    (i : Identifier) (until : Option ℕ) (bans : List BannedIdentity) (b : BannedIdentity)
    → find_first (is_ban_of i) bans ≡ some b
    → find_first (is_ban_of i) (update_many (is_ban_of i) (set_until until) bans)
      ≡ some (set_until until b)
find_first-set_until i until [] b h = absurd (ground arith)
find_first-set_until i until (r ∷ bans) b h = elim (Bool-cases (is_ban_of i r)) [
  | inl hit ↦
      rw (hit, hit)
        (ap (λ (o : Option BannedIdentity). Option.map (set_until until) o) (rw hit at h))
  | inr miss ↦ rw (miss, miss) (find_first-set_until i until bans b (rw miss at h))
]

check-upsert_ban :
    (now : ℕ) (i : Identifier) (until : Option ℕ) (o : Option BannedIdentity)
    (bans : List BannedIdentity)
    → find_first (is_ban_of i) bans ≡ o
    → is_expired now until ≡ false
    → check_identifier_ban now (upsert_ban i until o bans) i ≡ some i
unfolding check_identifier_ban
check-upsert_ban now i until none bans found fresh = rw (identifier_eq_refl i, fresh) refl
check-upsert_ban now i until (some b) bans found fresh =
    rw (find_first-set_until i until bans b found, fresh) refl

add_banned_identity-check :
    (is_valid : ℕ → Bool) (now : ℕ) (i : Identifier) (until : Option ℕ)
    (bans bans' : List BannedIdentity)
    → add_banned_identity is_valid i until bans ≡ some bans'
    → is_expired now until ≡ false
    → check_identifier_ban now bans' i ≡ some i
unfolding add_banned_identity
add_banned_identity-check is_valid now i until bans bans' h fresh =
    elim (Bool-cases (is_storable_as is_valid i.identifier_type i.identifier_value)) [
      | inl stored ↦
          subst (λ (rows : List BannedIdentity). check_identifier_ban now rows i ≡ some i)
            (some-inj (rw stored at h)) (check-upsert_ban now i until _ bans refl fresh)
      | inr refused ↦ absurd (not_stored (rw refused at h))
    ]
  where
    not_stored : ◌≡◌ {A = Option (List BannedIdentity)} none (some bans') → ⊥
    not_stored e = cc

All-++_right {ℓ κ} : {A : Type ℓ} (P : A → Type κ) (xs ys : List A) → All P (xs ++ ys) → All P ys
All-++_right P [] ys h = h
All-++_right P (x ∷ xs) ys h = All-++_right P xs ys h.1

-- A wallet that was banned, for good or until later than now, is banned at every account that has it,
-- whatever else that account has.
pub add_banned_identity-bans :
    (is_valid : ℕ → Bool) (now w : ℕ) (until : Option ℕ) (bans bans' : List BannedIdentity)
    (history : List IdentifierHistory) (e : Option ℕ) (uid : ℕ)
    → add_banned_identity is_valid
        (record { identifier_type = wallet; identifier_value = w })
        until
        bans
      ≡ some bans'
    → is_expired now until ≡ false
    → is_any_identifier_banned is_valid now bans' history e (some w) uid ≢ none
unfolding add_banned_identity
add_banned_identity-bans is_valid now w until bans bans' history e uid h fresh free =
    elim (Bool-cases (is_valid w)) [
      | inl valid ↦
          let each =
            All-++_right (IsFree now bans') (email_of e) _
              ((is_any_identifier_banned_iff is_valid now bans' history e (some w) uid).0 free) in
          let unbanned = (rw valid at each).0 in
          some_none
            (sym (add_banned_identity-check is_valid now _ until bans bans' h fresh) ∙ unbanned)
      | inr malformed ↦ not_stored (rw malformed at h)
    ]
  where
    some_none : {i : Identifier} → ◌≡◌ {A = Option Identifier} (some i) none → ⊥
    some_none e = cc

    not_stored : ◌≡◌ {A = Option (List BannedIdentity)} none (some bans') → ⊥
    not_stored e = cc

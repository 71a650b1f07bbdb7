-- ===== src/Payout/Attempts/Laws.antt =====
-- On the journal of lib/payout-attempts.ts: `open`, `confirmAttempt` and `voidAttempt`.
use centient.Common.{
  ℕ, ◌+◌, ◌≤◌, ◌<◌, ◌≡◌, inl, inr, refl, true, false, none, some, List, [], ◌∷◌, if◌then◌else◌,
  find_first, find_by, update_by, arith, Bool-cases,
}
use centient.Payout.Db.{Db, PayoutAttempt, AttemptStatus, confirmed_attempt, void_attempt, Note}
use centient.Payout.Attempts.{
  is_open, is_open_of, may_open, violates_index, journal_open, resolve, confirm_attempt,
  void_attempt_row,
}

-- How many envelopes of a submission are open.
abbrev pub open_count : ℕ → List PayoutAttempt → ℕ
open_count sid [] = 0
open_count sid (a ∷ rows) = (if is_open_of sid a then 1 else 0) + open_count sid rows

-- No submission has two open envelopes.
abbrev pub HasOneOpen : Db → Type 0
HasOneOpen db = (sid : ℕ) → open_count sid db.attempts ≤ 1

open_count-eq-zero :
    (sid hash : ℕ) (rows : List PayoutAttempt)
    → violates_index sid hash rows ≡ false
    → open_count sid rows ≡ 0
open_count-eq-zero sid hash [] h = refl
open_count-eq-zero sid hash (a ∷ rows) h = ground (arith, open_count-eq-zero sid hash rows)

pub open_count-resolve-le :
    (sid hash : ℕ) (s : AttemptStatus) (n : Note) (rows : List PayoutAttempt)
    → is_open s ≡ false
    → open_count sid (resolve hash s n rows) ≤ open_count sid rows
unfolding resolve update_by
open_count-resolve-le sid hash s n [] h = ground arith
open_count-resolve-le sid hash s n (a ∷ rows) h =
    ground (arith, open_count-resolve-le sid hash s n rows h)

-- Resolving the first open envelope of a submission leaves one open envelope fewer.
pub open_count-resolve-lt :
    (sid : ℕ) (s : AttemptStatus) (n : Note) (rows : List PayoutAttempt) (a : PayoutAttempt)
    → is_open s ≡ false
    → find_first (is_open_of sid) rows ≡ some a
    → open_count sid (resolve a.envelope_hash s n rows) < open_count sid rows
unfolding resolve update_by
open_count-resolve-lt sid s n [] a h e = cc
open_count-resolve-lt sid s n (b ∷ rows) a h e = elim (Bool-cases (is_open_of sid b)) [
  | inl found ↦ ground (arith, open_count-resolve-le sid a.envelope_hash s n rows h)
  | inr other ↦ ground (arith, open_count-resolve-lt sid s n rows a h)
]

pub find_first-none-of_open_count :
    (sid : ℕ) (rows : List PayoutAttempt)
    → open_count sid rows ≡ 0
    → find_first (is_open_of sid) rows ≡ none
find_first-none-of_open_count sid [] h = refl
find_first-none-of_open_count sid (a ∷ rows) h =
    ground (arith, find_first-none-of_open_count sid rows)

pub open_count-eq-zero_of_find_first :
    (sid : ℕ) (rows : List PayoutAttempt)
    → find_first (is_open_of sid) rows ≡ none
    → open_count sid rows ≡ 0
open_count-eq-zero_of_find_first sid [] h = refl
open_count-eq-zero_of_find_first sid (a ∷ rows) h =
    ground (arith, open_count-eq-zero_of_find_first sid rows)

-- Opening an envelope keeps the journal's index, and leaves exactly one open for its submission.
pub journal_open-HasOneOpen :
    (sid hash expires_at now : ℕ) (db : Db) {db' : Db}
    → HasOneOpen db
    → journal_open sid hash expires_at now db ≡ some db'
    → HasOneOpen db' × (open_count sid db'.attempts ≡ 1)
unfolding journal_open
journal_open-HasOneOpen sid hash expires_at now db h e = (
  λ k. ground (arith, h k, open_count-eq-zero sid hash db.attempts),
  ground (arith, open_count-eq-zero sid hash db.attempts),
)

-- Confirming or voiding an envelope opens none.
pub resolve-HasOneOpen :
    (hash : ℕ) (outcome : Note) (db : Db)
    → HasOneOpen db
    → HasOneOpen (confirm_attempt hash db) × HasOneOpen (void_attempt_row hash outcome db)
unfolding confirm_attempt void_attempt_row
resolve-HasOneOpen hash outcome db h = (
  λ k.
      omega
        (arith, h k, open_count-resolve-le k hash confirmed_attempt Note.applied db.attempts refl),
  λ k. omega (arith, h k, open_count-resolve-le k hash void_attempt outcome db.attempts refl),
)

-- An envelope opens only for a submission that exists, is payable and carries no hash.
pub journal_open-eq-none :
    (sid hash expires_at now : ℕ) (db : Db)
    → may_open (find_by (λ r. r.id) sid db.submissions) ≡ false
    → journal_open sid hash expires_at now db ≡ none
unfolding journal_open
journal_open-eq-none sid hash expires_at now db h = rw h

-- Nor does one open against the unique indexes.
pub journal_open-eq-none_of_open :
    (sid hash expires_at now : ℕ) (db : Db)
    → violates_index sid hash db.attempts ≡ true
    → journal_open sid hash expires_at now db ≡ none
unfolding journal_open
journal_open-eq-none_of_open sid hash expires_at now db h = ground arith

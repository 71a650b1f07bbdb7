-- ===== src/Balance/User/Laws.antt =====
-- On `debitForWithdrawal` and `refundReversal` of lib/user-balance.ts: the account that the user
-- ledger keeps.
use centient.Common.{
  ℕ, ◌+◌, ◌-◌, ◌≤◌, ◌≡◌, refl, subst, ap, Bool, true, false, Option, none, some, List, [], ◌∷◌,
  ◌==◌, if◌then◌else◌, arith, find_by, update_by, always, find_by-update_by, ok, Option-cases,
  Bool-cases, inl, inr, ==_iff, ==_refl, ltb,
}
use centient.Payout.Db.{Db, User, UserLedgerRow, UserLedgerType, withdrawal_debit, reversal}
use centient.Balance.User.{
  find_user, pending_of, get_user_pending_balance, set_pending, move_balance, debit_user,
  debit_for_withdrawal, already_reversed, restore, refund_reversal, user_ledger_row,
}

abbrev pub is_debit : UserLedgerType → Bool
is_debit withdrawal_debit = true
is_debit _ = false

-- What the ledger has credited to a labeler, and debited.
abbrev pub user_credits : ℕ → List UserLedgerRow → ℕ
user_credits uid [] = 0
user_credits uid (r ∷ rows) =
    (if r.user_id == uid then (if is_debit r.row_type then 0 else r.amount_units) else 0)
    + user_credits uid rows

abbrev pub user_debits : ℕ → List UserLedgerRow → ℕ
user_debits uid [] = 0
user_debits uid (r ∷ rows) =
    (if r.user_id == uid then (if is_debit r.row_type then r.amount_units else 0) else 0)
    + user_debits uid rows

-- Every labeler's balance is what the ledger credits less what it debits.
abbrev pub IsUserReconciled : Db → Type 0
IsUserReconciled db =
    (uid : ℕ)
    → pending_of (find_user uid db) + user_debits uid db.user_ledger
      ≡ user_credits uid db.user_ledger

pub pending-update_by :
    (k uid : ℕ) (f : ℕ → ℕ) (rows : List User) (u : User)
    → find_by (λ b. b.id) uid rows ≡ some u
    → pending_of (find_by (λ b. b.id) k (update_by (λ b. b.id) uid always (set_pending f) rows))
      ≡ (if k == uid then f u.pending_balance_units else pending_of (find_by (λ b. b.id) k rows))
pending-update_by k uid f rows u e =
    rw (find_by-update_by (λ b. b.id) k uid always (set_pending f) rows (λ a. refl))
      (elim (Bool-cases (k == uid)) [
        | inl same ↦ rw (same, (==_iff k uid).0 same, e)
        | inr other ↦ rw other
      ])

-- A debit taken within the balance, and a credit, keep the account.
pub move_balance-debit :
    (uid amount : ℕ) (job : Option ℕ) (db : Db) (u : User)
    → find_user uid db ≡ some u
    → amount ≤ u.pending_balance_units
    → IsUserReconciled db
    → IsUserReconciled
        (move_balance uid (λ n. n - amount) (user_ledger_row uid withdrawal_debit amount job) db)
move_balance-debit uid amount job db u found fits h k = ground (
  arith,
  h k,
  h uid,
  ap pending_of found,
  ==_iff uid k,
  pending-update_by k uid (λ (n : ℕ). n - amount) db.users u found,
)

move_balance-credit :
    (uid amount : ℕ) (job : Option ℕ) (db : Db) (u : User)
    → find_user uid db ≡ some u
    → IsUserReconciled db
    → IsUserReconciled
        (move_balance uid (λ n. n + amount) (user_ledger_row uid reversal amount job) db)
move_balance-credit uid amount job db u found h k = ground (
  arith,
  h k,
  h uid,
  ap pending_of found,
  ==_iff uid k,
  pending-update_by k uid (λ (n : ℕ). n + amount) db.users u found,
)

debit_user-IsUserReconciled :
    (uid amount : ℕ) (job : Option ℕ) (db : Db) (row : Option User) (b : ℕ) (db' : Db)
    → find_user uid db ≡ row
    → IsUserReconciled db
    → debit_user uid amount job row db ≡ ok (b, db')
    → IsUserReconciled db' × (b + amount ≡ pending_of row)
debit_user-IsUserReconciled uid amount job db none b db' found h e = absurd (ground arith)
debit_user-IsUserReconciled uid amount job db (some u) b db' found h e =
    elim (Bool-cases (ltb u.pending_balance_units amount)) [
      | inl short ↦ absurd (ground arith)
      | inr fits ↦
          let m = move_balance-debit uid amount job db u found (ground arith) h in
          let same : move_balance uid (λ n. n - amount)
                (user_ledger_row uid withdrawal_debit amount job) db
              ≡ db' =
            ground arith in
          (subst IsUserReconciled same m, ground arith)
    ]

-- A debit for a withdrawal that goes through keeps the account, and returns the balance less the
-- amount.
pub debit_for_withdrawal-IsUserReconciled :
    (uid amount : ℕ) (job : Option ℕ) (db : Db) (b : ℕ) (db' : Db)
    → IsUserReconciled db
    → debit_for_withdrawal uid amount job db ≡ ok (b, db')
    → IsUserReconciled db' × (b + amount ≡ get_user_pending_balance uid db)
unfolding debit_for_withdrawal get_user_pending_balance
debit_for_withdrawal-IsUserReconciled uid amount job db b db' h e =
    debit_user-IsUserReconciled uid amount job db (find_user uid db) b db' refl h e

-- A reversal that goes through keeps the account of every labeler.
pub refund_reversal-IsUserReconciled :
    (uid amount : ℕ) (job : Option ℕ) (db : Db) (b : ℕ) (db' : Db)
    → IsUserReconciled db
    → refund_reversal uid amount job db ≡ ok (b, db')
    → IsUserReconciled db'
unfolding refund_reversal
refund_reversal-IsUserReconciled uid amount job db b db' h e =
    elim (Bool-cases (already_reversed uid job db)) [
      | inl again ↦ let same : db ≡ db' = ground arith in rw (← same) h
      | inr first ↦ elim (Option-cases (find_user uid db)) [
        | inl missing ↦ absurd (ground arith)
        | inr (u, found) ↦
            let same : move_balance uid (λ n. n + amount) (user_ledger_row uid reversal amount job)
                  db
                ≡ db' =
              ground arith in
            subst IsUserReconciled same (move_balance-credit uid amount job db u found h)
      ]
    ]

restore-marks :
    (uid amount job : ℕ) (db : Db) (row : Option User) (b : ℕ) (db' : Db)
    → restore uid amount (some job) row db ≡ ok (b, db')
    → already_reversed uid (some job) db' ≡ true
unfolding already_reversed
restore-marks uid amount job db none b db' e = cc
restore-marks uid amount job db (some u) b db' e = ground (arith, ==_refl uid, ==_refl job)

-- However often a withdrawal is reversed, its debit is restored once: after a reversal that goes
-- through, any further one of that job returns the balance as it is and writes nothing.
pub refund_reversal_once :
    (uid amount amount' job : ℕ) (db : Db) (b : ℕ) (db' : Db)
    → refund_reversal uid amount (some job) db ≡ ok (b, db')
    → refund_reversal uid amount' (some job) db' ≡ ok (get_user_pending_balance uid db', db')
unfolding refund_reversal get_user_pending_balance
refund_reversal_once uid amount amount' job db b db' e =
    elim (Bool-cases (already_reversed uid (some job) db)) [
      | inl again ↦
          let same : db ≡ db' = ground arith in
          let again' : already_reversed uid (some job) db' ≡ true = rw (← same) again in rw again'
      | inr first ↦ rw (restore-marks uid amount job db (find_user uid db) b db' (rw first at e))
    ]

-- The first reversal of a known labeler's withdrawal restores exactly its amount.
pub refund_reversal_restores :
    (uid amount job : ℕ) (db : Db) (u : User)
    → find_user uid db ≡ some u
    → already_reversed uid (some job) db ≡ false
    → (db' : Db) × (refund_reversal uid amount (some job) db
        ≡ ok (u.pending_balance_units + amount, db'))
      × (get_user_pending_balance uid db' ≡ get_user_pending_balance uid db + amount)
unfolding refund_reversal get_user_pending_balance
refund_reversal_restores uid amount job db u found first = (
  move_balance uid (λ n. n + amount) (user_ledger_row uid reversal amount (some job)) db,
  rw (first, found),
  ground (
    arith,
    ==_refl uid,
    ap pending_of found,
    pending-update_by uid uid (λ (n : ℕ). n + amount) db.users u found,
  ),
)

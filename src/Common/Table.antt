-- ===== src/Common/Table.antt =====
-- A table with a primary key, and the three statements that the code makes of it:
-- `findUnique`, `update`/`updateMany` on one key under a further condition, and `findFirst`.
use Prim.Native.Nat.{ℕ}
use mathlib.Core.Path.{◌≡◌}
use mathlib.Core.Bool.{Bool, true, ◌&&◌}
use mathlib.Core.Option
use mathlib.Core.Option.{Option, none, some}
use mathlib.Core.List.{List, [], ◌∷◌}
use native.Mathlib.Omega.{arith}
use package.centient.Common.Booleans.{◌==◌, if◌then◌else◌}

module _ {ℓ} {A : Type ℓ} where
  -- `findFirst({ where })`, in the table's order.
  abbrev pub find_first : (A → Bool) → List A → Option A
  find_first p [] = none
  find_first p (r ∷ rs) = if p r then some r else find_first p rs

  -- `updateMany({ where, data })`
  abbrev pub update_many : (A → Bool) → (A → A) → List A → List A
  update_many p f [] = []
  update_many p f (r ∷ rs) = (if p r then f r else r) ∷ update_many p f rs

  -- `findUnique({ where: { id } })`
  unfoldable pub find_by : (A → ℕ) → ℕ → List A → Option A
  find_by key k rows = find_first (λ r. key r == k) rows

  -- `updateMany({ where: { id, ... }, data })`
  unfoldable pub update_by : (A → ℕ) → ℕ → (A → Bool) → (A → A) → List A → List A
  update_by key k p f rows = update_many (λ r. key r == k && p r) f rows

  abbrev pub always : A → Bool
  always _ = true

  -- A keyed update changes the row of that key, and no other.
  pub find_by-update_by :
      (key : A → ℕ) (k j : ℕ) (p : A → Bool) (f : A → A) (rows : List A)
      → ((a : A) → key (f a) ≡ key a)
      → find_by key k (update_by key j p f rows) ≡ (
          if k == j
          then Option.map (λ r. if p r then f r else r) (find_by key k rows)
          else find_by key k rows)
  unfolding find_by update_by
  find_by-update_by key k j p f [] keeps = ground arith
  find_by-update_by key k j p f (r ∷ rs) keeps =
      ground (arith, keeps r, find_by-update_by key k j p f rs keeps)

  -- What is found under a key carries that key.
  pub find_by-key :
      (key : A → ℕ) (k : ℕ) (rows : List A) (r : A) → find_by key k rows ≡ some r → key r ≡ k
  unfolding find_by
  find_by-key key k [] r h = ground arith
  find_by-key key k (x ∷ rs) r h = ground (arith, find_by-key key k rs r)

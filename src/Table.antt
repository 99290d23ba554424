-- ===== src/Table.antt =====
-- The statements of SQL that src/pipelens/store.py issues on one table, over a list of rows in
-- insertion order: `select ... where`, `update ... where ... values`, `delete ... where`, the
-- `rowcount` of an update, and the primary key.
pub mod Keyed
pub mod Rows
pub mod Order
use pipe_lens.Common.{ℕ, ◌+◌, ◌≡◌, Bool, Option, none, some, List, [], ◌∷◌, ◌==◌, if◌then◌else◌}

module _ {ℓ} {R : Type ℓ} where
  -- `select(...).where(p)`
  unfoldable pub select : (R → Bool) → List R → List R
  select p [] = []
  select p (r ∷ rs) = if p r then r ∷ select p rs else select p rs

  -- `.first()` of a select
  unfoldable pub first : (R → Bool) → List R → Option R
  first p [] = none
  first p (r ∷ rs) = if p r then some r else first p rs

  -- `update(...).where(p).values(...)`
  unfoldable pub update : (R → Bool) → (R → R) → List R → List R
  update p f [] = []
  update p f (r ∷ rs) = (if p r then f r else r) ∷ update p f rs

  -- the `rowcount` of that update
  unfoldable pub row_count : (R → Bool) → List R → ℕ
  row_count p [] = 0
  row_count p (r ∷ rs) = (if p r then 1 else 0) + row_count p rs

  -- `delete(...).where(p)`
  unfoldable pub delete : (R → Bool) → List R → List R
  delete p [] = []
  delete p (r ∷ rs) = if p r then delete p rs else r ∷ delete p rs

  -- `order_by`: the rows so that none stands behind one that it comes before; rows of the same rank
  -- keep their order.
  unfoldable pub insert_by : (R → R → Bool) → R → List R → List R
  insert_by before x [] = x ∷ []
  insert_by before x (y ∷ ys) =
      let rest = insert_by before x ys in if before y x then y ∷ rest else x ∷ y ∷ ys

  unfoldable pub order_by : (R → R → Bool) → List R → List R
  unfolding insert_by
  order_by before [] = []
  order_by before (x ∷ xs) = insert_by before x (order_by before xs)

module _ {ℓ} {R : Type ℓ} (key : R → ℕ) where
  abbrev pub has_key : ℕ → R → Bool
  has_key k r = key r == k

  -- A primary key: no later row has the key of an earlier one.
  abbrev pub IsKeyed : List R → Type ℓ
  IsKeyed [] = Unit
  IsKeyed (r ∷ rs) = (first (has_key (key r)) rs ≡ none) × IsKeyed rs

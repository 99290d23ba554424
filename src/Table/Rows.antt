-- ===== src/Table/Rows.antt =====
-- What an insert, a delete and an order do to the rows that a select finds.
use pipe_lens.Common.{
  ◌≡◌, refl, Bool, true, false, none, some, List, [], ◌∷◌, ◌++◌, Bool-cases, inl, inr,
}
use pipe_lens.Table.{select, first, update, delete}

module _ {ℓ} {R : Type ℓ} (p : R → Bool) where
  pub first-append : (xs ys : List R) → first p xs ≡ none → first p (xs ++ ys) ≡ first p ys
  unfolding first
  first-append [] ys h = refl
  first-append (x ∷ xs) ys h = elim (Bool-cases (p x)) [
    | inl yes_ ↦ cc (rw yes_ at h)
    | inr off ↦ rw off (first-append xs ys (rw off at h))
  ]

  -- An update that keeps the condition changes the first row that meets it.
  pub first-update :
      (f : R → R)
      → ((x : R) → p (f x) ≡ p x)
      → (xs : List R) (r : R) → first p xs ≡ some r
      → first p (update p f xs) ≡ some (f r)
  unfolding first update
  first-update f same [] r h = cc h
  first-update f same (x ∷ xs) r h = elim (Bool-cases (p x)) [
    | inl yes_ ↦
        let found : some x ≡ some r = rw yes_ at h in rw yes_ (rw (same x, yes_) (cc found))
    | inr off ↦ rw off (rw off (first-update f same xs r (rw off at h)))
  ]

  pub first-delete : (xs : List R) → first p (delete p xs) ≡ none
  unfolding first delete
  first-delete [] = refl
  first-delete (x ∷ xs) = elim (Bool-cases (p x)) [
    | inl yes_ ↦ rw yes_ (first-delete xs)
    | inr off ↦ rw off (rw off (first-delete xs))
  ]

  pub select-delete : (xs : List R) → select p (delete p xs) ≡ []
  unfolding select delete
  select-delete [] = refl
  select-delete (x ∷ xs) = elim (Bool-cases (p x)) [
    | inl yes_ ↦ rw yes_ (select-delete xs)
    | inr off ↦ rw off (rw off (select-delete xs))
  ]

  pub select-append : (xs ys : List R) → select p (xs ++ ys) ≡ select p xs ++ select p ys
  unfolding select
  select-append [] ys = refl
  select-append (x ∷ xs) ys = elim (Bool-cases (p x)) [
    | inl yes_ ↦ rw yes_ (rw (select-append xs ys) refl)
    | inr off ↦ rw off (select-append xs ys)
  ]

  -- What a select finds satisfies its condition.
  pub first-found : (xs : List R) (r : R) → first p xs ≡ some r → p r ≡ true
  unfolding first
  first-found [] r h = cc
  first-found (x ∷ xs) r h = elim (Bool-cases (p x)) [
    | inl yes_ ↦ let e : some x ≡ some r = rw yes_ at h in cc
    | inr off ↦ first-found xs r (rw off at h)
  ]

module _ {ℓ} {R : Type ℓ} (p q : R → Bool) (apart : (x : R) → q x ≡ true → p x ≡ false) where
  -- A delete keeps the rows of another condition.
  pub first-delete_other : (xs : List R) → first q (delete p xs) ≡ first q xs
  unfolding first delete
  first-delete_other [] = refl
  first-delete_other (x ∷ xs) = elim (Bool-cases (p x)) [
    | inl yes_ ↦ elim (Bool-cases (q x)) [
      | inl on ↦ cc (apart x on)
      | inr off ↦ rw (yes_, off) (first-delete_other xs)
    ]
    | inr keep ↦ rw keep (rw (first-delete_other xs) refl)
  ]

  pub select-delete_other : (xs : List R) → select q (delete p xs) ≡ select q xs
  unfolding select delete
  select-delete_other [] = refl
  select-delete_other (x ∷ xs) = elim (Bool-cases (p x)) [
    | inl yes_ ↦ elim (Bool-cases (q x)) [
      | inl on ↦ cc (apart x on)
      | inr off ↦ rw (yes_, off) (select-delete_other xs)
    ]
    | inr keep ↦ rw keep (rw (select-delete_other xs) refl)
  ]

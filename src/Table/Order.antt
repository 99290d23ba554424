-- ===== src/Table/Order.antt =====
-- The first row of an ordered select.
use pipe_lens.Common.{
  ℕ, ◌≡◌, subst, refl, sym, Bool, true, false, some, List, [], ◌∷◌, ◌==◌, ==_refl, ==_iff, All,
  All-weaker, Bool-cases, ◌⊎◌, inl, inr,
}
use pipe_lens.Table.{select, first, insert_by, order_by, has_key, IsKeyed}

module _ {ℓ} {R : Type ℓ} where
  pub All-select :
      (Q : R → Type 0) (p : R → Bool) (xs : List R)
      → All Q xs
      → All (λ r. (p r ≡ true) × Q r) (select p xs)
  unfolding select
  All-select Q p [] h = tt
  All-select Q p (x ∷ xs) h = elim (Bool-cases (p x)) [
    | inl on ↦ rw on ((on, h.0), All-select Q p xs h.1)
    | inr off ↦ rw off (All-select Q p xs h.1)
  ]

  module _ (before : R → R → Bool) where
    All-insert_by :
        (Q : R → Type 0) (x : R) (ys : List R) → Q x → All Q ys → All Q (insert_by before x ys)
    unfolding insert_by
    All-insert_by Q x [] q h = (q, tt)
    All-insert_by Q x (y ∷ ys) q h = elim (Bool-cases (before y x)) [
      | inl on ↦ rw on (h.0, All-insert_by Q x ys q h.1)
      | inr off ↦ rw off (q, h)
    ]

    pub All-order_by : (Q : R → Type 0) (xs : List R) → All Q xs → All Q (order_by before xs)
    unfolding order_by
    All-order_by Q [] h = tt
    All-order_by Q (x ∷ xs) h = All-insert_by Q x (order_by before xs) h.0 (All-order_by Q xs h.1)

    insert_by-All :
        (Q : R → Type 0) (x : R) (ys : List R) → All Q (insert_by before x ys) → Q x × All Q ys
    unfolding insert_by
    insert_by-All Q x [] h = (h.0, tt)
    insert_by-All Q x (y ∷ ys) h = elim (Bool-cases (before y x)) [
      | inl on ↦
          let there : Q y × All Q (insert_by before x ys) = rw on at h in
          let (q, rest) = insert_by-All Q x ys there.1 in (q, (there.0, rest))
      | inr off ↦ let there : Q x × All Q (y ∷ ys) = rw off at h in there
    ]

    pub order_by-All : (Q : R → Type 0) (xs : List R) → All Q (order_by before xs) → All Q xs
    unfolding order_by
    order_by-All Q [] h = tt
    order_by-All Q (x ∷ xs) h =
        let (q, rest) = insert_by-All Q x (order_by before xs) h in (q, order_by-All Q xs rest)

    insert_by-cons :
        (x : R) (ys : List R) → (z : R) × (zs : List R) × (insert_by before x ys ≡ z ∷ zs)
    unfolding insert_by
    insert_by-cons x [] = (x, [], refl)
    insert_by-cons x (y ∷ ys) = elim (Bool-cases (before y x)) [
      | inl on ↦ (y, insert_by before x ys, rw on refl)
      | inr off ↦ (x, y ∷ ys, rw off refl)
    ]

    pub order_by-cases :
        (xs : List R)
        → ((xs ≡ []) × (order_by before xs ≡ []))
          ⊎ ((y : R) × (ys : List R) × (order_by before xs ≡ y ∷ ys))
    unfolding order_by
    order_by-cases [] = inl (refl, refl)
    order_by-cases (x ∷ xs) = inr (insert_by-cons x (order_by before xs))

    -- No row comes before the first one.
    abbrev pub IsLowest : List R → Type 0
    IsLowest [] = Unit
    IsLowest (y ∷ ys) = All (λ z. before z y ≡ false) (y ∷ ys)

    module _ (irreflexive : (x : R) → before x x ≡ false)
        (asymmetric : (x y : R) → before x y ≡ true → before y x ≡ false)
        (cotransitive : (x y z : R)
          → before x y ≡ false
          → before y z ≡ false
          → before x z ≡ false) where
      insert_by-IsLowest : (x : R) (ys : List R) → IsLowest ys → IsLowest (insert_by before x ys)
      unfolding insert_by
      insert_by-IsLowest x [] h = (irreflexive x, tt)
      insert_by-IsLowest x (y ∷ ys) h = elim (Bool-cases (before y x)) [
        | inl on ↦ rw on (h.0, All-insert_by (λ z. before z y ≡ false) x ys (asymmetric y x on) h.1)
        | inr off ↦ rw off (
          irreflexive x,
          All-weaker (λ z. before z y ≡ false) (λ z. before z x ≡ false)
              (λ z low. cotransitive z y x low off) (y ∷ ys) h,
        )
      ]

      order_by-IsLowest : (xs : List R) → IsLowest (order_by before xs)
      unfolding order_by
      order_by-IsLowest [] = tt
      order_by-IsLowest (x ∷ xs) = insert_by-IsLowest x (order_by before xs) (order_by-IsLowest xs)

      pub order_by-lowest :
          (xs : List R) (y : R) (ys : List R)
          → order_by before xs ≡ y ∷ ys
          → All (λ z. before z y ≡ false) xs
      order_by-lowest xs y ys e =
          let low : IsLowest (y ∷ ys) = subst IsLowest e (order_by-IsLowest xs) in
          order_by-All (λ z. before z y ≡ false) xs
            (subst (All (λ z. before z y ≡ false)) (sym e) low)

module _ {R : Type 0} (key : R → ℕ) where
  -- The row of a key is the row that a select of the key finds.
  pub IsKeyed-first :
      (xs : List R) → IsKeyed key xs → All (λ r. first (has_key key (key r)) xs ≡ some r) xs
  unfolding first
  IsKeyed-first [] h = tt
  IsKeyed-first (x ∷ xs) h = (
    rw (==_refl (key x)) refl,
    All-weaker (λ r. first (has_key key (key r)) xs ≡ some r)
        (λ r. first (has_key key (key r)) (x ∷ xs) ≡ some r)
        (λ r found. elim (Bool-cases (key x == key r)) [
          | inl same ↦
              let e : key x ≡ key r = (==_iff (key x) (key r)).0 same in cc (found, rw e at h.0)
          | inr other ↦ rw (first, other) found
        ])
        xs (IsKeyed-first xs h.1),
  )

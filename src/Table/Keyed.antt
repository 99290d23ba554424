-- ===== src/Table/Keyed.antt =====
-- What an update does to the row of a key.
use pipe_lens.Common.{
  ℕ, ◌<◌, is_some, true, ◌≡◌, refl, ◌≢◌, Bool, ◌&&◌, Option, none, some, List, [], ◌∷◌, arith, ◌==◌,
  ==_iff, if◌then◌else◌, Bool-cases, inl, inr,
}
use pipe_lens.Table.{first, update, row_count, has_key, IsKeyed}

-- What the row of a key tells of a test: 0 or 1 matching rows.
abbrev pub matching {ℓ} : {R : Type ℓ} → (R → Bool) → Option R → ℕ
matching q none = 0
matching q (some r) = if q r then 1 else 0

-- The row of a key after an update under `q`.
abbrev pub updated {ℓ} : {R : Type ℓ} → (R → Bool) → (R → R) → Option R → Option R
updated q f none = none
updated q f (some r) = some (if q r then f r else r)

module _ {ℓ} {R : Type ℓ} where
  pub update-row_count_zero :
      (p : R → Bool) (f : R → R) (rs : List R) → row_count p rs ≡ 0 → update p f rs ≡ rs
  unfolding row_count update
  update-row_count_zero p f [] h = refl
  update-row_count_zero p f (r ∷ rs) h = ground (arith, update-row_count_zero p f rs)

  pub first-row_count_zero : (p : R → Bool) (rs : List R) → row_count p rs ≡ 0 → first p rs ≡ none
  unfolding row_count first
  first-row_count_zero p [] h = refl
  first-row_count_zero p (r ∷ rs) h = ground (arith, first-row_count_zero p rs)

  pub first-row_count_pos :
      (p : R → Bool) (rs : List R) → 0 < row_count p rs → is_some (first p rs) ≡ true
  unfolding row_count first
  first-row_count_pos p [] h = absurd (omega arith)
  first-row_count_pos p (r ∷ rs) h = ground (arith, first-row_count_pos p rs)

module _ {ℓ} {R : Type ℓ} (key : R → ℕ) where
  row_count_absent :
      (k : ℕ) (q : R → Bool) (rs : List R)
      → first (has_key key k) rs ≡ none
      → row_count (λ r. has_key key k r && q r) rs ≡ 0
  unfolding first row_count
  row_count_absent k q [] h = refl
  row_count_absent k q (r ∷ rs) h = ground (arith, row_count_absent k q rs)

  -- Under a primary key the `rowcount` tells whether the row of the key passes the test.
  pub row_count-IsKeyed :
      (k : ℕ) (q : R → Bool) (rs : List R)
      → IsKeyed key rs
      → row_count (λ r. has_key key k r && q r) rs ≡ matching q (first (has_key key k) rs)
  unfolding first row_count
  row_count-IsKeyed k q [] h = refl
  row_count-IsKeyed k q (r ∷ rs) h = elim (Bool-cases (key r == k)) [
    | inl e ↦
        let found : key r ≡ k = (==_iff (key r) k).0 e in
        let alone : row_count (λ r'. has_key key k r' && q r') rs ≡ 0 =
          row_count_absent k q rs (rw found at h.0) in
        ground arith
    | inr ne ↦ ground (arith, row_count-IsKeyed k q rs h.1)
  ]

  module _ (f : R → R) (keeps : (r : R) → key (f r) ≡ key r) where
    pub first-update_self :
        (k : ℕ) (q : R → Bool) (rs : List R)
        → first (has_key key k) (update (λ r. has_key key k r && q r) f rs)
          ≡ updated q f (first (has_key key k) rs)
    unfolding first update
    first-update_self k q [] = refl
    first-update_self k q (r ∷ rs) = ground (arith, keeps r, first-update_self k q rs)

    pub first-update_ne :
        (j k : ℕ) (q : R → Bool) (rs : List R)
        → j ≢ k
        → first (has_key key j) (update (λ r. has_key key k r && q r) f rs)
          ≡ first (has_key key j) rs
    unfolding first update
    first-update_ne j k q [] ne = refl
    first-update_ne j k q (r ∷ rs) ne = ground (arith, keeps r, first-update_ne j k q rs ne)

    first-update-none :
        (j : ℕ) (p : R → Bool) (rs : List R)
        → first (has_key key j) rs ≡ none
        → first (has_key key j) (update p f rs) ≡ none
    unfolding first update
    first-update-none j p [] h = refl
    first-update-none j p (r ∷ rs) h = ground (arith, keeps r, first-update-none j p rs)

    pub update-IsKeyed : (p : R → Bool) (rs : List R) → IsKeyed key rs → IsKeyed key (update p f rs)
    unfolding update
    update-IsKeyed p [] h = h
    update-IsKeyed p (r ∷ rs) h = elim (Bool-cases (p r)) [
      | inl e ↦ rw (e, keeps r) (first-update-none (key r) p rs h.0, update-IsKeyed p rs h.1)
      | inr e ↦ rw e (first-update-none (key r) p rs h.0, update-IsKeyed p rs h.1)
    ]

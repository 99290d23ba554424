-- ===== src/Patching/Apply.antt =====
-- What a diff that applies has done to the file.
use native.Mathlib.Nat.{zero-add, suc-add}
use pipe_lens.Common.{
  ℕ, zero, suc, ◌+◌, ◌-◌, ◌≤◌, ◌<◌, ◌≡◌, refl, ap, sym, ◌∙◌, subst, Text, concat, splitlines_keep,
  true, ◌&&◌, List, [], ◌∷◌, ◌++◌, arith, leb, ◌==◌, Bool-cases, inl, inr, ◌⊎◌, length, take, drop,
  take-append-drop, ==_iff,
}
use pipe_lens.Patching.{
  Result, applied, rejected, Hunk, same_lines, matches, candidates, single, locate_hunk,
  apply_hunks, parse_hunks, apply_unified_diff, ◌>>=◌,
}

-- The file `before` with the old side of each hunk replaced by its new side, in order and without
-- overlap, and all else kept. An old side equals the lines that it replaces up to their line ends.
pub data Applies : List Hunk → List Text → List Text → Type 0 where
  unchanged : (lines : List Text) → Applies [] lines lines
  replaced :
      (kept old lines result : List Text) (hunk : Hunk) (hunks : List Hunk)
      (before after : List Text)
      → same_lines old hunk.old_lines ≡ true
      → Applies hunks lines result
      → before ≡ kept ++ (old ++ lines)
      → after ≡ kept ++ (hunk.new_lines ++ result)
      → Applies (hunk ∷ hunks) before after

drop-nil : {A : Type 0} (n : ℕ) → drop {A = A} n [] ≡ []
drop-nil zero = refl
drop-nil (suc n) = refl

drop-drop : {A : Type 0} (m n : ℕ) (xs : List A) → drop m (drop n xs) ≡ drop (n + m) xs
drop-drop m zero xs = rw zero-add
drop-drop m (suc n) [] = rw (drop-nil, drop-nil)
drop-drop m (suc n) (x ∷ xs) = rw suc-add (drop-drop m n xs)

-- The places that the search finds lie in its range and match, and every match there is found.
candidates_sound :
    (lines : List Text) (hunk : Hunk) (start count : ℕ) (place : ℕ) (others : List ℕ)
    → candidates lines hunk start count ≡ place ∷ others
    → (start ≤ place) × (matches lines hunk place ≡ true)
unfolding candidates
candidates_sound lines hunk start zero place others h = cc
candidates_sound lines hunk start (suc count) place others h =
    elim (Bool-cases (matches lines hunk start)) [
      | inl m ↦ ground arith
      | inr m ↦ ground (arith, candidates_sound lines hunk (start + 1) count place others)
    ]

abbrev Holds : List ℕ → ℕ → Type 0
Holds [] j = ⊥
Holds (x ∷ xs) j = (x ≡ j) ⊎ Holds xs j

candidates_complete :
    (lines : List Text) (hunk : Hunk) (start count j : ℕ)
    → start ≤ j
    → j < start + count
    → matches lines hunk j ≡ true
    → Holds (candidates lines hunk start count) j
unfolding candidates
candidates_complete lines hunk start zero j le lt m = absurd (omega arith)
candidates_complete lines hunk start (suc count) j le lt m = elim (Bool-cases (start == j)) [
  | inl here ↦ let e : start ≡ j = (==_iff start j).0 here in rw (e, m) (inl refl)
  | inr there ↦
      let later =
        candidates_complete lines hunk (start + 1) count j (ground arith) (omega arith) m in
      elim (Bool-cases (matches lines hunk start)) [
        | inl found ↦ rw found (inr later)
        | inr missed ↦ rw missed later
      ]
]

only_one : {x j : ℕ} → Holds (x ∷ []) j → j ≡ x
only_one (inl e) = sym e
only_one (inr h) = absurd h

single_applied : (cs : List ℕ) (start : ℕ) → single cs ≡ applied start → cs ≡ start ∷ []
single_applied [] start h = cc
single_applied (x ∷ []) start h = ground arith
single_applied (x ∷ y ∷ cs) start h = cc

module _ (lines : List Text) (hunk : Hunk) (cursor start : ℕ) where
  abbrev searched : List ℕ
  searched = candidates lines hunk cursor (length lines + 1 - length hunk.old_lines - cursor)

  -- The two ways in which a hunk is placed.
  pub locate_hunk_cases :
      locate_hunk lines hunk cursor ≡ applied start
      → ((start ≡ hunk.old_start - 1) × (cursor ≤ start) × (matches lines hunk start ≡ true))
        ⊎ (searched ≡ start ∷ [])
  unfolding locate_hunk
  locate_hunk_cases h =
      elim (Bool-cases
        (leb cursor (hunk.old_start - 1) && matches lines hunk (hunk.old_start - 1))) [
          | inl stated ↦ inl (ground arith)
          | inr moved ↦ inr (single_applied searched start (rw moved at h))
        ]

  locate_hunk_sound :
      locate_hunk lines hunk cursor ≡ applied start
      → (cursor ≤ start) × (matches lines hunk start ≡ true)
  locate_hunk_sound h = elim (locate_hunk_cases h) [
    | inl (e, le, m) ↦ (le, m)
    | inr e ↦ candidates_sound lines hunk cursor _ start [] e
  ]

  -- A hunk that is placed lies at or after the cursor, where its old side matches the file; and if
  -- it matches at any place `j` of the rest of the file, then `j` is that place, unless the place is
  -- the one that the hunk's header states. So a hunk is never applied where its place is in doubt.
  pub locate_hunk_unique :
      (j : ℕ)
      → locate_hunk lines hunk cursor ≡ applied start
      → cursor ≤ j
      → j + length hunk.old_lines ≤ length lines
      → matches lines hunk j ≡ true
      → (cursor ≤ start)
        × (matches lines hunk start ≡ true)
        × ((start ≡ hunk.old_start - 1) ⊎ (j ≡ start))
  locate_hunk_unique j h le fits m = (
    (locate_hunk_sound h).0,
    (locate_hunk_sound h).1,
    elim (locate_hunk_cases h) [
      | inl (e, le', m') ↦ inl e
      | inr e ↦
          let found =
            candidates_complete lines hunk cursor
              (length lines + 1 - length hunk.old_lines - cursor) j le (omega arith) m in
          inr (only_one (subst (λ cs. Holds cs j) e found))
    ],
  )

-- What the first of two steps gave, when both applied.
>>=-applied :
    {A B : Type 0} (f : A → Result B) (m : Result A) (b : B)
    → (m >>= f) ≡ applied b
    → (a : A) × (m ≡ applied a) × (f a ≡ applied b)
>>=-applied f (rejected e) b h = cc
>>=-applied f (applied a) b h = (a, refl, h)

-- The lines from the cursor are those up to a place, the window there, and the rest.
cut_at :
    (lines : List Text) (cursor start size : ℕ)
    → cursor ≤ start
    → drop cursor lines
      ≡ take (start - cursor) (drop cursor lines)
        ++ (take size (drop start lines) ++ drop (start + size) lines)
cut_at lines cursor start size le =
    let there : cursor + (start - cursor) ≡ start = omega arith in
    let skip : drop (start - cursor) (drop cursor lines) ≡ drop start lines =
      drop-drop (start - cursor) cursor lines ∙ ap (λ n. drop n lines) there in
    sym (take-append-drop (start - cursor) (drop cursor lines))
    ∙ ap (λ ls. take (start - cursor) (drop cursor lines) ++ ls)
        (skip
          ∙ sym (take-append-drop size (drop start lines))
          ∙ ap (λ ls. take size (drop start lines) ++ ls) (drop-drop size start lines))

apply_hunks_sound :
    (lines : List Text) (hunks : List Hunk) (cursor : ℕ) (result : List Text)
    → apply_hunks lines hunks cursor ≡ applied result
    → Applies hunks (drop cursor lines) result
unfolding apply_hunks
apply_hunks_sound lines [] cursor result h =
    let e : drop cursor lines ≡ result = cc in
    subst (λ r. Applies [] (drop cursor lines) r) e (unchanged (drop cursor lines))
apply_hunks_sound lines (hunk ∷ hunks) cursor result h =
    let (start, placed, h') = >>=-applied _ (locate_hunk lines hunk cursor) result h in
    let size = length hunk.old_lines in
    let (rest, changed, e) = >>=-applied _ (apply_hunks lines hunks (start + size)) result h' in
    let (le, m) = locate_hunk_sound lines hunk cursor start placed in
    replaced (take (start - cursor) (drop cursor lines)) (take size (drop start lines))
      (drop (start + size) lines) rest hunk hunks (drop cursor lines) result (unfold matches in m)
      (apply_hunks_sound lines hunks (start + size) rest changed)
      (cut_at lines cursor start size le) (cc)

-- A diff that applies has changed the file only where its hunks say: every old side that it replaces
-- is the text of its hunk up to line ends, the replacements do not overlap and stand in the order of
-- the hunks, and all other lines are kept with their ends.
pub apply_unified_diff_sound :
    (original patch result : Text)
    → apply_unified_diff original patch ≡ applied result
    → (hunks : List Hunk) × (after : List Text) × (parse_hunks patch ≡ applied hunks)
      × Applies hunks (splitlines_keep original) after
      × (concat after ≡ result)
unfolding apply_unified_diff
apply_unified_diff_sound original patch result h =
    let (hunks, parsed, h') = >>=-applied _ (parse_hunks patch) result h in
    let (after, changed, e) =
      >>=-applied _ (apply_hunks (splitlines_keep original) hunks 0) result h' in
    (hunks, after, parsed, apply_hunks_sound (splitlines_keep original) hunks 0 after changed, cc)

-- ===== src/Relevance/Ranking.antt =====
-- What `correlate_changed_files` returns: the files with a reason, the most related first.
use pipe_lens.Common.{
  ℕ, ◌≤◌, ◌≡◌, ◌≢◌, refl, Text, true, false, Option, List, [], ◌∷◌, ◌++◌, length, drop,
  take-append-drop, length-take, min, All, All-append, Bool-cases, arith, inl, inr, ltb, ◌⊎◌, ◌<◌,
}
use mathlib.Core.List.{Perm}
use mathlib.Core.List.Perm
use pipe_lens.Models.{ErrorCategory, ChangedFile, RelatedFile}
use pipe_lens.Regex.{Unicode, lower}
use pipe_lens.Relevance.{
  tokens, relate, relate_all, related, matching_patch_excerpt, text_less, comes_before, insert,
  sorted, correlate_changed_files,
}

-- An item with a reason, and a score of at most one.
abbrev pub IsRelated : RelatedFile → Type 0
IsRelated f = (f.reasons ≢ []) × (f.score ≤ 1000000)

-- The order of texts by their code points, the shorter first.
abbrev pub TextLe : Text → Text → Type 0
TextLe [] t = Unit
TextLe (a ∷ s) [] = ⊥
TextLe (a ∷ s) (b ∷ t) = (a < b) ⊎ ((a ≡ b) × TextLe s t)

-- A higher score stands first, and of two equal ones the name that is not greater.
abbrev pub Precedes : RelatedFile → RelatedFile → Type 0
Precedes x y = (y.score < x.score) ⊎ ((x.score ≡ y.score) × TextLe x.filename y.filename)

abbrev pub Ordered : List RelatedFile → Type 0
Ordered [] = Unit
Ordered (x ∷ []) = Unit
Ordered (x ∷ y ∷ xs) = Precedes x y × Ordered (y ∷ xs)

text_less-TextLe : (a b : Text) → text_less b a ≡ false → TextLe a b
unfolding text_less
text_less-TextLe [] b h = tt
text_less-TextLe (c ∷ s) [] h = ground arith
text_less-TextLe (c ∷ s) (d ∷ t) h = elim (Bool-cases (ltb c d)) [
  | inl less ↦ inl (ground arith)
  | inr same ↦ let equal : c ≡ d = ground arith in inr (equal, text_less-TextLe s t (ground arith))
]

comes_before-Precedes : (x y : RelatedFile) → comes_before y x ≡ false → Precedes x y
unfolding comes_before
comes_before-Precedes x y h = elim (Bool-cases (ltb y.score x.score)) [
  | inl more ↦ inl (ground arith)
  | inr same ↦
      let equal : x.score ≡ y.score = ground arith in
      inr (equal, text_less-TextLe x.filename y.filename (ground arith))
]

text_less_asym : (a b : Text) → text_less a b ≡ true → text_less b a ≡ false
unfolding text_less
text_less_asym [] [] h = refl
text_less_asym [] (c ∷ s) h = refl
text_less_asym (d ∷ t) [] h = ground arith
text_less_asym (d ∷ t) (c ∷ s) h = ground (arith, text_less_asym t s)

-- An item that stands before another precedes it.
comes_before_asym : (a b : RelatedFile) → comes_before a b ≡ true → comes_before b a ≡ false
unfolding comes_before
comes_before_asym a b h = ground (arith, text_less_asym a.filename b.filename)

before-Precedes : (a b : RelatedFile) → comes_before a b ≡ true → Precedes a b
before-Precedes a b h = comes_before-Precedes a b (comes_before_asym a b h)

-- What stands first in a list into which an item is inserted.
insert-Ordered : (x : RelatedFile) (ys : List RelatedFile) → Ordered ys → Ordered (insert x ys)
unfolding insert
insert-Ordered x [] h = tt
insert-Ordered x (y ∷ []) h = elim (Bool-cases (comes_before y x)) [
  | inl first ↦ rw first (before-Precedes y x first, tt)
  | inr behind ↦ rw behind (comes_before-Precedes x y behind, tt)
]
insert-Ordered x (y ∷ z ∷ zs) (yz, h) = elim (Bool-cases (comes_before y x)) [
  | inr behind ↦ rw behind (comes_before-Precedes x y behind, (yz, h))
  | inl first ↦
      let ih = insert-Ordered x (z ∷ zs) h in
      elim (Bool-cases (comes_before z x)) [
        | inl second ↦ rw (first, second) (yz, rw (insert, second) at ih)
        | inr here ↦
            rw (first, here) (before-Precedes y x first, (comes_before-Precedes x z here, h))
      ]
]

sorted-Ordered : (xs : List RelatedFile) → Ordered (sorted xs)
unfolding sorted
sorted-Ordered [] = tt
sorted-Ordered (x ∷ xs) = insert-Ordered x (sorted xs) (sorted-Ordered xs)

insert-Perm : (x : RelatedFile) (ys : List RelatedFile) → Perm (insert x ys) (x ∷ ys)
unfolding insert
insert-Perm x [] = Perm.refl (x ∷ [])
insert-Perm x (y ∷ ys) = elim (Bool-cases (comes_before y x)) [
  | inr behind ↦ rw behind (Perm.refl (x ∷ y ∷ ys))
  | inl first ↦ rw first (Perm.trans (Perm.cons y (insert-Perm x ys)) (Perm.swap x y ys))
]

sorted-Perm : (xs : List RelatedFile) → Perm (sorted xs) xs
unfolding sorted
sorted-Perm [] = Perm.refl []
sorted-Perm (x ∷ xs) = Perm.trans (insert-Perm x (sorted xs)) (Perm.cons x (sorted-Perm xs))

related-IsRelated :
    (u : Unicode) (c : ChangedFile) (excerpt : Option Text) (score : ℕ) (reasons : List Text)
    → All IsRelated (related u c excerpt (score, reasons))
related-IsRelated u c excerpt score [] = tt
related-IsRelated u c excerpt score (r ∷ rs) = (((λ e. ground (arith, e)), omega arith), tt)

module _ (u : Unicode) (lowered : Text) (log_tokens : List Text) (category : ErrorCategory) where
  relate_all-IsRelated :
      (cs : List ChangedFile) → All IsRelated (relate_all u lowered log_tokens category cs)
  unfolding relate_all relate
  relate_all-IsRelated [] = tt
  relate_all-IsRelated (c ∷ cs) =
      All-append IsRelated (relate u lowered log_tokens category c) _
        (related-IsRelated u c (matching_patch_excerpt u c.patch log_tokens) _ _)
        (relate_all-IsRelated cs)

-- The result is the start of an ordering of all related files, by descending score and then by name,
-- in which every file of them has its place once; it is cut off at the limit only. Each related file
-- has a reason and a score of at most one.
pub correlate_changed_files_lem :
    (u : Unicode) (log : Text) (changed : List ChangedFile) (category : ErrorCategory) (limit : ℕ)
    → let all_related = relate_all u (lower u log) (tokens u log) category changed in
      let result = correlate_changed_files u log changed category limit in
      (left_out : List RelatedFile) × Perm (result ++ left_out) all_related
      × Ordered (result ++ left_out)
      × All IsRelated all_related
      × (length result ≡ min limit (length (sorted all_related)))
unfolding correlate_changed_files
correlate_changed_files_lem u log changed category limit =
    let all_related = relate_all u (lower u log) (tokens u log) category changed in
    (
      drop limit (sorted all_related),
      rw (take-append-drop limit (sorted all_related)) (sorted-Perm all_related),
      rw (take-append-drop limit (sorted all_related)) (sorted-Ordered all_related),
      relate_all-IsRelated u (lower u log) (tokens u log) category changed,
      length-take limit (sorted all_related),
    )

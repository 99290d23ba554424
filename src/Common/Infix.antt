-- ===== src/Common/Infix.antt =====
-- What `sub in s` and `s.startswith(p)` find, as a splitting of the text.
use Prim.Native.Nat.{ℕ}
use mathlib.Core.Path.{◌≡◌, refl, ap, ◌∙◌, sym, subst}
use mathlib.Core.Logic.{inl, inr}
use mathlib.Core.Bool.{Bool, true}
use mathlib.Core.List.{List, [], ◌∷◌, ◌++◌, append_assoc}
use native.Mathlib.Omega.{arith}
use pipe_lens.Common.Tests.{◌==◌, Bool-cases, List-cases}
use pipe_lens.Common.Lists.{All, All-map, All-weaker}
use pipe_lens.Common.Strings.{
  Text, starts_with, contains, lstrip, rstrip, strip, is_space, concat, without_end, is_boundary,
  splitlines, splitlines_keep, concat-splitlines_keep,
}

-- `p` stands at the start of `s`; `sub` stands somewhere in `s`.
abbrev pub IsPrefix : Text → Text → Type 0
IsPrefix s p = (after : Text) × (s ≡ p ++ after)

abbrev pub Infix : Text → Text → Type 0
Infix s sub = (before : Text) × (after : Text) × (s ≡ before ++ (sub ++ after))

pub starts_with-IsPrefix : (s p : Text) → starts_with s p ≡ true → IsPrefix s p
unfolding starts_with
starts_with-IsPrefix s [] h = (s, refl)
starts_with-IsPrefix [] (c ∷ p) h = ground arith
starts_with-IsPrefix (d ∷ s) (c ∷ p) h =
    let (after, e) = starts_with-IsPrefix s p (ground arith) in
    let same : d ≡ c = ground arith in (after, cc)

pub starts_with_append : (p after : Text) → starts_with (p ++ after) p ≡ true
unfolding starts_with
starts_with_append [] after = refl
starts_with_append (c ∷ p) after = ground (arith, starts_with_append p after)

pub contains-Infix : (s sub : Text) → contains s sub ≡ true → Infix s sub
unfolding contains
contains-Infix [] sub h = let (after, e) = starts_with-IsPrefix [] sub h in ([], after, e)
contains-Infix (c ∷ s) sub h = elim (Bool-cases (starts_with (c ∷ s) sub)) [
  | inl here ↦ let (after, e) = starts_with-IsPrefix (c ∷ s) sub here in ([], after, e)
  | inr not_here ↦
      let (before, after, e) = contains-Infix s sub (ground arith) in
      (c ∷ before, after, ap (◌∷◌ c) e)
]

pub contains_append : (before sub after : Text) → contains (before ++ (sub ++ after)) sub ≡ true
unfolding contains starts_with
contains_append [] [] [] = refl
contains_append [] [] (c ∷ after) = unfold starts_with in refl
contains_append [] (c ∷ sub) after = rw (starts_with_append (c ∷ sub) after)
contains_append (c ∷ before) sub after = ground (arith, contains_append before sub after)

pub Infix-contains : (s sub : Text) → Infix s sub → contains s sub ≡ true
Infix-contains s sub (before, after, e) = rw e (contains_append before sub after)

pub Infix_trans : (s t w : Text) → Infix s t → Infix t w → Infix s w
Infix_trans s t w (b, a, e) (b', a', e') = (
  b ++ b',
  a' ++ a,
  rw (e, e', append_assoc b' (w ++ a') a, append_assoc w a' a, append_assoc b b' (w ++ (a' ++ a))),
)

pub lstrip_suffix : (p : ℕ → Bool) (s : Text) → (before : Text) × (s ≡ before ++ lstrip p s)
unfolding lstrip
lstrip_suffix p [] = ([], refl)
lstrip_suffix p (c ∷ s) = elim (Bool-cases (p c)) [
  | inl cut ↦ let (before, e) = lstrip_suffix p s in (c ∷ before, rw cut (ap (◌∷◌ c) e))
  | inr kept ↦ ([], rw kept)
]

pub rstrip-IsPrefix : (p : ℕ → Bool) (s : Text) → IsPrefix s (rstrip p s)
unfolding rstrip
rstrip-IsPrefix p [] = ([], refl)
rstrip-IsPrefix p (c ∷ s) =
    let (after, e) = rstrip-IsPrefix p s in
    elim (List-cases (rstrip p s)) [
      | inl none_ ↦ elim (Bool-cases (p c)) [
        | inl cut ↦ (c ∷ s, rw (none_, cut))
        | inr kept ↦ (s, rw (none_, kept))
      ]
      | inr (d, t, some_) ↦ (after, rw some_ (ap (◌∷◌ c) (e ∙ ap (λ x. x ++ after) some_)))
    ]

pub strip-Infix : (s : Text) → Infix s (strip s)
unfolding strip
strip-Infix s =
    let (before, e) = lstrip_suffix is_space s in
    let (after, e') = rstrip-IsPrefix is_space (lstrip is_space s) in
    (before, after, e ∙ ap (λ t. before ++ t) e')

without_end-IsPrefix : (s : Text) → IsPrefix s (without_end s)
unfolding without_end
without_end-IsPrefix [] = ([], refl)
without_end-IsPrefix (c ∷ []) = elim (Bool-cases (is_boundary c)) [
  | inl ends ↦ (c ∷ [], rw ends)
  | inr goes ↦ ([], rw goes)
]
without_end-IsPrefix (c ∷ d ∷ s) =
    let (after, e) = without_end-IsPrefix (d ∷ s) in
    let longer : IsPrefix (c ∷ d ∷ s) (c ∷ without_end (d ∷ s)) = (after, ap (◌∷◌ c) e) in
    elim (Bool-cases (c == 13)) [
      | inr off ↦ rw off longer
      | inl cr ↦ rw cr (elim (List-cases s) [
        | inr (x, xs, e') ↦ rw e' (rw (sym e') longer)
        | inl nil ↦ elim (Bool-cases (d == 10)) [
          | inl lf ↦ rw (nil, lf) (c ∷ d ∷ [], refl)
          | inr off ↦ rw (nil, off) (rw (sym nil) longer)
        ]
      ])
    ]

concat-Infix : (before : Text) (ls : List Text) → All (Infix (before ++ concat ls)) ls
unfolding concat
concat-Infix before [] = tt
concat-Infix before (l ∷ ls) = (
  (before, concat ls, refl),
  subst (λ s. All (Infix s) ls) (append_assoc before l (concat ls)) (concat-Infix (before ++ l) ls),
)

pub splitlines-Infix : (s : Text) → All (Infix s) (splitlines s)
unfolding splitlines
splitlines-Infix s = All-map (Infix s) without_end (splitlines_keep s) (
    All-weaker (Infix s) (λ l. Infix s (without_end l))
      (λ l i.
        let (after, e) = without_end-IsPrefix l in Infix_trans s l (without_end l) i ([], after, e))
      (splitlines_keep s)
      (subst (λ t. All (Infix t) (splitlines_keep s)) (concat-splitlines_keep s)
        (concat-Infix [] (splitlines_keep s))))

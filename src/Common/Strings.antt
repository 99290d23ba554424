-- ===== src/Common/Strings.antt =====
-- Python's `str` as the list of its code points, and the operations on it that the source uses.
use Prim.Native.Char.{code}
use Prim.Native.Nat.{ℕ, zero, suc, ◌<◌, ◌+◌, ◌/◌, ◌%◌}
use Prim.Native.String.{String}
use mathlib.Core.Path.{◌≡◌, refl}
use mathlib.Core.Logic.{◌↔◌}
use mathlib.Core.Bool.{Bool, true, false, ◌&&◌, ◌||◌, not}
use mathlib.Core.Option.{Option, none, some}
use mathlib.Core.List.{List, [], ◌∷◌, ◌++◌, map}
use native.Mathlib.Omega.{arith}
use pipe_lens.Common.Tests.{◌==◌, leb, ltb, if◌then◌else◌, Bool-cases}
use pipe_lens.Common.Lists.{length, all, All}
use mathlib.Core.Logic.{inl, inr}

abbrev pub Text : Type 0
Text = List ℕ

-- The code points of a literal.
abbrev pub codes : String → Text
codes String.[] = []
codes (String.◌∷◌ c s) = code c ∷ codes s

-- `a == b`
unfoldable pub text_eq : Text → Text → Bool
text_eq [] [] = true
text_eq (x ∷ xs) (y ∷ ys) = x == y && text_eq xs ys
text_eq _ _ = false

pub text_eq_refl : (a : Text) → text_eq a a ≡ true
unfolding text_eq
text_eq_refl [] = refl
text_eq_refl (x ∷ xs) = ground (arith, text_eq_refl xs)

pub text_eq→≡ : (a b : Text) → text_eq a b ≡ true → a ≡ b
unfolding text_eq
text_eq→≡ [] [] h = refl
text_eq→≡ [] (y ∷ ys) h = ground arith
text_eq→≡ (x ∷ xs) [] h = ground arith
text_eq→≡ (x ∷ xs) (y ∷ ys) h = ground (arith, text_eq→≡ xs ys)

-- The form in which `ground` uses a comparison.
pub text_eq_iff : (a b : Text) → (text_eq a b ≡ true) ↔ (a ≡ b)
text_eq_iff a b = (text_eq→≡ a b, λ e. rw e (text_eq_refl b))

-- `column == value` in SQL, which is not true of NULL.
abbrev pub opt_eq : Option Text → Text → Bool
opt_eq none b = false
opt_eq (some a) b = text_eq a b

-- `s.startswith(p)`
unfoldable pub starts_with : Text → Text → Bool
starts_with s [] = true
starts_with [] (c ∷ p) = false
starts_with (d ∷ s) (c ∷ p) = d == c && starts_with s p

-- `sub in s`
unfoldable pub contains : Text → Text → Bool
contains [] sub = starts_with [] sub
contains (c ∷ s) sub = starts_with (c ∷ s) sub || contains s sub

-- `x in xs` for a list or a set of texts.
unfoldable pub member : Text → List Text → Bool
member x [] = false
member x (y ∷ ys) = text_eq y x || member x ys

-- `sep.join(parts)`
unfoldable pub join : Text → List Text → Text
join sep [] = []
join sep (x ∷ []) = x
join sep (x ∷ y ∷ xs) = x ++ (sep ++ join sep (y ∷ xs))

unfoldable pub concat : List Text → Text
concat [] = []
concat (x ∷ xs) = x ++ concat xs

-- `str.isspace` of one character
unfoldable pub is_space : ℕ → Bool
is_space c =
    (leb 9 c && leb c 13)
    || (leb 28 c && leb c 32)
    || c == 133
    || c == 160
    || c == 5760
    || (leb 8192 c && leb c 8202)
    || c == 8232
    || c == 8233
    || c == 8239
    || c == 8287
    || c == 12288

-- The characters that `str.splitlines` ends a line at.
unfoldable pub is_boundary : ℕ → Bool
is_boundary c =
    (leb 10 c && leb c 13) || (leb 28 c && leb c 30) || c == 133 || c == 8232 || c == 8233

unfoldable pub lstrip : (ℕ → Bool) → Text → Text
lstrip p [] = []
lstrip p (c ∷ s) = if p c then lstrip p s else c ∷ s

-- `s.rstrip(chars)`
unfoldable pub rstrip : (ℕ → Bool) → Text → Text
rstrip p [] = []
rstrip p (c ∷ s) = elim (rstrip p s) [ [] ↦ if p c then [] else c ∷ [] | d ∷ t ↦ c ∷ d ∷ t ]

-- `s.strip()`
unfoldable pub strip : Text → Text
unfolding lstrip rstrip is_space
strip s = rstrip is_space (lstrip is_space s)

-- The line that `c` begins: the first of the lines after it, unless there is none.
abbrev pub attach : ℕ → List Text → List Text
attach c [] = (c ∷ []) ∷ []
attach c (l ∷ ls) = (c ∷ l) ∷ ls

-- `s.splitlines(keepends=True)`; "\r\n" is one end.
unfoldable pub splitlines_keep : Text → List Text
unfolding is_boundary
splitlines_keep [] = []
splitlines_keep (c ∷ []) = (c ∷ []) ∷ []
splitlines_keep (c ∷ d ∷ s) =
    let rest = splitlines_keep (d ∷ s) in
    if is_boundary c && not (c == 13 && d == 10) then (c ∷ []) ∷ rest else attach c rest

-- A line without the end that `splitlines` found.
unfoldable pub without_end : Text → Text
unfolding is_boundary
without_end [] = []
without_end (c ∷ []) = if is_boundary c then [] else c ∷ []
without_end (c ∷ d ∷ s) =
    let rest = without_end (d ∷ s) in
    if c == 13
    then elim s [ [] ↦ if d == 10 then [] else c ∷ rest | _ ∷ _ ↦ c ∷ rest ]
    else c ∷ rest

-- `s.splitlines()`
unfoldable pub splitlines : Text → List Text
unfolding splitlines_keep without_end
splitlines s = map without_end (splitlines_keep s)

concat-attach : (c : ℕ) (ls : List Text) → concat (attach c ls) ≡ c ∷ concat ls
unfolding concat
concat-attach c [] = refl
concat-attach c (l ∷ ls) = refl

-- Nothing of a text is lost by splitting it into lines that keep their ends.
pub concat-splitlines_keep : (s : Text) → concat (splitlines_keep s) ≡ s
unfolding concat splitlines_keep
concat-splitlines_keep [] = refl
concat-splitlines_keep (c ∷ []) = refl
concat-splitlines_keep (c ∷ d ∷ s) =
    ground (arith, concat-splitlines_keep (d ∷ s), concat-attach c (splitlines_keep (d ∷ s)))

All-attach :
    (c : ℕ) (ls : List Text) → All (λ l. 0 < length l) ls → All (λ l. 0 < length l) (attach c ls)
All-attach c [] h = (omega arith, tt)
All-attach c (l ∷ ls) h = (omega arith, h.1)

pub splitlines_keep_nonempty : (s : Text) → All (λ l. 0 < length l) (splitlines_keep s)
unfolding splitlines_keep
splitlines_keep_nonempty [] = tt
splitlines_keep_nonempty (c ∷ []) = (omega arith, tt)
splitlines_keep_nonempty (c ∷ d ∷ s) =
    let ih = splitlines_keep_nonempty (d ∷ s) in
    elim (Bool-cases (is_boundary c && not (c == 13 && d == 10))) [
      | inl ends ↦ rw ends (omega arith, ih)
      | inr goes ↦ rw goes (All-attach c (splitlines_keep (d ∷ s)) ih)
    ]

splitlines_test :
    splitlines_keep (97 ∷ 13 ∷ 10 ∷ 10 ∷ 98 ∷ []) ≡ (97 ∷ 13 ∷ 10 ∷ []) ∷ (10 ∷ []) ∷ (98 ∷ []) ∷ []
unfolding splitlines_keep
splitlines_test = refl

-- `s.replace(c, t)` for one character.
unfoldable pub replace_char : ℕ → Text → Text → Text
replace_char c t [] = []
replace_char c t (d ∷ s) = (if d == c then t else d ∷ []) ++ replace_char c t s

-- `not s`
abbrev pub is_empty {ℓ} : {A : Type ℓ} → List A → Bool
is_empty [] = true
is_empty (_ ∷ _) = false

-- `hmac.compare_digest` of two texts: a `TypeError`, `none`, unless both are ASCII.
abbrev pub is_ascii : Text → Bool
is_ascii s = all (λ c. ltb c 128) s

abbrev pub compare_digest : Text → Text → Option Bool
compare_digest a b = if is_ascii a && is_ascii b then some (text_eq a b) else none

-- `not s` for `str | None`
abbrev pub falsy : Option Text → Bool
falsy none = true
falsy (some s) = is_empty s

-- `str(n)`, on fuel of at least the number of digits.
unfoldable pub digits_onto : ℕ → ℕ → Text → Text
digits_onto zero n out = out
digits_onto (suc fuel) n out =
    let rest = digits_onto fuel (n / 10) ((48 + n % 10) ∷ out) in
    if ltb n 10 then (48 + n) ∷ out else rest

unfoldable pub decimal : ℕ → Text
unfolding digits_onto
decimal n = digits_onto (suc n) n []

decimal_test : decimal 1070 ≡ 49 ∷ 48 ∷ 55 ∷ 48 ∷ []
unfolding decimal
decimal_test = refl

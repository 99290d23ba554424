-- ===== src/Publication/Mentions.antt =====
-- A published text mentions nobody: what comes from the log, from the diff or from the model cannot
-- make GitHub notify a user.
pub mod Sections
use pipe_lens.Common.{
  ℕ, zero, suc, ◌+◌, ◌-◌, ◌/◌, ◌%◌, ◌≡◌, ◌≢◌, refl, Text, codes, concat, decimal, digits_onto,
  replace_char, join, starts_with, Bool, true, false, not, ◌&&◌, ◌||◌, Option, none, some, List, [],
  ◌∷◌, ◌++◌, take, ◌==◌, ltb, if◌then◌else◌, Bool-cases, All, All-append, arith, inl, inr, map,
  &&-true,
}
use pipe_lens.Publication.{escape, safe, safe_url, code_block}

-- Every `@` is followed by a zero-width space.
unfoldable pub quiet : Text → Bool
unfolding starts_with
quiet [] = true
quiet (c ∷ s) = (not (c == b'@') || starts_with s (8203 ∷ [])) && quiet s

-- Every `@` is at the end, at the end of its line, or followed by a zero-width space.
abbrev harmless : Text → Bool
harmless [] = true
harmless (c ∷ s) = c == 8203 || c == 10

unfoldable pub mentions_nobody : Text → Bool
mentions_nobody [] = true
mentions_nobody (c ∷ s) = (not (c == b'@') || harmless s) && mentions_nobody s

abbrev pub Quiet : Text → Type 0
Quiet s = quiet s ≡ true

-- A text without a `@`.
abbrev pub NoAt : Text → Type 0
NoAt s = All (λ c. (c == b'@') ≡ false) s

NoAt-Quiet : (s : Text) → NoAt s → Quiet s
unfolding quiet
NoAt-Quiet [] h = refl
NoAt-Quiet (c ∷ s) (h, hs) = rw (h, NoAt-Quiet s hs) refl

starts_with_longer :
    (s b : Text) → starts_with s (8203 ∷ []) ≡ true → starts_with (s ++ b) (8203 ∷ []) ≡ true
unfolding starts_with
starts_with_longer [] b h = ground arith
starts_with_longer (c ∷ s) [] h = ground arith
starts_with_longer (c ∷ s) (d ∷ b) h = ground arith

pub Quiet-append : (a b : Text) → Quiet a → Quiet b → Quiet (a ++ b)
unfolding quiet
Quiet-append [] b ha hb = hb
Quiet-append (c ∷ s) b ha hb =
    let (here, rest) = &&-true (not (c == b'@') || starts_with s (8203 ∷ [])) (quiet s) ha in
    elim (Bool-cases (c == b'@')) [
      | inr off ↦ rw (off, Quiet-append s b rest hb) refl
      | inl at ↦
          let follows : starts_with s (8203 ∷ []) ≡ true = ground (arith, here, at) in
          rw (at, starts_with_longer s b follows, Quiet-append s b rest hb) refl
    ]

pub Quiet-around : (a m b : Text) → Quiet a → Quiet m → Quiet b → Quiet (a ++ (m ++ b))
Quiet-around a m b ha hm hb = Quiet-append a (m ++ b) ha (Quiet-append m b hm hb)

pub Quiet-concat : (ls : List Text) → All Quiet ls → Quiet (concat ls)
unfolding concat quiet
Quiet-concat [] h = refl
Quiet-concat (l ∷ ls) (h, hs) = Quiet-append l (concat ls) h (Quiet-concat ls hs)

pub Quiet-join : (sep : Text) (ls : List Text) → Quiet sep → All Quiet ls → Quiet (join sep ls)
unfolding join quiet
Quiet-join sep [] hsep h = refl
Quiet-join sep (x ∷ []) hsep (h, hs) = h
Quiet-join sep (x ∷ y ∷ xs) hsep (h, hs) =
    Quiet-append x (sep ++ join sep (y ∷ xs)) h
      (Quiet-append sep (join sep (y ∷ xs)) hsep (Quiet-join sep (y ∷ xs) hsep hs))

-- Whatever the text, it is quiet once it is made safe.
Quiet-replace : (s : Text) → Quiet (replace_char b'@' (b'@' ∷ 8203 ∷ []) s)
unfolding replace_char quiet
Quiet-replace [] = refl
Quiet-replace (c ∷ s) = elim (Bool-cases (c == b'@')) [
  | inl at ↦ rw at (unfold starts_with in Quiet-replace s)
  | inr off ↦ rw off (rw (off, Quiet-replace s) refl)
]

pub Quiet-safe : (s : Text) → Quiet (safe s)
unfolding safe
Quiet-safe s = Quiet-replace (escape s)

NoAt-replace : (c : ℕ) (t s : Text) → NoAt t → NoAt s → NoAt (replace_char c t s)
unfolding replace_char
NoAt-replace c t [] ht hs = tt
NoAt-replace c t (d ∷ s) ht (h, hs) = elim (Bool-cases (d == c)) [
  | inl same ↦ rw same (All-append _ t (replace_char c t s) ht (NoAt-replace c t s ht hs))
  | inr differ ↦ rw differ (h, NoAt-replace c t s ht hs)
]

pub Quiet-safe_url : (s : Text) → NoAt s → Quiet (safe_url s)
unfolding safe_url
Quiet-safe_url s h = NoAt-Quiet _ (
    NoAt-replace b' ' (codes "%20") _ (refl, (refl, (refl, tt)))
      (NoAt-replace b')' (codes "%29") _ (refl, (refl, (refl, tt)))
        (NoAt-replace b'(' (codes "%28") s (refl, (refl, (refl, tt))) h)))

NoAt-digits : (fuel n : ℕ) (out : Text) → NoAt out → NoAt (digits_onto fuel n out)
unfolding digits_onto
NoAt-digits zero n out h = h
NoAt-digits (suc fuel) n out h = elim (Bool-cases (ltb n 10)) [
  | inl one_digit ↦ rw one_digit (ground arith, h)
  | inr more ↦ rw more (NoAt-digits fuel (n / 10) _ (ground arith, h))
]

pub Quiet-decimal : (n : ℕ) → Quiet (decimal n)
unfolding decimal
Quiet-decimal n = NoAt-Quiet _ (NoAt-digits (suc n) n [] tt)

pub Quiet-code_block : (s : Text) → Quiet (code_block s)
unfolding code_block quiet
Quiet-code_block s =
    Quiet-around (codes "<pre><code>") (safe s) (codes "</code></pre>") refl (Quiet-safe s) refl

-- What is quiet mentions nobody, also when it is cut off and a line feed follows.
follows-harmless : (s : Text) → starts_with s (8203 ∷ []) ≡ true → harmless s ≡ true
unfolding starts_with
follows-harmless [] h = refl
follows-harmless (d ∷ s) h = ground arith

cut-harmless :
    (n : ℕ) (s tail : Text)
    → starts_with s (8203 ∷ []) ≡ true
    → harmless (take n s ++ 10 ∷ tail) ≡ true
unfolding starts_with
cut-harmless zero s tail h = refl
cut-harmless (suc n) [] tail h = refl
cut-harmless (suc n) (d ∷ s) tail h = ground arith

pub Quiet-mentions_nobody : (s : Text) → Quiet s → mentions_nobody s ≡ true
unfolding quiet mentions_nobody
Quiet-mentions_nobody [] h = refl
Quiet-mentions_nobody (c ∷ s) h =
    let (here, rest) = &&-true (not (c == b'@') || starts_with s (8203 ∷ [])) (quiet s) h in
    elim (Bool-cases (c == b'@')) [
      | inr off ↦ rw (off, Quiet-mentions_nobody s rest) refl
      | inl at ↦
          let follows : starts_with s (8203 ∷ []) ≡ true = ground (arith, here, at) in
          rw (at, follows-harmless s follows, Quiet-mentions_nobody s rest) refl
    ]

pub cut-mentions_nobody :
    (n : ℕ) (s tail : Text)
    → Quiet s
    → mentions_nobody (10 ∷ tail) ≡ true
    → mentions_nobody (take n s ++ 10 ∷ tail) ≡ true
unfolding quiet mentions_nobody
cut-mentions_nobody zero s tail h ht = ht
cut-mentions_nobody (suc n) [] tail h ht = ht
cut-mentions_nobody (suc n) (c ∷ s) tail h ht =
    let (here, rest) = &&-true (not (c == b'@') || starts_with s (8203 ∷ [])) (quiet s) h in
    elim (Bool-cases (c == b'@')) [
      | inr off ↦ rw (off, cut-mentions_nobody n s tail rest ht) refl
      | inl at ↦
          let follows : starts_with s (8203 ∷ []) ≡ true = ground (arith, here, at) in
          rw (at, cut-harmless n s tail follows, cut-mentions_nobody n s tail rest ht) refl
    ]

-- ===== src/Patching/Header.antt =====
-- `HUNK_HEADER.match`, for a line without its end: `^@@ -(\d+)(?:,(\d+))? \+(\d+)(?:,(\d+))? @@`,
-- and the number of its first group. Only ASCII digits are read.
use pipe_lens.Common.{
  ℕ, ◌+◌, ◌-◌, ◌*◌, ◌≡◌, refl, Text, codes, Bool, ◌&&◌, Option, none, some, [], ◌∷◌, leb,
  if◌then◌else◌,
}

unfoldable pub is_digit : ℕ → Bool
is_digit c = leb b'0' c && leb c b'9'

infixl 5 ◌>>=◌
abbrev ◌>>=◌ : {A B : Type 0} → Option A → (A → Option B) → Option B
none >>= f = none
some a >>= f = f a

-- The rest of the line behind a literal.
unfoldable pub literal : Text → Text → Option Text
literal [] s = some s
literal (c ∷ p) [] = none
literal (c ∷ p) (d ∷ s) = if leb c d && leb d c then literal p s else none

-- `\d+`: the number, and the rest behind all the digits.
more_digits : ℕ → Text → ℕ × Text
more_digits n [] = (n, [])
more_digits n (c ∷ s) =
    let next = more_digits (n * 10 + (c - b'0')) s in if is_digit c then next else (n, c ∷ s)

unfoldable pub digits : Text → Option (ℕ × Text)
unfolding more_digits is_digit
digits [] = none
digits (c ∷ s) = if is_digit c then some (more_digits 0 (c ∷ s)) else none

-- `(?:,(\d+))?`; what follows is never a comma, so a comma with no digit behind it is no match.
unfoldable pub optional_count : Text → Option Text
unfolding literal digits
optional_count s = elim (literal (codes ",") s) [
  | none ↦ some s
  | some rest ↦ (do (n, left) ← digits rest; some left)
]

unfoldable pub hunk_header : Text → Option ℕ
unfolding optional_count
hunk_header line = do
  s0 ← literal (codes "@@ -") line
  (start, s1) ← digits s0
  s2 ← optional_count s1
  s3 ← literal (codes " +") s2
  (_, s4) ← digits s3
  s5 ← optional_count s4
  s6 ← literal (codes " @@") s5
  some start

header_test : hunk_header (codes "@@ -12,3 +14 @@ def f():") ≡ some 12
unfolding hunk_header
header_test = refl

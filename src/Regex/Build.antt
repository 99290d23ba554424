-- ===== src/Regex/Build.antt =====
-- The notation in which the patterns of the source are written.
use pipe_lens.Common.{
  ℕ, zero, suc, ◌+◌, ◌≡◌, refl, Text, String, codes, is_space, Bool, true, false, not, ◌&&◌, ◌||◌,
  [], ◌∷◌, ◌==◌, leb, if◌then◌else◌, any,
}
use pipe_lens.Regex.{Unicode, Regex, empty, one, digit, cat, either, star, boundary, search}

-- Under `re.I` a letter matches both cases, and the letters outside ASCII that fold to it.
unfoldable pub fold : ℕ → ℕ
fold c =
    if leb b'A' c && leb c b'Z'
    then c + 32
    else if c == 304 || c == 305
    then b'i'
    else if c == 383
    then b's'
    else if c == 8490
    then b'k'
    else c

infixr 60 ◌⨾◌
infixr 55 ◌∣◌
abbrev pub ◌⨾◌ : Regex → Regex → Regex
◌⨾◌ = cat

abbrev pub ◌∣◌ : Regex → Regex → Regex
◌∣◌ = either

-- A literal, as it is and under `re.I`.
abbrev pub exact : Text → Regex
exact [] = empty
exact (c ∷ s) = cat (one (λ d. d == c)) (exact s)

abbrev pub nocase : Text → Regex
nocase [] = empty
nocase (c ∷ s) = cat (one (λ d. fold d == fold c)) (nocase s)

abbrev pub lit : String → Regex
lit s = exact (codes s)

abbrev pub ilit : String → Regex
ilit s = nocase (codes s)

-- `.`, `\s`, `[...]`, `[^...]`, and a range of characters
abbrev pub dot : Regex
dot = one (λ c. not (c == 10))

abbrev pub space : Regex
space = one is_space

abbrev pub one_of : String → ℕ → Bool
one_of s c = any (λ d. c == d) (codes s)

abbrev pub from_to : ℕ → ℕ → ℕ → Bool
from_to a b c = leb a c && leb c b

abbrev pub alnum : ℕ → Bool
alnum c = from_to b'0' b'9' c || from_to b'A' b'Z' c || from_to b'a' b'z' c

-- A class of letters and other characters under `re.I`: `p` is asked of the folded character.
abbrev pub folded : (ℕ → Bool) → Regex
folded p = one (λ c. p (fold c))

-- `r+`, `r?`, `r{n}`, `r{n,}`
abbrev pub plus : Regex → Regex
plus r = cat r (star r)

abbrev pub optional : Regex → Regex
optional r = either r empty

abbrev pub times : ℕ → Regex → Regex
times zero r = empty
times (suc n) r = cat r (times n r)

abbrev pub at_least : ℕ → Regex → Regex
at_least n r = cat (times n r) (star r)

abbrev pub ascii : Unicode
ascii = record {
  is_alnum = λ c. false;
  is_digit = λ c. false;
  lower_text = λ s. s;
  casefold_text = λ s. s;
}

search_test :
    search ascii
      (boundary ⨾ one (from_to b'1' b'9') ⨾ star digit ⨾ ilit " known vulnerabilit")
      (codes "Found 12 KNOWN vulnerabilities")
    ≡ true
unfolding search fold
search_test = refl

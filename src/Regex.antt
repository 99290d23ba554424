-- ===== src/Regex.antt =====
-- Python's `re` on the patterns of the source: backtracking in the order of the engine, greedy
-- repetition, groups, word boundaries and lookarounds. `Unicode` is the character database beyond
-- ASCII.
pub mod Build
use pipe_lens.Common.{
  ℕ, zero, suc, ◌+◌, ◌-◌, ◌<◌, Text, Bool, true, false, not, ◌&&◌, ◌||◌, Option, none, some, List,
  [], ◌∷◌, ◌++◌, ◌==◌, ltb, leb, if◌then◌else◌, length, take, drop, is_some, or_else, is_ascii, map,
}

pub record Unicode : Type 0 where
  pub is_alnum : ℕ → Bool
  pub is_digit : ℕ → Bool
  pub lower_text : Text → Text
  pub casefold_text : Text → Text

pub data Regex : Type 0 where
  empty : Regex
  one : (ℕ → Bool) → Regex
  word : Regex
  digit : Regex
  cat : Regex → Regex → Regex
  either : Regex → Regex → Regex
  star : Regex → Regex
  lazy_star : Regex → Regex
  group : ℕ → Regex → Regex
  boundary : Regex
  start : Regex
  finish : Regex
  not_ahead : Regex → Regex
  not_behind : Regex → Regex

-- A position in the text: the character before it, what is left, and the groups so far.
pub record At : Type 0 where
  pub before : Option ℕ
  pub rest : Text
  pub groups : List (ℕ × Text)

-- `\w` and `\d`
unfoldable pub is_word : Unicode → ℕ → Bool
is_word u c =
    if ltb c 128
    then (leb b'0' c && leb c b'9')
      || (leb b'A' c && leb c b'Z')
      || (leb b'a' c && leb c b'z')
      || c == b'_'
    else u.is_alnum c

unfoldable pub is_digit : Unicode → ℕ → Bool
is_digit u c = if ltb c 128 then leb b'0' c && leb c b'9' else u.is_digit c

abbrev pub advance : (ℕ → Bool) → At → (At → Option At) → Option At
advance p s k = elim s.rest [
  | [] ↦ none
  | c ∷ left ↦ elim (p c) [ true ↦ k (record s { before = some c; rest = left }) | false ↦ none ]
]

abbrev on_word : Unicode → Option ℕ → Bool
on_word u none = false
on_word u (some c) = is_word u c

abbrev next_char : Text → Option ℕ
next_char [] = none
next_char (c ∷ s) = some c

abbrev differ : Bool → Bool → Bool
differ true b = not b
differ false b = b

-- `$`: the end of the text, or before the line feed that ends it.
abbrev at_end : Text → Bool
at_end [] = true
at_end (c ∷ []) = c == 10
at_end (c ∷ d ∷ s) = false

-- Repetition, on the characters left: a round that takes nothing ends it.
repeat : ℕ → Bool → (At → (At → Option At) → Option At) → At → (At → Option At) → Option At
repeat zero greedy step s k = k s
repeat (suc fuel) greedy step s k =
    let more = step s (λ s'. elim (ltb (length s'.rest) (length s.rest)) [
      | true ↦ repeat fuel greedy step s' k
      | false ↦ none
    ]) in
    elim greedy [
      | true ↦ elim more [ some e ↦ some e | none ↦ k s ]
      | false ↦ elim (k s) [ some e ↦ some e | none ↦ more ]
    ]

unfoldable pub run : Unicode → Regex → At → (At → Option At) → Option At
unfolding repeat is_word is_digit
run u empty s k = k s
run u (one p) s k = advance p s k
run u word s k = advance (is_word u) s k
run u digit s k = advance (is_digit u) s k
run u (cat a b) s k = run u a s (λ s'. run u b s' k)
run u (either a b) s k = elim (run u a s k) [ some e ↦ some e | none ↦ run u b s k ]
run u (star a) s k = repeat (length s.rest) true (run u a) s k
run u (lazy_star a) s k = repeat (length s.rest) false (run u a) s k
run u (group n a) s k =
    run u a s (λ s'.
      k (record s' { groups = (n, take (length s.rest - length s'.rest) s.rest) ∷ s'.groups }))
run u boundary s k = elim (differ (on_word u s.before) (on_word u (next_char s.rest))) [
  | true ↦ k s
  | false ↦ none
]
run u start s k = elim s.before [ none ↦ k s | some c ↦ none ]
run u finish s k = elim (at_end s.rest) [ true ↦ k s | false ↦ none ]
run u (not_ahead a) s k = elim (run u a s some) [ none ↦ k s | some e ↦ none ]
run u (not_behind a) s k = elim s.before [
  | none ↦ k s
  | some c ↦ elim (run u a (record { before = none; rest = c ∷ []; groups = [] }) some) [
    | none ↦ k s
    | some e ↦ none
  ]
]

-- `pattern.match` at a position, and `pattern.search` from it on.
unfoldable pub match_at : Unicode → Regex → Option ℕ → Text → Option At
unfolding run
match_at u r before s = run u r (record { before = before; rest = s; groups = [] }) some

-- Where a search finds its match: the text skipped before it, and its end.
unfoldable pub search_from : Unicode → Regex → Option ℕ → Text → Option (Text × At)
unfolding match_at
search_from u r before [] = elim (match_at u r before []) [ some e ↦ some ([], e) | none ↦ none ]
search_from u r before (c ∷ s) = elim (match_at u r before (c ∷ s)) [
  | some e ↦ some ([], e)
  | none ↦ elim (search_from u r (some c) s) [
    | some (skipped, e) ↦ some (c ∷ skipped, e)
    | none ↦ none
  ]
]

-- `str.lower` and `str.casefold`
abbrev pub ascii_lower : ℕ → ℕ
ascii_lower c = if leb b'A' c && leb c b'Z' then c + 32 else c

unfoldable pub lower : Unicode → Text → Text
lower u s = if is_ascii s then map ascii_lower s else u.lower_text s

unfoldable pub casefold : Unicode → Text → Text
casefold u s = if is_ascii s then map ascii_lower s else u.casefold_text s

-- `bool(pattern.search(text))`
unfoldable pub search : Unicode → Regex → Text → Bool
unfolding search_from
search u r s = is_some (search_from u r none s)

-- The text of a group of a match; a group that took no part is empty, as in a template.
unfoldable pub group_text : ℕ → List (ℕ × Text) → Text
group_text n [] = []
group_text n ((m, t) ∷ gs) = if m == n then t else group_text n gs

-- `pattern.subn(replacement, text)`, on the characters left: for a pattern whose matches are never
-- empty.
unfoldable pub sub_from :
    ℕ → Unicode → Regex → (List (ℕ × Text) → Text) → Option ℕ → Text → Text × ℕ
unfolding search_from
sub_from zero u r f before s = (s, 0)
sub_from (suc fuel) u r f before s = elim (search_from u r before s) [
  | none ↦ (s, 0)
  | some (skipped, e) ↦
      let (out, n) = sub_from fuel u r f e.before e.rest in (skipped ++ (f e.groups ++ out), n + 1)
]

unfoldable pub subn : Unicode → Regex → (List (ℕ × Text) → Text) → Text → Text × ℕ
unfolding sub_from
subn u r f s = sub_from (length s + 1) u r f none s

-- `pattern.finditer(text)`, on the characters left: the groups of each match, of which 0 is all of
-- it; for a pattern whose matches are never empty.
find_from : ℕ → Unicode → Regex → Option ℕ → Text → List (List (ℕ × Text))
unfolding search_from
find_from zero u r before s = []
find_from (suc fuel) u r before s = elim (search_from u (group 0 r) before s) [
  | none ↦ []
  | some (skipped, e) ↦ e.groups ∷ find_from fuel u r e.before e.rest
]

unfoldable pub find_all : Unicode → Regex → Text → List (List (ℕ × Text))
unfolding find_from
find_all u r s = find_from (length s) u r none s

-- `pattern.search(text)`, and `pattern.match(text)`: the groups.
unfoldable pub search_groups : Unicode → Regex → Text → Option (List (ℕ × Text))
unfolding search_from
search_groups u r s = elim (search_from u r none s) [
  | none ↦ none
  | some (skipped, e) ↦ some e.groups
]

unfoldable pub match_groups : Unicode → Regex → Text → Option (List (ℕ × Text))
unfolding match_at
match_groups u r s = elim (match_at u r none s) [ none ↦ none | some e ↦ some e.groups ]

-- `pattern.split(text)`, on the characters left: for a pattern without groups whose matches are
-- never empty.
split_from : ℕ → Unicode → Regex → Option ℕ → Text → List Text
unfolding search_from
split_from zero u r before s = s ∷ []
split_from (suc fuel) u r before s = elim (search_from u r before s) [
  | none ↦ s ∷ []
  | some (skipped, e) ↦ skipped ∷ split_from fuel u r e.before e.rest
]

unfoldable pub split : Unicode → Regex → Text → List Text
unfolding split_from
split u r s = split_from (length s) u r none s

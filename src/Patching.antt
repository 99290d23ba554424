-- ===== src/Patching.antt =====
-- src/pipelens/patching.py: `apply_unified_diff`, which applies a single-file unified diff, with
-- `_parse_hunks` and `_locate_hunk`. A `PatchError` is a value.
pub mod Header
pub mod Apply
pub mod Policy
pub mod Verify
pub mod Bumps
pub mod Propose
mod Tests
use pipe_lens.Common.{
  ℕ, zero, suc, ◌+◌, ◌-◌, Text, codes, text_eq, starts_with, rstrip, strip, concat, splitlines_keep,
  Bool, true, false, not, ◌&&◌, ◌||◌, Option, none, some, List, [], ◌∷◌, ◌++◌, map, ◌==◌, ltb, leb,
  if◌then◌else◌, length, take, drop,
}
use pipe_lens.Patching.Header.{hunk_header}

-- The messages of `PatchError`.
pub data PatchError : Type 0 where
  no_hunk_header unknown_line no_hunks no_match ambiguous : PatchError

pub data Result (A : Type 0) : Type 0 where
  applied : A → Result A
  rejected : PatchError → Result A

infixl 5 ◌>>=◌
abbrev pub ◌>>=◌ : {A B : Type 0} → Result A → (A → Result B) → Result B
rejected e >>= next = rejected e
applied a >>= next = next a

pub record Hunk : Type 0 where
  pub old_start : ℕ
  pub old_lines : List Text
  pub new_lines : List Text

-- `line.rstrip("\r\n")`
unfoldable pub strip_newline : Text → Text
unfolding rstrip
strip_newline = rstrip (λ c. c == 13 || c == 10)

-- `not line.strip()`
abbrev is_blank : Text → Bool
is_blank line = elim (strip line) [ [] ↦ true | _ ∷ _ ↦ false ]

-- The lines before the first hunk that name the files.
abbrev is_file_header : Text → Bool
is_file_header line =
    starts_with line (codes "---")
    || starts_with line (codes "+++")
    || starts_with line (codes "diff ")
    || starts_with line (codes "index ")

-- What a line of a hunk adds to it: `raw` is the line with its end, `line` without.
abbrev add_context : Text → Hunk → Hunk
add_context body h = record h {
  old_lines = h.old_lines ++ body ∷ [];
  new_lines = h.new_lines ++ body ∷ [];
}

abbrev add_removed : Text → Hunk → Hunk
add_removed body h = record h { old_lines = h.old_lines ++ body ∷ [] }

abbrev add_added : Text → Hunk → Hunk
add_added body h = record h { new_lines = h.new_lines ++ body ∷ [] }

-- The marker and the body; an empty line counts as an empty line of context.
hunk_line : Text → Text → Hunk → Result Hunk
hunk_line raw [] h = applied (add_context (10 ∷ []) h)
hunk_line raw (marker ∷ rest) h =
    if marker == b'\\'
    then applied h
    else if marker == b' '
    then applied (add_context (drop 1 raw) h)
    else if marker == b'-'
    then applied (add_removed (drop 1 raw) h)
    else if marker == b'+'
    then applied (add_added (drop 1 raw) h)
    else rejected unknown_line

-- The loop of `_parse_hunks`: the finished hunks, and the current one.
pub record Parse : Type 0 where
  pub hunks : List Hunk
  pub current : Option Hunk

abbrev close : Parse → List Hunk
close p = elim p.current [ none ↦ p.hunks | some h ↦ p.hunks ++ h ∷ [] ]

outside : Text → Parse → Result Parse
unfolding strip starts_with
outside line p = if is_file_header line || is_blank line then applied p else rejected no_hunk_header

inside : Text → Text → Hunk → Parse → Result Parse
unfolding hunk_line
inside raw line h p = do h' ← hunk_line raw line h; applied (record p { current = some h' })

unfoldable pub parse_line : Text → Parse → Result Parse
unfolding outside inside hunk_header strip_newline
parse_line raw p =
    let line = strip_newline raw in
    elim (hunk_header line) [
      | some start ↦ applied (record {
        hunks = close p;
        current = some (record { old_start = start; old_lines = []; new_lines = [] });
      })
      | none ↦ elim p.current [ none ↦ outside line p | some h ↦ inside raw line h p ]
    ]

parse_lines : List Text → Parse → Result Parse
parse_lines [] p = applied p
parse_lines (raw ∷ raws) p = parse_line raw p >>= parse_lines raws

some_hunks : List Hunk → Result (List Hunk)
some_hunks [] = rejected no_hunks
some_hunks (h ∷ hs) = applied (h ∷ hs)

unfoldable pub parse_hunks : Text → Result (List Hunk)
unfolding parse_line parse_lines some_hunks splitlines_keep
parse_hunks patch = do
  p ← parse_lines (splitlines_keep patch) (record { hunks = []; current = none })
  some_hunks (close p)

-- `[_strip_newline(x) for x in xs] == [_strip_newline(y) for y in ys]`
unfoldable pub same_lines : List Text → List Text → Bool
unfolding strip_newline
same_lines [] [] = true
same_lines (x ∷ xs) (y ∷ ys) = text_eq (strip_newline x) (strip_newline y) && same_lines xs ys
same_lines _ _ = false

-- `matches`: the window of the file at `start` is the hunk's old side. Lists of the same lines have
-- the same length, so the test of the length is part of it.
unfoldable pub matches : List Text → Hunk → ℕ → Bool
unfolding same_lines
matches lines hunk start =
    same_lines (take (length hunk.old_lines) (drop start lines)) hunk.old_lines

-- The starts in `range(start, start + count)` that match.
unfoldable pub candidates : List Text → Hunk → ℕ → ℕ → List ℕ
unfolding matches
candidates lines hunk start zero = []
candidates lines hunk start (suc count) =
    let rest = candidates lines hunk (start + 1) count in
    if matches lines hunk start then start ∷ rest else rest

abbrev single : List ℕ → Result ℕ
single [] = rejected no_match
single (start ∷ []) = applied start
single (_ ∷ _ ∷ _) = rejected ambiguous

-- The stated place, or else the only place at or after the cursor that matches.
unfoldable pub locate_hunk : List Text → Hunk → ℕ → Result ℕ
unfolding candidates
locate_hunk lines hunk cursor =
    let stated = hunk.old_start - 1 in
    let size = length hunk.old_lines in
    if leb cursor stated && matches lines hunk stated
    then applied stated
    else single (candidates lines hunk cursor (length lines + 1 - size - cursor))

-- The loop of `apply_unified_diff`.
unfoldable pub apply_hunks : List Text → List Hunk → ℕ → Result (List Text)
unfolding locate_hunk
apply_hunks lines [] cursor = applied (drop cursor lines)
apply_hunks lines (hunk ∷ hunks) cursor = do
  start ← locate_hunk lines hunk cursor
  rest ← apply_hunks lines hunks (start + length hunk.old_lines)
  applied (take (start - cursor) (drop cursor lines) ++ (hunk.new_lines ++ rest))

unfoldable pub apply_unified_diff : Text → Text → Result Text
unfolding parse_hunks apply_hunks splitlines_keep concat
apply_unified_diff original patch = do
  hunks ← parse_hunks patch
  result ← apply_hunks (splitlines_keep original) hunks 0
  applied (concat result)

-- ===== src/Patching/Bumps.antt =====
-- `find_version_bumps` and `manifest_paths_in_log`: the versions that a log says are wrong, and the
-- dependency manifests that it names. The value `none` of a table's reader is its `IndexError`.
pub mod Sound
mod Tests
use pipe_lens.Common.{
  ℕ, zero, suc, ◌+◌, Text, codes, text_eq, starts_with, member, lstrip, rstrip, strip, splitlines,
  is_space, is_empty, falsy, Bool, true, false, not, ◌&&◌, ◌||◌, Option, none, some, List, [], ◌∷◌,
  ◌++◌, map, filter, any, length, drop, last?, ltb, ◌==◌, if◌then◌else◌, is_some, or_else,
}
use pipe_lens.Regex.{
  Unicode, Regex, one, word, star, group, start, finish, either, not_ahead, not_behind, lower,
  search, search_groups, find_all, group_text, split, subn,
}
use pipe_lens.Regex.Build.{
  ◌⨾◌, ◌∣◌, lit, ilit, fold, dot, space, one_of, from_to, alnum, folded, plus, optional,
}
use pipe_lens.Relevance.{path_parts}

pub record VersionBump : Type 0 where
  pub package_ : Text
  pub current : Text
  pub target : Text
  pub reason : Text

abbrev package_char : ℕ → Bool
package_char c = from_to b'a' b'z' c || from_to b'0' b'9' c

-- `PIP_UNSATISFIED`
unfoldable pub pip_unsatisfied : Regex
unfolding fold is_space
pip_unsatisfied =
    ilit "could not find a version that satisfies the requirement "
    ⨾ group 1 (folded package_char ⨾ star (folded (λ c. package_char c || one_of "._-" c)))
    ⨾ lit "=="
    ⨾ group 2 (plus (one (λ c. not (is_space c || one_of ";,()" c))))
    ⨾ star dot
    ⨾ ilit "(from versions: "
    ⨾ group 3 (star (one (λ c. not (c == b')'))))
    ⨾ lit ")"

-- `[│|]`
abbrev is_bar : ℕ → Bool
is_bar c = c == 9474 || c == b'|'

-- `TABLE_SEPARATOR`
unfoldable pub table_separator : Regex
unfolding is_space
table_separator = star space ⨾ one is_bar ⨾ star space

unfoldable pub table_border_chars : Text
table_border_chars = codes "┌├└─+-="

unfoldable pub merged_scanner_columns : List Text
merged_scanner_columns =
    codes "vulnerability"
    ∷ codes "severity"
    ∷ codes "status"
    ∷ codes "installed version"
    ∷ codes "fixed version"
    ∷ []

-- `VERSION_TOKEN`
unfoldable pub version_token : Regex
version_token =
    start ⨾ one (from_to b'0' b'9') ⨾ star (one (λ c. alnum c || one_of ".+_:~-" c)) ⨾ finish

-- `LOG_NAMED_MANIFEST`
unfoldable pub log_named_manifest : Regex
unfolding fold
log_named_manifest =
    let name_char = word ∣ one (one_of ".-") in
    not_behind (word ∣ one (one_of "./-"))
    ⨾ group 1 (
        optional (lit "./")
        ⨾ star ((word ∣ lit "-") ⨾ star name_char ⨾ lit "/")
        ⨾ (ilit "requirements" ⨾ star name_char ⨾ ilit ".txt"
            ∣ ilit "constraints" ⨾ star name_char ⨾ ilit ".txt"
            ∣ ilit "pyproject.toml"))
    ⨾ not_ahead name_char

-- `\s*\(.*\)$`
unfoldable pub trailing_note : Regex
unfolding is_space
trailing_note = star space ⨾ lit "(" ⨾ star dot ⨾ lit ")" ⨾ finish

-- `text.split(",")`
unfoldable pub split_commas : Text → List Text
split_commas [] = [] ∷ []
split_commas (c ∷ s) =
    let rest = split_commas s in
    if c == b','
    then [] ∷ rest
    else elim rest [ [] ↦ (c ∷ []) ∷ [] | part ∷ parts ↦ (c ∷ part) ∷ parts ]

abbrev first_part : List Text → Text
first_part [] = []
first_part (part ∷ _) = part

-- A dict, in insertion order: `d.get(key)`, `key in d` and `d[key] = value`.
unfoldable pub get {ℓ} : {A : Type ℓ} → Text → List (Text × A) → Option A
get key [] = none
get key ((k, a) ∷ d) = if text_eq k key then some a else get key d

unfoldable pub set {ℓ} : {A : Type ℓ} → Text → A → List (Text × A) → List (Text × A)
set key value [] = (key, value) ∷ []
set key value ((k, a) ∷ d) = if text_eq k key then (k, value) ∷ d else (k, a) ∷ set key value d

-- `xs[n]`; `none` is the `IndexError`.
unfoldable pub get_elem? : List Text → ℕ → Option Text
get_elem? [] n = none
get_elem? (x ∷ xs) zero = some x
get_elem? (x ∷ xs) (suc n) = get_elem? xs n

-- `{name: index for index, name in enumerate(header)}`, from an index on.
unfoldable pub columns_of : ℕ → List Text → List (Text × ℕ) → List (Text × ℕ)
unfolding set
columns_of n [] d = d
columns_of n (name ∷ names) d = columns_of (n + 1) names (set name n d)

-- `{name: cells[index] for name, index in columns.items()}`
unfoldable pub row_of : List Text → List (Text × ℕ) → Option (List (Text × Text))
unfolding get_elem?
row_of cells [] = some []
row_of cells ((name, index) ∷ columns) = elim (get_elem? cells index) [
  | none ↦ none
  | some cell ↦ elim (row_of cells columns) [ none ↦ none | some row ↦ some ((name, cell) ∷ row) ]
]

-- The loop over `MERGED_SCANNER_COLUMNS`.
unfoldable pub carry : List Text → List (Text × Text) → List (Text × Text) → List (Text × Text)
unfolding get set
carry [] previous row = row
carry (name ∷ names) previous row = carry names previous (
    if falsy (get name row) && not (falsy (get name previous))
    then set name (or_else (get name previous) []) row
    else row)

abbrev count_bars : Text → ℕ
count_bars line = length (filter (λ c. c == b'|') line)

abbrev starts_border : Text → Bool
starts_border [] = true
starts_border (c ∷ s) = any (λ d. d == c) table_border_chars

-- `row["library"][0] in "├┼┤─"`, or no library.
abbrev is_rule_row : Text → Bool
is_rule_row [] = true
is_rule_row (c ∷ s) = any (λ d. d == c) (codes "├┼┤─")

module _ (u : Unicode) where
  unfoldable pub is_version : Text → Bool
  unfolding search version_token
  is_version item = search u version_token item

  -- `[item.strip() for item in listed.split(",") if item.strip()]`, those that are versions
  abbrev available : Text → List Text
  available listed =
      filter is_version (filter (λ v. not (is_empty v)) (map strip (split_commas listed)))

  abbrev pip_bump_of : Text → Text → Option Text → List VersionBump
  pip_bump_of package_ current none = []
  pip_bump_of package_ current (some target) =
      record {
        package_ = package_;
        current = current;
        target = target;
        reason = codes "설치 가능한 최신 버전";
      }
      ∷ []

  unfoldable pub pip_bumps : List Text → List VersionBump
  unfolding is_version search_groups pip_unsatisfied group_text strip split_commas
  pip_bumps [] = []
  pip_bumps (line ∷ lines) =
      let rest = pip_bumps lines in
      elim (search_groups u pip_unsatisfied line) [
        | none ↦ rest
        | some groups ↦
            pip_bump_of (group_text 1 groups) (group_text 2 groups)
              (last? (available (group_text 3 groups)))
            ++ rest
      ]

  -- `_scanner_row_bump`
  unfoldable pub scanner_row_bump : List (Text × Text) → List VersionBump
  unfolding get lower text_eq subn trailing_note split_commas strip is_version
  scanner_row_bump row =
      let current = or_else (get (codes "installed version") row) [] in
      let target =
        strip (first_part (split_commas (or_else (get (codes "fixed version") row) []))) in
      if not (text_eq (lower u (or_else (get (codes "status") row) [])) (codes "fixed"))
      then []
      else if not (is_version current && is_version target) || text_eq current target
      then []
      else record {
        package_ = (subn u trailing_note (λ _. []) (or_else (get (codes "library") row) [])).0;
        current = current;
        target = target;
        reason = or_else (get (codes "vulnerability") row) (codes "보안") ++ codes " 수정 버전";
      }
        ∷ []

  -- The variables of `_scanner_table_bumps`.
  pub record Table : Type 0 where
    pub columns : Option (List (Text × ℕ))
    pub previous : List (Text × Text)
    pub bumps : List VersionBump

  -- A line with bars under a header of columns.
  unfoldable pub read_row : List Text → List (Text × ℕ) → Table → Option Table
  unfolding row_of get carry merged_scanner_columns scanner_row_bump
  read_row cells columns t =
      if ltb (length cells) (length columns) then some t else elim (row_of cells columns) [
        | none ↦ none
        | some row ↦
            if is_rule_row (or_else (get (codes "library") row) [])
            then some t
            else (let full = carry merged_scanner_columns t.previous row in
                some (record t { previous = full; bumps = t.bumps ++ scanner_row_bump full }))
      ]

  abbrev is_header : List Text → Bool
  is_header names =
      member (codes "library") names
      && member (codes "installed version") names
      && member (codes "fixed version") names

  abbrev cells_of : Text → List Text
  cells_of line = map strip (split u table_separator (rstrip is_bar (lstrip is_bar (strip line))))

  unfoldable pub read_line : Text → Table → Option Table
  unfolding read_row strip lstrip rstrip is_space table_border_chars split table_separator lower
      member columns_of text_eq
  read_line line t =
      let cells = cells_of line in
      let names = map (lower u) cells in
      if not (any (λ c. c == 9474) line) && ltb (count_bars line) 4
      then if not (is_empty (strip line)) && not (starts_border (lstrip is_space line))
        then some (record t { columns = none })
        else some t
      else if is_header names
      then some (record t { columns = some (columns_of 0 names []); previous = [] })
      else elim t.columns [ none ↦ some t | some columns ↦ read_row cells columns t ]

  unfoldable pub read_lines : List Text → Table → Option Table
  unfolding read_line
  read_lines [] t = some t
  read_lines (line ∷ lines) t = elim (read_line line t) [
    | none ↦ none
    | some t' ↦ read_lines lines t'
  ]

  -- `_scanner_table_bumps`
  unfoldable pub scanner_table_bumps : Text → Option (List VersionBump)
  unfolding read_lines splitlines
  scanner_table_bumps log =
      elim (read_lines (splitlines log) (record { columns = none; previous = []; bumps = [] })) [
        | none ↦ none
        | some t ↦ some t.bumps
      ]

  abbrev same_key : VersionBump → VersionBump → Bool
  same_key a b = text_eq (lower u a.package_) (lower u b.package_) && text_eq a.current b.current

  -- `unique.setdefault(...)`: the first bump of each package and version stays.
  unfoldable pub unique_bumps : List VersionBump → List VersionBump → List VersionBump
  unfolding lower text_eq
  unique_bumps kept [] = kept
  unique_bumps kept (b ∷ bs) =
      unique_bumps (if any (same_key b) kept then kept else kept ++ b ∷ []) bs

  unfoldable pub find_version_bumps : Text → Option (List VersionBump)
  unfolding pip_bumps scanner_table_bumps unique_bumps splitlines
  find_version_bumps log = elim (scanner_table_bumps log) [
    | none ↦ none
    | some scanned ↦ some (unique_bumps [] (pip_bumps (splitlines log) ++ scanned))
  ]

  -- `path.removeprefix("./")`
  abbrev without_dot : Text → Text
  without_dot path = if starts_with path (codes "./") then drop 2 path else path

  -- The loop of `manifest_paths_in_log`, which stops at `MAX_LOG_NAMED_MANIFESTS`.
  unfoldable pub manifest_paths : List (List (ℕ × Text)) → List Text → List Text
  unfolding group_text starts_with path_parts member
  manifest_paths [] paths = paths
  manifest_paths (groups ∷ rest) paths =
      let path = without_dot (group_text 1 groups) in
      let is_new = not (member (codes "..") (path_parts path) || member path paths) in
      let paths' = if is_new then paths ++ path ∷ [] else paths in
      let later = manifest_paths rest paths' in
      if is_new && length paths' == 5 then paths' else later

  unfoldable pub manifest_paths_in_log : Text → List Text
  unfolding manifest_paths find_all log_named_manifest
  manifest_paths_in_log log = manifest_paths (find_all u log_named_manifest log) []

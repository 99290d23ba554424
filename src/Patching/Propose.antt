-- ===== src/Patching/Propose.antt =====
-- `propose_version_patches` and `propose_and_verify_patches`. `difflib.unified_diff` is a parameter,
-- and so is what `re.sub` makes of a replacement with a backslash in it: `none` is its exception.
use pipe_lens.Common.{
  ℕ, Text, codes, starts_with, contains, strip, splitlines, is_space, is_empty, Bool, false, not,
  ◌&&◌, ◌||◌, Option, none, some, List, [], ◌∷◌, ◌++◌, any, ◌==◌, if◌then◌else◌,
}
use pipe_lens.Models.{Suggestion, rule, Diagnosis}
use pipe_lens.Regex.{
  Unicode, Regex, star, group, start, finish, not_ahead, not_behind, search, match_groups,
  group_text, subn,
}
use pipe_lens.Regex.Build.{◌⨾◌, lit, fold, nocase, dot, space, one_of, from_to, folded, plus}
use pipe_lens.Sanitizer.{sanitize_log}
use pipe_lens.Relevance.{text_less}
use pipe_lens.Patching.Verify.{Parsers, Tally, verify_patch_suggestions}
use pipe_lens.Patching.Bumps.{VersionBump}

-- `^#\s+(pip-compile\s[^\n]*)$`
unfoldable pub pip_compile_header : Regex
unfolding is_space
pip_compile_header =
    start ⨾ lit "#" ⨾ plus space ⨾ group 1 (lit "pip-compile" ⨾ space ⨾ star dot) ⨾ finish

abbrev word_char : ℕ → Bool
word_char c = from_to b'a' b'z' c || from_to b'0' b'9' c

-- The pattern of a pinned version, with its texts escaped, under `re.I`.
unfoldable pub pin_pattern : VersionBump → Regex
unfolding fold
pin_pattern bump =
    not_behind (folded (λ c. word_char c || one_of "._-" c))
    ⨾ nocase bump.package_
    ⨾ lit "=="
    ⨾ nocase bump.current
    ⨾ not_ahead (folded (λ c. word_char c || one_of ".+" c))

abbrev starts_hash : List Text → Bool
starts_hash [] = false
starts_hash (following ∷ _) = starts_with (strip following) (codes "--hash=")

-- `f"{package}=={version}"`
abbrev pin : Text → Text → Text
pin package_ version = package_ ++ (codes "==" ++ version)

-- `sorted(files.items())`, where no two paths are equal.
unfoldable pub insert_file : Text × Text → List (Text × Text) → List (Text × Text)
unfolding text_less
insert_file f [] = f ∷ []
insert_file f (g ∷ gs) =
    let rest = insert_file f gs in if text_less g.0 f.0 then g ∷ rest else f ∷ g ∷ gs

unfoldable pub sorted_files : List (Text × Text) → List (Text × Text)
unfolding insert_file
sorted_files [] = []
sorted_files (f ∷ fs) = insert_file f (sorted_files fs)

module _ (u : Unicode) (unified_diff : Text → Text → Text → Text)
    (template : Text → Option Text) where
  -- `_is_hash_locked`, on the lines.
  unfoldable pub is_hash_locked : Regex → List Text → Bool
  unfolding search contains starts_with strip
  is_hash_locked pattern [] = false
  is_hash_locked pattern (line ∷ lines) =
      search u pattern line && (contains line (codes "--hash=") || starts_hash lines)
      || is_hash_locked pattern lines

  -- The command of the first header.
  unfoldable pub compile_command : List Text → Option Text
  unfolding match_groups pip_compile_header group_text strip
  compile_command [] = none
  compile_command (line ∷ lines) =
      let rest = compile_command lines in
      elim (match_groups u pip_compile_header line) [
        | none ↦ rest
        | some groups ↦ some (strip (group_text 1 groups))
      ]

  abbrev is_shown : Text → Bool
  is_shown command =
      not (is_empty command)
      && not (contains command (codes "://"))
      && is_empty (sanitize_log u command).1

  abbrev locked_prefix : Text → VersionBump → Text
  locked_prefix path bump =
      codes "`"
      ++ (path
          ++ (codes "`의 "
              ++ (pin bump.package_ bump.current ++ codes "는 해시가 고정된 lock 항목이라 diff를 만들지 않았습니다.")))

  abbrev raised_note : Text → VersionBump → Text
  raised_note path bump =
      locked_prefix path bump ++ (codes " 버전을 " ++ (bump.target ++ codes "로 올린 뒤 lock을 다시 생성하세요."))

  abbrev command_note : Text → VersionBump → Text → Text
  command_note path bump command =
      locked_prefix path bump
      ++ (codes " `"
          ++ (command
              ++ (codes " --upgrade-package "
                  ++ (pin bump.package_ bump.target ++ codes "`로 lock을 다시 생성하세요."))))

  unfoldable pub lock_regeneration_note : Text → Text → VersionBump → Text
  unfolding compile_command splitlines contains sanitize_log
  lock_regeneration_note path content bump = elim (compile_command (splitlines content)) [
    | none ↦ raised_note path bump
    | some command ↦
        if is_shown command then command_note path bump command else raised_note path bump
  ]

  abbrev has_backslash : Text → Bool
  has_backslash s = any (λ c. c == 92) s

  -- What `pattern.sub` puts in; `none` is an exception.
  unfoldable pub replacement : Text → Option Text
  replacement s = if has_backslash s then template s else some s

  abbrev proposal : VersionBump → Text → Text → Text → Suggestion
  proposal bump path content updated = record {
    description =
        bump.package_
        ++ (codes "를 "
            ++ (bump.current
                ++ (codes "에서 "
                    ++ (bump.target ++ (codes "로 변경하세요 (" ++ (bump.reason ++ codes ")."))))));
    file = some path;
    patch = some (unified_diff path content updated);
    source = some rule;
    patch_verified = false;
  }

  -- The suggestions and the notes so far.
  pub record Proposals : Type 0 where
    pub suggestions : List Suggestion
    pub notes : List Text

  -- The body of the inner loop.
  unfoldable pub propose_file : VersionBump → Text × Text → Proposals → Option Proposals
  unfolding search pin_pattern is_hash_locked splitlines lock_regeneration_note replacement subn
  propose_file bump (path, content) p =
      let pattern = pin_pattern bump in
      if not (search u pattern content)
      then some p
      else if is_hash_locked pattern (splitlines content)
      then some (record p { notes = p.notes ++ lock_regeneration_note path content bump ∷ [] })
      else elim (replacement (pin bump.package_ bump.target)) [
        | none ↦ none
        | some new ↦ some (record p {
          suggestions =
              p.suggestions
              ++ proposal bump path content (subn u pattern (λ _. new) content).0 ∷ [];
        })
      ]

  unfoldable pub propose_files : VersionBump → List (Text × Text) → Proposals → Option Proposals
  unfolding propose_file
  propose_files bump [] p = some p
  propose_files bump (f ∷ fs) p = elim (propose_file bump f p) [
    | none ↦ none
    | some p' ↦ propose_files bump fs p'
  ]

  unfoldable pub propose_each : List VersionBump → List (Text × Text) → Proposals → Option Proposals
  unfolding propose_files
  propose_each [] files p = some p
  propose_each (b ∷ bs) files p = elim (propose_files b files p) [
    | none ↦ none
    | some p' ↦ propose_each bs files p'
  ]

  unfoldable pub propose_version_patches : List VersionBump → List (Text × Text) → Option Proposals
  unfolding propose_each sorted_files
  propose_version_patches bumps files =
      propose_each bumps (sorted_files files) (record { suggestions = []; notes = [] })

  unfoldable pub propose_and_verify_patches :
      (parsers : Parsers)
      → Diagnosis
      → List VersionBump
      → List (Text × Text)
      → Option (Diagnosis × List (Tally u parsers))
  unfolding propose_version_patches verify_patch_suggestions
  propose_and_verify_patches parsers diagnosis bumps files =
      elim (propose_version_patches bumps files) [
        | none ↦ none
        | some p ↦
            verify_patch_suggestions u parsers
              (record diagnosis {
                suggestions = p.suggestions ++ diagnosis.suggestions;
                notes = diagnosis.notes ++ p.notes;
              })
              files
      ]

-- ===== src/Patching/Policy.antt =====
-- `_policy_violation`: what no published diff may add, and what a diff of a workflow may not touch.
use pipe_lens.Common.{
  String, Text, codes, text_eq, is_space, starts_with, splitlines, Bool, true, false, not, ◌&&◌,
  ◌||◌, Option, none, some, List, [], ◌∷◌, ◌++◌, map, if◌then◌else◌, drop, any, filter, or_else,
}
use pipe_lens.Models.{Suggestion, SuggestionSource, rule}
use pipe_lens.Regex.{Unicode, Regex, one, star, boundary, start, search, subn}
use pipe_lens.Regex.Build.{
  ◌⨾◌, ◌∣◌, lit, ilit, fold, dot, space, one_of, from_to, folded, plus, optional,
}

abbrev octal : Regex
octal = one (from_to b'0' b'7')

abbrev fetcher : Regex
fetcher = ilit "curl" ∣ ilit "wget"

abbrev key_of : Regex
key_of = star space ⨾ ilit ":"

-- The patterns of `FORBIDDEN_ADDITIONS`, in order. `[^\n]` is the dot.
abbrev remote_script : Regex
remote_script =
    boundary
      ⨾ fetcher
      ⨾ boundary
      ⨾ star dot
      ⨾ ilit "|"
      ⨾ star space
      ⨾ optional (ilit "sudo" ⨾ plus space)
      ⨾ optional (ilit "ba" ∣ ilit "z" ∣ ilit "da")
      ⨾ ilit "sh"
      ⨾ boundary
    ∣ boundary
      ⨾ optional (ilit "ba" ∣ ilit "z")
      ⨾ ilit "sh"
      ⨾ boundary
      ⨾ star dot
      ⨾ ilit "$("
      ⨾ fetcher
      ⨾ boundary

abbrev secret_reference : Regex
secret_reference =
    ilit "${{" ⨾ star space ⨾ (ilit "secrets." ∣ ilit "github.token")
    ∣ boundary
      ⨾ (ilit "GITHUB_TOKEN" ∣ ilit "ACTIONS_RUNTIME_TOKEN" ∣ ilit "ACTIONS_ID_TOKEN_REQUEST_TOKEN")
      ⨾ boundary

abbrev encoded_command : Regex
encoded_command =
    boundary ⨾ ilit "base64" ⨾ plus space ⨾ (ilit "-d" ∣ ilit "--decode") ⨾ boundary
    ∣ boundary ⨾ ilit "eval" ⨾ space

abbrev make_executable : Regex
make_executable =
    boundary
    ⨾ ilit "chmod"
    ⨾ plus space
    ⨾ (star (folded (one_of "ugoa")) ⨾ ilit "+x"
        ∣ optional (ilit "0") ⨾ star octal ⨾ one (one_of "1357") ⨾ star octal)
    ⨾ boundary

unfoldable pub forbidden_additions : List (Text × Regex)
unfolding fold is_space
forbidden_additions =
    (codes "원격 스크립트를 셸로 실행", remote_script)
    ∷ (codes "secret·토큰 참조", secret_reference)
    ∷ (codes "인코딩된 명령 실행", encoded_command)
    ∷ (codes "실행 권한 추가", make_executable)
    ∷ []

abbrev permission : Regex
permission =
    start ⨾ star space ⨾ ilit "permissions" ⨾ key_of
    ∣ boundary
      ⨾ (ilit "actions"
          ∣ ilit "checks"
          ∣ ilit "contents"
          ∣ ilit "deployments"
          ∣ ilit "id-token"
          ∣ ilit "issues"
          ∣ ilit "packages"
          ∣ ilit "pull-requests"
          ∣ ilit "security-events"
          ∣ ilit "statuses")
      ⨾ key_of
      ⨾ star space
      ⨾ (ilit "read" ∣ ilit "write")
      ⨾ boundary

abbrev trigger : Regex
trigger =
    start ⨾ star space ⨾ ilit "on" ⨾ key_of
    ∣ boundary ⨾ (ilit "pull_request_target" ∣ ilit "workflow_run") ⨾ boundary

unfoldable pub workflow_sensitive : List (Text × Regex)
unfolding fold is_space
workflow_sensitive = (codes "workflow 권한 변경", permission) ∷ (codes "workflow 트리거 변경", trigger) ∷ []

-- `PINNED_VERSION_VALUE`
unfoldable pub pinned_version_value : Regex
unfolding is_space
pinned_version_value = lit "==" ⨾ plus (one (λ c. not (is_space c || one_of ";,\"'\\" c)))

-- `line.startswith(("+++", "---"))`
unfoldable pub names_file : Text → Bool
unfolding starts_with
names_file line = starts_with line (codes "+++") || starts_with line (codes "---")

-- `[line[1:] for line in body if line.startswith(marker)]`
unfoldable pub marked_lines : String → Text → List Text
unfolding names_file splitlines starts_with
marked_lines marker patch =
    map (drop 1)
      (filter (λ line. not (names_file line) && starts_with line (codes marker)) (splitlines patch))

module _ (u : Unicode) where
  -- `PINNED_VERSION_VALUE.sub("==", line)`
  unfoldable pub unpinned : Text → Text
  unfolding pinned_version_value subn
  unpinned line = (subn u pinned_version_value (λ _. codes "==") line).0

  -- The two sides of a diff are the same but for the versions.
  unfoldable pub same_unpinned : List Text → List Text → Bool
  unfolding unpinned text_eq
  same_unpinned [] [] = true
  same_unpinned (old ∷ olds) (new ∷ news) =
      text_eq (unpinned new) (unpinned old) && same_unpinned olds news
  same_unpinned _ _ = false

  abbrev from_rule : Option SuggestionSource → Bool
  from_rule (some rule) = true
  from_rule _ = false

  -- The label of the first pattern that is found in a line.
  unfoldable pub first_label : List (Text × Regex) → List Text → Option Text
  first_label [] lines = none
  first_label ((label, pattern) ∷ patterns) lines =
      let rest = first_label patterns lines in
      if any (search u pattern) lines then some label else rest

  abbrev or_later : Option Text → Option Text → Option Text
  or_later none later = later
  or_later (some label) later = some label

  unfoldable pub policy_violation : Suggestion → Text → Option Text
  unfolding same_unpinned first_label marked_lines forbidden_additions workflow_sensitive
      starts_with
  policy_violation suggestion patch =
      let added = marked_lines "+" patch in
      let removed = marked_lines "-" patch in
      if from_rule suggestion.source && not (same_unpinned removed added)
      then some (codes "규칙 diff가 버전 문자열 외의 내용을 바꿈")
      else or_later (first_label forbidden_additions added) (
          if starts_with (or_else suggestion.file []) (codes ".github/workflows/")
          then first_label workflow_sensitive (added ++ removed)
          else none)

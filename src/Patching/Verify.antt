-- ===== src/Patching/Verify.antt =====
-- `verify_patch_suggestions` and `strip_patches`. What YAML, TOML and JSON accept is a parameter.
pub mod Crashes
pub mod Sound
use pipe_lens.Common.{
  ℕ, ◌+◌, String, Text, codes, text_eq, starts_with, contains, member, strip, splitlines, Bool,
  true, false, not, ◌&&◌, ◌||◌, Option, none, some, List, [], ◌∷◌, ◌++◌, map, ◌==◌, leb, ltb,
  if◌then◌else◌, length, drop, any, filter, or_else,
}
use pipe_lens.Models.{Suggestion, SuggestionSource, rule, llm, Diagnosis}
use pipe_lens.Regex.{Unicode}
use pipe_lens.Sanitizer.{sanitize_log}
use pipe_lens.Patching.{
  PatchError, no_hunk_header, unknown_line, no_hunks, no_match, ambiguous, Result, applied,
  rejected, apply_unified_diff,
}
use pipe_lens.Patching.Policy.{policy_violation, names_file}

-- How `yaml.safe_load_all`, `tomllib.loads` or `json.loads` of a text ends: by a value, by its own
-- error, or by another exception, as a `RecursionError`, which is not caught.
pub data ParseEnd : Type 0 where
  parsed refused crashed : ParseEnd

pub record Parsers : Type 0 where
  pub yaml : Text → ParseEnd
  pub toml : Text → ParseEnd
  pub json : Text → ParseEnd

-- The `str | None` of a check; `none` is the exception of a parser.
abbrev pub Rejection : Type 0
Rejection = Option (Option Text)

-- `str(exc)`
abbrev message : PatchError → Text
message no_hunk_header = codes "diff에 hunk 헤더가 없습니다."
message unknown_line = codes "diff에 해석할 수 없는 줄이 있습니다."
message no_hunks = codes "diff에 hunk가 없습니다."
message no_match = codes "diff의 기존 줄이 head 파일 내용과 일치하지 않습니다."
message ambiguous = codes "diff를 적용할 위치가 하나로 정해지지 않습니다."

-- `files.get(path)`
unfoldable pub file_of : Text → List (Text × Text) → Option Text
file_of path [] = none
file_of path ((p, content) ∷ files) = if text_eq p path then some content else file_of path files

-- `PurePosixPath(path).name`: the last part of the path that is not empty and not `.`.
name_from : Text → Text → Text → Text
name_from name part [] = if text_eq part [] || text_eq part (codes ".") then name else part
name_from name part (c ∷ s) =
    if c == b'/'
    then name_from (if text_eq part [] || text_eq part (codes ".") then name else part) [] s
    else name_from name (part ++ c ∷ []) s

-- What follows the last dot of a name, if there is a dot behind the first character.
suffix_from : Option Text → Text → Option Text
suffix_from found [] = found
suffix_from found (c ∷ s) = suffix_from (if c == b'.' then some s else found) s

abbrev lower : ℕ → ℕ
lower c = if leb b'A' c && leb c b'Z' then c + 32 else c

-- `PurePosixPath(path).suffix.lower()`, without the dot; an empty suffix has none.
unfoldable pub suffix : Text → Text
unfolding name_from suffix_from text_eq
suffix path = map lower (or_else (suffix_from none (drop 1 (name_from [] [] path))) [])

abbrev not_valid : String → Text
not_valid format = codes "수정 결과가 유효한 " ++ (codes format ++ codes " 문서가 아닙니다.")

abbrev checked : String → ParseEnd → Rejection
checked format parsed = some none
checked format refused = some (some (not_valid format))
checked format crashed = none

unfoldable pub syntax_error : Parsers → Text → Text → Rejection
unfolding suffix text_eq
syntax_error parsers path content =
    let s = suffix path in
    if text_eq s (codes "yml") || text_eq s (codes "yaml")
    then checked "YAML" (parsers.yaml content)
    else if text_eq s (codes "toml")
    then checked "TOML" (parsers.toml content)
    else if text_eq s (codes "json")
    then checked "JSON" (parsers.json content)
    else some none

-- A guard of `_patch_rejection`: the reason, or what the rest of the function returns.
unfoldable pub reject_if : Bool → Text → Rejection → Rejection
reject_if bad reason rest = if bad then some (some reason) else rest

-- `line[:1] in {"+", "-"} and not line.startswith(("+++", "---"))`
abbrev is_changed : Text → Bool
is_changed line =
    (starts_with line (codes "+") || starts_with line (codes "-")) && not (names_file line)

unfoldable pub changed_lines : Text → List Text
unfolding starts_with splitlines
changed_lines patch = filter is_changed (splitlines patch)

unfoldable pub header_paths : Text → List Text
unfolding splitlines strip
header_paths patch = map (λ line. strip (drop 4 line)) (filter names_file (splitlines patch))

abbrev is_allowed : Text → Text → Bool
is_allowed file header = member header ((codes "a/" ++ file) ∷ (codes "b/" ++ file) ∷ file ∷ [])

abbrev is_empty {ℓ} : {A : Type ℓ} → List A → Bool
is_empty [] = true
is_empty (_ ∷ _) = false

module _ (u : Unicode) (parsers : Parsers) where
  abbrev violated : Text → Text
  violated label = codes "diff에 허용되지 않는 변경이 포함돼 있습니다(" ++ (label ++ codes ").")

  unfoldable pub updated_error : Text → Result Text → Rejection
  unfolding syntax_error
  updated_error file (rejected e) = some (some (message e))
  updated_error file (applied updated) = syntax_error parsers file updated

  unfoldable pub after_policy : Option Text → Rejection → Rejection
  after_policy none rest = rest
  after_policy (some label) rest = some (some (violated label))

  -- The checks of `_patch_rejection` on a file that was fetched.
  unfoldable pub content_rejection : Suggestion → Text → Text → Text → Rejection
  unfolding changed_lines header_paths reject_if after_policy updated_error
  content_rejection suggestion patch file content =
      reject_if (ltb 20000 (length patch)) (codes "diff가 허용 크기를 넘습니다.") (
        reject_if (is_empty (changed_lines patch) || ltb 200 (length (changed_lines patch)))
          (codes "diff의 변경 줄 수가 허용 범위를 벗어납니다.")
          (reject_if (any (λ header. not (is_allowed file header)) (header_paths patch))
            (codes "diff가 제안 대상 외의 파일을 가리킵니다.")
            (reject_if (not (is_empty (sanitize_log u patch).1))
              (codes "diff에 비밀값으로 보이는 내용이 포함돼 있습니다.")
              (after_policy (policy_violation u suggestion patch)
                (updated_error file (apply_unified_diff content patch))))))

  abbrev unknown_file : Text
  unknown_file = codes "대상 파일을 head 기준으로 확인할 수 없습니다."

  -- `if not suggestion.file or suggestion.file not in files`
  abbrev file_rejection : Suggestion → Text → Text → Option Text → Rejection
  file_rejection suggestion patch file none = some (some unknown_file)
  file_rejection suggestion patch file (some content) =
      reject_if (is_empty file) unknown_file (content_rejection suggestion patch file content)

  abbrev named_rejection : List (Text × Text) → Suggestion → Text → Option Text → Rejection
  named_rejection files suggestion patch none = some (some unknown_file)
  named_rejection files suggestion patch (some file) =
      file_rejection suggestion patch file (file_of file files)

  unfoldable pub patch_rejection : List (Text × Text) → Suggestion → Rejection
  unfolding content_rejection file_of reject_if
  patch_rejection files suggestion =
      named_rejection files suggestion (or_else suggestion.patch []) suggestion.file

  -- An entry of `outcomes`.
  pub record Tally : Type 0 where
    pub source : SuggestionSource
    pub verified : Bool
    pub count : ℕ

  abbrev same_source : SuggestionSource → SuggestionSource → Bool
  same_source rule rule = true
  same_source llm llm = true
  same_source _ _ = false

  abbrev same_flag : Bool → Bool → Bool
  same_flag true b = b
  same_flag false b = not b

  -- `outcomes[(source, ...)] = outcomes.get((source, ...), 0) + 1`
  unfoldable pub tally : SuggestionSource → Bool → List Tally → List Tally
  tally source verified [] = record { source = source; verified = verified; count = 1 } ∷ []
  tally source verified (t ∷ ts) =
      if same_source t.source source && same_flag t.verified verified
      then record t { count = t.count + 1 } ∷ ts
      else t ∷ tally source verified ts

  -- The variables of the loop.
  pub record Verification : Type 0 where
    pub suggestions : List Suggestion
    pub notes : List Text
    pub outcomes : List Tally

  -- The body of the loop on a suggestion with a patch, by what `_patch_rejection` says of it.
  abbrev judged : Suggestion → Rejection → Verification → Option Verification
  judged s none v = none
  judged s (some none) v = some (record v {
    suggestions = v.suggestions ++ record s { patch_verified = true } ∷ [];
    outcomes = tally (or_else s.source llm) true v.outcomes;
  })
  judged s (some (some reason)) v = some (record v {
    suggestions = v.suggestions ++ record s { patch = none; patch_verified = false } ∷ [];
    notes = v.notes ++ (codes "수정 diff를 검증하지 못해 제외했습니다: " ++ reason) ∷ [];
    outcomes = tally (or_else s.source llm) false v.outcomes;
  })

  -- `not suggestion.patch`
  abbrev pub no_patch : Option Text → Bool
  no_patch none = true
  no_patch (some patch) = is_empty patch

  abbrev judge : List (Text × Text) → Suggestion → Verification → Option Verification
  judge files s v =
      if no_patch s.patch
      then some (record v { suggestions = v.suggestions ++ s ∷ [] })
      else judged s (patch_rejection files s) v

  unfoldable pub verify_each :
      List (Text × Text) → List Suggestion → Verification → Option Verification
  unfolding patch_rejection tally
  verify_each files [] v = some v
  verify_each files (s ∷ ss) v = elim (judge files s v) [
    | none ↦ none
    | some v' ↦ verify_each files ss v'
  ]

  abbrev verified_with : Diagnosis → Option Verification → Option (Diagnosis × List Tally)
  verified_with diagnosis none = none
  verified_with diagnosis (some v) =
      some (record diagnosis { suggestions = v.suggestions; notes = v.notes }, v.outcomes)

  unfoldable pub verify_patch_suggestions :
      Diagnosis → List (Text × Text) → Option (Diagnosis × List Tally)
  unfolding verify_each
  verify_patch_suggestions diagnosis files = verified_with diagnosis (
      verify_each files diagnosis.suggestions
        (record { suggestions = []; notes = diagnosis.notes; outcomes = [] }))

unfoldable pub strip_patches : Diagnosis → Diagnosis
strip_patches diagnosis = record diagnosis {
  suggestions =
      map (λ (s : Suggestion). record s { patch = none; patch_verified = false })
        diagnosis.suggestions;
}

-- ===== src/Relevance.antt =====
-- src/pipelens/relevance.py: which changed files a failure is about. A score is a number of
-- millionths. A path is the list of its parts, as `PurePosixPath` makes it.
pub mod Ranking
mod Tests
use pipe_lens.Common.{
  ℕ, zero, suc, ◌+◌, min, Text, codes, text_eq, starts_with, contains, member, splitlines, join,
  falsy, is_empty, Bool, true, false, not, ◌&&◌, ◌||◌, Option, none, some, List, [], ◌∷◌, ◌++◌, map,
  filter, any, take, length, last?, ◌==◌, ltb, leb, if◌then◌else◌, or_else,
}
use pipe_lens.Models.{
  ErrorCategory, test, workflow, docker, dependency, security, ChangedFile, RelatedFile,
}
use pipe_lens.Regex.{
  Unicode, Regex, one, start, not_ahead, lower, find_all, group_text, match_groups,
}
use pipe_lens.Regex.Build.{◌⨾◌, one_of, alnum, from_to, at_least}
use pipe_lens.Sanitizer.{sanitize_log}

-- `[A-Za-z_][A-Za-z0-9_-]{2,}`
unfoldable pub token : Regex
token =
    one (λ c. from_to b'A' b'Z' c || from_to b'a' b'z' c || c == b'_')
    ⨾ at_least 2 (one (λ c. alnum c || c == b'_' || c == b'-'))

-- `^[+-](?![+-])`
unfoldable pub patch_line : Regex
patch_line = start ⨾ one (one_of "+-") ⨾ not_ahead (one (one_of "+-"))

unfoldable pub dependency_manifests : List Text
dependency_manifests =
    codes "package-lock.json"
    ∷ codes "pnpm-lock.yaml"
    ∷ codes "yarn.lock"
    ∷ codes "poetry.lock"
    ∷ codes "requirements.txt"
    ∷ codes "pyproject.toml"
    ∷ []

unfoldable pub stop_words : List Text
stop_words =
    codes "error"
    ∷ codes "failed"
    ∷ codes "failure"
    ∷ codes "fatal"
    ∷ codes "file"
    ∷ codes "line"
    ∷ codes "with"
    ∷ codes "from"
    ∷ codes "this"
    ∷ codes "that"
    ∷ []

-- The parts between the slashes; `part` is what was read of the one in progress.
parts_from : Text → Text → List Text
parts_from part [] = part ∷ []
parts_from part (c ∷ s) =
    let longer = parts_from (part ++ c ∷ []) s in
    let rest = parts_from [] s in if c == b'/' then part ∷ rest else longer

abbrev is_kept_part : Text → Bool
is_kept_part part = not (is_empty part) && not (text_eq part (codes "."))

-- `PurePosixPath(path).parts`: empty parts and `.` are dropped, and a root is a part.
unfoldable pub path_parts : Text → List Text
unfolding parts_from starts_with text_eq
path_parts path =
    let parts = filter is_kept_part (parts_from [] path) in
    if starts_with path (codes "//") && not (starts_with path (codes "///"))
    then codes "//" ∷ parts
    else if starts_with path (codes "/")
    then codes "/" ∷ parts
    else parts

abbrev is_root : Text → Bool
is_root part = text_eq part (codes "/") || text_eq part (codes "//")

-- `path.name`
unfoldable pub path_name : List Text → Text
unfolding text_eq
path_name parts = elim (last? parts) [ none ↦ [] | some part ↦ if is_root part then [] else part ]

-- `str(path)`
unfoldable pub path_text : List Text → Text
unfolding text_eq join
path_text [] = codes "."
path_text (part ∷ parts) =
    if is_root part then part ++ join (codes "/") parts else join (codes "/") (part ∷ parts)

module _ (u : Unicode) where
  unfoldable pub tokens : Text → List Text
  unfolding token find_all group_text lower stop_words member
  tokens text =
      filter (λ t. not (member t stop_words))
        (map (λ groups. lower u (group_text 0 groups)) (find_all u token text))

  abbrev is_test_part : Text → Bool
  is_test_part part = member part (codes "test" ∷ codes "tests" ∷ codes "spec" ∷ [])

  unfoldable pub category_affinity : List Text → ErrorCategory → ℕ × Text
  unfolding path_name path_text lower contains starts_with member dependency_manifests
  category_affinity parts category =
      let lowered = lower u (path_text parts) in
      let name = lower u (path_name parts) in
      let manifest = member name dependency_manifests in
      let dockerfile = starts_with name (codes "dockerfile") in
      elim category [
        | test ↦
            if contains name (codes "test") || any is_test_part parts
            then (200000, codes "테스트 실패 범주와 테스트 파일이 일치함")
            else (0, [])
        | workflow ↦
            if starts_with lowered (codes ".github/workflows/")
            then (300000, codes "Workflow 오류 범주와 Actions 설정 파일이 일치함")
            else (0, [])
        | docker ↦ if dockerfile then (250000, codes "Docker 실패 범주와 Dockerfile이 일치함") else (0, [])
        | dependency ↦ if manifest then (200000, codes "의존성 실패 범주와 패키지 설정 파일이 일치함") else (0, [])
        | security ↦
            if manifest || dockerfile
            then (200000, codes "보안 검사 범주와 의존성·이미지 정의 파일이 일치함")
            else (0, [])
        | _ ↦ (0, [])
      ]

  -- `PATCH_LINE.match(line) and _tokens(line) & log_tokens`
  unfoldable pub is_match : List Text → Text → Bool
  unfolding tokens patch_line match_groups member
  is_match log_tokens line = elim (match_groups u patch_line line) [
    | none ↦ false
    | some groups ↦ any (λ t. member t log_tokens) (tokens line)
  ]

  -- The loop over the lines stops at the third match.
  abbrev excerpt_lines : List Text → Text → List Text
  excerpt_lines log_tokens patch =
      map (take 300) (take 3 (filter (is_match log_tokens) (splitlines patch)))

  abbrev excerpt_of : List Text → Option Text
  excerpt_of [] = none
  excerpt_of (l ∷ ls) = some (sanitize_log u (join (10 ∷ []) (l ∷ ls))).0

  unfoldable pub matching_patch_excerpt : Option Text → List Text → Option Text
  unfolding is_match splitlines join sanitize_log
  matching_patch_excerpt patch log_tokens =
      if falsy patch || is_empty log_tokens
      then none
      else excerpt_of (excerpt_lines log_tokens (or_else patch []))

  -- The variables of the loop body: the score and the reasons.
  abbrev path_score : Text → ChangedFile → ℕ × List Text
  path_score lowered_log changed =
      if contains lowered_log (lower u changed.filename)
      then (750000, codes "로그에 변경 파일 경로가 직접 등장함" ∷ [])
      else if contains lowered_log (lower u (path_name (path_parts changed.filename)))
      then (500000, codes "로그에 변경 파일명이 등장함" ∷ [])
      else (0, [])

  abbrev with_affinity : ℕ × Text → ℕ × List Text → ℕ × List Text
  with_affinity (score, reason) (total, reasons) =
      if score == 0 then (total, reasons) else (total + score, reasons ++ reason ∷ [])

  abbrev with_excerpt : Option Text → ℕ × List Text → ℕ × List Text
  with_excerpt excerpt (total, reasons) =
      if falsy excerpt
      then (total, reasons)
      else (total + 150000, reasons ++ codes "오류 로그와 변경 코드가 공통 식별자를 포함함" ∷ [])

  abbrev related : ChangedFile → Option Text → ℕ × List Text → List RelatedFile
  related changed excerpt (score, []) = []
  related changed excerpt (score, r ∷ rs) =
      record {
        filename = changed.filename;
        score = min score 1000000;
        reasons = r ∷ rs;
        patch_excerpt = excerpt;
      }
      ∷ []

  -- What a changed file adds to `results`: itself, when there is a reason.
  unfoldable pub relate : Text → List Text → ErrorCategory → ChangedFile → List RelatedFile
  unfolding contains lower path_name path_parts category_affinity matching_patch_excerpt
  relate lowered_log log_tokens category changed =
      let excerpt = matching_patch_excerpt changed.patch log_tokens in
      related changed excerpt (
        with_excerpt excerpt (
          with_affinity (category_affinity (path_parts changed.filename) category)
            (path_score lowered_log changed)))

  unfoldable pub relate_all : Text → List Text → ErrorCategory → List ChangedFile → List RelatedFile
  unfolding relate
  relate_all lowered_log log_tokens category [] = []
  relate_all lowered_log log_tokens category (c ∷ cs) =
      relate lowered_log log_tokens category c ++ relate_all lowered_log log_tokens category cs

-- `a < b` for texts, by code points.
unfoldable pub text_less : Text → Text → Bool
text_less [] [] = false
text_less [] (c ∷ s) = true
text_less (d ∷ t) [] = false
text_less (d ∷ t) (c ∷ s) = ltb d c || (d == c && text_less t s)

-- The order of the keys `(-item.score, item.filename)`.
unfoldable pub comes_before : RelatedFile → RelatedFile → Bool
unfolding text_less
comes_before a b = ltb b.score a.score || (b.score == a.score && text_less a.filename b.filename)

-- `sorted` is stable: an item stays behind those with its key.
unfoldable pub insert : RelatedFile → List RelatedFile → List RelatedFile
unfolding comes_before
insert x [] = x ∷ []
insert x (y ∷ ys) = let rest = insert x ys in if comes_before y x then y ∷ rest else x ∷ y ∷ ys

unfoldable pub sorted : List RelatedFile → List RelatedFile
unfolding insert
sorted [] = []
sorted (x ∷ xs) = insert x (sorted xs)

unfoldable pub correlate_changed_files :
    Unicode → Text → List ChangedFile → ErrorCategory → ℕ → List RelatedFile
unfolding lower tokens relate_all sorted
correlate_changed_files u log changed category limit =
    take limit (sorted (relate_all u (lower u log) (tokens u log) category changed))

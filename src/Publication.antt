-- ===== src/Publication.antt =====
-- src/pipelens/publication.py: the comment on GitHub. `percent` writes a float by `:.0%`; it is a
-- parameter, as the model's numbers are not floats.
pub mod Bounds
pub mod Mentions
mod Tests
use pipe_lens.Common.{
  ℕ, ◌+◌, ◌-◌, Text, codes, concat, decimal, replace_char, falsy, is_empty, join, Bool, true, false,
  not, ◌&&◌, Option, none, some, List, [], ◌∷◌, ◌++◌, map, length, take, ltb, leb, if◌then◌else◌,
  or_else,
}
use pipe_lens.Models.{
  TrustLevel, untrusted_fork, category_value, Classification, Evidence, Suggestion,
  SuggestionSource, rule, Diagnosis, RelatedFile,
}

unfoldable pub max_github_body_chars : ℕ
max_github_body_chars = 60000

-- `html.escape(value, quote=False)`
abbrev escape : Text → Text
escape value =
    replace_char b'>' (codes "&gt;")
      (replace_char b'<' (codes "&lt;") (replace_char b'&' (codes "&amp;") value))

-- A `@` is followed by a zero-width space, so that it mentions nobody.
unfoldable pub safe : Text → Text
unfolding replace_char
safe value = replace_char b'@' (b'@' ∷ 8203 ∷ []) (escape value)

unfoldable pub safe_url : Text → Text
unfolding replace_char
safe_url value =
    replace_char b' ' (codes "%20")
      (replace_char b')' (codes "%29") (replace_char b'(' (codes "%28") value))

unfoldable pub code_block : Text → Text
unfolding safe
code_block value = codes "<pre><code>" ++ (safe value ++ codes "</code></pre>")

abbrev is_fork : TrustLevel → Bool
is_fork untrusted_fork = true
is_fork _ = false

abbrev from_rule : Option SuggestionSource → Bool
from_rule (some rule) = true
from_rule _ = false

-- A text that is there and not empty.
abbrev text_or : Text → Option Text → Text
text_or default none = default
text_or default (some []) = default
text_or default (some (c ∷ s)) = c ∷ s

unfoldable pub fork_warning : TrustLevel → List Text
fork_warning trust =
    if is_fork trust
    then codes "> [!WARNING]"
      ∷ codes "> 외부 Fork에서 시작된 실행입니다. 규칙 기반 진단만 수행했으며,"
      ∷ codes "> Fork의 로그·코드·Workflow 내용은 LLM에 전송하지 않았습니다."
      ∷ []
      ∷ []
    else []

unfoldable pub comparison : Option Text → Option Text → List Text
unfolding safe
comparison baseline head =
    if falsy baseline
    then []
    else if falsy head
    then []
    else concat (
        codes "**변경 비교:** `"
        ∷ safe (take 12 (or_else baseline []))
        ∷ codes ".."
        ∷ safe (take 12 (or_else head []))
        ∷ codes "`"
        ∷ [])
      ∷ []
      ∷ []

unfoldable pub evidence_sections : List Evidence → List Text
unfolding safe code_block
evidence_sections [] = []
evidence_sections (e ∷ es) =
    concat (
      codes "**"
      ∷ safe e.source
      ∷ (if falsy e.location then [] else codes " · " ++ safe (or_else e.location []))
      ∷ codes "**"
      ∷ [])
    ∷ code_block e.content
    ∷ []
    ∷ evidence_sections es

abbrev pub suffix : Text → Text
suffix url =
    10 ∷ 10 ∷ codes "---"
    ++ (10 ∷ codes "내용이 길어 일부를 생략했습니다. [전체 분석 보기](")
    ++ (safe_url url ++ codes ")")

-- `body[: MAX_GITHUB_BODY_CHARS - len(suffix)]`, where a negative bound counts from the end.
abbrev pub head_of : Text → Text → Text
head_of tail body =
    if leb (length tail) max_github_body_chars
    then take (max_github_body_chars - length tail) body
    else take (length body - (length tail - max_github_body_chars)) body

-- The end of `render_github_diagnosis`.
unfoldable pub limited : Text → Text → Text
unfolding safe_url max_github_body_chars
limited url body =
    if leb (length body) max_github_body_chars
    then body
    else head_of (suffix url) body ++ suffix url

-- A list of remarks under a title, when there are any.
unfoldable pub remarks : Text → List Text → List Text
unfolding safe
remarks title [] = []
remarks title (item ∷ items) = [] ∷ title ∷ [] ∷ map (λ t. codes "- " ++ safe t) (item ∷ items)

module _ (percent : ℕ → Text) where
  unfoldable pub summary_sections : Classification → Diagnosis → List Text
  unfolding safe category_value
  summary_sections c d =
      safe d.summary
      ∷ []
      ∷ (codes "**오류 유형:** `" ++ (category_value c.category ++ codes "`  "))
      ∷ (codes "**신뢰도:** " ++ (percent d.confidence ++ codes "  "))
      ∷ (codes "**관련 Step:** " ++ safe (text_or (codes "확인 불가") c.related_step))
      ∷ []
      ∷ []

  unfoldable pub file_lines : List RelatedFile → List Text
  unfolding safe join
  file_lines [] = []
  file_lines (f ∷ fs) =
      concat (
        codes "- `"
        ∷ safe f.filename
        ∷ codes "` ("
        ∷ percent f.score
        ∷ codes ") — "
        ∷ join (codes " · ") (map safe f.reasons)
        ∷ [])
      ∷ file_lines fs

  abbrev related_sections : List RelatedFile → List Text
  related_sections [] = codes "로그와 직접 연결되는 변경 파일을 찾지 못했습니다." ∷ []
  related_sections (f ∷ fs) = file_lines (f ∷ fs)

  -- The verified diff of a suggestion.
  unfoldable pub patch_sections : Option Text → Suggestion → List Text
  unfolding safe code_block
  patch_sections head s =
      if not (falsy s.patch) && s.patch_verified
      then []
        ∷ concat (
            codes "   검증된 수정 diff ("
            ∷ codes (if from_rule s.source then "규칙" else "LLM")
            ∷ codes ") — head"
            ∷ (if falsy head
                then []
                else codes " `" ++ (safe (take 12 (or_else head [])) ++ codes "`"))
            ∷ codes "에 그대로 적용됨을 확인"
            ∷ [])
        ∷ code_block (or_else s.patch [])
        ∷ []
        ∷ []
      else []

  unfoldable pub suggestion_sections : Option Text → ℕ → List Suggestion → List Text
  unfolding safe patch_sections decimal
  suggestion_sections head index [] = []
  suggestion_sections head index (s ∷ ss) =
      concat (
        decimal index
        ∷ codes ". "
        ∷ safe s.description
        ∷ (if falsy s.file then [] else codes " (`" ++ (safe (or_else s.file []) ++ codes "`)"))
        ∷ [])
      ∷ (patch_sections head s ++ suggestion_sections head (index + 1) ss)

  abbrev advice_sections : Option Text → List Suggestion → List Text
  advice_sections head [] = codes "검증 가능한 수정 제안을 생성하지 못했습니다." ∷ []
  advice_sections head (s ∷ ss) = suggestion_sections head 1 (s ∷ ss)

  unfoldable pub sections :
      ℕ
      → Classification
      → Diagnosis
      → List RelatedFile
      → Text
      → TrustLevel
      → Option Text
      → Option Text
      → List Text
  unfolding fork_warning summary_sections comparison evidence_sections file_lines
      suggestion_sections remarks safe safe_url decimal
  sections run_id c d files url trust baseline head =
      (codes "## PipeLens 실패 진단" ∷ [] ∷ [])
      ++ (fork_warning trust
          ++ (summary_sections c d
              ++ (comparison baseline head
                  ++ ((codes "### 추정 원인"
                        ∷ []
                        ∷ safe d.root_cause
                        ∷ []
                        ∷ codes "### 검증된 근거"
                        ∷ []
                        ∷ [])
                      ++ (evidence_sections d.evidence
                          ++ ((codes "### 관련 변경 파일" ∷ [] ∷ [])
                              ++ (related_sections files
                                  ++ (([] ∷ codes "### 권장 해결 방법" ∷ [] ∷ [])
                                      ++ (advice_sections head d.suggestions
                                          ++ (remarks (codes "### 분석 충돌") d.conflicts
                                              ++ (remarks (codes "### 참고") d.notes
                                                  ++ ([]
                                                      ∷ codes "---"
                                                      ∷ concat (
                                                          codes "[PipeLens에서 전체 분석 보기]("
                                                          ∷ safe_url url
                                                          ∷ codes ") · Workflow run `"
                                                          ∷ decimal run_id
                                                          ∷ codes "`"
                                                          ∷ [])
                                                      ∷ []))))))))))))

  unfoldable pub render_github_diagnosis :
      ℕ
      → Classification
      → Diagnosis
      → List RelatedFile
      → Text
      → TrustLevel
      → Option Text
      → Option Text
      → Text
  unfolding sections limited join
  render_github_diagnosis run_id c d files url trust baseline head =
      limited url (join (10 ∷ []) (sections run_id c d files url trust baseline head))

-- ===== src/Publication/Mentions/Sections.antt =====
-- The sections of the comment are quiet, and so is all of it.
use pipe_lens.Common.{
  ℕ, ◌+◌, ◌≡◌, refl, Text, codes, falsy, Bool, true, false, not, ◌&&◌, Option, List, [], ◌∷◌, ◌++◌,
  map, length, take, leb, if◌then◌else◌, or_else, Bool-cases, All, All-append, All-map, inl, inr,
}
use pipe_lens.Models.{
  ErrorCategory, test, build, dependency, lint, docker, deploy_auth, missing_env, timeout, resource,
  workflow, security, unknown, category_value, TrustLevel, Classification, Evidence, Suggestion,
  Diagnosis, RelatedFile,
}
use pipe_lens.Publication.{
  safe, safe_url, fork_warning, comparison, evidence_sections, summary_sections, file_lines,
  related_sections, patch_sections, suggestion_sections, advice_sections, remarks, sections, suffix,
  limited, render_github_diagnosis, max_github_body_chars, is_fork, from_rule, text_or,
}
use pipe_lens.Publication.Mentions.{
  quiet, mentions_nobody, Quiet, NoAt, Quiet-append, Quiet-around, Quiet-concat, Quiet-join,
  Quiet-safe, Quiet-safe_url, Quiet-decimal, Quiet-code_block, Quiet-mentions_nobody,
  cut-mentions_nobody,
}

-- One of two quiet texts or lists of texts.
unless-Quiet : (b : Bool) (y : Text) → Quiet y → Quiet (if b then [] else y)
unfolding quiet
unless-Quiet true y h = refl
unless-Quiet false y h = h

abbrev AllQuiet : List Text → Type 0
AllQuiet = All Quiet

if-AllQuiet : (b : Bool) (x y : List Text) → AllQuiet x → AllQuiet y → AllQuiet (if b then x else y)
if-AllQuiet true x y hx hy = hx
if-AllQuiet false x y hx hy = hy

fork_warning-AllQuiet : (trust : TrustLevel) → AllQuiet (fork_warning trust)
unfolding fork_warning quiet
fork_warning-AllQuiet trust = if-AllQuiet (is_fork trust) _ _ (refl, (refl, (refl, (refl, tt)))) tt

category-Quiet : (c : ErrorCategory) → Quiet (category_value c)
unfolding category_value quiet
category-Quiet test = refl
category-Quiet build = refl
category-Quiet dependency = refl
category-Quiet lint = refl
category-Quiet docker = refl
category-Quiet deploy_auth = refl
category-Quiet missing_env = refl
category-Quiet timeout = refl
category-Quiet resource = refl
category-Quiet workflow = refl
category-Quiet security = refl
category-Quiet unknown = refl

comparison-AllQuiet : (baseline head : Option Text) → AllQuiet (comparison baseline head)
unfolding comparison quiet
comparison-AllQuiet baseline head = if-AllQuiet (falsy baseline) _ _ tt (
    if-AllQuiet (falsy head) _ _ tt (
      Quiet-concat _ (
        refl,
        (
          Quiet-safe (take 12 (or_else baseline [])),
          (refl, (Quiet-safe (take 12 (or_else head [])), (refl, tt))),
        ),
      ),
      (refl, tt),
    ))

evidence-AllQuiet : (es : List Evidence) → AllQuiet (evidence_sections es)
unfolding evidence_sections quiet
evidence-AllQuiet [] = tt
evidence-AllQuiet (e ∷ es) = (
  Quiet-concat _ (
    refl,
    (
      Quiet-safe e.source,
      (
        unless-Quiet (falsy e.location) (codes " · " ++ safe (or_else e.location [])) (
            Quiet-append (codes " · ") (safe (or_else e.location [])) refl
              (Quiet-safe (or_else e.location []))),
        (refl, tt),
      ),
    ),
  ),
  (Quiet-code_block e.content, (refl, evidence-AllQuiet es)),
)

All-safe : (ts : List Text) → AllQuiet (map safe ts)
All-safe [] = tt
All-safe (t ∷ ts) = (Quiet-safe t, All-safe ts)

bullets : (items : List Text) → All (λ t. Quiet (codes "- " ++ safe t)) items
unfolding quiet
bullets [] = tt
bullets (t ∷ ts) = (Quiet-append (codes "- ") (safe t) refl (Quiet-safe t), bullets ts)

remarks-AllQuiet : (title : Text) (items : List Text) → Quiet title → AllQuiet (remarks title items)
unfolding remarks quiet
remarks-AllQuiet title [] h = tt
remarks-AllQuiet title (item ∷ items) h = (
  refl,
  (h, (refl, All-map Quiet (λ t. codes "- " ++ safe t) (item ∷ items) (bullets (item ∷ items)))),
)

module _ (percent : ℕ → Text) (percent_plain : (n : ℕ) → Quiet (percent n)) where
  summary-AllQuiet : (c : Classification) (d : Diagnosis) → AllQuiet (summary_sections percent c d)
  unfolding summary_sections quiet
  summary-AllQuiet c d = (
    Quiet-safe d.summary,
    (
      refl,
      (
        Quiet-around (codes "**오류 유형:** `") (category_value c.category) (codes "`  ") refl
            (category-Quiet c.category) refl,
        (
          Quiet-around (codes "**신뢰도:** ") (percent d.confidence) (codes "  ") refl
              (percent_plain d.confidence) refl,
          (
            Quiet-append (codes "**관련 Step:** ") (safe (text_or (codes "확인 불가") c.related_step))
                refl (Quiet-safe (text_or (codes "확인 불가") c.related_step)),
            (refl, tt),
          ),
        ),
      ),
    ),
  )

  files-AllQuiet : (fs : List RelatedFile) → AllQuiet (file_lines percent fs)
  unfolding file_lines quiet
  files-AllQuiet [] = tt
  files-AllQuiet (f ∷ fs) = (
    Quiet-concat _ (
      refl,
      (
        Quiet-safe f.filename,
        (
          refl,
          (
            percent_plain f.score,
            (refl, (Quiet-join (codes " · ") (map safe f.reasons) refl (All-safe f.reasons), tt)),
          ),
        ),
      ),
    ),
    files-AllQuiet fs,
  )

  related-AllQuiet : (fs : List RelatedFile) → AllQuiet (related_sections percent fs)
  unfolding quiet
  related-AllQuiet [] = (refl, tt)
  related-AllQuiet (f ∷ fs) = files-AllQuiet (f ∷ fs)

  rule_or_llm : (b : Bool) → Quiet (codes (if b then "규칙" else "LLM"))
  unfolding quiet
  rule_or_llm true = refl
  rule_or_llm false = refl

  patch-AllQuiet : (head : Option Text) (s : Suggestion) → AllQuiet (patch_sections percent head s)
  unfolding patch_sections quiet
  patch-AllQuiet head s =
      if-AllQuiet (not (falsy s.patch) && s.patch_verified) _ _
        (
          refl,
          (
            Quiet-concat _ (
              refl,
              (
                rule_or_llm (from_rule s.source),
                (
                  refl,
                  (
                    unless-Quiet (falsy head)
                        (codes " `" ++ (safe (take 12 (or_else head [])) ++ codes "`"))
                        (Quiet-around (codes " `") (safe (take 12 (or_else head []))) (codes "`")
                          refl (Quiet-safe (take 12 (or_else head []))) refl),
                    (refl, tt),
                  ),
                ),
              ),
            ),
            (Quiet-code_block (or_else s.patch []), (refl, tt)),
          ),
        )
        tt

  suggestions-AllQuiet :
      (head : Option Text) (n : ℕ) (ss : List Suggestion)
      → AllQuiet (suggestion_sections percent head n ss)
  unfolding suggestion_sections quiet
  suggestions-AllQuiet head n [] = tt
  suggestions-AllQuiet head n (s ∷ ss) = (
    Quiet-concat _ (
      Quiet-decimal n,
      (
        refl,
        (
          Quiet-safe s.description,
          (
            unless-Quiet (falsy s.file) (codes " (`" ++ (safe (or_else s.file []) ++ codes "`)")) (
                Quiet-around (codes " (`") (safe (or_else s.file [])) (codes "`)") refl
                  (Quiet-safe (or_else s.file [])) refl),
            tt,
          ),
        ),
      ),
    ),
    All-append Quiet (patch_sections percent head s) _ (patch-AllQuiet head s)
        (suggestions-AllQuiet head (n + 1) ss),
  )

  advice-AllQuiet :
      (head : Option Text) (ss : List Suggestion) → AllQuiet (advice_sections percent head ss)
  unfolding quiet
  advice-AllQuiet head [] = (refl, tt)
  advice-AllQuiet head (s ∷ ss) = suggestions-AllQuiet head 1 (s ∷ ss)

  -- The sections of a comment, each with its own lemma.
  sections-AllQuiet :
      (run_id : ℕ) (c : Classification) (d : Diagnosis) (files : List RelatedFile) (url : Text)
      (trust : TrustLevel) (baseline head : Option Text)
      → NoAt url
      → AllQuiet (sections percent run_id c d files url trust baseline head)
  unfolding sections quiet
  sections-AllQuiet run_id c d files url trust baseline head plain =
      All-append Quiet (codes "## PipeLens 실패 진단" ∷ [] ∷ []) _ (refl, (refl, tt))
        (All-append Quiet (fork_warning trust) _ (fork_warning-AllQuiet trust) (
          All-append Quiet (summary_sections percent c d) _ (summary-AllQuiet c d) (
            All-append Quiet (comparison baseline head) _ (comparison-AllQuiet baseline head) (
              All-append Quiet
                (codes "### 추정 원인" ∷ [] ∷ safe d.root_cause ∷ [] ∷ codes "### 검증된 근거" ∷ [] ∷ []) _
                (refl, (refl, (Quiet-safe d.root_cause, (refl, (refl, (refl, tt))))))
                (All-append Quiet (evidence_sections d.evidence) _ (evidence-AllQuiet d.evidence) (
                  All-append Quiet (codes "### 관련 변경 파일" ∷ [] ∷ []) _ (refl, (refl, tt))
                    (All-append Quiet (related_sections percent files) _ (related-AllQuiet files) (
                      All-append Quiet ([] ∷ codes "### 권장 해결 방법" ∷ [] ∷ []) _
                        (refl, (refl, (refl, tt)))
                        (All-append Quiet (advice_sections percent head d.suggestions) _
                          (advice-AllQuiet head d.suggestions)
                          (All-append Quiet (remarks (codes "### 분석 충돌") d.conflicts) _
                            (remarks-AllQuiet (codes "### 분석 충돌") d.conflicts refl)
                            (All-append Quiet (remarks (codes "### 참고") d.notes) _
                              (remarks-AllQuiet (codes "### 참고") d.notes refl)
                              (
                                refl,
                                (
                                  refl,
                                  (
                                    Quiet-concat _ (
                                      refl,
                                      (
                                        Quiet-safe_url url plain,
                                        (refl, (Quiet-decimal run_id, (refl, tt))),
                                      ),
                                    ),
                                    tt,
                                  ),
                                ),
                              ))))))))))))

  suffix-Quiet : (url : Text) → NoAt url → Quiet (suffix url)
  unfolding quiet
  suffix-Quiet url plain =
      Quiet-around (10 ∷ 10 ∷ codes "---" ++ (10 ∷ codes "내용이 길어 일부를 생략했습니다. [전체 분석 보기]("))
        (safe_url url) (codes ")") refl (Quiet-safe_url url plain) refl

  limited-mentions_nobody :
      (url body : Text) → NoAt url → Quiet body → mentions_nobody (limited url body) ≡ true
  unfolding limited
  limited-mentions_nobody url body plain h =
      elim (Bool-cases (leb (length body) max_github_body_chars)) [
        | inl short ↦ rw short (Quiet-mentions_nobody body h)
        | inr long ↦
            let tail = Quiet-mentions_nobody (suffix url) (suffix-Quiet url plain) in
            rw long (elim (Bool-cases (leb (length (suffix url)) max_github_body_chars)) [
              | inl fits ↦ rw fits (cut-mentions_nobody _ body _ h tail)
              | inr big ↦ rw big (cut-mentions_nobody _ body _ h tail)
            ])
      ]

  -- Whatever the log, the diff and the model's answer hold, in the comment that is made of them every
  -- `@` is followed by a zero-width space, or stands at the end of a line: it mentions no user. The
  -- address of the analysis has no `@`, and neither has a percentage.
  pub render_github_diagnosis-mentions_nobody :
      (run_id : ℕ) (c : Classification) (d : Diagnosis) (files : List RelatedFile) (url : Text)
      (trust : TrustLevel) (baseline head : Option Text)
      → NoAt url
      → mentions_nobody (render_github_diagnosis percent run_id c d files url trust baseline head)
        ≡ true
  unfolding render_github_diagnosis
  render_github_diagnosis-mentions_nobody run_id c d files url trust baseline head plain =
      let all_quiet = sections-AllQuiet run_id c d files url trust baseline head plain in
      limited-mentions_nobody url _ plain (
        Quiet-join (10 ∷ []) (sections percent run_id c d files url trust baseline head)
          (unfold quiet in refl) all_quiet)

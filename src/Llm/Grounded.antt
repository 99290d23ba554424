-- ===== src/Llm/Grounded.antt =====
-- What `validate_llm_analysis` accepts of a model's answer.
use pipe_lens.Common.{
  ◌≤◌, ◌≡◌, ◌≢◌, refl, ap, ◌∙◌, Text, text_eq, text_eq→≡, member, Option, none, Option-cases,
  contains, is_empty, true, false, not, some, List, [], ◌∷◌, map, filter, All, All-filter, All-map,
  All-weaker, Bool-cases, List-cases, ◌⊎◌, subst, inl, inr, arith, &&-true,
}
use pipe_lens.Common.Infix.{Infix, contains-Infix}
use pipe_lens.Common.Try.{Try, value, raise}
use pipe_lens.Models.{RelatedFile, Evidence, Suggestion, llm, Diagnosis}
use pipe_lens.Llm.{
  LlmError, ungrounded, LlmEvidence, LlmSuggestion, LlmAnalysis, LlmContext, EvidenceSource,
  source_value, evidence_source_text, is_quoted, kept_evidence, kept_suggestion, allowed_files,
  file_allowed, same_category, diagnosis_of, validate_llm_analysis,
}

-- Evidence that is kept quotes the text of its source.
abbrev pub Quoted : LlmContext → Evidence → Type 0
Quoted c e =
    (s : EvidenceSource) × (e.source ≡ source_value s)
    × (e.content ≢ [])
    × Infix (evidence_source_text s c) e.content

-- A suggestion names no file, or the workflow or a related file of the context, and its patch is not
-- verified yet.
abbrev pub IsNamed : Text → List RelatedFile → Type 0
IsNamed name [] = ⊥
IsNamed name (f ∷ fs) = (f.filename ≡ name) ⊎ IsNamed name fs

abbrev pub InContext : LlmContext → Option Text → Type 0
InContext c none = Unit
InContext c (some file) = (c.workflow_path ≡ some file) ⊎ IsNamed file c.related_files

abbrev pub Allowed : LlmContext → Suggestion → Type 0
Allowed c s = InContext c s.file × (s.source ≡ some llm) × (s.patch_verified ≡ false)

-- When the categories differ, the diagnosis says so and is no surer than the rules.
abbrev pub Reconciled : LlmAnalysis → LlmContext → Diagnosis → Type 0
Reconciled result c d =
    (same_category result.category c.classification.category ≡ true)
    ⊎ ((d.conflicts ≢ []) × (d.confidence ≤ c.classification.confidence))

-- What a diagnosis that is returned satisfies, and what an exception means.
abbrev pub IsSound : LlmAnalysis → LlmContext → Try LlmError Diagnosis → Type 0
IsSound result c (value d) =
    (d.evidence ≢ [])
    × All (Quoted c) d.evidence
    × All (Allowed c) d.suggestions
    × (d.confidence ≤ result.confidence)
    × Reconciled result c d
IsSound result c (raise e) = (e ≡ ungrounded) × (filter (is_quoted c) result.evidence ≡ [])

kept_evidence-Quoted :
    (c : LlmContext) (e : LlmEvidence) → is_quoted c e ≡ true → Quoted c (kept_evidence e)
unfolding is_quoted
kept_evidence-Quoted c e h =
    let (nonempty, found) =
      &&-true (not (is_empty e.content)) (contains (evidence_source_text e.source c) e.content) h in
    (
      e.source,
      refl,
      λ nil. ground (arith, nil, nonempty),
      contains-Infix (evidence_source_text e.source c) e.content found,
    )

member-IsNamed :
    (name : Text) (fs : List RelatedFile)
    → member name (map (λ (f : RelatedFile). f.filename) fs) ≡ true
    → IsNamed name fs
unfolding member
member-IsNamed name [] h = ground arith
member-IsNamed name (f ∷ fs) h = elim (Bool-cases (text_eq f.filename name)) [
  | inl same ↦ inl (text_eq→≡ f.filename name same)
  | inr other ↦ inr (member-IsNamed name fs (rw other at h))
]

file_allowed-InContext :
    (c : LlmContext) (file : Option Text)
    → file_allowed (allowed_files c) file ≡ true
    → InContext c file
unfolding allowed_files member
file_allowed-InContext c none h = tt
file_allowed-InContext c (some file) h = elim (Option-cases c.workflow_path) [
  | inl gone ↦ inr (member-IsNamed file c.related_files (rw gone at h))
  | inr (path, found) ↦ elim (Bool-cases (is_empty path)) [
    | inl blank ↦ inr (member-IsNamed file c.related_files (rw (found, blank) at h))
    | inr given ↦ elim (Bool-cases (text_eq path file)) [
      | inl same ↦ inl (found ∙ ap some (text_eq→≡ path file same))
      | inr other ↦ inr (member-IsNamed file c.related_files (rw (found, given, other) at h))
    ]
  ]
]

module _ (result : LlmAnalysis) (c : LlmContext) where
  diagnosis_of-Allowed :
      (es : List Evidence) → All (Allowed c) (diagnosis_of result c es).suggestions
  unfolding diagnosis_of
  diagnosis_of-Allowed es =
      All-map (Allowed c) kept_suggestion
        (filter (λ (s : LlmSuggestion). file_allowed (allowed_files c) s.file) result.suggestions)
        (All-weaker _ (λ s. Allowed c (kept_suggestion s))
          (λ s h. (file_allowed-InContext c s.file h, refl, refl))
          (filter (λ (s : LlmSuggestion). file_allowed (allowed_files c) s.file) result.suggestions)
          (All-filter (λ (s : LlmSuggestion). file_allowed (allowed_files c) s.file)
            result.suggestions))

  diagnosis_of-Reconciled :
      (es : List Evidence)
      → ((diagnosis_of result c es).confidence ≤ result.confidence)
        × Reconciled result c (diagnosis_of result c es)
  unfolding diagnosis_of
  diagnosis_of-Reconciled es =
      elim (Bool-cases (same_category result.category c.classification.category)) [
        | inl same ↦ (rw same (omega arith), inl same)
        | inr differ ↦
            (rw differ (omega arith), rw differ (inr ((λ e. ground (arith, e)), omega arith)))
      ]

  -- A diagnosis that is made of the model's answer has evidence, each piece of which is a non-empty
  -- quotation of the text that it names as its source; its suggestions name no file, or the workflow
  -- or a related file of the context before it was shortened for the model, and their patches are not
  -- verified; it is no surer than the model, and where
  -- the model contradicts the rules, it records the conflict and is no surer than the rules either.
  -- It is refused only when no evidence of the answer is such a quotation.
  pub validate_llm_analysis-IsSound : IsSound result c (validate_llm_analysis result c)
  unfolding validate_llm_analysis
  validate_llm_analysis-IsSound = elim (List-cases (filter (is_quoted c) result.evidence)) [
    | inl e ↦ rw e (refl, e)
    | inr (x, xs, e) ↦
        let quoted =
          All-weaker _ (λ l. Quoted c (kept_evidence l)) (kept_evidence-Quoted c)
            (filter (is_quoted c) result.evidence) (All-filter (is_quoted c) result.evidence) in
        let evidence = map kept_evidence (x ∷ xs) in
        let all_quoted : All (Quoted c) evidence =
          All-map (Quoted c) kept_evidence (x ∷ xs)
            (subst (All (λ l. Quoted c (kept_evidence l))) e quoted) in
        let (le, reconciled) = diagnosis_of-Reconciled evidence in
        rw e (
          (λ nil. ground (arith, nil)),
          (unfold diagnosis_of in all_quoted),
          diagnosis_of-Allowed evidence,
          le,
          reconciled,
        )
  ]

-- ===== src/Llm.antt =====
-- src/pipelens/llm.py: the context that is sent to the model, the reading of its answer, and the
-- check of the answer against the context. JSON is written and read by parameters: `encode` is
-- `json.dumps` of the context's dump. A raised `LLMError` is a value.
pub mod Grounded
pub mod Bounded
mod Tests
use pipe_lens.Common.{
  ℕ, zero, suc, ◌+◌, ◌/◌, min, max, Text, codes, text_eq, contains, member, join, is_empty, falsy,
  Bool, true, false, not, ◌&&◌, ◌||◌, Option, none, some, List, [], ◌∷◌, ◌++◌, map, filter, length,
  take, ltb, leb, if◌then◌else◌, or_else,
}
use pipe_lens.Common.Try.{Try, value, raise}
use pipe_lens.Models.{
  ErrorCategory, category_value, Classification, Evidence, Suggestion, llm, Diagnosis, RelatedFile,
  ExecutionContext,
}

pub data LlmError : Type 0 where
  ungrounded limit_too_small refused no_output incomplete schema_mismatch : LlmError
  http_status : ℕ → LlmError

pub data EvidenceSource : Type 0 where
  log workflow diff : EvidenceSource

unfoldable pub source_value : EvidenceSource → Text
source_value log = codes "log"
source_value workflow = codes "workflow"
source_value diff = codes "diff"

pub record LlmEvidence : Type 0 where
  pub source : EvidenceSource
  pub content : Text
  pub location : Option Text

pub record LlmSuggestion : Type 0 where
  pub description : Text
  pub file : Option Text
  pub patch : Option Text

pub record LlmAnalysis : Type 0 where
  pub category : ErrorCategory
  pub summary : Text
  pub root_cause : Text
  pub confidence : ℕ
  pub evidence : List LlmEvidence
  pub suggestions : List LlmSuggestion

pub record LlmContext : Type 0 where
  pub classification : Classification
  pub log : Text
  pub related_files : List RelatedFile
  pub execution_context : Option ExecutionContext
  pub workflow_path : Option Text
  pub workflow_content : Option Text

pub record LlmProviderResult : Type 0 where
  pub analysis : LlmAnalysis
  pub input_tokens : ℕ
  pub output_tokens : ℕ

unfoldable pub prompt_version : Text
prompt_version = codes "diagnosis-v2"

unfoldable pub evidence_source_text : EvidenceSource → LlmContext → Text
unfolding join
evidence_source_text log c = c.log
evidence_source_text workflow c = or_else c.workflow_content []
evidence_source_text diff c =
    join (10 ∷ []) (map (λ (f : RelatedFile). or_else f.patch_excerpt []) c.related_files)

-- `item.content and item.content in source_text`
unfoldable pub is_quoted : LlmContext → LlmEvidence → Bool
unfolding evidence_source_text contains
is_quoted c e = not (is_empty e.content) && contains (evidence_source_text e.source c) e.content

abbrev kept_evidence : LlmEvidence → Evidence
kept_evidence e = record {
  source = source_value e.source;
  content = e.content;
  location = e.location;
}

-- `allowed_files`
unfoldable pub allowed_files : LlmContext → List Text
allowed_files c =
    (if falsy c.workflow_path then [] else or_else c.workflow_path [] ∷ [])
    ++ map (λ (f : RelatedFile). f.filename) c.related_files

abbrev file_allowed : List Text → Option Text → Bool
file_allowed files none = true
file_allowed files (some file) = member file files

abbrev kept_suggestion : LlmSuggestion → Suggestion
kept_suggestion s = record {
  description = s.description;
  file = s.file;
  patch = s.patch;
  source = some llm;
  patch_verified = false;
}

unfoldable pub same_category : ErrorCategory → ErrorCategory → Bool
unfolding category_value text_eq
same_category a b = text_eq (category_value a) (category_value b)

abbrev conflict : ErrorCategory → ErrorCategory → Text
conflict rule_ llm_ =
    codes "규칙 기반 분류 ("
    ++ (category_value rule_ ++ (codes ")와 LLM 분류 (" ++ (category_value llm_ ++ codes ")가 다릅니다.")))

-- What is returned once the evidence is checked.
unfoldable pub diagnosis_of : LlmAnalysis → LlmContext → List Evidence → Diagnosis
unfolding same_category allowed_files member
diagnosis_of result c evidence =
    let same = same_category result.category c.classification.category in
    record {
      summary = result.summary;
      root_cause = result.root_cause;
      confidence =
          if same then result.confidence else min result.confidence c.classification.confidence;
      evidence = evidence;
      suggestions = map kept_suggestion (
          filter (λ (s : LlmSuggestion). file_allowed (allowed_files c) s.file) result.suggestions);
      conflicts = if same then [] else conflict c.classification.category result.category ∷ [];
      notes = [];
    }

abbrev unless_empty : LlmAnalysis → LlmContext → List Evidence → Try LlmError Diagnosis
unless_empty result c [] = raise ungrounded
unless_empty result c (e ∷ es) = value (diagnosis_of result c (e ∷ es))

unfoldable pub validate_llm_analysis : LlmAnalysis → LlmContext → Try LlmError Diagnosis
unfolding is_quoted source_value diagnosis_of
validate_llm_analysis result c =
    unless_empty result c (map kept_evidence (filter (is_quoted c) result.evidence))

-- `items.pop()`
unfoldable pub pop_last {ℓ} : {A : Type ℓ} → List A → List A
pop_last [] = []
pop_last (x ∷ []) = []
pop_last (x ∷ y ∷ xs) = x ∷ pop_last (y ∷ xs)

-- A text that is cut when it is there and not empty.
abbrev cut : ℕ → Option Text → Option Text
cut n none = none
cut n (some s) = some (take n s)

-- `workflow[:n] or None`
abbrev pub none_if_empty : Text → Option Text
none_if_empty [] = none
none_if_empty (c ∷ s) = some (c ∷ s)

unfoldable pub trimmed : ℕ → LlmContext → LlmContext
trimmed limit c = record c {
  log = take (max 500 (limit / 2)) c.log;
  workflow_content = cut (max 250 (limit / 5)) c.workflow_content;
  related_files =
      map (λ (f : RelatedFile). record f { patch_excerpt = cut 500 f.patch_excerpt })
        c.related_files;
}

unfoldable pub halved : LlmContext → LlmContext
halved c =
    let workflow_ = or_else c.workflow_content [] in
    record c {
      log = take (length c.log / 2) c.log;
      workflow_content = none_if_empty (take (length workflow_ / 2) workflow_);
    }

-- `data["log"] or data.get("workflow_content")`
unfoldable pub has_text : LlmContext → Bool
has_text c = not (is_empty c.log) || not (falsy c.workflow_content)

abbrev pub text_length : LlmContext → ℕ
text_length c = length c.log + length (or_else c.workflow_content [])

module _ (encode : LlmContext → Text) (limit : ℕ) where
  abbrev pub too_long : LlmContext → Bool
  too_long c = ltb limit (length (encode c))

  -- The first loop, on the number of related files.
  unfoldable pub drop_files : ℕ → LlmContext → LlmContext
  unfolding pop_last
  drop_files zero c = c
  drop_files (suc n) c =
      let rest = drop_files n (record c { related_files = pop_last c.related_files }) in
      if too_long c && not (is_empty c.related_files) then rest else c

  -- The second loop, on fuel.
  unfoldable pub halve_texts : ℕ → LlmContext → LlmContext
  unfolding halved has_text
  halve_texts zero c = c
  halve_texts (suc n) c =
      let rest = halve_texts n (halved c) in if too_long c && has_text c then rest else c

  abbrev pub shortened : LlmContext → LlmContext
  shortened c = let few = drop_files (length c.related_files) c in halve_texts (text_length few) few

  unfoldable pub bounded_context_json : LlmContext → Try LlmError Text
  unfolding trimmed drop_files halve_texts
  bounded_context_json c =
      let short = shortened (trimmed limit c) in
      if leb (length (encode c)) limit
      then value (encode c)
      else if too_long short
      then raise limit_too_small
      else value (encode short)

-- The JSON of a response, as far as it is read: an element of `content`, and one of `output`.
pub record Content : Type 0 where
  pub type_ : Option Text
  pub text : Option Text

pub record Output : Type 0 where
  pub type_ : Option Text
  pub content : List Content

-- `value.get("type") == t`
abbrev is_type : Text → Option Text → Bool
is_type t none = false
is_type t (some s) = text_eq s t

-- The inner loop; `none` is its end without a return.
unfoldable pub content_text : List Content → Option (Try LlmError Text)
unfolding text_eq
content_text [] = none
content_text (c ∷ cs) =
    let rest = content_text cs in
    if is_type (codes "refusal") c.type_
    then some (raise refused)
    else if is_type (codes "output_text") c.type_ && not (falsy c.text)
    then some (value (or_else c.text []))
    else rest

unfoldable pub response_output_text : List Output → Try LlmError Text
unfolding content_text
response_output_text [] = raise no_output
response_output_text (o ∷ os) =
    let rest = response_output_text os in
    if is_type (codes "message") o.type_ then or_else (content_text o.content) rest else rest

-- A response of the service, with `usage` and its defaults.
pub record LlmResponse : Type 0 where
  pub status_code : ℕ
  pub status : Option Text
  pub output : List Output
  pub input_tokens : ℕ
  pub output_tokens : ℕ

-- `LLMAnalysis.model_validate_json` is a parameter; `none` is its `ValueError`.
unfoldable pub read_response :
    (Text → Option LlmAnalysis) → LlmResponse → Try LlmError LlmProviderResult
unfolding response_output_text
read_response parse r =
    if leb 400 r.status_code && leb r.status_code 599
    then raise (http_status r.status_code)
    else if is_type (codes "incomplete") r.status
    then raise incomplete
    else elim (response_output_text r.output) [
      | raise e ↦ raise e
      | value text ↦ elim (parse text) [
        | none ↦ raise schema_mismatch
        | some analysis ↦ value (record {
          analysis = analysis;
          input_tokens = r.input_tokens;
          output_tokens = r.output_tokens;
        })
      ]
    ]

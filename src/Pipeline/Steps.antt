-- ===== src/Pipeline/Steps.antt =====
-- The stages of `_analyze`. The counts of redactions, the durations and the cost of the model are
-- not modelled.
use pipe_lens.Common.{
  Text, codes, contains, join, falsy, is_empty, Bool, true, false, Option, none, some, List, [],
  ◌∷◌, ◌++◌, map, map_flat, filter, any, if◌then◌else◌, or_else,
}
use pipe_lens.Common.Try.{Try, value, raise}
use pipe_lens.Models.{
  TrustLevel, trusted, untrusted_fork, unverified, Classification, Diagnosis, ChangedFile,
  RepositoryContext, FailedJobContext, ExecutionContext,
}
use pipe_lens.Regex.{Unicode}
use pipe_lens.Sanitizer.{sanitize_log}
use pipe_lens.Preprocessing.Logs.{preprocess_logs, PreprocessedLog}
use pipe_lens.Classifier.{classify_log}
use pipe_lens.Diagnosis.{build_rule_based_diagnosis, validate_diagnosis}
use pipe_lens.Llm.{
  LlmContext, LlmProviderResult, prompt_version, validate_llm_analysis, none_if_empty,
}
use pipe_lens.Pipeline.{
  FailedJob, JobLog, Settings, Provider, asked_model, llm_recorded, Step, ◌>>=◌, return, emit,
}

abbrev pub is_trusted : TrustLevel → Bool
is_trusted trusted = true
is_trusted _ = false

abbrev pub is_untrusted_fork : TrustLevel → Bool
is_untrusted_fork untrusted_fork = true
is_untrusted_fork _ = false

-- What the collecting stage binds.
pub record Collected : Type 0 where
  pub access_token : Text
  pub failed_jobs : List FailedJob
  pub logs : List JobLog
  pub context : RepositoryContext

-- What the sanitizing stage binds.
pub record Sanitized : Type 0 where
  pub execution_context : ExecutionContext
  pub log : Text
  pub changed_files : List ChangedFile
  pub workflow_content : Text

-- What the diagnosing stage binds.
pub record Diagnosed : Type 0 where
  pub diagnosis : Diagnosis
  pub model_name : Option Text
  pub prompt_version : Option Text

abbrev unverified_context : RepositoryContext
unverified_context = record {
  changed_files = [];
  workflow_path = none;
  workflow_content = none;
  pull_request_number = none;
  trust_level = unverified;
  baseline_sha = none;
}

-- `_repository_context`: an exception is logged, and nothing is trusted.
unfoldable pub fallback_context : Try Text RepositoryContext → RepositoryContext
fallback_context (value c) = c
fallback_context (raise message) = unverified_context

-- `asyncio.gather` of two calls: when both raise, the exception is that of the first to fail.
unfoldable pub gather : {A B : Type 0} → Bool → Try Text A → Try Text B → Try Text (A × B)
gather logs_first (value a) (value b) = value (a, b)
gather logs_first (raise e) (value b) = raise e
gather logs_first (value a) (raise e') = raise e'
gather logs_first (raise e) (raise e') = raise (if logs_first then e' else e)

module _ (u : Unicode) where
  abbrev sanitized : Text → Text
  sanitized text = (sanitize_log u text).0

  abbrev clean_or : Text → Text → Text
  clean_or default text = if is_empty (sanitized text) then default else sanitized text

  -- `next((clean(value) for job in failed_jobs if value), None)`
  unfoldable pub first_clean : (FailedJob → Option Text) → List FailedJob → Option Text
  unfolding sanitize_log
  first_clean field [] = none
  first_clean field (job ∷ jobs) =
      let rest = first_clean field jobs in
      if falsy (field job) then rest else some (sanitized (or_else (field job) []))

  -- `_sanitize_execution_context`
  unfoldable pub sanitize_execution_context : List FailedJob → ExecutionContext
  unfolding first_clean sanitize_log
  sanitize_execution_context jobs = record {
    workflow_name = first_clean (λ (j : FailedJob). j.workflow_name) jobs;
    head_branch = first_clean (λ (j : FailedJob). j.head_branch) jobs;
    failed_jobs =
        map
          (λ (j : FailedJob). record {
            name = clean_or (codes "unknown job") j.name;
            failed_steps = map (clean_or (codes "unknown step")) j.failed_steps;
            runner_labels = map (clean_or (codes "unknown")) j.runner_labels;
          })
          jobs;
  }

  -- `matching_logs or logs`
  unfoldable pub select_logs : List FailedJob → List JobLog → List JobLog
  unfolding contains
  select_logs jobs logs =
      let matching =
        filter (λ (l : JobLog). any (λ (j : FailedJob). contains l.job_name j.name) jobs) logs in
      if is_empty matching then logs else matching

  unfoldable pub preprocessed : Settings → Collected → PreprocessedLog
  unfolding select_logs preprocess_logs
  preprocessed settings c =
      preprocess_logs u settings.log_chunk_chars settings.error_context_lines
        settings.max_error_chunks (map (λ (l : JobLog). l.text) (select_logs c.failed_jobs c.logs))

  unfoldable pub sanitize_collected : Settings → Collected → Sanitized
  unfolding sanitize_execution_context preprocessed sanitize_log
  sanitize_collected settings c = record {
    execution_context = sanitize_execution_context c.failed_jobs;
    log = (preprocessed settings c).context;
    changed_files =
        map
          (λ (f : ChangedFile). record f { patch = none_if_empty (sanitized (or_else f.patch [])) })
          c.context.changed_files;
    workflow_content = sanitized (or_else c.context.workflow_content []);
  }

-- `failed_locations`
unfoldable pub failed_locations : ExecutionContext → List Text
failed_locations e =
    let steps =
      map_flat
        (λ (j : FailedJobContext). map (λ step. j.name ++ (codes " / " ++ step)) j.failed_steps)
        e.failed_jobs in
    if is_empty steps then map (λ (j : FailedJobContext). j.name) e.failed_jobs else steps

unfoldable pub classify_context : Unicode → Sanitized → Classification
unfolding failed_locations classify_log join
classify_context u s =
    classify_log u s.log (none_if_empty (join (codes ", ") (failed_locations s.execution_context)))

-- `repository_files`
unfoldable pub repository_files : RepositoryContext → List Text
repository_files c =
    (if falsy c.workflow_path then [] else or_else c.workflow_path [] ∷ [])
    ++ map (λ (f : ChangedFile). f.filename) c.changed_files

abbrev pub with_note : Text → Diagnosis → Diagnosis
with_note note d = record d { notes = d.notes ++ note ∷ [] }

abbrev fork_note : Text
fork_note = codes "외부 Fork 실행이므로 신뢰할 수 없는 로그·코드·Workflow를 LLM에 전송하지 않고 규칙 기반 진단만 수행했습니다."

abbrev unverified_note : Text
unverified_note = codes "저장소 신뢰 수준을 확인하지 못해 로그·코드·Workflow를 LLM에 전송하지 않고 규칙 기반 진단만 수행했습니다."

-- The rule-based diagnosis, with a note when the run is not trusted.
unfoldable pub fallback_diagnosis : TrustLevel → Classification → Text → List Text → Diagnosis
unfolding build_rule_based_diagnosis validate_diagnosis
fallback_diagnosis level c log files =
    let d = validate_diagnosis (build_rule_based_diagnosis c) log (some files) in
    elim level [
      | untrusted_fork ↦ with_note fork_note d
      | unverified ↦ with_note unverified_note d
      | trusted ↦ d
    ]

abbrev failure_note : Text
failure_note = codes "LLM 분석에 실패하여 규칙 기반 진단 결과를 제공했습니다."

-- The answer of the model, once it is checked; `none` is any exception.
unfoldable pub checked_answer : LlmContext → Try Text LlmProviderResult → Option Diagnosis
unfolding validate_llm_analysis
checked_answer c (raise message) = none
checked_answer c (value result) = elim (validate_llm_analysis result.analysis c) [
  | value d ↦ some d
  | raise e ↦ none
]

-- The `try` around the model, which is only asked about a trusted run.
abbrev pub answered : Provider → Diagnosis → Option Diagnosis → Step Diagnosed
answered p fallback (some d) = emit (llm_recorded true) >>= λ _.
    return (record {
      diagnosis = d;
      model_name = some p.model_name;
      prompt_version = some prompt_version;
    })
answered p fallback none = emit (llm_recorded false) >>= λ _. return (record {
  diagnosis = with_note failure_note fallback;
  model_name = some p.model_name;
  prompt_version = some prompt_version;
})

unfoldable pub ask_model : Option Provider → Bool → LlmContext → Diagnosis → Step Diagnosed
unfolding checked_answer prompt_version
ask_model (some p) true c fallback =
    emit (asked_model c) >>= λ _. answered p fallback (checked_answer c (p.ask c))
ask_model _ _ c fallback =
    return (record { diagnosis = fallback; model_name = none; prompt_version = none })

-- ===== src/Pipeline.antt =====
-- src/pipelens/pipeline.py: `AnalysisPipeline`. GitHub, the model, the clock of the store and what
-- other workers do to the store in the meantime are the record `Services`; the settings are those
-- that the pipeline reads. A step takes the state and returns its value, or the exception that it
-- raises, and the state. This file has the state, the calls of the store and `_stage`.
pub mod Steps
pub mod Analyze
pub mod Invariants
pub mod Trust
pub mod Ends
pub mod Tests
use pipe_lens.Common.{
  ℕ, suc, Text, codes, Bool, true, false, Option, none, some, List, [], ◌∷◌, ◌++◌, take, decimal,
  if◌then◌else◌,
}
use pipe_lens.Common.Try.{Try, value, raise}
use pipe_lens.Models.{
  AnalysisStatus, AnalysisStage, StageStatus, ErrorCategory, TrustLevel, RepositoryContext,
  AnalysisRequest,
}
use pipe_lens.Regex.{Unicode}
use pipe_lens.Llm.{LlmContext, LlmProviderResult}
use pipe_lens.Store.{
  Store, StoreError, Result, ok, err, AnalysisStart, Changes, begin_analysis, finish_analysis,
  update_analysis, record_stage,
}
use pipe_lens.Patching.Verify.{Parsers}

-- src/pipelens/github.py: `FailedJob` and `JobLog`.
pub record FailedJob : Type 0 where
  pub job_id : ℕ
  pub name : Text
  pub failed_steps : List Text
  pub workflow_name : Option Text
  pub head_branch : Option Text
  pub runner_labels : List Text

pub record JobLog : Type 0 where
  pub job_name : Text
  pub text : Text

-- The settings, with times in microseconds.
pub record Settings : Type 0 where
  pub analysis_start_slo : ℕ
  pub analysis_completion_slo : ℕ
  pub log_chunk_chars : ℕ
  pub error_context_lines : ℕ
  pub max_error_chunks : ℕ
  pub publish_checks : Bool
  pub public_url : Text

-- `LLMProvider`
pub record Provider : Type 0 where
  pub model_name : Text
  pub ask : LlmContext → Try Text LlmProviderResult

-- A call that raises gives `str(exc)`. `now` is the clock at the n-th access to the store, and
-- `others` is what other workers have done to the store since the access before it.
pub record Services : Type 0 where
  pub installation_token : ℕ → Try Text Text
  pub failed_jobs : Text → ℕ → Text → Try Text (List FailedJob)
  pub download_logs : Text → ℕ → Text → Try Text (List JobLog)
  pub logs_fail_first : Bool
  pub repository_context : Text → ℕ → Text → Text → Try Text RepositoryContext
  pub file_contents : Text → List Text → Text → Text → Try Text (List (Text × Text))
  pub upsert_pull_request_comment : Text → ℕ → ℕ → Text → Text → Try Text (Unit {0})
  pub upsert_check : Text → Text → ℕ → Text → Text → Text → Text → Try Text (Unit {0})
  pub provider : Option Provider
  pub now : ℕ → ℕ
  pub others : ℕ → Store → Store
  pub unicode : Unicode
  pub parsers : Parsers
  pub unified_diff : Text → Text → Text → Text
  pub template : Text → Option Text
  -- `str` of an exception that leaves `propose_and_verify_patches`.
  pub patch_error : Text
  pub percent : ℕ → Text

-- The values of the label `status` of `metrics.analyses`.
pub data AttemptEnd : Type 0 where
  completed superseded failed_attempt : AttemptEnd

-- What the pipeline asks of others than the store, and what it counts.
pub data Effect : Type 0 where
  queue_wait : ℕ → Effect
  start_slo completion_slo : Bool → Effect
  counted : AttemptEnd → Effect
  total_latency : ℕ → Effect
  trust : TrustLevel → Effect
  log_chunks : ℕ → ℕ → Effect
  category : ErrorCategory → Effect
  asked_model : LlmContext → Effect
  llm_recorded patch_outcome : Bool → Effect
  commented : ℕ → Text → Effect
  checked : Text → Text → Effect

-- The exceptions that the pipeline tells apart.
pub data Failure : Type 0 where
  attempt_superseded : Failure
  failed : Text → Failure

-- The last effect is the first of the list.
pub record State : Type 0 where
  pub store : Store
  pub accesses : ℕ
  pub effects : List Effect

abbrev pub Step : Type 0 → Type 0
Step A = State → Try Failure A × State

infixl 15 ◌>>=◌
abbrev pub continue_with :
    {A B : Type 0} → (A → Step B) → Try Failure A × State → Try Failure B × State
continue_with k (value a, s) = k a s
continue_with k (raise e, s) = (raise e, s)

unfoldable pub ◌>>=◌ : {A B : Type 0} → Step A → (A → Step B) → Step B
m >>= k = λ s. continue_with k (m s)

unfoldable pub return : {A : Type 0} → A → Step A
return a s = (value a, s)

unfoldable pub emit : Effect → Step (Unit {0})
emit e s = (value tt, record s { effects = e ∷ s.effects })

-- A call of a service that raises.
unfoldable pub lift : {A : Type 0} → Try Text A → Step A
lift (value a) s = (value a, s)
lift (raise message) s = (raise (failed message), s)

-- `str(exc)`, for a run.
unfoldable pub message_of : ℕ → Failure → Text
unfolding decimal
message_of run_id attempt_superseded =
    codes "analysis attempt for run " ++ (decimal run_id ++ codes " is no longer current")
message_of run_id (failed message) = message

module _ (env : Services) (run_id : ℕ) (token : Text) where
  -- With a token the store raises `AnalysisAttemptSuperseded` only.
  abbrev accessed : {A : Type 0} → State → Result A × Store → Try Failure A × State
  accessed s (ok a, st) = (value a, record s { store = st; accesses = suc s.accesses })
  accessed s (err e, st) =
      (raise attempt_superseded, record s { store = st; accesses = suc s.accesses })

  -- An access to the store: others may have changed it before.
  unfoldable pub access : {A : Type 0} → (ℕ → Store → Result A × Store) → Step A
  access call s = accessed s (call (env.now s.accesses) (env.others s.accesses s.store))

  unfoldable pub begin_attempt : Step AnalysisStart
  unfolding access
  begin_attempt = access (λ now. begin_analysis now run_id (some token))

  unfoldable pub finish_attempt : ℕ → AnalysisStatus → Step ℕ
  unfolding access
  finish_attempt started_at status =
      access (λ now. finish_analysis now run_id started_at status (some token))

  -- `self.store.update(run_id, AnalysisStatus.RUNNING, ..., attempt_token=attempt_token)`
  unfoldable pub save : Changes → Step (Unit {0})
  unfolding access
  save changes =
      access (λ now. update_analysis now run_id AnalysisStatus.running changes (some token))

  unfoldable pub note_stage : AnalysisStage → StageStatus → Option Text → Step (Unit {0})
  unfolding access
  note_stage stage status error =
      access (λ now. record_stage now run_id stage status error (some token))

  -- `except Exception`, and `else`
  abbrev close_stage : {A : Type 0} → AnalysisStage → Try Failure A × State → Try Failure A × State
  close_stage st (value a, s) = (note_stage st StageStatus.completed none >>= λ _. return a) s
  close_stage st (raise e, s) =
      (note_stage st StageStatus.failed (some (take 2000 (message_of run_id e))) >>= λ _ s'.
      (raise e, s'))
        s

  -- `with self._stage(...)`
  unfoldable pub with_stage : {A : Type 0} → AnalysisStage → Step A → Step A
  unfolding note_stage message_of
  with_stage st body = note_stage st StageStatus.started none >>= λ _ s. close_stage st (body s)

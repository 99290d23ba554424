-- ===== src/Pipeline/Analyze.antt =====
-- `_attach_verified_patches`, the stages in order (`_analyze`), and `analyze`.
use pipe_lens.Common.{
  ℕ, Text, codes, member, rstrip, decimal, falsy, is_empty, Bool, true, false, not, ◌&&◌, ◌||◌,
  Option, none, some, List, [], ◌∷◌, ◌++◌, map, leb, ◌==◌, if◌then◌else◌, or_else,
}
use pipe_lens.Common.Try.{Try, value, raise}
use pipe_lens.Models.{
  AnalysisStatus, AnalysisStage, Classification, Suggestion, Diagnosis, RepositoryContext,
  RelatedFile, AnalysisRequest,
}
use pipe_lens.Relevance.{correlate_changed_files}
use pipe_lens.Llm.{LlmContext, none_if_empty}
use pipe_lens.Patching.Verify.{Tally, strip_patches}
use pipe_lens.Patching.Bumps.{VersionBump, find_version_bumps, manifest_paths_in_log, set}
use pipe_lens.Patching.Propose.{propose_and_verify_patches}
use pipe_lens.Publication.{render_github_diagnosis}
use pipe_lens.Store.{AnalysisStart, Changes, no_changes}
use pipe_lens.Pipeline.{
  Settings, Services, queue_wait, start_slo, completion_slo, counted, total_latency, trust,
  log_chunks, category, patch_outcome, commented, checked, AttemptEnd, completed, superseded,
  failed_attempt, Failure, attempt_superseded, failed, State, Step, ◌>>=◌, return, emit, lift,
  begin_attempt, finish_attempt, save, with_stage,
}
use pipe_lens.Pipeline.Steps.{
  Collected, Sanitized, Diagnosed, is_trusted, is_untrusted_fork, fallback_context, gather,
  preprocessed, sanitize_collected, classify_context, repository_files, fallback_diagnosis,
  ask_model, with_note,
}

-- `files.update(fetched)`
unfoldable pub update_files : List (Text × Text) → List (Text × Text) → List (Text × Text)
unfolding set
update_files files [] = files
update_files files ((path, content) ∷ fetched) = update_files (set path content files) fetched

-- `dict.fromkeys(paths)`, without those that are among the files.
unfoldable pub new_targets : List Text → List (Text × Text) → List Text → List Text
unfolding member
new_targets [] files seen = []
new_targets (path ∷ paths) files seen =
    let rest = new_targets paths files (path ∷ seen) in
    if member path seen || member path (map (λ f. f.0) files) then rest else path ∷ rest

-- The files that the model's patches name.
unfoldable pub patch_files : List Suggestion → List Text
patch_files [] = []
patch_files (s ∷ ss) =
    let rest = patch_files ss in
    if not (falsy s.patch) && not (falsy s.file) then or_else s.file [] ∷ rest else rest

-- The workflow file, when both its path and its content are known.
unfoldable pub known_files : RepositoryContext → List (Text × Text)
known_files c =
    if falsy c.workflow_path || falsy c.workflow_content
    then []
    else (or_else c.workflow_path [], or_else c.workflow_content []) ∷ []

abbrev fetched_or : List (Text × Text) → Try Text (List (Text × Text)) → List (Text × Text)
fetched_or files (value fetched) = update_files files fetched
fetched_or files (raise message) = files

-- `settings.public_url.rstrip("/")` and what follows.
unfoldable pub details_url : Settings → ℕ → Text
unfolding rstrip decimal
details_url settings run_id =
    rstrip (λ c. c == b'/') settings.public_url ++ (codes "/?run_id=" ++ decimal run_id)

-- How `analyze` ends: it returns, or raises an exception with a message.
pub data Ending : Type 0 where
  returned : Ending
  raised : Text → Ending

module _ (env : Services) (settings : Settings) (r : AnalysisRequest) (token : Text) where
  abbrev stage : {A : Type 0} → AnalysisStage → Step A → Step A
  stage = with_stage env r.run_id token

  -- The files that the diffs are checked against.
  unfoldable pub target_files :
      Text
      → List VersionBump
      → List Text
      → Text
      → List RelatedFile
      → RepositoryContext
      → List (Text × Text)
  unfolding known_files new_targets update_files manifest_paths_in_log
  target_files access_token bumps llm_files log related c =
      let files = known_files c in
      let manifests = if is_empty bumps then [] else manifest_paths_in_log env.unicode log in
      let targets =
        new_targets (map (λ (f : RelatedFile). f.filename) related ++ (llm_files ++ manifests))
          files [] in
      if is_empty targets
      then files
      else fetched_or files (env.file_contents r.repository targets r.head_sha access_token)

  -- One effect for each entry of `outcomes`.
  unfoldable pub count_outcomes : List (Tally env.unicode env.parsers) → Step (Unit {0})
  count_outcomes [] = return tt
  count_outcomes (t ∷ ts) = emit (patch_outcome t.verified) >>= λ _. count_outcomes ts

  abbrev pub attach : Option (Diagnosis × List (Tally env.unicode env.parsers)) → Step Diagnosis
  attach none = lift (raise env.patch_error)
  attach (some (d, outcomes)) = count_outcomes outcomes >>= λ _. return d

  abbrev pub attach_bumps :
      Text
      → Diagnosis
      → Text
      → List RelatedFile
      → RepositoryContext
      → Option (List VersionBump)
      → Step Diagnosis
  attach_bumps access_token d log related c none = lift (raise (codes "list index out of range"))
  attach_bumps access_token d log related c (some bumps) =
      let llm_files = patch_files d.suggestions in
      if is_empty bumps && is_empty llm_files
      then return d
      else attach (
          propose_and_verify_patches env.unicode env.unified_diff env.template env.parsers d bumps
            (target_files access_token bumps llm_files log related c))

  unfoldable pub attach_verified_patches :
      Text → Diagnosis → Text → List RelatedFile → RepositoryContext → Step Diagnosis
  unfolding find_version_bumps patch_files target_files propose_and_verify_patches count_outcomes
  attach_verified_patches access_token d log related c =
      attach_bumps access_token d log related c (find_version_bumps env.unicode log)

  unfoldable pub collect : Step Collected
  unfolding gather fallback_context save
  collect = lift (env.installation_token r.installation_id) >>= λ access_token.
      lift (
        gather env.logs_fail_first (env.failed_jobs r.repository r.run_id access_token)
          (env.download_logs r.repository r.run_id access_token))
      >>= λ (jobs, logs).
          let c =
            fallback_context
              (env.repository_context r.repository r.run_id r.head_sha access_token) in
          save env r.run_id token (record no_changes { trust_level = some c.trust_level }) >>= λ _.
          emit (trust c.trust_level) >>= λ _.
          return
            (record { access_token = access_token; failed_jobs = jobs; logs = logs; context = c })

  unfoldable pub sanitize : Collected → Step Sanitized
  unfolding sanitize_collected preprocessed
  sanitize c =
      let p = preprocessed env.unicode settings c in
      emit (log_chunks p.chunks_processed p.error_chunks) >>= λ _.
      return (sanitize_collected env.unicode settings c)

  unfoldable pub classify : Sanitized → Step Classification
  unfolding classify_context
  classify s =
      let c = classify_context env.unicode s in emit (category c.category) >>= λ _. return c

  abbrev no_files_note : Text
  no_files_note = codes "로그와 직접 연결되는 변경 파일을 찾지 못했습니다."

  abbrev pub noted : List RelatedFile → Diagnosed → Diagnosed
  noted [] d = record d { diagnosis = with_note no_files_note d.diagnosis }
  noted (_ ∷ _) d = d

  -- `if is_trusted`: the patches are verified, or else they are all taken out.
  abbrev pub patched :
      Bool → Text → Text → List RelatedFile → RepositoryContext → Diagnosed → Step Diagnosed
  patched true access_token log related c d =
      attach_verified_patches access_token d.diagnosis log related c >>= λ diagnosis.
      return (record d { diagnosis = diagnosis })
  patched false access_token log related c d =
      return (record d { diagnosis = strip_patches d.diagnosis })

  unfoldable pub llm_context :
      Collected → Sanitized → Classification → List RelatedFile → LlmContext
  llm_context c s classification related = record {
    classification = classification;
    log = s.log;
    related_files = related;
    execution_context = some s.execution_context;
    workflow_path = c.context.workflow_path;
    workflow_content = none_if_empty s.workflow_content;
  }

  unfoldable pub diagnose :
      Collected → Sanitized → Classification → List RelatedFile → Step Diagnosed
  unfolding ask_model fallback_diagnosis repository_files llm_context attach_verified_patches
      strip_patches
  diagnose c s classification related =
      let level = c.context.trust_level in
      let files = repository_files c.context in
      ask_model env.provider (is_trusted level) (llm_context c s classification related)
        (fallback_diagnosis level classification s.log files)
      >>= λ d. patched (is_trusted level) c.access_token s.log related c.context d >>= λ d'.
          return (noted related d')

  abbrev has_pull_request : Option ℕ → Bool
  has_pull_request none = false
  has_pull_request (some n) = true

  abbrev pub publish_body : Collected → Classification → Diagnosis → List RelatedFile → Text
  publish_body c classification d related =
      render_github_diagnosis env.percent r.run_id classification d related
        (details_url settings r.run_id) c.context.trust_level c.context.baseline_sha
        (some r.head_sha)

  abbrev pub publish_check : Collected → Diagnosis → Text → Step (Unit {0})
  publish_check c d body =
      if is_trusted c.context.trust_level
      then (emit (checked d.summary body) >>= λ _. lift (
          env.upsert_check r.repository r.head_sha r.run_id c.access_token d.summary body
            (details_url settings r.run_id)))
      else return tt

  abbrev pub publish_body_to : Collected → Diagnosis → Text → Option ℕ → Step (Unit {0})
  publish_body_to c d body (some number) =
      if is_trusted c.context.trust_level || is_untrusted_fork c.context.trust_level
      then (emit (commented number body) >>= λ _.
          lift (env.upsert_pull_request_comment r.repository number r.run_id c.access_token body))
      else publish_check c d body
  publish_body_to c d body none = publish_check c d body

  unfoldable pub publish :
      Collected → Classification → Diagnosis → List RelatedFile → Step (Unit {0})
  unfolding render_github_diagnosis details_url
  publish c classification d related =
      if settings.publish_checks
      then publish_body_to c d (publish_body c classification d related)
          c.context.pull_request_number
      else return tt

  unfoldable pub result_changes :
      Collected → Sanitized → Classification → List RelatedFile → Diagnosed → Changes
  result_changes c s classification related d = record {
    classification = some classification;
    diagnosis = some d.diagnosis;
    related_files = some related;
    workflow_path = c.context.workflow_path;
    execution_context = some s.execution_context;
    model_name = d.model_name;
    prompt_version = d.prompt_version;
    trust_level = some c.context.trust_level;
    baseline_sha = c.context.baseline_sha;
    error = none;
  }

  -- `_analyze`
  unfoldable pub run_stages : Step (Unit {0})
  unfolding with_stage collect sanitize classify correlate_changed_files diagnose save
      result_changes publish
  run_stages = stage AnalysisStage.collecting collect >>= λ c.
      stage AnalysisStage.sanitizing (sanitize c) >>= λ s.
      stage AnalysisStage.classifying (classify s) >>= λ classification.
      stage AnalysisStage.correlating (
        return
          (correlate_changed_files env.unicode s.log s.changed_files classification.category 5))
      >>= λ related. stage AnalysisStage.diagnosing (diagnose c s classification related) >>= λ d.
          save env r.run_id token (result_changes c s classification related d) >>= λ _.
          stage AnalysisStage.publishing (publish c classification d.diagnosis related)

  abbrev pub end_with : AttemptEnd → Ending → State → Ending × State
  end_with counted_as ending s = (ending, record s { effects = counted counted_as ∷ s.effects })

  -- `except Exception`, once the attempt has begun.
  abbrev pub after_failure : Text → Try Failure ℕ × State → Ending × State
  after_failure message (value latency, s) = end_with failed_attempt (raised message) s
  after_failure message (raise e, s) = end_with superseded returned s

  abbrev pub after_success : Try Failure ℕ × State → Ending × State
  after_success (raise e, s) = end_with superseded returned s
  after_success (value latency, s) = (
    returned,
    record s {
      effects =
          completion_slo (leb latency settings.analysis_completion_slo)
          ∷ total_latency latency
          ∷ counted completed
          ∷ s.effects;
    },
  )

  abbrev pub settle : ℕ → Try Failure (Unit {0}) × State → Ending × State
  settle started_at (raise attempt_superseded, s) = end_with superseded returned s
  settle started_at (raise (failed message), s) =
      after_failure message (finish_attempt env r.run_id token started_at AnalysisStatus.failed s)
  settle started_at (value _, s) =
      after_success (finish_attempt env r.run_id token started_at AnalysisStatus.completed s)

  abbrev pub observe_start : AnalysisStart → State → State
  observe_start start s =
      if start.first_start
      then record s {
        effects =
            start_slo (leb start.queue_wait_seconds settings.analysis_start_slo)
            ∷ queue_wait start.queue_wait_seconds
            ∷ s.effects;
      }
      else s

  abbrev pub begun : Try Failure AnalysisStart × State → Ending × State
  begun (raise e, s) = end_with superseded returned s
  begun (value start, s) = settle start.attempt_started_at (run_stages (observe_start start s))

  unfoldable pub analyze : State → Ending × State
  unfolding begin_attempt finish_attempt run_stages
  analyze s = begun (begin_attempt env r.run_id token s)

-- ===== src/Models.antt =====
-- src/pipelens/models.py: the enums and the records that the components exchange. A `str` is a
-- `Text`. Times are microseconds since the epoch, in UTC; a confidence or a score is a number of
-- millionths.
use pipe_lens.Common.{ℕ, Text, codes, Bool, Option, none, List, [], is_some, ◌||◌}
use pipe_lens.Common.Int.{ℤ}

pub data AnalysisStatus : Type 0 where
  queued running completed failed : AnalysisStatus

pub data AnalysisStage : Type 0 where
  collecting sanitizing classifying correlating diagnosing publishing : AnalysisStage

pub data StageStatus : Type 0 where
  started completed failed : StageStatus

pub data ErrorCategory : Type 0 where
  test build dependency lint docker deploy_auth missing_env timeout resource workflow security
        unknown :
      ErrorCategory

pub data FeedbackAccuracy : Type 0 where
  accurate partial inaccurate : FeedbackAccuracy

pub data TrustLevel : Type 0 where
  trusted untrusted_fork unverified : TrustLevel

pub data ResolutionOutcome : Type 0 where
  resolved still_failing : ResolutionOutcome

pub data SuggestionSource : Type 0 where
  rule llm : SuggestionSource

-- `ErrorCategory(...).value`
unfoldable pub category_value : ErrorCategory → Text
category_value test = codes "test_failure"
category_value build = codes "build_failure"
category_value dependency = codes "dependency_installation_failure"
category_value lint = codes "lint_or_formatter_failure"
category_value docker = codes "docker_build_failure"
category_value deploy_auth = codes "deployment_authentication_failure"
category_value missing_env = codes "missing_environment_variable"
category_value timeout = codes "timeout"
category_value resource = codes "resource_exhaustion"
category_value workflow = codes "github_actions_workflow_error"
category_value security = codes "security_scan_failure"
category_value unknown = codes "unknown"

pub record Evidence : Type 0 where
  pub source : Text
  pub content : Text
  pub location : Option Text

pub record Classification : Type 0 where
  pub category : ErrorCategory
  pub confidence : ℕ
  pub first_error : Text
  pub related_step : Option Text
  pub matched_rules : List Text

pub record Suggestion : Type 0 where
  pub description : Text
  pub file : Option Text
  pub patch : Option Text
  pub source : Option SuggestionSource
  pub patch_verified : Bool

pub record Diagnosis : Type 0 where
  pub summary : Text
  pub root_cause : Text
  pub confidence : ℕ
  pub evidence : List Evidence
  pub suggestions : List Suggestion
  pub conflicts : List Text
  pub notes : List Text

pub record ChangedFile : Type 0 where
  pub filename : Text
  pub status : Text
  pub patch : Option Text
  pub previous_filename : Option Text

pub record RepositoryContext : Type 0 where
  pub changed_files : List ChangedFile
  pub workflow_path : Option Text
  pub workflow_content : Option Text
  pub pull_request_number : Option ℕ
  pub trust_level : TrustLevel
  pub baseline_sha : Option Text

pub record RelatedFile : Type 0 where
  pub filename : Text
  pub score : ℕ
  pub reasons : List Text
  pub patch_excerpt : Option Text

pub record FailedJobContext : Type 0 where
  pub name : Text
  pub failed_steps : List Text
  pub runner_labels : List Text

pub record ExecutionContext : Type 0 where
  pub workflow_name : Option Text
  pub head_branch : Option Text
  pub failed_jobs : List FailedJobContext

pub record FeedbackRequest : Type 0 where
  pub accuracy : Option FeedbackAccuracy
  pub suggestion_resolved : Option Bool
  pub comment : Option Text

-- `require_feedback_value`: the validator accepts a request with a value.
unfoldable pub has_feedback_value : FeedbackRequest → Bool
has_feedback_value r = is_some r.accuracy || is_some r.suggestion_resolved

pub record FeedbackRecord : Type 0 where
  pub run_id : ℕ
  pub accuracy : Option FeedbackAccuracy
  pub suggestion_resolved : Option Bool
  pub comment : Option Text
  pub created_at : ℕ
  pub updated_at : ℕ

pub record ResolutionRecord : Type 0 where
  pub outcome : ResolutionOutcome
  pub followup_run_id : ℕ
  pub followup_run_attempt : ℕ
  pub followup_html_url : Text
  pub followup_completed_at : ℕ
  pub recovery_seconds : ℕ

pub record AnalysisStageEvent : Type 0 where
  pub stage : AnalysisStage
  pub status : StageStatus
  pub error : Option Text
  pub occurred_at : ℕ

-- The fields of `AnalysisRecord` that are columns of the table `analyses`, with the columns that
-- hold its `resolution` and the token of the attempt in progress.
pub record Analysis : Type 0 where
  pub run_id : ℕ
  pub delivery_id : Text
  pub repository : Text
  pub workflow_name : Text
  pub head_sha : Text
  pub html_url : Text
  pub run_attempt : ℕ
  pub head_branch : Option Text
  pub pull_request_number : Option ℕ
  pub run_completed_at : Option ℕ
  pub installation_id : Option ℕ
  pub trust_level : TrustLevel
  pub baseline_sha : Option Text
  pub status : AnalysisStatus
  pub classification : Option Classification
  pub diagnosis : Option Diagnosis
  pub related_files : List RelatedFile
  pub workflow_path : Option Text
  pub execution_context : Option ExecutionContext
  pub model_name : Option Text
  pub prompt_version : Option Text
  pub error : Option Text
  pub analysis_started_at : Option ℕ
  pub analysis_completed_at : Option ℕ
  pub duration_seconds : Option ℤ
  pub queue_wait_seconds : Option ℕ
  pub total_latency_seconds : Option ℕ
  pub resolution_outcome : Option ResolutionOutcome
  pub resolution_run_id : Option ℕ
  pub resolution_run_attempt : Option ℕ
  pub resolution_html_url : Option Text
  pub resolution_completed_at : Option ℕ
  pub recovery_seconds : Option ℕ
  pub attempt_token : Option Text
  pub created_at : ℕ
  pub updated_at : ℕ

pub record AnalysisRequest : Type 0 where
  pub run_id : ℕ
  pub repository : Text
  pub installation_id : ℕ
  pub head_sha : Text

-- A record as the webhook makes it: what it does not name has its default.
unfoldable pub queued_record :
    ℕ
    → Text
    → Text
    → Text
    → Text
    → Text
    → ℕ
    → Option Text
    → Option ℕ
    → Option ℕ
    → Option ℕ
    → ℕ
    → Analysis
queued_record run_id delivery repo workflow_name sha url attempt branch pr completed_at installation
      now =
    record {
      run_id = run_id;
      delivery_id = delivery;
      repository = repo;
      workflow_name = workflow_name;
      head_sha = sha;
      html_url = url;
      run_attempt = attempt;
      head_branch = branch;
      pull_request_number = pr;
      run_completed_at = completed_at;
      installation_id = installation;
      trust_level = unverified;
      baseline_sha = none;
      status = queued;
      classification = none;
      diagnosis = none;
      related_files = [];
      workflow_path = none;
      execution_context = none;
      model_name = none;
      prompt_version = none;
      error = none;
      analysis_started_at = none;
      analysis_completed_at = none;
      duration_seconds = none;
      queue_wait_seconds = none;
      total_latency_seconds = none;
      resolution_outcome = none;
      resolution_run_id = none;
      resolution_run_attempt = none;
      resolution_html_url = none;
      resolution_completed_at = none;
      recovery_seconds = none;
      attempt_token = none;
      created_at = now;
      updated_at = now;
    }

pub record GitHubUser : Type 0 where
  pub github_user_id : ℕ
  pub login : Text
  pub avatar_url : Option Text

pub record GitHubInstallation : Type 0 where
  pub installation_id : ℕ
  pub account_login : Text
  pub account_type : Text
  pub repository_selection : Text

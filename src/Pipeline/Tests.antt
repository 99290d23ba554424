-- ===== src/Pipeline/Tests.antt =====
-- Attempts on one stored run.
use pipe_lens.Common.{◌≡◌, refl, codes, true, false, none, some, []}
use pipe_lens.Common.Try.{value, raise}
use pipe_lens.Models.{AnalysisRequest, queued_record, Analysis}
use pipe_lens.Regex.Build.{ascii}
use pipe_lens.Patching.Verify.{parsed}
use pipe_lens.Table.{first, row_count, update}
use pipe_lens.Store.{run_key, begin_analysis, record_stage, finish_analysis}
use pipe_lens.Store.Tests.{row, stored, stored-IsValid}
use pipe_lens.Pipeline.{Settings, Services, State, ◌>>=◌, lift}
use pipe_lens.Pipeline.Steps.{fallback_context}
use pipe_lens.Pipeline.Analyze.{raised, analyze}
use pipe_lens.Pipeline.Trust.{Harmless, untrusted_is_not_sent}
use pipe_lens.Pipeline.Ends.{IsEnded, analyze-IsEnded}

abbrev pub settings : Settings
settings = record {
  analysis_start_slo = 30;
  analysis_completion_slo = 60;
  log_chunk_chars = 1000;
  error_context_lines = 2;
  max_error_chunks = 3;
  publish_checks = true;
  public_url = codes "http://p/";
}

-- GitHub gives a token and no logs.
abbrev pub services : Services
services = record {
  installation_token = λ id. value (codes "t");
  failed_jobs = λ repo run t. value [];
  download_logs = λ repo run t. raise (codes "HTTP 500");
  logs_fail_first = false;
  repository_context = λ repo run sha t. raise (codes "HTTP 404");
  file_contents = λ repo paths sha t. value [];
  upsert_pull_request_comment = λ repo n run t body. value tt;
  upsert_check = λ repo sha run t s body url. value tt;
  provider = none;
  now = λ n. 80;
  others = λ n s. s;
  unicode = ascii;
  parsers = record { yaml = λ s. parsed; toml = λ s. parsed; json = λ s. parsed };
  unified_diff = λ path old new. [];
  template = λ s. none;
  patch_error = [];
  percent = λ n. [];
}

abbrev pub request : AnalysisRequest
request = record { run_id = 7; repository = codes "o/r"; installation_id = 3; head_sha = codes "a" }

abbrev start : State
start = record { store = stored row; accesses = 0; effects = [] }

abbrev queued_run : Analysis
queued_run =
    queued_record 7 (codes "d") (codes "o/r") (codes "ci") (codes "a") (codes "u") 1 none none none
      (some 3) 50

raises_test :
    (analyze services settings request (codes "k") (record start { store = stored queued_run })).0
    ≡ raised (codes "HTTP 500")
unfolding analyze begin_analysis first queued_record row_count ◌>>=◌ record_stage update lift
    finish_analysis
raises_test = refl

pub row_found : first (run_key 7) (stored row).analyses ≡ some row
unfolding first queued_record
row_found = refl

untrusted_is_not_sent_example :
    Harmless (analyze services settings request (codes "k") start).1.effects
untrusted_is_not_sent_example =
    untrusted_is_not_sent services settings request (codes "k")
      (λ t. unfold fallback_context in refl) start tt

analyze-IsEnded_example :
    let (ending, s') = analyze services settings request (codes "k") start in
    IsEnded ending (first (run_key 7) s'.store.analyses)
analyze-IsEnded_example =
    analyze-IsEnded services settings request (codes "k") (λ n st. refl) start row
      (stored-IsValid row) row_found (unfold queued_record in refl)

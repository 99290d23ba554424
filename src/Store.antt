-- ===== src/Store.antt =====
-- src/pipelens/store.py: `AnalysisStore`. The database is the three tables that an analysis lives
-- in, each a list of rows in insertion order. `now` is the clock that a method reads. A method that
-- raises inside `engine.begin()` is rolled back.
pub mod Fencing
pub mod Lifecycle
pub mod Holding
pub mod Lease
pub mod Accounts
pub mod Followup
pub mod Reads
pub mod Tests
use pipe_lens.Common.{
  ℕ, ◌-◌, Text, codes, text_eq, opt_eq, Bool, true, false, not, ◌&&◌, ◌||◌, Option, none, some,
  List, [], ◌∷◌, ◌++◌, ◌==◌, ltb, if◌then◌else◌, is_some, or_else,
}
use pipe_lens.Common.Int.{ℤ, sub_ℕ}
use pipe_lens.Models.{
  AnalysisStatus, queued, running, AnalysisStage, StageStatus, TrustLevel, Classification,
  Diagnosis, RelatedFile, ExecutionContext, FeedbackRecord, Analysis,
}
use pipe_lens.Table.{first, update, row_count, delete, has_key}

-- A row of `analysis_stage_events`; its `id` is the order of the rows.
pub record StageRow : Type 0 where
  pub run_id : ℕ
  pub stage : AnalysisStage
  pub status : StageStatus
  pub error : Option Text
  pub occurred_at : ℕ

pub record Store : Type 0 where
  pub analyses : List Analysis
  pub stage_events : List StageRow
  pub feedback : List FeedbackRecord

-- `AnalysisAttemptSuperseded`, and the error of the database on a row without its parent.
pub data StoreError : Type 0 where
  superseded integrity : StoreError

pub data Result (A : Type 0) : Type 0 where
  ok : A → Result A
  err : StoreError → Result A

abbrev pub run_key : ℕ → Analysis → Bool
run_key = has_key (λ (r : Analysis). r.run_id)

-- `with engine.begin()`: an exception undoes what the block wrote.
abbrev rollback : {A : Type 0} → Store → Result A × Store → Result A × Store
rollback s (ok a, s') = (ok a, s')
rollback s (err e, s') = (err e, s)

abbrev transaction : {A : Type 0} → (Store → Result A × Store) → Store → Result A × Store
transaction body s = rollback s (body s)

-- `_require_current_attempt`, and the value that the method returns after it.
abbrev require_current_attempt : {A : Type 0} → ℕ → Option Text → A → Result A
require_current_attempt rowcount token a =
    if is_some token && not (rowcount == 1) then err superseded else ok a

-- `where(analyses.c.attempt_token == attempt_token)`, when a token is given.
abbrev pub token_current : Option Text → Analysis → Bool
token_current none r = true
token_current (some t) r = opt_eq r.attempt_token t

abbrev pub is_startable : AnalysisStatus → Bool
is_startable queued = true
is_startable running = true
is_startable _ = false

-- `where(status.in_([QUEUED, RUNNING]))`, when a token is given.
abbrev pub startable : Option Text → Analysis → Bool
startable none r = true
startable (some t) r = is_startable r.status

abbrev is_started : StageStatus → Bool
is_started StageStatus.started = true
is_started _ = false

-- The row that `create_if_absent` inserts: it names no resolution and no token.
unfoldable pub inserted_row : Analysis → Analysis
inserted_row r = record r {
  resolution_outcome = none;
  resolution_run_id = none;
  resolution_run_attempt = none;
  resolution_html_url = none;
  resolution_completed_at = none;
  recovery_seconds = none;
  attempt_token = none;
}

-- The first violated key of an insert makes it an `IntegrityError`.
unfoldable pub create_if_absent : Analysis → Store → Bool × Store
unfolding inserted_row
create_if_absent r s =
    if is_some (first (λ x. run_key r.run_id x || text_eq x.delivery_id r.delivery_id) s.analyses)
    then (false, s)
    else (true, record s { analyses = s.analyses ++ inserted_row r ∷ [] })

pub record AnalysisStart : Type 0 where
  pub attempt_started_at : ℕ
  pub queue_wait_seconds : ℕ
  pub first_start : Bool

-- The columns that `begin_analysis` writes.
unfoldable pub started_row : ℕ → ℕ → Option Text → Analysis → Analysis
started_row now wait token r = record r {
  status = running;
  error = none;
  attempt_token = token;
  analysis_started_at = some (or_else r.analysis_started_at now);
  analysis_completed_at = none;
  duration_seconds = none;
  queue_wait_seconds = some wait;
  total_latency_seconds = none;
  updated_at = now;
}

-- The stage events that an older attempt of the run left open.
abbrev open_stage : ℕ → StageRow → Bool
open_stage run_id e = (e.run_id == run_id) && is_started e.status

abbrev supersede_stage : StageRow → StageRow
supersede_stage e = record e {
  status = StageStatus.failed;
  error = some (codes "Superseded by a newer analysis attempt");
}

unfoldable pub supersede_stages : ℕ → Option Text → List StageRow → List StageRow
supersede_stages run_id none es = es
supersede_stages run_id (some t) es = update (open_stage run_id) supersede_stage es

-- What `begin_analysis` returns for a row.
abbrev pub queue_wait : ℕ → Analysis → ℕ
queue_wait now r = or_else r.queue_wait_seconds (now - r.created_at)

abbrev pub start_of : ℕ → Analysis → AnalysisStart
start_of now r = record {
  attempt_started_at = now;
  queue_wait_seconds = queue_wait now r;
  first_start = not (is_some r.analysis_started_at);
}

-- The two updates of `begin_analysis`.
unfoldable pub begun : ℕ → ℕ → Option Text → ℕ → Store → Store
unfolding started_row supersede_stages
begun now run_id token wait s = record s {
  analyses =
      update (λ r. run_key run_id r && startable token r) (started_row now wait token) s.analyses;
  stage_events = supersede_stages run_id token s.stage_events;
}

begin_body : ℕ → ℕ → Option Text → Store → Result AnalysisStart × Store
unfolding begun
begin_body now run_id token s = elim (first (run_key run_id) s.analyses) [
  | none ↦ (err superseded, s)
  | some timing ↦ (
    require_current_attempt (row_count (λ r. run_key run_id r && startable token r) s.analyses)
        token (start_of now timing),
    begun now run_id token (queue_wait now timing) s,
  )
]

unfoldable pub begin_analysis : ℕ → ℕ → Option Text → Store → Result AnalysisStart × Store
unfolding begin_body
begin_analysis now run_id token = transaction (begin_body now run_id token)

-- The columns that `finish_analysis` writes.
unfoldable pub finished_row : ℕ → ℕ → AnalysisStatus → ℕ → Analysis → Analysis
finished_row now started_at status latency r = record r {
  status = status;
  attempt_token = none;
  analysis_completed_at = some now;
  duration_seconds = some (sub_ℕ now started_at);
  total_latency_seconds = some latency;
  updated_at = now;
}

-- The update of `finish_analysis`.
unfoldable pub finished : ℕ → ℕ → ℕ → AnalysisStatus → ℕ → Option Text → Store → Store
unfolding finished_row
finished now run_id started_at status latency token s = record s {
  analyses =
      update (λ r. run_key run_id r && token_current token r)
        (finished_row now started_at status latency) s.analyses;
}

finish_body : ℕ → ℕ → ℕ → AnalysisStatus → Option Text → Store → Result ℕ × Store
unfolding finished
finish_body now run_id started_at status token s = elim (first (run_key run_id) s.analyses) [
  | none ↦ (err superseded, s)
  | some r ↦ (
    require_current_attempt (row_count (λ x. run_key run_id x && token_current token x) s.analyses)
        token (now - r.created_at),
    finished now run_id started_at status (now - r.created_at) token s,
  )
]

unfoldable pub finish_analysis : ℕ → ℕ → ℕ → AnalysisStatus → Option Text → Store → Result ℕ × Store
unfolding finish_body
finish_analysis now run_id started_at status token =
    transaction (finish_body now run_id started_at status token)

-- The optional arguments of `update`.
pub record Changes : Type 0 where
  pub classification : Option Classification
  pub diagnosis : Option Diagnosis
  pub related_files : Option (List RelatedFile)
  pub workflow_path : Option Text
  pub execution_context : Option ExecutionContext
  pub model_name : Option Text
  pub prompt_version : Option Text
  pub trust_level : Option TrustLevel
  pub baseline_sha : Option Text
  pub error : Option Text

abbrev pub no_changes : Changes
no_changes = record {
  classification = none;
  diagnosis = none;
  related_files = none;
  workflow_path = none;
  execution_context = none;
  model_name = none;
  prompt_version = none;
  trust_level = none;
  baseline_sha = none;
  error = none;
}

-- A nullable column keeps its value unless a new one is given.
abbrev replaced : {A : Type 0} → Option A → Option A → Option A
replaced none old = old
replaced (some a) old = some a

-- The columns that `update` writes.
unfoldable pub changed_row : ℕ → AnalysisStatus → Changes → Analysis → Analysis
changed_row now status c r = record r {
  status = status;
  error = c.error;
  updated_at = now;
  classification = replaced c.classification r.classification;
  diagnosis = replaced c.diagnosis r.diagnosis;
  related_files = or_else c.related_files r.related_files;
  workflow_path = replaced c.workflow_path r.workflow_path;
  execution_context = replaced c.execution_context r.execution_context;
  model_name = replaced c.model_name r.model_name;
  prompt_version = replaced c.prompt_version r.prompt_version;
  trust_level = or_else c.trust_level r.trust_level;
  baseline_sha = replaced c.baseline_sha r.baseline_sha;
}

update_body : ℕ → ℕ → AnalysisStatus → Changes → Option Text → Store → Result (Unit {0}) × Store
unfolding changed_row
update_body now run_id status c token s =
    let where_ = λ (x : Analysis). run_key run_id x && token_current token x in
    (
      require_current_attempt (row_count where_ s.analyses) token tt,
      record s { analyses = update where_ (changed_row now status c) s.analyses },
    )

-- `AnalysisStore.update`
unfoldable pub update_analysis :
    ℕ → ℕ → AnalysisStatus → Changes → Option Text → Store → Result (Unit {0}) × Store
unfolding update_body
update_analysis now run_id status c token = transaction (update_body now run_id status c token)

-- Whether the insert of `record_stage` is done: the select, if there is a token, and otherwise the
-- foreign key.
abbrev attempt_present : ℕ → Option Text → List Analysis → Bool
attempt_present run_id none rows = is_some (first (run_key run_id) rows)
attempt_present run_id (some t) rows =
    is_some (first (λ (x : Analysis). run_key run_id x && token_current (some t) x) rows)

abbrev refusal : Option Text → StoreError
refusal none = integrity
refusal (some t) = superseded

unfoldable pub record_stage :
    ℕ
    → ℕ
    → AnalysisStage
    → StageStatus
    → Option Text
    → Option Text
    → Store
    → Result (Unit {0}) × Store
record_stage now run_id stage status error token s =
    if attempt_present run_id token s.analyses
    then (
      ok tt,
      record s {
        stage_events =
            s.stage_events
            ++ record {
              run_id = run_id;
              stage = stage;
              status = status;
              error = error;
              occurred_at = now;
            }
              ∷ [];
      },
    )
    else (err (refusal token), s)

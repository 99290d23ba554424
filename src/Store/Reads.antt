-- ===== src/Store/Reads.antt =====
-- `queued_requests`, from which a restarted service fills its queue, and `_stage_history`. Rows of
-- the same time, whose order the database leaves open, are in the order of their insertion.
use pipe_lens.Common.{
  ℕ, Bool, true, false, ◌&&◌, Option, none, some, List, [], ◌∷◌, ◌++◌, map, ◌==◌, ltb, is_some,
}
use pipe_lens.Models.{Analysis, AnalysisStatus, queued, AnalysisRequest, AnalysisStageEvent}
use pipe_lens.Table.{select, order_by}
use pipe_lens.Store.{Store, StageRow}

abbrev pub is_queued : AnalysisStatus → Bool
is_queued queued = true
is_queued _ = false

-- A row whose installation is not NULL as a request.
abbrev request_of : Analysis → Option ℕ → List AnalysisRequest
request_of r none = []
request_of r (some installation) =
    record {
      run_id = r.run_id;
      repository = r.repository;
      installation_id = installation;
      head_sha = r.head_sha;
    }
    ∷ []

unfoldable pub requests_of : List Analysis → List AnalysisRequest
requests_of [] = []
requests_of (r ∷ rs) = request_of r r.installation_id ++ requests_of rs

unfoldable pub queued_requests : Store → List AnalysisRequest
unfolding requests_of
queued_requests s = requests_of (
    order_by (λ (x : Analysis) (y : Analysis). ltb x.created_at y.created_at)
      (select (λ r. is_queued r.status && is_some r.installation_id) s.analyses))

abbrev event_of : StageRow → AnalysisStageEvent
event_of e = record {
  stage = e.stage;
  status = e.status;
  error = e.error;
  occurred_at = e.occurred_at;
}

-- The entry of a run in the dict that `_stage_history` returns.
unfoldable pub stage_history : ℕ → Store → List AnalysisStageEvent
stage_history run_id s = map event_of (select (λ e. e.run_id == run_id) s.stage_events)

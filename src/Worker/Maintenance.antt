-- ===== src/Worker/Maintenance.antt =====
-- `AnalysisWorker._maintain_queue_once`: the lease is renewed before orphaned jobs are recovered.
use pipe_lens.Common.{ℕ, ◌+◌, ◌==◌, if◌then◌else◌}

-- What it calls of an `AnalysisQueue` with the state `Q`.
pub record MaintenanceApi (Q : Type 0) : Type 0 where
  pub heartbeat : Q → Q
  pub recover_orphaned : Q → ℕ × Q

-- The queue and the metric `queue_recovered`.
unfoldable pub maintain_queue_once : {Q : Type 0} → MaintenanceApi Q → Q → ℕ → Q × ℕ
maintain_queue_once api q queue_recovered =
    let (recovered, q') = api.recover_orphaned (api.heartbeat q) in
    (q', if recovered == 0 then queue_recovered else queue_recovered + recovered)

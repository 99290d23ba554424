-- ===== src/Worker/Tests.antt =====
-- A worker over a queue with one job, whose analysis raises.
use pipe_lens.Common.{◌≡◌, refl, codes, some}
use pipe_lens.Store.{Store}
use pipe_lens.Queue.{QueueEnvelope, fresh}
use pipe_lens.Queue.Memory.{empty_queue}
use pipe_lens.Worker.{WorkerMetrics, WorkerState, process_next}
use pipe_lens.Worker.Analysis.{run_pipeline, Settled, process_next-Settled}
use pipe_lens.Worker.Attempts.{memory_api, only}
use pipe_lens.Models.{queued_record}
use pipe_lens.Store.Tests.{row, stored, stored-IsValid}
use pipe_lens.Pipeline.Tests.{services, settings, request, row_found}
use pipe_lens.Queue.Memory.{MemoryQueue}
use pipe_lens.Common.{true}
use pipe_lens.Worker.Attempts.{rounds, holding, IsFailed, retries_end}

abbrev envelope : QueueEnvelope
envelope =
    fresh
      (record { run_id = 7; repository = codes "o/r"; installation_id = 3; head_sha = codes "a" })

abbrev metrics : WorkerMetrics
metrics = record { queue_depth = 1; queue_retries = 0; analyses_failed = 0 }

retries_end_example :
    (st' : Store) × (rounds
        (codes "boom")
        (λ s. s)
        3
        3
        90
        (holding (codes "boom") (λ s. s) 3 envelope (stored row) metrics)
      ≡ some (record {
        queue = empty_queue;
        store = st';
        metrics = record { queue_depth = 0; queue_retries = 2; analyses_failed = 1 };
      }))
    × IsFailed (codes "boom") (λ s. s) 3 7 st'
retries_end_example =
    retries_end (codes "boom") (λ s. s) 3 2 90 envelope (stored row) metrics refl (row, row_found)
      (λ s there. there)

process_next-Settled_example :
    (s' : WorkerState MemoryQueue) × (process_next memory_api
        (run_pipeline services settings (codes "k"))
        3
        90
        (record { queue = only (fresh request); store = stored row; metrics = metrics })
      ≡ some (true, s'))
    × Settled 3 (fresh request) s'
unfolding fresh
process_next-Settled_example =
    process_next-Settled services settings (codes "k") 3 90 (fresh request) metrics (stored row) row
      (λ n st. refl) (stored-IsValid row) row_found (unfold queued_record in refl)

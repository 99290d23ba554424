-- ===== src/Queue.antt =====
-- src/pipelens/queue.py: the jobs, and the two implementations of `AnalysisQueue`.
pub mod Memory
pub mod Redis
mod Tests
use pipe_lens.Common.{ℕ, ◌+◌, Text, Option}
use pipe_lens.Models.{AnalysisRequest}

pub record QueueEnvelope : Type 0 where
  pub request : AnalysisRequest
  pub attempts : ℕ

pub record QueueJob : Type 0 where
  pub envelope : QueueEnvelope
  pub receipt : Option Text

-- `request=request`, with `attempts` at its default.
abbrev pub fresh : AnalysisRequest → QueueEnvelope
fresh request = record { request = request; attempts = 0 }

-- `envelope.model_copy(update={"attempts": envelope.attempts + 1})`
abbrev pub retried : QueueEnvelope → QueueEnvelope
retried e = record e { attempts = e.attempts + 1 }

abbrev pub run_of : QueueEnvelope → ℕ
run_of e = e.request.run_id

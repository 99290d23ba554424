-- ===== src/HttpRetry/Tests.antt =====
-- A server that is out of order for two requests.
use pipe_lens.Common.{ℕ, ◌+◌, ◌≡◌, ◌<◌, refl, codes, false, none, arith, zero, suc, text_eq, member}
use pipe_lens.Common.Sets.{has}
use pipe_lens.Regex.Build.{ascii}
use pipe_lens.HttpRetry.{
  RetryPolicy, accepts_policy, Response, Reply, response, transport_error, World, returned,
  retry_reason, request_with_retry, idempotent_methods, raised, crashed, no_code, malformed,
}
use pipe_lens.HttpRetry.Bounds.{IsBounded, request_with_retry-IsBounded}
use pipe_lens.HttpRetry.Progress.{IsOutage, unreachable, failing, outage_survived}

abbrev policy : RetryPolicy
policy = record {
  max_attempts = 3;
  base_delay = 1000000;
  max_delay = 60000000;
  jitter_ratio = 250000;
}

abbrev answer : ℕ → Response
answer status = record {
  status_code = status;
  retry_after = none;
  ratelimit_remaining = none;
  ratelimit_reset = none;
  body = codes "";
  error_code = no_code;
}

abbrev world : World
world = record {
  reply = replies;
  time = λ n. 0;
  uniform = λ n bound. 0;
  float = λ s. none;
  date = λ s. none;
}
  where
    replies : ℕ → Reply
    replies zero = transport_error
    replies (suc zero) = transport_error
    replies (suc (suc zero)) = response (answer 503)
    replies (suc (suc (suc n))) = response (answer 200)

post_test : (request_with_retry world policy ascii (codes "post") false).ending ≡ raised
unfolding request_with_retry idempotent_methods member text_eq
post_test = refl

-- A 429 whose JSON is a list.
abbrev list_world : World
list_world = record world { reply = λ n. response (record (answer 429) { error_code = malformed }) }

malformed_test : (request_with_retry list_world policy ascii (codes "get") false).ending ≡ crashed
unfolding request_with_retry has
malformed_test = refl

request_with_retry-IsBounded_example :
    IsBounded world policy ascii false
      (codes "GET")
      3
      (request_with_retry world policy ascii (codes "get") false)
request_with_retry-IsBounded_example =
    request_with_retry-IsBounded world policy ascii false (codes "get")
      (unfold accepts_policy in refl)

two_outages : (i : ℕ) → i < 2 → IsOutage (world.reply (1 + i))
unfolding has
two_outages zero lt = unreachable
two_outages (suc zero) lt = failing (answer 503) refl refl refl
two_outages (suc (suc n)) lt = ground arith

outage_survived_example :
    let run = request_with_retry world policy ascii (codes "get") false in
    (run.ending ≡ returned (answer 200)) × (run.requests ≡ 3)
outage_survived_example =
    outage_survived world policy ascii (codes "get") false 2 (answer 200)
      (unfold member idempotent_methods text_eq in refl) (omega arith) (omega arith) two_outages
      refl (unfold retry_reason has in refl)

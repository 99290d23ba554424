-- ===== src/Webhook/Tests.antt =====
-- A delivery of a failed run, and a restart.
use pipe_lens.Common.{◌≡◌, refl, Text, codes, false, none, some, [], ◌++◌, All}
use pipe_lens.Common.Sets.{has}
use pipe_lens.Models.{queued_record}
use pipe_lens.Table.{first, select, order_by}
use pipe_lens.Store.{Store, run_key}
use pipe_lens.Store.Tests.{row, stored}
use pipe_lens.Queue.Memory.{empty_queue, enqueue}
use pipe_lens.Queue.Memory.Runs.{here}
use pipe_lens.Webhook.{
  Payload, Body, Delivery, accepted, invalid_signature, unhandled, github_webhook, on_failure,
  reconcile_queued_analyses,
}
use pipe_lens.Webhook.Recovery.{
  put, Reconciled, HasJob, reconcile_queued_analyses-Reconciled, on_failure-Enqueued,
}

abbrev hexdigest : Text → Text → Text
hexdigest secret body = secret ++ body

abbrev failure : Payload
failure = record {
  repository = codes "o/r";
  action = some (codes "completed");
  conclusion = some (codes "failure");
  values = some (record {
    run_id = 7;
    run_attempt = 1;
    workflow_name = codes "ci";
    head_branch = some (codes "main");
    pull_request_number = none;
    completed_at = 40;
    html_url = codes "u";
  });
  head_sha = some (codes "a");
  installation = some (some 3);
}

abbrev delivery : Text → Delivery
delivery signature = record {
  body = codes "{}";
  event = some (codes "workflow_run");
  delivery_id = some (codes "d");
  signature = some signature;
}

abbrev no_rows : Store
no_rows = record { analyses = []; stage_events = []; feedback = [] }

accepted_test :
    (github_webhook hexdigest put false
      (λ body. Body.payload failure)
      (codes "k")
      50
      (delivery (codes "sha256=k{}"))
      no_rows
      empty_queue).0
    ≡ record { status_code = 202; outcome = accepted }
unfolding github_webhook enqueue has order_by select
accepted_test = refl

forged_test :
    github_webhook hexdigest put false
      (λ body. Body.payload failure)
      (codes "k")
      50
      (delivery (codes "sha256=x{}"))
      no_rows
      empty_queue
    ≡ (record { status_code = 401; outcome = invalid_signature }, no_rows, empty_queue)
unfolding github_webhook
forged_test = refl

non_ascii_test :
    (github_webhook hexdigest put false
      (λ body. Body.payload failure)
      (codes "k")
      50
      (delivery (codes "sha256=k{é}"))
      no_rows
      empty_queue).0
    ≡ record { status_code = 500; outcome = unhandled }
unfolding github_webhook
non_ascii_test = refl

reconcile_queued_analyses-Reconciled_example :
    All
      (Reconciled [] (reconcile_queued_analyses enqueue (stored row) empty_queue).1)
      (stored row).analyses
reconcile_queued_analyses-Reconciled_example =
    reconcile_queued_analyses-Reconciled (stored row) empty_queue [] here

on_failure-Enqueued_example :
    let (a, s', q') =
      on_failure hexdigest put false
        (λ body. Body.payload failure)
        (codes "k")
        row
        no_rows
        empty_queue in
    (a.status_code ≡ 202)
    × HasJob hexdigest false
        (λ body. Body.payload failure)
        (codes "k")
        []
        row.delivery_id
        no_rows
        q'
        (first (run_key row.run_id) s'.analyses)
on_failure-Enqueued_example =
    on_failure-Enqueued hexdigest false (λ body. Body.payload failure) (codes "k") [] row no_rows
      empty_queue (unfold queued_record in refl) here

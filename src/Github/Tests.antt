-- ===== src/Github/Tests.antt =====
-- A fork whose pull request GitHub leaves out of the run.
use pipe_lens.Common.{◌≡◌, refl, Text, codes, none, some, [], ◌∷◌}
use pipe_lens.Models.{trusted, untrusted_fork, unverified}
use pipe_lens.Regex.{casefold}
use pipe_lens.Regex.Build.{ascii}
use pipe_lens.Github.{
  PullRequest, WorkflowRun, trust_of, trust_level, resolve_external_pull_request,
}

abbrev fork_run : WorkflowRun
fork_run = record {
  event = some (codes "pull_request");
  head_repository = some (record { id = none; full_name = some (codes "Eve/r") });
  head_branch = some (codes "main");
  pull_requests = [];
}

abbrev pull_request : Text → PullRequest
pull_request sha = record {
  number = 4;
  sha = some sha;
  head = some (record { id = some 2; full_name = some (codes "eve/r") });
  base = some (record { id = some 1; full_name = some (codes "o/R") });
}

resolved_test :
    resolve_external_pull_request ascii
      (λ owner branch. pull_request (codes "a") ∷ pull_request (codes "b") ∷ [])
      (codes "o/r")
      (codes "b")
      fork_run
    ≡ record fork_run { pull_requests = pull_request (codes "b") ∷ [] }
unfolding resolve_external_pull_request casefold
resolved_test = refl

fork_test :
    trust_level ascii (codes "o/r") (record fork_run { pull_requests = pull_request [] ∷ [] })
    ≡ untrusted_fork
unfolding trust_of casefold
fork_test = refl

other_base_test :
    trust_level ascii (codes "o/x") (record fork_run { pull_requests = pull_request [] ∷ [] })
    ≡ unverified
unfolding trust_of casefold
other_base_test = refl

own_branch_test : trust_level ascii (codes "EVE/R") fork_run ≡ trusted
unfolding trust_of casefold
own_branch_test = refl

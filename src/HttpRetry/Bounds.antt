-- ===== src/HttpRetry/Bounds.antt =====
-- How often a request is made, and how long is waited between.
use pipe_lens.Common.{
  ℕ, zero, suc, ◌+◌, ◌≤◌, ◌≡◌, ◌≢◌, refl, Text, member, Bool, true, false, ◌&&◌, ◌==◌, Option, none,
  some, length, All, leb, ◌⊎◌, ==_false, if◌then◌else◌, Bool-cases, Option-cases, inl, inr, arith,
}
use pipe_lens.Regex.{Unicode}
use pipe_lens.Common.Sets.{has}
use pipe_lens.HttpRetry.{
  RetryPolicy, accepts_policy, World, Reply, response, transport_error, failure, Response,
  ErrorCode, no_code, malformed, code, Reason, transport, rate_limit, server, Wait, Ending,
  returned, raised, crashed, exited, Run, waiting, ends, idempotent_methods, action_required_codes,
  limited_reason, retry_reason, transient_status_codes, requires_user_action, is_rate_limited,
  retry_after_delay, jittered_delay, backoff_delay, response_delay, response_delay_of, on_delay,
  on_reason, on_backoff, on_response, on_reply, attempts_from, request_with_retry, upper,
}

abbrev pub is_malformed : ErrorCode → Bool
is_malformed no_code = false
is_malformed malformed = true
is_malformed (code t) = false

module _ (w : World) (policy : RetryPolicy) (u : Unicode) (rate_limited_403 : Bool) where
  abbrev pub DelayBounded : Wait → Type 0
  DelayBounded x = x.delay ≤ policy.max_delay

  -- A wait after a transport error belongs to a method that may be repeated.
  abbrev pub Repeatable : Text → Wait → Type 0
  Repeatable method x = (x.reason ≡ transport) → member method idempotent_methods ≡ true

  -- Why another exception than the transport error can leave the call: a reply of the kind that the
  -- code does not expect, or more attempts than a power of two in a float allows.
  abbrev pub is_broken : Reply → Bool
  is_broken (response r) = (r.status_code == 429) && is_malformed r.error_code
  is_broken transport_error = false
  is_broken failure = true

  abbrev pub Cause : Type 0
  Cause =
      ((k : ℕ) × (k ≤ policy.max_attempts) × (is_broken (w.reply k) ≡ true))
      ⊎ (1025 ≤ policy.max_attempts)

  -- A run of at most `n` requests, with a wait between each two.
  pub record IsBounded (method : Text) (n : ℕ) (run : Run) : Type 0 where
    pub ended : run.ending ≢ exited
    pub cause : run.ending ≡ crashed → Cause
    pub some_request : 1 ≤ run.requests
    pub few_requests : run.requests ≤ n
    pub one_wait_each : length run.waits + 1 ≡ run.requests
    pub delays : All DelayBounded run.waits
    pub repeatable : All (Repeatable method) run.waits

  backoff_delay_bounded :
      (attempt delay : ℕ) → backoff_delay w policy attempt ≡ some delay → delay ≤ policy.max_delay
  unfolding backoff_delay jittered_delay
  backoff_delay_bounded attempt delay h = elim (Bool-cases (leb 1025 attempt)) [
    | inl many ↦ cc (rw many at h)
    | inr few ↦
        let same : some (jittered_delay w policy attempt) ≡ some delay = rw few at h in
        ground (arith, same)
  ]

  backoff_delay-none : (attempt : ℕ) → backoff_delay w policy attempt ≡ none → 1025 ≤ attempt
  unfolding backoff_delay
  backoff_delay-none attempt h = ground (arith, h)

  response_delay_of_bounded :
      (attempt : ℕ) (r : Response) (o : Option ℕ) (delay : ℕ)
      → response_delay_of w policy attempt r o ≡ some (some delay)
      → delay ≤ policy.max_delay
  response_delay_of_bounded attempt r (some d) delay h = ground arith
  response_delay_of_bounded attempt r none delay h =
      elim (Option-cases (backoff_delay w policy attempt)) [
        | inl e ↦ ground (arith, e, h)
        | inr (d, e) ↦ ground (arith, e, h, backoff_delay_bounded attempt d e)
      ]

  response_delay_of-none :
      (attempt : ℕ) (r : Response) (o : Option ℕ)
      → response_delay_of w policy attempt r o ≡ none
      → 1025 ≤ attempt
  response_delay_of-none attempt r (some d) h = ground arith
  response_delay_of-none attempt r none h = elim (Option-cases (backoff_delay w policy attempt)) [
    | inl e ↦ backoff_delay-none attempt e
    | inr (d, e) ↦ ground (arith, e, h)
  ]

  waiting-IsBounded :
      (method : Text) (n : ℕ) (reason : Reason) (attempt delay : ℕ) (rest : Run)
      → delay ≤ policy.max_delay
      → (reason ≡ transport → member method idempotent_methods ≡ true)
      → IsBounded method n rest
      → IsBounded method (suc n) (waiting w policy reason attempt delay rest)
  waiting-IsBounded method n reason attempt delay rest le ok b = record {
    ended = b.ended;
    cause = b.cause;
    some_request = omega arith;
    few_requests = omega (arith, b.few_requests);
    one_wait_each = omega (arith, b.one_wait_each);
    delays = (le, b.delays);
    repeatable = (ok, b.repeatable);
  }

  ends-IsBounded :
      (method : Text) (n : ℕ) (ending : Ending)
      → ending ≢ exited
      → (ending ≡ crashed → Cause)
      → IsBounded method (suc n) (ends w policy ending)
  ends-IsBounded method n ending ne why = record {
    ended = ne;
    cause = why;
    some_request = omega arith;
    few_requests = omega arith;
    one_wait_each = refl;
    delays = tt;
    repeatable = tt;
  }

  raised-IsBounded : (method : Text) (n : ℕ) → IsBounded method (suc n) (ends w policy raised)
  raised-IsBounded method n = ends-IsBounded method n raised (λ e. cc) (λ e. cc)

  returned-IsBounded :
      (method : Text) (n : ℕ) (r : Response) → IsBounded method (suc n) (ends w policy (returned r))
  returned-IsBounded method n r = ends-IsBounded method n (returned r) (λ e. cc) (λ e. cc)

  crashed-IsBounded :
      (method : Text) (n : ℕ) → Cause → IsBounded method (suc n) (ends w policy crashed)
  crashed-IsBounded method n why = ends-IsBounded method n crashed (λ e. cc) (λ e. why)

  limited_reason-other :
      (o : Option Bool) (reason : Reason)
      → limited_reason o ≡ some (some reason)
      → reason ≢ transport
  limited_reason-other none reason h = ground arith
  limited_reason-other (some true) reason h = ground arith
  limited_reason-other (some false) reason h = ground arith

  -- The reasons of `retry_reason`, by its tests.
  abbrev picked : Bool → Bool → Option (Option Reason) → Bool → Option (Option Reason)
  picked transient limited by_code forbidden =
      if transient
      then if limited then by_code else some (some server)
      else if forbidden
      then some (some rate_limit)
      else some none

  picked-other :
      (a b d : Bool) (o : Option Bool) (reason : Reason)
      → picked a b (limited_reason o) d ≡ some (some reason)
      → reason ≢ transport
  picked-other true true d o reason h = limited_reason-other o reason h
  picked-other true false d o reason h = ground arith
  picked-other false b true o reason h = ground arith
  picked-other false b false o reason h = ground arith

  picked-none :
      (a b d : Bool) (o : Option Bool)
      → picked a b (limited_reason o) d ≡ none
      → (b ≡ true) × (o ≡ none)
  picked-none true true d none h = (refl, refl)
  picked-none true true d (some true) h = cc h
  picked-none true true d (some false) h = cc h
  picked-none true false d o h = cc h
  picked-none false b true o h = cc h
  picked-none false b false o h = cc h

  retry_reason_other :
      (r : Response) (reason : Reason)
      → retry_reason u rate_limited_403 r ≡ some (some reason)
      → reason ≢ transport
  unfolding retry_reason
  retry_reason_other r reason h =
      picked-other (has r.status_code transient_status_codes) (r.status_code == 429)
        ((r.status_code == 403) && rate_limited_403 && is_rate_limited u r) (requires_user_action r)
        reason h

  action-malformed :
      (r : Response) → requires_user_action r ≡ none → is_malformed r.error_code ≡ true
  unfolding requires_user_action
  action-malformed r h = by_code r.error_code h
    where
      by_code :
          (c : ErrorCode)
          → elim c [
            | no_code ↦ some false
            | malformed ↦ none
            | code t ↦ some (member t action_required_codes)
          ]
            ≡ none
          → is_malformed c ≡ true
      by_code no_code e = cc e
      by_code malformed e = refl
      by_code (code t) e = cc e

  retry_reason-broken :
      (r : Response) → retry_reason u rate_limited_403 r ≡ none → is_broken (response r) ≡ true
  unfolding retry_reason
  retry_reason-broken r h =
      let (limited, action) =
        picked-none (has r.status_code transient_status_codes) (r.status_code == 429)
          ((r.status_code == 403) && rate_limited_403 && is_rate_limited u r)
          (requires_user_action r) h in
      rw (limited, action-malformed r action) refl

  module _ (method : Text) (n attempt : ℕ) (few : attempt ≤ policy.max_attempts) (rest : Run)
      (ih : attempt ≢ policy.max_attempts → IsBounded method n rest) where
    on_delay-IsBounded :
        (reason : Reason) (r : Response)
        → reason ≢ transport
        → attempt ≢ policy.max_attempts
        → (o : Option (Option ℕ)) → response_delay w policy attempt r ≡ o
        → IsBounded method
            (suc n)
            (on_delay w policy u method rate_limited_403 reason attempt r rest o)
    unfolding response_delay
    on_delay-IsBounded reason r other more none e =
        let many =
          response_delay_of-none attempt r (retry_after_delay w policy (w.time attempt) r) e in
        crashed-IsBounded method n (inr (omega (arith, many, few)))
    on_delay-IsBounded reason r other more (some none) e = returned-IsBounded method n r
    on_delay-IsBounded reason r other more (some (some delay)) e =
        waiting-IsBounded method n reason attempt delay rest
          (response_delay_of_bounded attempt r (retry_after_delay w policy (w.time attempt) r) delay
            e)
          (λ t. elim (other t) [ ]) (ih more)

    on_reason-IsBounded :
        (r : Response)
        → (is_broken (response r) ≡ true → Cause)
        → (o : Option (Option Reason)) → retry_reason u rate_limited_403 r ≡ o
        → IsBounded method (suc n) (on_reason w policy u method rate_limited_403 attempt r rest o)
    on_reason-IsBounded r why none e = crashed-IsBounded method n (why (retry_reason-broken r e))
    on_reason-IsBounded r why (some none) e = returned-IsBounded method n r
    on_reason-IsBounded r why (some (some reason)) e =
        elim (Bool-cases (attempt == policy.max_attempts)) [
          | inl last ↦ rw last (returned-IsBounded method n r)
          | inr more ↦ rw more (
              on_delay-IsBounded reason r (retry_reason_other r reason e)
                (==_false attempt policy.max_attempts more) (response_delay w policy attempt r)
                refl)
        ]

    on_backoff-IsBounded :
        member method idempotent_methods ≡ true
        → attempt ≢ policy.max_attempts
        → (o : Option ℕ) → backoff_delay w policy attempt ≡ o
        → IsBounded method (suc n) (on_backoff w policy u method rate_limited_403 attempt rest o)
    on_backoff-IsBounded may more none e =
        let many = backoff_delay-none attempt e in
        crashed-IsBounded method n (inr (omega (arith, many, few)))
    on_backoff-IsBounded may more (some delay) e =
        waiting-IsBounded method n transport attempt delay rest
          (backoff_delay_bounded attempt delay e) (λ t. may) (ih more)

    on_reply-IsBounded :
        (reply : Reply)
        → (is_broken reply ≡ true → Cause)
        → IsBounded method (suc n) (on_reply w policy u method rate_limited_403 attempt reply rest)
    unfolding on_reply on_response
    on_reply-IsBounded (response r) why =
        on_reason-IsBounded r why (retry_reason u rate_limited_403 r) refl
    on_reply-IsBounded failure why = crashed-IsBounded method n (why refl)
    on_reply-IsBounded transport_error why = elim (Bool-cases (attempt == policy.max_attempts)) [
      | inl last ↦ rw last (raised-IsBounded method n)
      | inr more ↦ elim (Bool-cases (member method idempotent_methods)) [
        | inr off ↦ rw (more, off) (raised-IsBounded method n)
        | inl may ↦
            rw (more, may)
              (on_backoff-IsBounded may (==_false attempt policy.max_attempts more)
                (backoff_delay w policy attempt) refl)
      ]
    ]

  attempts_from-IsBounded :
      (method : Text) (n attempt : ℕ)
      → attempt + n ≡ policy.max_attempts
      → IsBounded method (suc n) (attempts_from w policy u method rate_limited_403 (suc n) attempt)
  unfolding attempts_from
  attempts_from-IsBounded method zero attempt h =
      on_reply-IsBounded method zero attempt (omega arith)
        (attempts_from w policy u method rate_limited_403 zero (suc attempt))
        (λ ne. elim (ne (omega arith)) [ ]) (w.reply attempt)
        (λ broken. inl (attempt, omega arith, broken))
  attempts_from-IsBounded method (suc n) attempt h =
      on_reply-IsBounded method (suc n) attempt (omega arith)
        (attempts_from w policy u method rate_limited_403 (suc n) (suc attempt))
        (λ ne. attempts_from-IsBounded method n (suc attempt) (omega arith)) (w.reply attempt)
        (λ broken. inl (attempt, omega arith, broken))

  1≰0 : ¬ (1 ≤ 0)
  1≰0 h = omega arith

  all_attempts-IsBounded :
      (method : Text) (n : ℕ)
      → n ≡ policy.max_attempts
      → 1 ≤ n
      → IsBounded method n (attempts_from w policy u method rate_limited_403 n 1)
  all_attempts-IsBounded method zero e h = elim (1≰0 h) [ ]
  all_attempts-IsBounded method (suc n) e h = attempts_from-IsBounded method n 1 (omega (arith, e))

  -- Under an accepted policy, whatever comes back, `request_with_retry` ends by a response or an
  -- exception, never behind its loop, after at most `max_attempts` requests, with a wait between each
  -- two that is never longer than `max_delay`; after a transport error it asks again only with a method
  -- that may be repeated. The exception is the transport error, unless the client raises another one, a
  -- 429 has a malformed error code, or the policy allows more than 1,024 attempts.
  pub request_with_retry-IsBounded :
      (method : Text)
      → accepts_policy policy ≡ true
      → IsBounded
          (upper method)
          policy.max_attempts
          (request_with_retry w policy u method rate_limited_403)
  unfolding request_with_retry accepts_policy
  request_with_retry-IsBounded method accepted =
      all_attempts-IsBounded (upper method) policy.max_attempts refl (ground arith)

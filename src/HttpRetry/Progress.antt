-- ===== src/HttpRetry/Progress.antt =====
-- An outage that is shorter than the attempts is survived.
use pipe_lens.Common.{
  ℕ, zero, suc, ◌+◌, ◌<◌, ◌≤◌, ◌≡◌, refl, Text, codes, member, falsy, Bool, true, false, ◌==◌, none,
  some, List, [], ◌∷◌, arith, ap, subst, ◌∙◌,
}
use pipe_lens.Common.Sets.{has}
use pipe_lens.Regex.{Unicode}
use pipe_lens.HttpRetry.{
  RetryPolicy, World, Reply, response, transport_error, Response, Run, returned, is_text,
  idempotent_methods, transient_status_codes, retry_reason, retry_after_delay, reset_delay,
  jittered_delay, backoff_delay, response_delay, on_response, on_reply, attempts_from,
  request_with_retry, upper,
}

abbrev pub outage_codes : List ℕ
outage_codes = 408 ∷ 500 ∷ 502 ∷ 503 ∷ 504 ∷ []

-- A reply of a server that is out of order: none at all, or a status that says so with no header that
-- limits the rate.
pub data IsOutage : Reply → Type 0 where
  unreachable : IsOutage transport_error
  failing :
      (r : Response)
      → has r.status_code outage_codes ≡ true
      → falsy r.retry_after ≡ true
      → is_text (codes "0") r.ratelimit_remaining ≡ false
      → IsOutage (response r)

outage_status :
    (n : ℕ)
    → has n outage_codes ≡ true
    → (has n transient_status_codes ≡ true) × ((n == 429) ≡ false) × ((n == 403) ≡ false)
unfolding has transient_status_codes
outage_status n h = (ground arith, ground arith, ground arith)

module _ (w : World) (policy : RetryPolicy) (u : Unicode) (method : Text)
    (rate_limited_403 : Bool) where
  -- The next attempt decides how the run ends.
  abbrev Continues : Run → Run → Type 0
  Continues rest run = (run.ending ≡ rest.ending) × (run.requests ≡ suc rest.requests)

  backoff_delay-some :
      (attempt : ℕ)
      → attempt ≤ 1024
      → backoff_delay w policy attempt ≡ some (jittered_delay w policy attempt)
  unfolding backoff_delay
  backoff_delay-some attempt few = ground (arith, few)

  failing-response_delay :
      (attempt : ℕ) (r : Response)
      → falsy r.retry_after ≡ true
      → is_text (codes "0") r.ratelimit_remaining ≡ false
      → (r.status_code == 403) ≡ false
      → attempt ≤ 1024
      → response_delay w policy attempt r ≡ some (some (jittered_delay w policy attempt))
  unfolding response_delay retry_after_delay reset_delay
  failing-response_delay attempt r no_header no_limit not_403 few =
      rw (no_header, no_limit, not_403) (rw (backoff_delay-some attempt few) refl)

  failing-Continues :
      (attempt : ℕ) (r : Response) (rest : Run)
      → has r.status_code outage_codes ≡ true
      → falsy r.retry_after ≡ true
      → is_text (codes "0") r.ratelimit_remaining ≡ false
      → (attempt == policy.max_attempts) ≡ false
      → attempt ≤ 1024
      → Continues rest (on_response w policy u method rate_limited_403 attempt r rest)
  unfolding on_response retry_reason
  failing-Continues attempt r rest status no_header no_limit more few =
      let (transient, not_429, not_403) = outage_status r.status_code status in
      rw (transient, not_429, more, failing-response_delay attempt r no_header no_limit not_403 few)
        (refl, refl)

  outage-Continues :
      (attempt : ℕ) (reply : Reply) (rest : Run)
      → member method idempotent_methods ≡ true
      → IsOutage reply
      → (attempt == policy.max_attempts) ≡ false
      → attempt ≤ 1024
      → Continues rest (on_reply w policy u method rate_limited_403 attempt reply rest)
  unfolding on_reply
  outage-Continues attempt transport_error rest may unreachable more few =
      rw (more, may, backoff_delay-some attempt few) (refl, refl)
  outage-Continues attempt _ rest may (failing r status no_header no_limit) more few =
      failing-Continues attempt r rest status no_header no_limit more few

  not_last :
      {attempt : ℕ} → attempt < policy.max_attempts → (attempt == policy.max_attempts) ≡ false
  not_last lt = ground arith

  outage_survived_from :
      (k left attempt : ℕ) (r : Response)
      → member method idempotent_methods ≡ true
      → k < left
      → attempt + left ≡ suc policy.max_attempts
      → attempt + k ≤ 1025
      → ((i : ℕ) → i < k → IsOutage (w.reply (attempt + i)))
      → w.reply (attempt + k) ≡ response r
      → retry_reason u rate_limited_403 r ≡ some none
      → let run = attempts_from w policy u method rate_limited_403 left attempt in
        (run.ending ≡ returned r) × (run.requests ≡ suc k)
  unfolding attempts_from
  outage_survived_from k zero attempt r may lt e few out reply fine = ground arith
  outage_survived_from zero (suc left) attempt r may lt e few out reply fine =
      let here : w.reply attempt ≡ response r = ap w.reply (omega arith) ∙ reply in
      rw here (unfold on_reply on_response in rw fine (refl, refl))
  outage_survived_from (suc k) (suc left) attempt r may lt e few out reply fine =
      let later = attempts_from w policy u method rate_limited_403 left (suc attempt) in
      let now_out : IsOutage (w.reply attempt) =
        subst (λ n. IsOutage (w.reply n)) (omega arith) (out 0 (omega arith)) in
      let (ends, counts) =
        outage_survived_from k left (suc attempt) r may (omega arith) (omega arith) (omega arith)
          (λ i lt'. subst (λ n. IsOutage (w.reply n)) (omega arith) (out (suc i) (omega arith)))
          (ap w.reply (omega arith) ∙ reply) fine in
      let (same, one_more) =
        outage-Continues attempt (w.reply attempt) later may now_out (not_last (omega arith))
          (omega arith) in
      (same ∙ ends, omega (arith, one_more, counts))

-- When the first `k` replies are outages, `k` is less than `max_attempts` and at most 1,024, which is
-- how far the delay can be doubled in a float, the method may be repeated, and the next reply is a response with no reason to retry, `request_with_retry` returns
-- that response after exactly `k + 1` requests.
pub outage_survived :
    (w : World) (policy : RetryPolicy) (u : Unicode) (method : Text) (rate_limited_403 : Bool)
    (k : ℕ) (r : Response)
    → member (upper method) idempotent_methods ≡ true
    → k < policy.max_attempts
    → k ≤ 1024
    → ((i : ℕ) → i < k → IsOutage (w.reply (1 + i)))
    → w.reply (1 + k) ≡ response r
    → retry_reason u rate_limited_403 r ≡ some none
    → let run = request_with_retry w policy u method rate_limited_403 in
      (run.ending ≡ returned r) × (run.requests ≡ suc k)
unfolding request_with_retry
outage_survived w policy u method rate_limited_403 k r may lt few out reply fine =
    outage_survived_from w policy u (upper method) rate_limited_403 k policy.max_attempts 1 r may lt
      (omega arith) (omega arith) out reply fine

-- ===== src/HttpRetry.antt =====
-- src/pipelens/http_retry.py: `request_with_retry`. The replies of the server, the clock and the
-- random numbers are parameters of an attempt. Delays are microseconds and ratios millionths. The
-- readers of a number and of a date in a header are parameters too: `none` is their exception.
pub mod Bounds
pub mod Progress
mod Tests
use pipe_lens.Common.{
  ℕ, zero, suc, ◌+◌, ◌-◌, ◌*◌, ◌/◌, ◌^◌, min, max, Text, codes, text_eq, contains, member, falsy,
  Bool, true, false, not, ◌&&◌, ◌||◌, Option, none, some, List, [], ◌∷◌, map, ◌==◌, ltb, leb,
  if◌then◌else◌, is_some, or_else,
}
use pipe_lens.Common.Int.{ℤ, pos, negsuc}
use pipe_lens.Common.Sets.{has}
use pipe_lens.Regex.{Unicode, casefold}

pub record RetryPolicy : Type 0 where
  pub max_attempts : ℕ
  pub base_delay : ℕ
  pub max_delay : ℕ
  pub jitter_ratio : ℕ

-- `RetryPolicy.__post_init__`: the delays and the ratio are not negative by their type.
unfoldable pub accepts_policy : RetryPolicy → Bool
accepts_policy p = leb 1 p.max_attempts && leb p.jitter_ratio 1000000

-- What `_requires_user_action` reads of the JSON of a response: no code under `error`, also where the
-- body is no JSON; a text; or a value of another kind than the code expects (a list, a text under
-- `error`, a code that has no hash), for which it raises.
pub data ErrorCode : Type 0 where
  no_code malformed : ErrorCode
  code : Text → ErrorCode

-- What is read of a response.
pub record Response : Type 0 where
  pub status_code : ℕ
  pub retry_after : Option Text
  pub ratelimit_remaining : Option Text
  pub ratelimit_reset : Option Text
  pub body : Text
  pub error_code : ErrorCode

-- `client.request` returns a response, or raises `httpx.TransportError` or another exception.
pub data Reply : Type 0 where
  response : Response → Reply
  transport_error failure : Reply

pub data Reason : Type 0 where
  transport rate_limit server : Reason

-- A call of the observer and of `sleep`.
pub record Wait : Type 0 where
  pub reason : Reason
  pub attempt : ℕ
  pub delay : ℕ

-- How the call ends: `raised` is the transport error, `exited` the `AssertionError` behind the loop,
-- `crashed` any other exception.
pub data Ending : Type 0 where
  returned : Response → Ending
  raised crashed exited : Ending

pub record Run : Type 0 where
  pub ending : Ending
  pub requests : ℕ
  pub waits : List Wait

-- What the environment gives an attempt: the reply, `time.time()`, and `random.uniform(0, bound)`.
pub record World : Type 0 where
  pub reply : ℕ → Reply
  pub time : ℕ → ℕ
  pub uniform : ℕ → ℕ → ℕ
  pub float : Text → Option ℤ
  pub date : Text → Option ℤ

unfoldable pub idempotent_methods : List Text
idempotent_methods =
    codes "GET" ∷ codes "HEAD" ∷ codes "OPTIONS" ∷ codes "PUT" ∷ codes "DELETE" ∷ []

unfoldable pub transient_status_codes : List ℕ
transient_status_codes = 408 ∷ 429 ∷ 500 ∷ 502 ∷ 503 ∷ 504 ∷ []

unfoldable pub action_required_codes : List Text
action_required_codes =
    codes "billing_hard_limit_reached"
    ∷ codes "billing_not_active"
    ∷ codes "insufficient_quota"
    ∷ []

abbrev is_text : Text → Option Text → Bool
is_text t none = false
is_text t (some s) = text_eq s t

-- `none` is an `AttributeError` or a `TypeError`, here and below.
unfoldable pub requires_user_action : Response → Option Bool
unfolding action_required_codes member text_eq
requires_user_action r = elim r.error_code [
  | no_code ↦ some false
  | malformed ↦ none
  | code c ↦ some (member c action_required_codes)
]

unfoldable pub is_rate_limited : Unicode → Response → Bool
unfolding casefold contains text_eq
is_rate_limited u r =
    let body = casefold u r.body in
    is_some r.retry_after
    || is_text (codes "0") r.ratelimit_remaining
    || contains body (codes "secondary rate limit")
    || contains body (codes "rate limit exceeded")

-- The reason of a response with the status 429.
abbrev pub limited_reason : Option Bool → Option (Option Reason)
limited_reason none = none
limited_reason (some true) = some none
limited_reason (some false) = some (some rate_limit)

unfoldable pub retry_reason : Unicode → Bool → Response → Option (Option Reason)
unfolding transient_status_codes has requires_user_action is_rate_limited
retry_reason u rate_limited_403 r =
    if has r.status_code transient_status_codes
    then if r.status_code == 429
      then limited_reason (requires_user_action r)
      else some (some server)
    else if (r.status_code == 403) && rate_limited_403 && is_rate_limited u r
    then some (some rate_limit)
    else some none

-- `max(0.0, x)`, and `max(0.0, x - now)`
abbrev at_least_zero : ℤ → ℕ
at_least_zero (pos n) = n
at_least_zero (negsuc n) = 0

abbrev until : ℕ → ℤ → ℕ
until now (pos n) = n - now
until now (negsuc n) = 0

module _ (w : World) (policy : RetryPolicy) where
  -- `if response.headers.get("x-ratelimit-remaining") == "0"`
  unfoldable pub reset_delay : ℕ → Response → Option ℕ
  unfolding text_eq
  reset_delay now r =
      if is_text (codes "0") r.ratelimit_remaining
      then elim r.ratelimit_reset [
        | none ↦ none
        | some reset ↦ elim (w.float reset) [ none ↦ none | some at ↦ some (until now at) ]
      ]
      else none

  -- The header as a number of seconds, or else as a date; otherwise the next header is asked.
  abbrev header_delay : ℕ → Text → Option ℕ → Option ℕ
  header_delay now value otherwise = elim (w.float value) [
    | some seconds ↦ some (at_least_zero seconds)
    | none ↦ elim (w.date value) [ some at ↦ some (until now at) | none ↦ otherwise ]
  ]

  unfoldable pub retry_after_delay : ℕ → Response → Option ℕ
  unfolding reset_delay
  retry_after_delay now r =
      if falsy r.retry_after
      then reset_delay now r
      else header_delay now (or_else r.retry_after []) (reset_delay now r)

  -- `if delay and policy.jitter_ratio: delay *= 1 + random.uniform(0, ratio)`
  unfoldable pub jittered_delay : ℕ → ℕ
  jittered_delay attempt =
      let delay = min (policy.base_delay * 2 ^ (attempt - 1)) policy.max_delay in
      let jittered =
        if not (delay == 0) && not (policy.jitter_ratio == 0)
        then delay + delay * w.uniform attempt policy.jitter_ratio / 1000000
        else delay in
      min jittered policy.max_delay

  -- `none` is the `OverflowError` of `2.0 ** 1024`.
  unfoldable pub backoff_delay : ℕ → Option ℕ
  unfolding jittered_delay
  backoff_delay attempt = if leb 1025 attempt then none else some (jittered_delay attempt)

  abbrev backed_off : Option ℕ → Option (Option ℕ)
  backed_off none = none
  backed_off (some delay) = some (some delay)

  -- `none` is the exception of `_backoff_delay`, `some none` the returned `None`.
  abbrev response_delay_of : ℕ → Response → Option ℕ → Option (Option ℕ)
  response_delay_of attempt r (some delay) =
      if ltb policy.max_delay delay
      then some none
      else (let bound = policy.base_delay * policy.jitter_ratio / 1000000 in
          some (some (min (delay + w.uniform attempt bound) policy.max_delay)))
  response_delay_of attempt r none =
      if r.status_code == 403
      then some (if leb 60000000 policy.max_delay then some 60000000 else none)
      else backed_off (backoff_delay attempt)

  unfoldable pub response_delay : ℕ → Response → Option (Option ℕ)
  unfolding retry_after_delay backoff_delay
  response_delay attempt r = response_delay_of attempt r (retry_after_delay (w.time attempt) r)

  -- What `_observe` and `sleep` are called with before the next attempt.
  abbrev waiting : Reason → ℕ → ℕ → Run → Run
  waiting reason attempt delay rest = record rest {
    requests = suc rest.requests;
    waits = record { reason = reason; attempt = attempt; delay = delay } ∷ rest.waits;
  }

  abbrev ends : Ending → Run
  ends ending = record { ending = ending; requests = 1; waits = [] }

  module _ (u : Unicode) (method : Text) (rate_limited_403 : Bool) where
    abbrev is_idempotent : Bool
    is_idempotent = member method idempotent_methods

    abbrev on_delay : Reason → ℕ → Response → Run → Option (Option ℕ) → Run
    on_delay reason attempt r rest none = ends crashed
    on_delay reason attempt r rest (some none) = ends (returned r)
    on_delay reason attempt r rest (some (some delay)) = waiting reason attempt delay rest

    abbrev on_reason : ℕ → Response → Run → Option (Option Reason) → Run
    on_reason attempt r rest none = ends crashed
    on_reason attempt r rest (some none) = ends (returned r)
    on_reason attempt r rest (some (some reason)) =
        if attempt == policy.max_attempts
        then ends (returned r)
        else on_delay reason attempt r rest (response_delay attempt r)

    -- The body of the loop on a response; `rest` is the run from the next attempt on.
    unfoldable pub on_response : ℕ → Response → Run → Run
    unfolding retry_reason response_delay
    on_response attempt r rest = on_reason attempt r rest (retry_reason u rate_limited_403 r)

    abbrev on_backoff : ℕ → Run → Option ℕ → Run
    on_backoff attempt rest none = ends crashed
    on_backoff attempt rest (some delay) = waiting transport attempt delay rest

    unfoldable pub on_reply : ℕ → Reply → Run → Run
    unfolding on_response idempotent_methods member backoff_delay
    on_reply attempt (response r) rest = on_response attempt r rest
    on_reply attempt transport_error rest =
        if (attempt == policy.max_attempts) || not is_idempotent
        then ends raised
        else on_backoff attempt rest (backoff_delay attempt)
    on_reply attempt failure rest = ends crashed

    -- The loop, on the attempts that are left.
    unfoldable pub attempts_from : ℕ → ℕ → Run
    unfolding on_reply
    attempts_from zero attempt = record { ending = exited; requests = 0; waits = [] }
    attempts_from (suc left) attempt =
        on_reply attempt (w.reply attempt) (attempts_from left (suc attempt))

-- `method.upper()`, of a method in ASCII
abbrev upper : Text → Text
upper method = map (λ c. if leb b'a' c && leb c b'z' then c - 32 else c) method

unfoldable pub request_with_retry : World → RetryPolicy → Unicode → Text → Bool → Run
unfolding attempts_from
request_with_retry w policy u method rate_limited_403 =
    attempts_from w policy u (upper method) rate_limited_403 policy.max_attempts 1

-- ===== src/Retry.antt =====
-- retry.go: the state of a retryTransport, what it calls, and which outcomes it retries.
pub mod Hint
pub mod Backoff
pub mod Body
pub mod Loop
use jttp.Prelude.{
  ℕ, ◌<◌, Bool, true, false, ◌&&◌, ◌||◌, not, Option, none, some, List, [], ◌∷◌, ◌==◌,
  if◌then◌else◌, any,
}
use jttp.Prelude.Int.{ℤ}
use jttp.Errors.{
  GoError, Target, errors_is, first_timeout, first_is_not_found, canceled, deadline_exceeded, eof,
  unexpected_eof, econnrefused, econnreset, econnaborted, epipe, sentinel, err_body_idle_timeout,
}
use jttp.Ip.{Bytes, bytes_equal}
use jttp.Http.{Request, Response}

-- A retryTransport. `max_retries` is not negative, which `New` sees to; durations are int64
-- nanoseconds. The maps to struct{} are the lists of their keys; of the observer, only
-- whether there is one.
pub record RetryTransport : Type 0 where
  pub max_retries : ℕ
  pub wait_min : ℤ
  pub wait_max : ℤ
  pub max_retry_after : ℤ
  pub max_retry_body_bytes : ℤ
  pub retryable_codes : List ℕ
  pub retryable_methods : List Bytes
  pub check_retry : Option (Request → Option Response → Option GoError → Bool)
  pub user_agent : Bytes
  pub has_observer : Bool

-- Which case of the select in `sleep` comes: the end of the context, with its error, or the timer.
pub data Woken : Type 0 where
  context_done : GoError → Woken
  timer_fired : Woken

-- What a round trip calls. The functions with a first argument ℕ are given the number of the attempt:
-- what they return is arbitrary. `int64n` is rand.Int64N. `now` is time.Now in nanoseconds since 1970;
-- its second argument tells the readings of one attempt apart, and `parse_time` is http.ParseTime in the same unit.
pub record RetryWorld : Type 0 where
  pub next : ℕ → Request → Option Response × Option GoError
  pub context_error : ℕ → Option GoError
  pub woken : ℕ → ℤ → Woken
  pub int64n : ℕ → ℕ → ℕ
  pub now : ℕ → ℕ → ℤ
  pub parse_time : Bytes → Option ℤ

-- rand.Int64N(n) lies in [0, n).
pub record IsRandom (w : RetryWorld) : Type 0 where
  pub int64n-lt : (k n : ℕ) → 0 < n → w.int64n k n < n

abbrev pub has_method : List Bytes → Bytes → Bool
has_method methods m = any (λ k. bytes_equal k m) methods

abbrev pub has_code : List ℕ → ℕ → Bool
has_code codes c = any (λ k. k == c) codes

-- `errors.As(err, &netErr) && netErr.Timeout()`
abbrev is_timeout : Option Bool → Bool
is_timeout none = false
is_timeout (some b) = b

-- `errors.As(err, &dnsErr) && !dnsErr.IsNotFound`
abbrev is_dns_failure : Option Bool → Bool
is_dns_failure none = false
is_dns_failure (some not_found) = not not_found

unfoldable pub is_retryable_error : Option GoError → Bool
is_retryable_error none = false
is_retryable_error (some e) =
    if errors_is e canceled || errors_is e deadline_exceeded
    then false
    else if errors_is e (sentinel err_body_idle_timeout)
    then true
    else if errors_is e eof || errors_is e unexpected_eof
    then true
    else if errors_is e econnrefused
        || errors_is e econnreset
        || errors_is e econnaborted
        || errors_is e epipe
    then true
    else if is_timeout (first_timeout e)
    then true
    else if is_dns_failure (first_is_not_found e)
    then true
    else false

-- The tests on the response, then false.
abbrev is_retryable_response : RetryTransport → Option Response → Bool
is_retryable_response t none = false
is_retryable_response t (some resp) = has_code t.retryable_codes resp.status_code

-- The test `if err != nil`, then the tests on the response.
abbrev is_retryable_outcome : RetryTransport → Option Response → Option GoError → Bool
is_retryable_outcome t resp (some e) = is_retryable_error (some e)
is_retryable_outcome t resp none = is_retryable_response t resp

-- The test `if t.checkRetry != nil`, then the rest.
abbrev checked_outcome :
    Option (Request → Option Response → Option GoError → Bool)
    → RetryTransport
    → Request
    → Option Response
    → Option GoError
    → Bool
checked_outcome (some check) t req resp e = check req resp e
checked_outcome none t req resp e = is_retryable_outcome t resp e

unfoldable pub should_retry : RetryTransport → Request → Option Response → Option GoError → Bool
unfolding is_retryable_error
should_retry t req resp e =
    if not (has_method t.retryable_methods req.method)
    then false
    else checked_outcome t.check_retry t req resp e

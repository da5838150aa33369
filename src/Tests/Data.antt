-- ===== src/Tests/Data.antt =====
-- Test data: a transport of the default waits, a world without failures, requests and responses.
use jttp.Prelude.{true, ℕ, none, some, [], ◌∷◌, ◌==◌, if◌then◌else◌, arith}
use jttp.Prelude.Int.{pos}
use jttp.Errors.{ok}
use jttp.Http.{in_memory, Url, Request, Response, codes}
use jttp.Retry.{timer_fired, RetryTransport, RetryWorld, IsRandom}
use jttp.Retry.Backoff.Bounds.{HasValidWaits}

abbrev pub transport : RetryTransport
transport = record {
  max_retries = 2;
  wait_min = pos 250_000_000;
  wait_max = pos 2_000_000_000;
  max_retry_after = pos 60_000_000_000;
  max_retry_body_bytes = pos 4_194_304;
  retryable_codes = 429 ∷ 503 ∷ [];
  retryable_methods = codes "GET" ∷ codes "PUT" ∷ [];
  check_retry = none;
  user_agent = [];
  has_observer = true;
}

pub transport-HasValidWaits : HasValidWaits transport
transport-HasValidWaits = record {
  min_pos = omega arith;
  min-le-max = omega arith;
  in_range = omega arith;
  after_pos = omega arith;
}

abbrev pub url : Url
url = record {
  scheme = codes "https";
  hostname = codes "a.example";
  port = [];
  escaped_path = codes "/";
  raw_query = [];
}

abbrev pub request : Request
request = record {
  method = codes "PUT";
  url = url;
  header = [];
  body = some (in_memory (codes "hello"));
  get_body = none;
  content_length = pos 5;
}

-- The same request, buffered.
abbrev pub buffered_request : Request
buffered_request = record request { get_body = some (λ k. ok (in_memory (codes "hello"))) }

abbrev pub response : ℕ → Response
response status = record { status_code = status; header = []; content_length = pos 0; body = none }

-- The first attempt is answered by 503 and the next by 200. Every draw is 0.
abbrev pub world : RetryWorld
world = record {
  next = λ j req. (some (response (if j == 0 then 503 else 200)), none);
  context_error = λ j. none;
  woken = λ j d. timer_fired;
  int64n = λ k n. 0;
  now = λ j i. pos 0;
  parse_time = λ text. none;
}

pub world-IsRandom : IsRandom world
world-IsRandom = record { int64n-lt = λ k n h. h }

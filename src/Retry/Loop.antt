-- ===== src/Retry/Loop.antt =====
-- retry.go: `waitForRetry` and `RoundTrip`, with a trace of what they do.
pub mod Bounds
pub mod Outcome
pub mod Trace
pub mod Attempt
pub mod Ends
pub mod Ending
use jttp.Prelude.{
  ℕ, zero, suc, ◌+◌, Bool, true, false, ◌&&◌, ◌||◌, not, Option, none, some, List, [], ◌∷◌, ◌++◌,
  ltb, ◌==◌, if◌then◌else◌,
}
use jttp.Prelude.Int.{ℤ}
use jttp.Errors.{GoError, Result, ok, err, errorf, errorf₂, plain, sentinel, err_body_rewind}
use jttp.Ip.{Bytes}
use jttp.Http.{Body, no_body, closed, Request, Response, codes, get, set}
use jttp.Retry.{
  Woken, context_done, timer_fired, RetryTransport, RetryWorld, should_retry, has_method,
}
use jttp.Retry.Hint.{is_empty}
use jttp.Retry.Backoff.{backoff}
use jttp.Retry.Body.{GetBody, prepare_body, drain_and_close}

-- What a round trip does, in order: the request that an attempt is given, a call of the observer, the
-- bytes drained from a response, a sleep, and a call of getBody.
pub data Event : Type 0 where
  sent : Request → Event
  observed : ℕ → Event
  drained : ℕ → Event
  slept : ℤ → Event
  rewound : Event

-- How it ends: the two results of RoundTrip, a panic, or the fuel of the model ran out.
pub data End : Type 0 where
  returned : Option Response → Option GoError → End
  panicked out_of_fuel : End

abbrev pub Run : Type 0
Run = End × List Event

-- A `waitForRetry` that returns nil gives the request to send; the others return an error or panic.
pub data Wait : Type 0 where
  ready : Request → Wait
  failed : GoError → Wait
  wait_panicked : Wait

-- The part after the sleep.
abbrev pub rewind : Request → Option (Result Body) → Wait × List Event
rewind req none = (ready req, [])
rewind req (some (ok body)) = (ready (record req { body = some body }), rewound ∷ [])
rewind req (some (err e)) = (failed (errorf₂ (plain (sentinel err_body_rewind)) e), rewound ∷ [])

abbrev pub called : Option GetBody → ℕ → Option (Result Body)
called none k = none
called (some g) k = some (g k)

abbrev pub sleep : Woken → Option GoError
sleep (context_done e) = some e
sleep timer_fired = none

abbrev pub after_sleep : Option GoError → ℤ → Wait × List Event → Wait × List Event
after_sleep (some e) d rest = (failed e, slept d ∷ [])
after_sleep none d rest = (rest.0, slept d ∷ rest.1)

abbrev pub after_backoff : RetryWorld → ℕ → Option ℤ → Wait × List Event → Wait × List Event
after_backoff w prev none rest = (wait_panicked, [])
after_backoff w prev (some d) rest = after_sleep (sleep (w.woken prev d)) d rest

abbrev pub after_context : Option GoError → Wait × List Event → Wait × List Event
after_context (some e) rest = (failed e, [])
after_context none rest = rest

unfoldable pub wait_for_retry :
    RetryTransport → RetryWorld → ℕ → Option Response → Option GetBody → Request → Wait × List Event
wait_for_retry t w prev last_resp get_body req =
    after_context (w.context_error prev)
      (after_backoff w prev (backoff t w prev last_resp) (rewind req (called get_body prev)))

-- A transport reads the body of the request and closes it.
abbrev pub used_body : Option Body → Option Body
used_body none = none
used_body (some no_body) = some no_body
used_body (some b) = some closed

abbrev pub used : Request → Request
used req = record req { body = used_body req.body }

-- The next turn of the loop, or the return where `waitForRetry` fails.
abbrev pub after_wait : Option Response → (Request → Run) → Wait × List Event → Run
after_wait resp again (ready req, events) = let run = again req in (run.0, events ++ run.1)
after_wait resp again (failed e, events) = (returned resp (some e), events)
after_wait resp again (wait_panicked, events) = (panicked, events)

-- What precedes the next turn: the drained response, then the wait.
abbrev pub retry_after :
    RetryTransport
    → RetryWorld
    → ℕ
    → Option GetBody
    → (Request → Run)
    → Request
    → Option Response × ℕ
    → Run
retry_after t w attempt get_body again req (resp, n) =
    let (end, events) = after_wait resp again (wait_for_retry t w attempt resp get_body req) in
    (end, drained n ∷ events)

abbrev pub observe : RetryTransport → ℕ → List Event
observe t attempt = if t.has_observer then observed attempt ∷ [] else []

-- The test that ends the loop.
abbrev pub stops : RetryTransport → ℕ → Request → Option Response → Option GoError → Bool
stops t attempt req resp e = not (should_retry t req resp e) || attempt == t.max_retries

-- One turn from `t.next.RoundTrip(req)` on: return, or observe and go on.
abbrev pub turn :
    RetryTransport
    → RetryWorld
    → ℕ
    → Option GetBody
    → (Request → Run)
    → Request
    → Option Response × Option GoError
    → Run
turn t w attempt get_body again req (resp, e) =
    let (end, events) = retry_after t w attempt get_body again (used req) (drain_and_close resp) in
    if stops t attempt (used req) resp e
    then (returned resp e, sent req ∷ [])
    else (end, sent req ∷ observe t attempt ++ events)

-- The loop of `RoundTrip` from attempt `attempt` on.
unfoldable pub attempt_loop : RetryTransport → RetryWorld → Option GetBody → ℕ → ℕ → Request → Run
attempt_loop t w get_body zero attempt req = (out_of_fuel, [])
attempt_loop t w get_body (suc fuel) attempt req =
    turn t w attempt get_body (attempt_loop t w get_body fuel (suc attempt)) req
      (w.next attempt req)

abbrev pub with_user_agent : RetryTransport → Request → Request
with_user_agent t req =
    if not (is_empty t.user_agent) && is_empty (get req.header (codes "User-Agent"))
    then record req { header = set req.header (codes "User-Agent") t.user_agent }
    else req

abbrev pub keep_get_body : Result (Request × GetBody) → Result (Request × Option GetBody)
keep_get_body (ok (req, g)) = ok (req, some g)
keep_get_body (err e) = err e

-- The buffering that precedes the loop: `none` for getBody where the request cannot be retried.
abbrev pub prepare : RetryTransport → Request → Result (Request × Option GetBody)
prepare t req =
    if ltb 0 t.max_retries && has_method t.retryable_methods req.method
    then keep_get_body (prepare_body req t.max_retry_body_bytes)
    else ok (req, none)

abbrev pub start : RetryTransport → RetryWorld → Result (Request × Option GetBody) → Run
start t w (err e) = (returned none (some e), [])
start t w (ok (req, get_body)) = attempt_loop t w get_body (suc t.max_retries) 0 req

-- The fuel is one more than maxRetries, the most attempts that the loop makes.
unfoldable pub round_trip : RetryTransport → RetryWorld → Request → Run
round_trip t w req = start t w (prepare t (with_user_agent t req))

-- CloseIdleConnections, on what the method of the next transport does, where it has one.
abbrev close_idle_connections : {Event : Type 0} → Option (List Event) → List Event
close_idle_connections none = []
close_idle_connections (some events) = events

-- ===== src/Retry/Loop/Bounds.antt =====
-- How often a round trip sends, and that it ends.
use jttp.Prelude.{
  ℕ, zero, suc, ◌+◌, ◌≤◌, ◌≡◌, ◌≢◌, refl, Option, none, some, List, [], ◌∷◌, ◌++◌, arith,
  Bool-cases, inl, inr, ◌⊎◌,
}
use jttp.Errors.{GoError, Result, ok, err}
use jttp.Http.{Body, Request, Response}
use jttp.Retry.{RetryTransport, RetryWorld}
use jttp.Retry.Body.{GetBody, drain_and_close}
use jttp.Retry.Loop.{
  Event, sent, observed, drained, slept, rewound, out_of_fuel, Run, Wait, ready, failed,
  wait_panicked, rewind, called, wait_for_retry, used, after_wait, retry_after, observe, stops,
  turn, attempt_loop, start, prepare, with_user_agent, round_trip,
}

-- The number of requests that are given to the next transport.
abbrev pub sends : List Event → ℕ
sends [] = 0
sends (sent req ∷ es) = suc (sends es)
sends (observed n ∷ es) = sends es
sends (drained n ∷ es) = sends es
sends (slept d ∷ es) = sends es
sends (rewound ∷ es) = sends es

pub sends-append : (xs ys : List Event) → sends (xs ++ ys) ≡ sends xs + sends ys
sends-append [] ys = omega arith
sends-append (sent req ∷ es) ys = omega (arith, sends-append es ys)
sends-append (observed n ∷ es) ys = sends-append es ys
sends-append (drained n ∷ es) ys = sends-append es ys
sends-append (slept d ∷ es) ys = sends-append es ys
sends-append (rewound ∷ es) ys = sends-append es ys

-- A wait sends nothing.
sends-rewind : (req : Request) (o : Option (Result Body)) → sends (rewind req o).1 ≡ 0
sends-rewind req none = refl
sends-rewind req (some (ok b)) = refl
sends-rewind req (some (err e)) = refl

sends-wait_for_retry :
    (t : RetryTransport) (w : RetryWorld) (prev : ℕ) (resp : Option Response) (g : Option GetBody)
    (req : Request)
    → sends (wait_for_retry t w prev resp g req).1 ≡ 0
unfolding wait_for_retry
sends-wait_for_retry t w prev resp g req = ground (arith, sends-rewind req (called g prev))

-- The run ends by a return or a panic, and sends at most `n` requests.
abbrev pub EndsWithin : ℕ → Run → Type 0
EndsWithin n run = (run.0 ≢ out_of_fuel) × (sends run.1 ≤ n)

after_wait-EndsWithin :
    (n : ℕ) (resp : Option Response) (again : Request → Run) (x : Wait × List Event)
    → sends x.1 ≡ 0
    → ((req : Request) → EndsWithin n (again req))
    → EndsWithin n (after_wait resp again x)
after_wait-EndsWithin n resp again (ready req, events) e h =
    ((h req).0, omega (arith, sends-append events (again req).1, (h req).1))
after_wait-EndsWithin n resp again (failed x, events) e h = ground arith
after_wait-EndsWithin n resp again (wait_panicked, events) e h = ground arith

retry_after-EndsWithin :
    (t : RetryTransport) (w : RetryWorld) (n attempt : ℕ) (g : Option GetBody)
    (again : Request → Run) (req : Request) (x : Option Response × ℕ)
    → ((req : Request) → EndsWithin n (again req))
    → EndsWithin n (retry_after t w attempt g again req x)
retry_after-EndsWithin t w n attempt g again req (resp, k) h =
    after_wait-EndsWithin n resp again (wait_for_retry t w attempt resp g req)
      (sends-wait_for_retry t w attempt resp g req) h

sends-observe : (t : RetryTransport) (n : ℕ) → sends (observe t n) ≡ 0
sends-observe t n = ground arith

sends-turn :
    (req : Request) (seen events : List Event)
    → sends seen ≡ 0
    → sends (sent req ∷ seen ++ events) ≡ suc (sends events)
sends-turn req seen events h = omega (arith, sends-append seen events)

-- A turn ends the loop, or goes on with the next one.
turn-EndsWithin :
    (t : RetryTransport) (w : RetryWorld) (n attempt : ℕ) (g : Option GetBody)
    (again : Request → Run) (req : Request) (x : Option Response × Option GoError)
    → ((attempt ≡ t.max_retries) ⊎ ((req : Request) → EndsWithin n (again req)))
    → EndsWithin (suc n) (turn t w attempt g again req x)
turn-EndsWithin t w n attempt g again req (resp, e) h =
    elim (Bool-cases (stops t attempt (used req) resp e)) [
      | inl last ↦ rw last (λ x. cc, omega arith)
      | inr more ↦ elim h [
        | inl last ↦ absurd (ground arith)
        | inr next ↦
            let rest =
              retry_after-EndsWithin t w n attempt g again (used req) (drain_and_close resp) next in
            rw more (
              rest.0,
              omega (
                arith,
                rest.1,
                sends-turn req (observe t attempt)
                    (retry_after t w attempt g again (used req) (drain_and_close resp)).1
                    (sends-observe t attempt),
              ),
            )
      ]
    ]

attempt_loop-EndsWithin :
    (t : RetryTransport) (w : RetryWorld) (g : Option GetBody) (n attempt : ℕ) (req : Request)
    → attempt + n ≡ t.max_retries
    → EndsWithin (suc n) (attempt_loop t w g (suc n) attempt req)
unfolding attempt_loop
attempt_loop-EndsWithin t w g zero attempt req e =
    turn-EndsWithin t w 0 attempt g (attempt_loop t w g 0 (suc attempt)) req (w.next attempt req)
      (inl (omega arith))
attempt_loop-EndsWithin t w g (suc n) attempt req e =
    turn-EndsWithin t w (suc n) attempt g (attempt_loop t w g (suc n) (suc attempt)) req
      (w.next attempt req)
      (inr (λ r. attempt_loop-EndsWithin t w g n (suc attempt) r (omega arith)))

start-EndsWithin :
    (t : RetryTransport) (w : RetryWorld) (x : Result (Request × Option GetBody))
    → EndsWithin (suc t.max_retries) (start t w x)
start-EndsWithin t w (err e) = (λ p. cc, omega arith)
start-EndsWithin t w (ok (req, g)) = attempt_loop-EndsWithin t w g t.max_retries 0 req (omega arith)

-- A round trip ends, whatever the transport below answers, and sends at most maxRetries + 1 requests.
pub round_trip-EndsWithin :
    (t : RetryTransport) (w : RetryWorld) (req : Request)
    → EndsWithin (suc t.max_retries) (round_trip t w req)
unfolding round_trip
round_trip-EndsWithin t w req = start-EndsWithin t w (prepare t (with_user_agent t req))

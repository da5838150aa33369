-- ===== src/Retry/Loop/Ending.antt =====
-- How a round trip ends, and what it has done by then: the requests, the waits and the responses.
use jttp.Prelude.{
  ℕ, zero, suc, ◌+◌, ◌≤◌, ◌≡◌, refl, false, ◌⊎◌, inl, inr, Option, none, some, [], arith,
  Bool-cases,
}
use jttp.Errors.{GoError, Result, ok, err}
use jttp.Http.{Request}
use jttp.Retry.{RetryTransport, RetryWorld, IsRandom}
use jttp.Retry.Backoff.Bounds.{HasValidWaits}
use jttp.Retry.Body.{GetBody, drain_and_close}
use jttp.Retry.Loop.{
  returned, out_of_fuel, Run, wait_for_retry, used, stops, turn, attempt_loop, start, prepare,
  with_user_agent, round_trip,
}
use jttp.Retry.Loop.Trace.{wait_for_retry-IsWait}
use jttp.Retry.Loop.Ends.{drain_and_close-le, Ending, stopped-Ending, after_wait-Ending}

-- A round trip fails where the body cannot be buffered, and then does nothing. Otherwise it ends as its
-- loop does.
abbrev pub EndsProperly : RetryTransport → RetryWorld → Request → Type 0
EndsProperly t w original =
    ((e : GoError) × (prepare t (with_user_agent t original) ≡ err e)
      × (round_trip t w original ≡ (returned none (some e), [])))
    ⊎ ((req : Request) × (g : Option GetBody) × (prepare t (with_user_agent t original)
          ≡ ok (req, g))
        × Ending t w 0 req (round_trip t w original))

module _ (t : RetryTransport) (w : RetryWorld) where
  module _ (v : HasValidWaits t) (random : IsRandom w) where
    turn-Ending :
        (j : ℕ) (g : Option GetBody) (again : Request → Run) (req : Request)
        → j ≤ t.max_retries
        → (stops t j (used req) (w.next j req).0 (w.next j req).1 ≡ false
            → (r : Request) → Ending t w (suc j) r (again r))
        → Ending t w j req (turn t w j g again req (w.next j req))
    turn-Ending j g again req within later =
        let resp = drain_and_close (w.next j req).0 in
        let x = wait_for_retry t w j resp.0 g (used req) in
        elim (Bool-cases (stops t j (used req) (w.next j req).0 (w.next j req).1)) [
          | inl stop ↦ rw stop (stopped-Ending t w j req within stop)
          | inr go ↦ rw go (
              after_wait-Ending t w j req resp.1 again x.0 x.1 (drain_and_close-le (w.next j req).0)
                within go (wait_for_retry-IsWait t w v random j resp.0 g req) (later go))
        ]

    pub attempt_loop-Ending :
        (n j : ℕ) (g : Option GetBody) (req : Request)
        → j + n ≡ t.max_retries
        → Ending t w j req (attempt_loop t w g (suc n) j req)
    unfolding attempt_loop
    attempt_loop-Ending zero j g req is =
        turn-Ending j g (λ r. (out_of_fuel, [])) req (omega arith) (λ go r. absurd (grind arith))
    attempt_loop-Ending (suc n) j g req is =
        turn-Ending j g (attempt_loop t w g (suc n) (suc j)) req (omega arith)
          (λ go r. attempt_loop-Ending n (suc j) g r (omega arith))

    -- How the body is buffered decides: an error ends the round trip, or the loop starts.
    start-Ending :
        (prepared : Result (Request × Option GetBody))
        → ((e : GoError) × (prepared ≡ err e) × (start t w prepared ≡ (returned none (some e), [])))
          ⊎ ((req : Request) × (g : Option GetBody) × (prepared ≡ ok (req, g))
              × Ending t w 0 req (start t w prepared))
    start-Ending (err e) = inl (e, refl, refl)
    start-Ending (ok (req, g)) =
        inr (req, g, refl, attempt_loop-Ending t.max_retries 0 g req (omega arith))

    pub round_trip-Ending : (original : Request) → EndsProperly t w original
    unfolding round_trip
    round_trip-Ending original = start-Ending (prepare t (with_user_agent t original))

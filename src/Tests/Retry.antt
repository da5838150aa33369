-- ===== src/Tests/Retry.antt =====
-- The theorems on the round trip of retry.go, its bodies and its decision, applied.
use jttp.Prelude.{ℕ, zero, suc, ◌<◌, ◌-◌, ◌^◌, ◌≡◌, refl, inr, false, none, some, [], arith}
use jttp.Prelude.Int.{pos, wrap64}
use jttp.Errors.{ok}
use jttp.Http.{in_memory, Request, codes}
use jttp.Retry.{should_retry}
use jttp.Retry.Body.{prepare_body}
use jttp.Retry.Body.Buffered.{streaming, buffered, prepare_body-limit_wraps}
use jttp.Retry.Loop.{round_trip, prepare, with_user_agent, used}
use jttp.Retry.Loop.Outcome.{ReturnsOutcome, Persists, round_trip-outcome}
use jttp.Tests.Data.{
  transport, transport-HasValidWaits, request, buffered_request, response, world, world-IsRandom,
}

request_prepared :
    prepare transport (with_user_agent transport request)
    ≡ ok (buffered_request, some (λ j. ok (in_memory (codes "hello"))))
unfolding prepare_body wrap64
request_prepared = refl

request-Persists : (a : ℕ) → a < 1 → Persists transport world buffered_request a
unfolding should_retry
request-Persists zero h = record { retried = refl; context_lasts = refl; sleeps = λ d. refl }
request-Persists (suc a) h = absurd (omega arith)

second_final : should_retry transport (used buffered_request) (some (response 200)) none ≡ false
unfolding should_retry
second_final = refl

round_trip-outcome_example :
    ReturnsOutcome world buffered_request 1 2 (round_trip transport world request)
round_trip-outcome_example =
    round_trip-outcome transport world request buffered_request (in_memory (codes "hello")) 1
      transport-HasValidWaits world-IsRandom request_prepared refl (omega arith) request-Persists
      (inr second_final)

abbrev posted : Request
posted = record request { method = codes "POST" }

-- A stream within the limit.
hello_kept :
    prepare_body (streaming request (codes "hello") none false none) (pos 10)
    ≡ ok (buffered request (codes "hello"), λ k. ok (in_memory (codes "hello")))
unfolding prepare_body wrap64
hello_kept = refl

prepare_body-limit_wraps_example :
    prepare_body (streaming request (codes "hello") none false none) (pos (2 ^ 63 - 1))
    ≡ ok (buffered request [], λ k. ok (in_memory []))
prepare_body-limit_wraps_example = prepare_body-limit_wraps request (codes "hello") none false

-- ===== src/Tests/Rounds.antt =====
-- The theorem on the round trips of a client that `New` built, applied: an upstream that fails once.
use jttp.Prelude.{ℕ, ◌≡◌, refl, none, some, List, [], ◌∷◌, ◌==◌, if◌then◌else◌, arith}
use jttp.Prelude.Int.{pos, wrap64}
use jttp.Errors.{ok}
use jttp.Http.{no_body, Request, codes, get, lower}
use jttp.Retry.{should_retry}
use jttp.Retry.Backoff.{backoff, exponential_wait, jittered}
use jttp.Retry.Hint.{parse_server_wait_hint}
use jttp.Retry.Body.{drain_and_close, prepare_body}
use jttp.Guard.Body.Life.{new_guarded_body}
use jttp.Retry.Loop.{sent, drained, slept, rewound, attempt_loop, round_trip, wait_for_retry}
use jttp.Retry.Loop.Ending.{EndsProperly}
use jttp.Config.{defaults}
use jttp.Config.Options.{ClientOption, apply_options}
use jttp.Config.Client.{Client}
use jttp.Config.Build.{
  new, correct_retries, clamp_timeouts, configure_http2, assemble, retry_of, safety_of,
}
use jttp.Config.Waits.{HasDurations}
use jttp.Safety.{SafetyWorld, safe_round_trip}
use jttp.Safety.Retried.{over}
use jttp.Safety.Rounds.{new-Ending}
use jttp.Tests.Data.{request, response, world, world-IsRandom}
use jttp.Tests.Config.{client_of}
use jttp.Tests.Config as TestConfig
use jttp.Tests.Safety as TestSafety

abbrev options : List (ClientOption ℕ)
options = []

abbrev client : Client ℕ
client = client_of options

options-HasDurations : HasDurations (apply_options options defaults)
unfolding apply_options defaults
options-HasDurations = record { min_int64 = omega arith; max_int64 = omega arith }

client_built : new TestConfig.world options ≡ some client
unfolding new correct_retries clamp_timeouts configure_http2 apply_options defaults
client_built = refl

abbrev upstream : ℕ → SafetyWorld
upstream k = record (TestSafety.safety_world TestSafety.public_ip) {
  next = λ f. ok (response (if k == 0 then 503 else 200));
}

abbrev fetched : Request
fetched = record request { method = codes "GET"; body = none; content_length = pos 0 }

new-Ending_example :
    EndsProperly client.retry (over upstream client.safety (λ k r. r.response) world) fetched
new-Ending_example =
    new-Ending TestConfig.world options client upstream (λ k r. r.response) world fetched
      options-HasDurations client_built world-IsRandom

-- The upstream fails once: the run drains, waits and sends the request again with a body of no bytes.
failed_once :
    (round_trip client.retry (over upstream client.safety (λ k r. r.response) world) fetched).1
    ≡ sent fetched
      ∷ drained 0
      ∷ slept (pos 250_000_000)
      ∷ rewound
      ∷ sent (record fetched { body = some no_body })
      ∷ []
unfolding round_trip attempt_loop wait_for_retry should_retry backoff exponential_wait jittered
    drain_and_close parse_server_wait_hint safe_round_trip new_guarded_body prepare_body get lower
    assemble retry_of safety_of correct_retries clamp_timeouts apply_options defaults wrap64
failed_once = refl

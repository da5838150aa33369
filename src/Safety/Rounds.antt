-- ===== src/Safety/Rounds.antt =====
-- The round trips of a client that `New` built: retry.go over safety.go.
use jttp.Prelude.{ℕ, ◌≡◌, some, List}
use jttp.Http.{Request, Response}
use jttp.Retry.{RetryWorld, IsRandom}
use jttp.Retry.Loop.Ending.{EndsProperly, round_trip-Ending}
use jttp.Config.{defaults}
use jttp.Config.Options.{ClientOption, apply_options}
use jttp.Config.Client.{Client, SafetyConfig, BuildWorld}
use jttp.Config.Build.{new}
use jttp.Config.Waits.{HasDurations, new-HasValidWaits}
use jttp.Safety.{SafeResponse, SafetyWorld}
use jttp.Safety.Retried.{over}

module _ {H : Type 0} where
  over-IsRandom :
      (safety : ℕ → SafetyWorld) (cfg : SafetyConfig H) (view : ℕ → SafeResponse → Response)
      (w : RetryWorld)
      → IsRandom w
      → IsRandom (over safety cfg view w)
  over-IsRandom safety cfg view w random = record { int64n-lt = random.int64n-lt }

  -- Whatever the options, if their durations are int64 values and the random number generator keeps
  -- its range, each round trip of the retry transport of a client that New built, over its safety
  -- transport, ends properly. Either the body cannot be buffered, and the error is returned before
  -- anything is done; or the prepared request is tried, then retried maxRetries times at most, and the
  -- run does not panic. Each request that is sent is the prepared one but for its body; each wait is
  -- positive and at most the larger of the longest wait and the cap on the server's hints; each drain
  -- takes 64 KiB at most. There are no more waits than drained responses, and a retry observer, if
  -- there is one, is called once for each of those. A request whose method is not listed is tried
  -- once, and its response is not drained. At the end, an attempt is final and its response and error
  -- are returned as they came, each earlier response drained; or an attempt is to be retried, but the
  -- wait after it fails, and its response is returned with its body closed, with an error: then the
  -- observer was called although no retry followed.
  pub new-Ending :
      (build : BuildWorld H) (options : List (ClientOption H)) (client : Client H)
      (safety : ℕ → SafetyWorld) (view : ℕ → SafeResponse → Response) (w : RetryWorld)
      (original : Request)
      → HasDurations (apply_options options defaults)
      → new build options ≡ some client
      → IsRandom w
      → EndsProperly client.retry (over safety client.safety view w) original
  new-Ending build options client safety view w original durations built random =
      round_trip-Ending client.retry (over safety client.safety view w)
        (new-HasValidWaits build options client durations built)
        (over-IsRandom safety client.safety view w random) original

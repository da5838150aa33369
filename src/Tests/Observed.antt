-- ===== src/Tests/Observed.antt =====
-- The theorem on the body of a response, applied to one that is read, closed, read and closed.
use jttp.Prelude.{ℕ, ◌≡◌, refl, none, some, List, [], ◌∷◌, ◌++◌, map, arith, if◌then◌else◌}
use jttp.Prelude.Int.{pos, ◌-ℤ◌, wrap64, saturate64}
use jttp.Errors.{ok}
use jttp.Ssrf.{is_blocked_ip}
use jttp.Http.{get, lower}
use jttp.Redirect.{check_ip_policy}
use jttp.Guard.Body.{ReadStep, read}
use jttp.Guard.Body.Life.{CloseStep, new_guarded_body, fresh_body}
use jttp.Guard.Body.Once.{inner_closes, watchdog_stops, gzip_closes, observations}
use jttp.Guard.Body.Trace.{BodyCall, read_call, close_call, run_calls, delivered}
use jttp.Config.Client.{SafetyConfig}
use jttp.Safety.{SafeResponse, decompresses, guard_config, without_encoding, safe_round_trip}
use jttp.Safety.Observed.{safe_round_trip-IsObserved}
use jttp.Tests.Data.{url, request}
use jttp.Tests.Safety.{safety_world, public_ip, limited, zipped, floats, chunk}

abbrev pub observing : SafetyConfig ℕ
observing = record limited { body_observer = some 0 }

abbrev pub answer : SafeResponse
answer =
    let body_cfg = guard_config observing (pos 0) request zipped in
    record {
      response = without_encoding observing zipped;
      guard_config = body_cfg;
      guard = fresh_body body_cfg (some (record { total = pos 18 }));
    }

pub answered : (safe_round_trip (safety_world public_ip) observing request).0 ≡ ok answer
unfolding safe_round_trip check_ip_policy is_blocked_ip new_guarded_body get lower wrap64
answered = refl

abbrev reads : List ReadStep
reads = chunk ∷ []

abbrev pub closing : CloseStep
closing = record { error = none; now = pos 5 }

abbrev pub calls : List BodyCall
calls = read_call chunk ∷ close_call closing ∷ []

delivered_six : delivered floats answer.guard_config answer.guard reads ≡ 6
unfolding delivered read wrap64
delivered_six = refl

-- 18 bytes of a header and 12 of the first read, which returns 6.
safe_round_trip-IsObserved_example :
    (let (results, events) =
        run_calls floats answer.guard_config answer.guard
          (map read_call reads ++ close_call closing ∷ calls) in
      (results ≡ none ∷ none ∷ [])
      × (inner_closes events ≡ 1)
      × (watchdog_stops events ≡ 1)
      × (gzip_closes events ≡ (if decompresses observing zipped then 1 else 0))
      × (observations events
          ≡ record {
            url = url;
            status_code = 200;
            compressed_bytes = pos (
                if decompresses observing zipped
                then 30
                else delivered floats answer.guard_config answer.guard reads);
            uncompressed_bytes = pos (delivered floats answer.guard_config answer.guard reads);
            duration = saturate64 (pos 5 -ℤ pos 0);
          }
            ∷ []))
safe_round_trip-IsObserved_example =
    safe_round_trip-IsObserved (safety_world public_ip) observing request zipped answer floats reads
      closing calls refl answered (omega arith) (omega arith)

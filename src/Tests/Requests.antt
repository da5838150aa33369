-- ===== src/Tests/Requests.antt =====
-- The theorem on the requests of safety.go, applied: a body that is read, closed, read and closed.
use jttp.Prelude.{◌≡◌, ◌⊎◌, none, some, List, [], ◌∷◌}
use jttp.Errors.{GoError, err, eof, plain}
use jttp.Guard.Writer.Calls.{WriterCall, read_call, close_call}
use jttp.Safety.{Forwarded, preflight, safe_round_trip}
use jttp.Safety.Policy.{forwards}
use jttp.Safety.Requests.{IsForwarded, safe_round_trip-request}
use jttp.Tests.Data.{request}
use jttp.Tests.Safety.{safety_world, public_ip, limited}

abbrev calls : List WriterCall
calls =
    read_call (5, none)
    ∷ close_call (some (plain eof))
    ∷ read_call (0, some (plain eof))
    ∷ close_call none
    ∷ []

safe_round_trip-request_example :
    (let w = safety_world public_ip in
      ((e : GoError) × (preflight w limited request ≡ some e)
        × (safe_round_trip w limited request ≡ (err e, [])))
      ⊎ ((f : Forwarded) × (preflight w limited request ≡ none)
          × (forwards (safe_round_trip w limited request).1 ≡ f ∷ [])
          × IsForwarded limited request calls f))
safe_round_trip-request_example =
    safe_round_trip-request (safety_world public_ip) limited request calls

-- ===== src/Safety/Observed.antt =====
-- The body of a response of the safety transport, from its first read to its last Close.
use jttp.Prelude.{◌+◌, ◌^◌, ◌<◌, ◌≡◌, ap, ◌∙◌, List, [], ◌∷◌, ◌++◌, map, arith, if◌then◌else◌}
use jttp.Prelude.Int.{pos, ◌-ℤ◌, saturate64}
use jttp.Errors.{ok}
use jttp.Http.{Request, Response}
use jttp.Guard.Body.{GuardedBodyConfig, ReadStep, FloatWorld}
use jttp.Guard.Body.Compressed.{arrived_in, header_bytes}
use jttp.Guard.Body.Life.{CloseStep, stops_once}
use jttp.Guard.Body.Once.{inner_closes, watchdog_stops, gzip_closes, observations}
use jttp.Guard.Body.Trace.{
  BodyCall, read_call, close_call, run_calls, delivered, supplied, repeats, told, run_calls-once,
}
use jttp.Config.Client.{SafetyConfig}
use jttp.Safety.{SafeResponse, SafetyWorld, forward, decompresses, safe_round_trip, is_some}
use jttp.Safety.Bodies.{safe_round_trip-IsMadeOf, IsMadeOf-next}

module _ {H : Type 0} where
  -- What comes of some reads, a first Close `s` and any calls after it: the results of the calls of
  -- Close, one inner Close, one stop of the watchdog if there is one, one Close of the gzip.Reader if
  -- there is one, and one call of the body observer if there is one.
  abbrev pub IsObserved :
      SafetyWorld
      → SafetyConfig H
      → Request
      → Response
      → SafeResponse
      → FloatWorld
      → List ReadStep
      → CloseStep
      → List BodyCall
      → Type 0
  IsObserved w cfg req resp r floats reads s calls =
      let (results, events) =
        run_calls floats r.guard_config r.guard (map read_call reads ++ close_call s ∷ calls) in
      let returned = delivered floats r.guard_config r.guard reads in
      let taken = header_bytes (w.gzip_reader resp.body) + arrived_in reads in
      (results ≡ s.error ∷ repeats s.error calls)
      × (inner_closes events ≡ 1)
      × (watchdog_stops events ≡ stops_once r.guard.watchdog)
      × (gzip_closes events ≡ (if decompresses cfg resp then 1 else 0))
      × (observations events ≡ (
          if is_some cfg.body_observer
          then record {
            url = req.url;
            status_code = resp.status_code;
            compressed_bytes = pos (if decompresses cfg resp then taken else returned);
            uncompressed_bytes = pos returned;
            duration = saturate64 (s.now -ℤ w.now);
          }
            ∷ []
          else []))

  -- Let the body of a response of the safety transport be read any number of times, then closed, and
  -- then read and closed in any order, where the bytes before the first Close, compressed or not, do
  -- not overflow their counts. Each Close returns the result of the first inner Close; the inner body
  -- is closed once, the watchdog, if there is one, is stopped once, and the gzip.Reader, for a body
  -- that decompresses, is closed once. The body observer, if there is one, is called once, with the
  -- URL of the request, the status of the response, the time from the round trip to the first Close,
  -- as uncompressed bytes exactly the number that the reads before the first Close have returned, and
  -- as compressed bytes the same number, or for a body that decompresses, those that have arrived for
  -- its header and for the reads that began before the context was done.
  pub safe_round_trip-IsObserved :
      (w : SafetyWorld) (cfg : SafetyConfig H) (req : Request) (resp : Response) (r : SafeResponse)
      (floats : FloatWorld) (reads : List ReadStep) (s : CloseStep) (calls : List BodyCall)
      → w.next (forward cfg req) ≡ ok resp
      → (safe_round_trip w cfg req).0 ≡ ok r
      → supplied reads < 2 ^ 63
      → header_bytes (w.gzip_reader resp.body) + arrived_in reads < 2 ^ 63
      → IsObserved w cfg req resp r floats reads s calls
  safe_round_trip-IsObserved w cfg req resp r floats reads s calls n e small fits =
      let (other, m) = safe_round_trip-IsMadeOf w cfg req r e in
      let made = IsMadeOf-next w cfg req resp other r m n in
      let header = header_bytes (w.gzip_reader resp.body) in
      let (results, inner, stops, unzipped, seen) =
        run_calls-once floats r.guard_config r.guard header reads s calls made.fresh.unclosed
          made.fresh.unread (made.fresh.counts_header (omega arith)) small fits in
      (
        results,
        inner,
        stops,
        unzipped
            ∙ ap (λ (c : GuardedBodyConfig). if c.decompress_gzip then 1 else 0) made.config_is,
        seen
            ∙ ap
                (λ (c : GuardedBodyConfig).
                  told c s (header + arrived_in reads)
                    (delivered floats r.guard_config r.guard reads))
                made.config_is,
      )

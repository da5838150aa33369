-- ===== src/Guard/Body/Life.antt =====
-- guard.go: `newGuardedBody` and `guardedBody.Close`.
use jttp.Prelude.{ℕ, ◌&&◌, Option, none, some, List, [], ◌∷◌, ◌++◌, if◌then◌else◌}
use jttp.Prelude.Int.{ℤ, pos, pos_part, ◌-ℤ◌, ltb_ℤ, saturate64}
use jttp.Errors.{GoError, Result, ok, err, errorf}
use jttp.Http.{Url}
use jttp.Guard.{RateTracker, new_rate_tracker}
use jttp.Guard.Source.{InnerRead, CountingReader, count_reads, new_counting_reader}
use jttp.Guard.Body.{GuardedBodyConfig, GuardedBody}

abbrev pub new_watchdog : GuardedBodyConfig → Option ℕ
new_watchdog cfg = if ltb_ℤ (pos 0) cfg.idle_timeout && cfg.has_cancel then some 0 else none

abbrev pub new_rate : GuardedBodyConfig → Option RateTracker
new_rate cfg =
    if ltb_ℤ (pos 0) cfg.min_rate && ltb_ℤ (pos 0) cfg.min_rate_window
    then some (new_rate_tracker (pos_part cfg.min_rate_window))
    else none

abbrev pub fresh_body : GuardedBodyConfig → Option CountingReader → GuardedBody
fresh_body cfg compressed = record {
  read_bytes = pos 0;
  watchdog = new_watchdog cfg;
  rate = new_rate cfg;
  compressed = compressed;
  close_result = none;
}

abbrev pub gzip_body : GuardedBodyConfig → Result (List InnerRead) → Result GuardedBody
gzip_body cfg (err e) = err (errorf e)
gzip_body cfg (ok reads) = ok (fresh_body cfg (some (count_reads new_counting_reader reads)))

-- `gzip_reader` is the outcome of gzip.NewReader on the body, with the reads that it makes of the body.
unfoldable pub new_guarded_body : GuardedBodyConfig → Result (List InnerRead) → Result GuardedBody
new_guarded_body cfg gzip_reader =
    if cfg.decompress_gzip then gzip_body cfg gzip_reader else ok (fresh_body cfg none)

pub record BodyObservation : Type 0 where
  pub url : Url
  pub status_code : ℕ
  pub compressed_bytes : ℤ
  pub uncompressed_bytes : ℤ
  pub duration : ℤ

-- What a Close does, in order.
pub data CloseEvent : Type 0 where
  watchdog_stopped gzip_closed inner_closed : CloseEvent
  observed : BodyObservation → CloseEvent

-- What one call of Close meets: the result of the inner Close, and the time.
pub record CloseStep : Type 0 where
  pub error : Option GoError
  pub now : ℤ

abbrev pub compressed_of : GuardedBody → Option CountingReader → ℤ
compressed_of b none = b.read_bytes
compressed_of b (some reader) = reader.total

abbrev pub observation : GuardedBodyConfig → GuardedBody → CloseStep → BodyObservation
observation cfg b s = record {
  url = cfg.observe_url;
  status_code = cfg.status_code;
  compressed_bytes = compressed_of b b.compressed;
  uncompressed_bytes = b.read_bytes;
  duration = saturate64 (s.now -ℤ cfg.observe_started);
}

abbrev pub when_some : {A : Type 0} → Option A → CloseEvent → List CloseEvent
when_some none event = []
when_some (some a) event = event ∷ []

-- The number of calls of Stop of a watchdog that may be there.
abbrev pub stops_once : {A : Type 0} → Option A → ℕ
stops_once none = 0
stops_once (some a) = 1

abbrev pub close_events : GuardedBodyConfig → GuardedBody → CloseStep → List CloseEvent
close_events cfg b s =
    when_some b.watchdog watchdog_stopped
    ++ (when_some b.compressed gzip_closed
        ++ (inner_closed ∷ (if cfg.has_observer then observed (observation cfg b s) ∷ [] else [])))

-- The body of closeOnce.Do runs at the first call.
abbrev pub close_once :
    GuardedBodyConfig
    → GuardedBody
    → CloseStep
    → Option (Option GoError)
    → GuardedBody × (Option GoError × List CloseEvent)
close_once cfg b s none =
    (record b { close_result = some s.error }, (s.error, close_events cfg b s))
close_once cfg b s (some result) = (b, (result, []))

unfoldable pub close :
    GuardedBodyConfig → GuardedBody → CloseStep → GuardedBody × (Option GoError × List CloseEvent)
close cfg b s = close_once cfg b s b.close_result

-- ===== src/Safety.antt =====
-- safety.go: the round trip of a safetyTransport, with what it does in order.
pub mod Client
pub mod Connections
pub mod Retried
pub mod Rounds
pub mod Drained
pub mod Requests
pub mod Bodies
pub mod Observed
pub mod Policy
use jttp.Prelude.{
  ℕ, Bool, true, false, ◌&&◌, ◌||◌, not, Option, none, some, List, [], ◌∷◌, if◌then◌else◌,
}
use jttp.Prelude.Int.{ℤ, pos, negsuc, ltb_ℤ}
use jttp.Errors.{GoError, Result, ok, err, errorf}
use jttp.Http.{Body, no_body, Url, Header, Request, Response, codes, equal_fold, get, set, del}
use jttp.Redirect.{ResolverWorld, check_ip_policy}
use jttp.Retry.Body.{drain_and_close}
use jttp.Retry.Hint.{is_empty}
use jttp.Guard.Body.{GuardedBodyConfig, GuardedBody}
use jttp.Guard.Source.{InnerRead}
use jttp.Guard.Body.Life.{new_guarded_body, new_watchdog}
use jttp.Guard.Writer.{GuardedWriter, new_guarded_writer}
use jttp.Config.{Ratio}
use jttp.Config.Client.{SafetyConfig}

-- The request that the next transport is given: whether its context is the child that can be cancelled,
-- and the guardedWriter around its body, if there is one.
pub record Forwarded : Type 0 where
  pub request : Request
  pub cancelable : Bool
  pub writer : Option GuardedWriter

-- What a round trip does: it gives a request to the next transport, starts the watchdog of the body of the
-- response, drains and closes that body, and cancels the child context.
pub data SafetyEvent : Type 0 where
  forwarded : Forwarded → SafetyEvent
  watched drained cancelled : SafetyEvent

-- A response whose body is guarded.
pub record SafeResponse : Type 0 where
  pub response : Response
  pub guard_config : GuardedBodyConfig
  pub guard : GuardedBody

-- What a round trip calls: the resolver, the next transport (which returns a response if it returns no
-- error, as http.RoundTripper asks), gzip.NewReader, with the bytes that it takes from the body, and the
-- clock.
pub record SafetyWorld : Type 0 where
  pub resolver : ResolverWorld
  pub next : Forwarded → Result Response
  pub gzip_reader : Option Body → Result (List InnerRead)
  pub now : ℤ

abbrev pub SafetyRun : Type 0
SafetyRun = Result SafeResponse × List SafetyEvent

abbrev pub is_some {ℓ} : {A : Type ℓ} → Option A → Bool
is_some none = false
is_some (some a) = true

-- `req.Body != nil && req.Body != http.NoBody`
abbrev pub has_body : Option Body → Bool
has_body none = false
has_body (some no_body) = false
has_body (some b) = true

-- A ratio above 0; its denominator is positive.
abbrev pub is_positive : Ratio → Bool
is_positive r = ltb_ℤ (pos 0) r.numerator

-- The watchdog that `newGuardedBody` starts before it calls gzip.NewReader.
abbrev pub with_watchdog : GuardedBodyConfig → List SafetyEvent → List SafetyEvent
with_watchdog body_cfg events = if is_some (new_watchdog body_cfg) then watched ∷ events else events

module _ {H : Type 0} where
  -- The test for the child context.
  abbrev pub is_guarded : SafetyConfig H → Bool
  is_guarded cfg =
      ltb_ℤ (pos 0) cfg.idle_timeout
      || ltb_ℤ (pos 0) cfg.min_rate
      || ltb_ℤ (pos 0) cfg.max_bytes
      || is_positive cfg.max_ratio

  abbrev pub with_accept_encoding : SafetyConfig H → Request → Request
  with_accept_encoding cfg req =
      if cfg.compression_enabled && is_empty (get req.header (codes "Accept-Encoding"))
      then record req { header = set req.header (codes "Accept-Encoding") (codes "gzip") }
      else req

  abbrev pub forward : SafetyConfig H → Request → Forwarded
  forward cfg req = record {
    request = with_accept_encoding cfg req;
    cancelable = is_guarded cfg;
    writer =
        if ltb_ℤ (pos 0) cfg.idle_timeout && (has_body req.body && is_guarded cfg)
        then some (new_guarded_writer true cfg.idle_timeout)
        else none;
  }

  abbrev pub decompresses : SafetyConfig H → Response → Bool
  decompresses cfg resp =
      cfg.compression_enabled
      && equal_fold (get resp.header (codes "Content-Encoding")) (codes "gzip")

  abbrev pub without_encoding : SafetyConfig H → Response → Response
  without_encoding cfg resp =
      if decompresses cfg resp
      then record resp {
        header = del (del resp.header (codes "Content-Encoding")) (codes "Content-Length");
        content_length = negsuc 0;
      }
      else resp

  abbrev pub guard_config : SafetyConfig H → ℤ → Request → Response → GuardedBodyConfig
  guard_config cfg started req resp = record {
    has_cancel = is_guarded cfg;
    max_bytes = cfg.max_bytes;
    idle_timeout = cfg.idle_timeout;
    min_rate = cfg.min_rate;
    min_rate_window = cfg.min_rate_window;
    decompress_gzip = decompresses cfg resp;
    has_max_ratio = is_positive cfg.max_ratio;
    has_observer = is_some cfg.body_observer;
    observe_url = req.url;
    status_code = resp.status_code;
    observe_started = started;
  }

  abbrev pub cancel : SafetyConfig H → List SafetyEvent
  cancel cfg = if is_guarded cfg then cancelled ∷ [] else []

  -- `newGuardedBody`, and what follows it.
  abbrev pub after_guard :
      SafetyConfig H → Forwarded → Response → GuardedBodyConfig → Result GuardedBody → SafetyRun
  after_guard cfg f resp body_cfg (ok body) = (
    ok (record { response = resp; guard_config = body_cfg; guard = body }),
    forwarded f ∷ with_watchdog body_cfg [],
  )
  after_guard cfg f resp body_cfg (err e) =
      (err (errorf e), forwarded f ∷ with_watchdog body_cfg (drained ∷ cancel cfg))

  -- What follows the next round trip.
  abbrev pub after_next :
      SafetyWorld → SafetyConfig H → Request → Forwarded → Result Response → SafetyRun
  after_next w cfg req f (err e) = (err e, forwarded f ∷ cancel cfg)
  after_next w cfg req f (ok resp) =
      let body_cfg = guard_config cfg w.now req resp in
      after_guard cfg f (without_encoding cfg resp) body_cfg
        (new_guarded_body body_cfg (w.gzip_reader resp.body))

  abbrev pub preflight : SafetyWorld → SafetyConfig H → Request → Option GoError
  preflight w cfg req =
      if cfg.strict_ssrf_initial then check_ip_policy w.resolver req.url.hostname else none

  abbrev pub after_preflight : SafetyWorld → SafetyConfig H → Request → Option GoError → SafetyRun
  after_preflight w cfg req (some e) = (err e, [])
  after_preflight w cfg req none = after_next w cfg req (forward cfg req) (w.next (forward cfg req))

  unfoldable pub safe_round_trip : SafetyWorld → SafetyConfig H → Request → SafetyRun
  safe_round_trip w cfg req = after_preflight w cfg req (preflight w cfg req)

-- CloseIdleConnections, on what the method of the next transport does, where it has one.
abbrev close_idle_connections : {Event : Type 0} → Option (List Event) → List Event
close_idle_connections none = []
close_idle_connections (some events) = events

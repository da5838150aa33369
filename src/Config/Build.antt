-- ===== src/Config/Build.antt =====
-- gttp.go: `New`, and http2.go: `configureHTTP2`. The client is the data that its parts are built from.
use jttp.Prelude.{Bool, true, ◌&&◌, not, Option, none, some, List, ltb, if◌then◌else◌}
use jttp.Prelude.Int.{ℤ, pos, pos_part, ltb_ℤ, leb_ℤ, max_ℤ}
use jttp.Retry.{RetryTransport}
use jttp.Redirect.{RedirectConfig}
use jttp.Config.{
  Config, TlsConfig, default_retry_wait_min, default_retry_wait_max, default_max_retry_after,
  defaults,
}
use jttp.Config.Options.{ClientOption, apply_options}
use jttp.Config.Client.{
  Dialer, caller_dialer, net_dialer, ip_policy_dialer, Http2, HttpTransport, Base, custom_base,
  built_base, SafetyConfig, use_last_response, guard_check, Client, BuildWorld, default_if,
  version_tls12, default_tls_session_cache_capacity, is_none,
}

-- The defaults for waits that are not positive, and the swap of waits that are out of order.
unfoldable pub order_waits : ℤ → ℤ → ℤ × ℤ
order_waits min_wait max_wait =
    let low = default_if (leb_ℤ min_wait (pos 0)) default_retry_wait_min min_wait in
    let high = default_if (leb_ℤ max_wait (pos 0)) default_retry_wait_max max_wait in
    if ltb_ℤ high low then (high, low) else (low, high)

module _ {H : Type 0} where
  -- The corrections of the retry settings.
  unfoldable pub correct_retries : Config H → Config H
  unfolding order_waits
  correct_retries c =
      let waits = order_waits c.retry_wait_min c.retry_wait_max in
      record c {
        max_retries = max_ℤ c.max_retries (pos 0);
        max_redirects = max_ℤ c.max_redirects (pos 0);
        retry_wait_min = waits.0;
        retry_wait_max = waits.1;
        max_retry_after =
            default_if (leb_ℤ c.max_retry_after (pos 0)) default_max_retry_after c.max_retry_after;
      }

  -- Negative durations of the transport become 0.
  unfoldable pub clamp_timeouts : Config H → Config H
  clamp_timeouts c = record c {
    timeout = max_ℤ c.timeout (pos 0);
    dial_timeout = max_ℤ c.dial_timeout (pos 0);
    dial_keep_alive = max_ℤ c.dial_keep_alive (pos 0);
    idle_conn_timeout = max_ℤ c.idle_conn_timeout (pos 0);
    tls_handshake_timeout = max_ℤ c.tls_handshake_timeout (pos 0);
    response_header_timeout = max_ℤ c.response_header_timeout (pos 0);
    expect_continue_timeout = max_ℤ c.expect_continue_timeout (pos 0);
  }

  abbrev pub copied_tls : BuildWorld H → Option (TlsConfig H) → TlsConfig H
  copied_tls w none = record { min_version = 0; client_session_cache = none; other = w.empty_tls }
  copied_tls w (some tls) = tls

  abbrev pub cache_or_new : BuildWorld H → Option H → Option H
  cache_or_new w none = some (w.new_session_cache default_tls_session_cache_capacity)
  cache_or_new w (some cache) = some cache

  unfoldable pub hardened_tls : BuildWorld H → Option (TlsConfig H) → TlsConfig H
  hardened_tls w given =
      let tls = copied_tls w given in
      record tls {
        min_version = if ltb tls.min_version version_tls12 then version_tls12 else tls.min_version;
        client_session_cache = cache_or_new w tls.client_session_cache;
      }

  abbrev pub plain_dialer : Config H → Option H → Dialer H
  plain_dialer c none = net_dialer c.dial_timeout c.dial_keep_alive c.resolver
  plain_dialer c (some dial) = caller_dialer dial

  -- Strict protection of a direct transport is bound to the dial.
  unfoldable pub dialer_of : Config H → Dialer H
  dialer_of c =
      let dial = plain_dialer c c.dial_context in
      if c.strict_ssrf_initial && (c.disable_proxy && not c.allow_private_redirects)
      then ip_policy_dialer c.resolver dial (is_none c.dial_context)
      else dial

  unfoldable pub transport_of : BuildWorld H → Config H → HttpTransport H
  unfolding dialer_of hardened_tls
  transport_of w c = record {
    proxy = c.proxy;
    dialer = dialer_of c;
    max_idle_conns = c.max_idle_conns;
    max_idle_conns_per_host = c.max_idle_conns_per_host;
    max_conns_per_host = c.max_conns_per_host;
    idle_conn_timeout = c.idle_conn_timeout;
    tls_handshake_timeout = c.tls_handshake_timeout;
    response_header_timeout = c.response_header_timeout;
    max_response_header_bytes = c.max_response_header_bytes;
    expect_continue_timeout = c.expect_continue_timeout;
    force_attempt_http2 = c.force_http2;
    disable_keep_alives = c.disable_keep_alives;
    disable_compression = true;
    tls = hardened_tls w c.tls_config;
  }

  -- `none` is the error of http2.ConfigureTransports.
  unfoldable pub configure_http2 : BuildWorld H → HttpTransport H → ℤ → ℤ → Option Http2
  configure_http2 w tr read_idle ping =
      if w.configure_transports tr
      then some (record { read_idle_timeout = read_idle; ping_timeout = ping })
      else none

  abbrev pub with_http2 : HttpTransport H → Option Http2 → Option (Base H)
  with_http2 tr none = none
  with_http2 tr (some h2) = some (built_base tr (some h2))

  abbrev pub base_of : BuildWorld H → Config H → Option H → Option (Base H)
  base_of w c (some transport) = some (custom_base transport)
  base_of w c none =
      let tr = transport_of w c in
      if c.force_http2
      then with_http2 tr (configure_http2 w tr c.http2_read_idle_timeout c.http2_ping_timeout)
      else some (built_base tr none)

  unfoldable pub ip_policy_at_dial : Config H → Bool
  ip_policy_at_dial c =
      c.strict_ssrf_initial
      && (is_none c.transport && (c.disable_proxy && not c.allow_private_redirects))

  unfoldable pub guard_of : Config H → RedirectConfig
  unfolding ip_policy_at_dial
  guard_of c = record {
    max_redirects = c.max_redirects;
    allow_downgrade = c.allow_scheme_downgrade;
    allow_private = c.allow_private_redirects;
    strict_initial = c.strict_ssrf_initial;
    sensitive_headers = c.sensitive_headers;
    ip_policy_at_dial = ip_policy_at_dial c;
  }

  unfoldable pub safety_of : Config H → SafetyConfig H
  unfolding ip_policy_at_dial
  safety_of c = record {
    compression_enabled = not c.disable_compression;
    max_bytes = c.max_response_body_bytes;
    idle_timeout = c.idle_timeout;
    min_rate = c.min_rate;
    min_rate_window = c.min_rate_window;
    max_ratio = c.max_compression_ratio;
    body_observer = c.body_observer;
    strict_ssrf_initial = c.strict_ssrf_initial && not (ip_policy_at_dial c);
  }

  unfoldable pub retry_of : Config H → RetryTransport
  retry_of c = record {
    max_retries = pos_part c.max_retries;
    wait_min = c.retry_wait_min;
    wait_max = c.retry_wait_max;
    max_retry_after = c.max_retry_after;
    max_retry_body_bytes = c.max_retry_body_bytes;
    retryable_codes = c.retryable_status_codes;
    retryable_methods = c.retryable_methods;
    check_retry = c.check_retry;
    user_agent = c.user_agent;
    has_observer = not (is_none c.retry_observer);
  }

  unfoldable pub assemble : Config H → Base H → Client H
  unfolding guard_of safety_of retry_of
  assemble c base = record {
    base = base;
    safety = safety_of c;
    retry = retry_of c;
    guard = guard_of c;
    timeout = c.timeout;
    check_redirect = if leb_ℤ c.max_redirects (pos 0) then use_last_response else guard_check;
  }

  abbrev pub assemble_on : Config H → Option (Base H) → Option (Client H)
  assemble_on c none = none
  assemble_on c (some base) = some (assemble c base)

  abbrev pub corrected : List (ClientOption H) → Config H
  corrected options = clamp_timeouts (correct_retries (apply_options options defaults))

  -- `New`; `none` is its panic.
  unfoldable pub new : BuildWorld H → List (ClientOption H) → Option (Client H)
  new w options = let c = corrected options in assemble_on c (base_of w c c.transport)

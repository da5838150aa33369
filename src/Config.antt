-- ===== src/Config.antt =====
-- gttp.go: the configuration of a client and its default values. `Options` has the options, `Build` has
-- `New`. What a caller supplies and the package only passes on, such as a dial function, a resolver, a
-- transport or an observer, is an opaque value of a type `H`.
pub mod Options
pub mod Client
pub mod Build
pub mod Waits
pub mod Transport
pub mod Retryable
pub mod Ssrf
use jttp.Prelude.{ℕ, ◌*◌, ◌^◌, Bool, true, false, Option, none, some, List, [], ◌∷◌}
use jttp.Prelude.Int.{ℤ, pos}
use jttp.Errors.{GoError}
use jttp.Ip.{Bytes}
use jttp.Http.{Request, Response, codes}

-- A float64 option value, as an exact fraction.
pub record Ratio : Type 0 where
  pub numerator : ℤ
  pub denominator : ℕ

-- The proxy function: the caller's, or that of `WithNoProxy`, which gives no proxy for any request.
pub data Proxy (H : Type 0) : Type 0 where
  custom_proxy : H → Proxy H
  direct : Proxy H

-- The fields of a *tls.Config that are read, with the rest.
pub record TlsConfig (H : Type 0) : Type 0 where
  pub min_version : ℕ
  pub client_session_cache : Option H
  pub other : H

-- Durations are int64 nanoseconds; nil is `none`.
pub record Config (H : Type 0) : Type 0 where
  pub timeout : ℤ
  pub max_redirects : ℤ
  pub user_agent : Bytes
  pub max_idle_conns : ℤ
  pub max_idle_conns_per_host : ℤ
  pub max_conns_per_host : ℤ
  pub idle_conn_timeout : ℤ
  pub tls_handshake_timeout : ℤ
  pub response_header_timeout : ℤ
  pub max_response_header_bytes : ℤ
  pub dial_timeout : ℤ
  pub dial_keep_alive : ℤ
  pub expect_continue_timeout : ℤ
  pub disable_keep_alives : Bool
  pub disable_compression : Bool
  pub force_http2 : Bool
  pub http2_read_idle_timeout : ℤ
  pub http2_ping_timeout : ℤ
  pub dial_context : Option H
  pub resolver : Option H
  pub proxy : Option (Proxy H)
  pub disable_proxy : Bool
  pub max_retries : ℤ
  pub retry_wait_min : ℤ
  pub retry_wait_max : ℤ
  pub max_retry_after : ℤ
  pub max_retry_body_bytes : ℤ
  pub retryable_status_codes : List ℕ
  pub retryable_methods : List Bytes
  pub check_retry : Option (Request → Option Response → Option GoError → Bool)
  pub retry_observer : Option H
  pub tls_config : Option (TlsConfig H)
  pub transport : Option H
  pub idle_timeout : ℤ
  pub min_rate : ℤ
  pub min_rate_window : ℤ
  pub max_response_body_bytes : ℤ
  pub max_compression_ratio : Ratio
  pub body_observer : Option H
  pub allow_scheme_downgrade : Bool
  pub allow_private_redirects : Bool
  pub strict_ssrf_initial : Bool
  pub sensitive_headers : List Bytes

abbrev pub seconds : ℕ → ℤ
seconds n = pos (n * 1_000_000_000)

abbrev pub milliseconds : ℕ → ℤ
milliseconds n = pos (n * 1_000_000)

abbrev pub default_retry_wait_min : ℤ
default_retry_wait_min = milliseconds 250

abbrev pub default_retry_wait_max : ℤ
default_retry_wait_max = seconds 2

abbrev pub default_max_retry_after : ℤ
default_max_retry_after = seconds 60

-- The health checks of HTTP/2, of http2.go.
abbrev pub default_http2_read_idle_timeout : ℤ
default_http2_read_idle_timeout = seconds 30

abbrev pub default_http2_ping_timeout : ℤ
default_http2_ping_timeout = seconds 15

unfoldable pub defaults : {H : Type 0} → Config H
defaults = record {
  timeout = seconds 30;
  max_redirects = pos 5;
  user_agent = [];
  max_idle_conns = pos 20;
  max_idle_conns_per_host = pos 20;
  max_conns_per_host = pos 100;
  idle_conn_timeout = seconds 90;
  tls_handshake_timeout = seconds 5;
  response_header_timeout = seconds 10;
  max_response_header_bytes = pos 0;
  dial_timeout = seconds 5;
  dial_keep_alive = seconds 30;
  expect_continue_timeout = seconds 2;
  disable_keep_alives = false;
  disable_compression = false;
  force_http2 = true;
  http2_read_idle_timeout = default_http2_read_idle_timeout;
  http2_ping_timeout = default_http2_ping_timeout;
  dial_context = none;
  resolver = none;
  proxy = none;
  disable_proxy = false;
  max_retries = pos 3;
  retry_wait_min = default_retry_wait_min;
  retry_wait_max = default_retry_wait_max;
  max_retry_after = default_max_retry_after;
  max_retry_body_bytes = pos (4 * 2 ^ 20);
  retryable_status_codes = 408 ∷ 425 ∷ 429 ∷ 502 ∷ 503 ∷ 504 ∷ [];
  retryable_methods = codes "GET" ∷ codes "HEAD" ∷ codes "OPTIONS" ∷ [];
  check_retry = none;
  retry_observer = none;
  tls_config = none;
  transport = none;
  idle_timeout = seconds 30;
  min_rate = pos 0;
  min_rate_window = pos 0;
  max_response_body_bytes = pos 0;
  max_compression_ratio = record { numerator = pos 1000; denominator = 1 };
  body_observer = none;
  allow_scheme_downgrade = false;
  allow_private_redirects = false;
  strict_ssrf_initial = false;
  sensitive_headers = [];
}

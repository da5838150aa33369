-- ===== src/Config/Client.antt =====
-- gttp.go: what `New` builds, and what it calls.
use jttp.Prelude.{ℕ, Bool, true, false, Option, none, some, if◌then◌else◌}
use jttp.Prelude.Int.{ℤ}
use jttp.Retry.{RetryTransport}
use jttp.Redirect.{RedirectConfig}
use jttp.Config.{Proxy, Ratio, TlsConfig}

-- The dial function of a transport: the caller's, a net.Dialer's (timeout, keep-alive, resolver), or
-- one of these under the IP policy, with the resolver and whether the fallback is staggered.
pub data Dialer (H : Type 0) : Type 0 where
  caller_dialer : H → Dialer H
  net_dialer : ℤ → ℤ → Option H → Dialer H
  ip_policy_dialer : Option H → Dialer H → Bool → Dialer H

-- The health-check settings of the *http2.Transport.
pub record Http2 : Type 0 where
  pub read_idle_timeout : ℤ
  pub ping_timeout : ℤ

-- The http.Transport that `New` builds; `tls` is none of the caller's own, but a copy.
pub record HttpTransport (H : Type 0) : Type 0 where
  pub proxy : Option (Proxy H)
  pub dialer : Dialer H
  pub max_idle_conns : ℤ
  pub max_idle_conns_per_host : ℤ
  pub max_conns_per_host : ℤ
  pub idle_conn_timeout : ℤ
  pub tls_handshake_timeout : ℤ
  pub response_header_timeout : ℤ
  pub max_response_header_bytes : ℤ
  pub expect_continue_timeout : ℤ
  pub force_attempt_http2 : Bool
  pub disable_keep_alives : Bool
  pub disable_compression : Bool
  pub tls : TlsConfig H

pub data Base (H : Type 0) : Type 0 where
  custom_base : H → Base H
  built_base : HttpTransport H → Option Http2 → Base H

-- A safetyConfig, but for its pointer to the redirect guard.
pub record SafetyConfig (H : Type 0) : Type 0 where
  pub compression_enabled : Bool
  pub max_bytes : ℤ
  pub idle_timeout : ℤ
  pub min_rate : ℤ
  pub min_rate_window : ℤ
  pub max_ratio : Ratio
  pub body_observer : Option H
  pub strict_ssrf_initial : Bool

-- CheckRedirect: http.ErrUseLastResponse, or the guard's check.
pub data CheckRedirect : Type 0 where
  use_last_response guard_check : CheckRedirect

pub record Client (H : Type 0) : Type 0 where
  pub base : Base H
  pub safety : SafetyConfig H
  pub retry : RetryTransport
  pub guard : RedirectConfig
  pub timeout : ℤ
  pub check_redirect : CheckRedirect

-- What `New` calls: http2.ConfigureTransports, of which it matters whether it fails, a new session
-- cache of a size, and an empty tls.Config.
pub record BuildWorld (H : Type 0) : Type 0 where
  pub configure_transports : HttpTransport H → Bool
  pub new_session_cache : ℕ → H
  pub empty_tls : H

abbrev pub default_if : Bool → ℤ → ℤ → ℤ
default_if test default d = if test then default else d

-- tls.VersionTLS12
abbrev pub version_tls12 : ℕ
version_tls12 = 0x0303

abbrev pub default_tls_session_cache_capacity : ℕ
default_tls_session_cache_capacity = 32

abbrev pub is_none : {A : Type 0} → Option A → Bool
is_none none = true
is_none (some a) = false

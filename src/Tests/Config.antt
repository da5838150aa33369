-- ===== src/Tests/Config.antt =====
-- The theorems on `New`, applied.
use jttp.Prelude.{ℕ, ◌≡◌, refl, true, ◌&&◌, none, some, List, [], ◌∷◌, arith}
use jttp.Prelude.Int.{pos, negsuc, ◌≤ℤ◌}
use jttp.Config.{TlsConfig, defaults}
use jttp.Config.Options.{
  ClientOption, apply_options, with_retry_wait, with_strict_ssrf_protection, with_no_proxy,
  with_tls_config, with_retryable_status_codes, with_additional_retryable_status_codes,
}
use jttp.Config.Client.{Client, built_base, BuildWorld}
use jttp.Config.Build.{
  correct_retries, clamp_timeouts, transport_of, configure_http2, assemble, corrected, new,
}
use jttp.Config.Waits.{HasDurations}
use jttp.Config.Transport.{IsBaseOf, new-builds}
use jttp.Config.Retryable.{in_lists, new-retries}
use jttp.Retry.{has_method, should_retry}
use jttp.Tests.Data.{request, response}
use jttp.Config.Ssrf.{is_bound}

abbrev pub world : BuildWorld ℕ
world = record { configure_transports = λ tr. true; new_session_cache = λ n. n; empty_tls = 0 }

-- Waits that are wrong, and strict protection without a proxy.
abbrev options : List (ClientOption ℕ)
options =
    with_retry_wait (pos 5_000_000_000) (negsuc 3)
    ∷ with_strict_ssrf_protection
    ∷ with_no_proxy
    ∷ []

-- What `New` builds where nothing fails and no transport is given.
abbrev pub client_of : List (ClientOption ℕ) → Client ℕ
client_of given =
    let c = corrected given in
    assemble c (
      built_base (transport_of world c) (
        some (record {
          read_idle_timeout = c.http2_read_idle_timeout;
          ping_timeout = c.http2_ping_timeout;
        })))

abbrev client : Client ℕ
client = client_of options

options-HasDurations : HasDurations (apply_options options defaults)
unfolding apply_options defaults with_retry_wait with_strict_ssrf_protection with_no_proxy
options-HasDurations = record { min_int64 = omega arith; max_int64 = omega arith }

client_bound : is_bound client.base ≡ true
unfolding new correct_retries clamp_timeouts configure_http2 apply_options defaults with_retry_wait
    with_strict_ssrf_protection with_no_proxy assemble transport_of
client_bound = refl

abbrev old_tls : TlsConfig ℕ
old_tls = record { min_version = 0x0301; client_session_cache = none; other = 1 }

-- An old version of TLS is asked for.
abbrev old_options : List (ClientOption ℕ)
old_options = with_tls_config old_tls ∷ options

new-builds_example :
    (built : Client ℕ) × (new world old_options ≡ some built)
    × IsBaseOf world (corrected old_options) built.base
    × (pos 0 ≤ℤ built.timeout)
new-builds_example = new-builds world old_options refl

abbrev code_options : List (ClientOption ℕ)
code_options =
    with_retryable_status_codes (500 ∷ [])
    ∷ with_additional_retryable_status_codes (503 ∷ [])
    ∷ with_additional_retryable_status_codes (429 ∷ 500 ∷ [])
    ∷ []

code_client_built :
    (new world code_options ≡ some (client_of code_options))
    × ((client_of code_options).retry.check_retry ≡ none)
unfolding new assemble correct_retries clamp_timeouts configure_http2 apply_options defaults
    with_retryable_status_codes with_additional_retryable_status_codes
code_client_built = (refl, refl)

new-retries_example :
    should_retry (client_of code_options).retry request (some (response 503)) none ≡ (
      has_method (client_of code_options).retry.retryable_methods request.method
      && in_lists ((500 ∷ []) ∷ (503 ∷ []) ∷ (429 ∷ 500 ∷ []) ∷ []) 503)
new-retries_example =
    new-retries world [] (500 ∷ []) ((503 ∷ []) ∷ (429 ∷ 500 ∷ []) ∷ []) (client_of code_options)
      request (response 503) code_client_built.0 code_client_built.1

-- ===== src/Config/Options.antt =====
-- gttp.go: the options. An option writes into the configuration; `New` applies them in order.
use jttp.Prelude.{ℕ, Bool, true, false, Option, some, List, [], ◌∷◌, ◌++◌, ◌==◌, if◌then◌else◌, any}
use jttp.Prelude.Int.{ℤ, pos}
use jttp.Errors.{GoError}
use jttp.Ip.{Bytes, bytes_equal}
use jttp.Http.{Request, Response}
use jttp.Config.{Config, custom_proxy, direct, Ratio, TlsConfig}

abbrev pub ClientOption : Type 0 → Type 0
ClientOption H = Config H → Config H

-- A write into a map to struct{}.
unfoldable pub add_key : {A : Type 0} → (A → A → Bool) → List A → A → List A
add_key same keys k = if any (λ j. same j k) keys then keys else keys ++ k ∷ []

unfoldable pub add_keys : {A : Type 0} → (A → A → Bool) → List A → List A → List A
unfolding add_key
add_keys same keys [] = keys
add_keys same keys (k ∷ ks) = add_keys same (add_key same keys k) ks

module _ {H : Type 0} where
  unfoldable pub with_timeout : ℤ → ClientOption H
  with_timeout v c = record c { timeout = v }

  unfoldable pub with_redirect_policy : ℤ → ClientOption H
  with_redirect_policy v c = record c { max_redirects = v }

  unfoldable pub with_no_redirects : ClientOption H
  with_no_redirects c = record c { max_redirects = pos 0 }

  unfoldable pub with_user_agent : Bytes → ClientOption H
  with_user_agent v c = record c { user_agent = v }

  unfoldable pub with_max_idle_conns : ℤ → ClientOption H
  with_max_idle_conns v c = record c { max_idle_conns = v }

  unfoldable pub with_max_idle_conns_per_host : ℤ → ClientOption H
  with_max_idle_conns_per_host v c = record c { max_idle_conns_per_host = v }

  unfoldable pub with_max_conns_per_host : ℤ → ClientOption H
  with_max_conns_per_host v c = record c { max_conns_per_host = v }

  unfoldable pub with_idle_conn_timeout : ℤ → ClientOption H
  with_idle_conn_timeout v c = record c { idle_conn_timeout = v }

  unfoldable pub with_tls_handshake_timeout : ℤ → ClientOption H
  with_tls_handshake_timeout v c = record c { tls_handshake_timeout = v }

  unfoldable pub with_response_header_timeout : ℤ → ClientOption H
  with_response_header_timeout v c = record c { response_header_timeout = v }

  unfoldable pub with_dial_timeout : ℤ → ClientOption H
  with_dial_timeout v c = record c { dial_timeout = v }

  unfoldable pub with_retries : ℤ → ClientOption H
  with_retries v c = record c { max_retries = v }

  unfoldable pub with_no_retries : ClientOption H
  with_no_retries c = record c { max_retries = pos 0 }

  unfoldable pub with_max_retry_after : ℤ → ClientOption H
  with_max_retry_after v c = record c { max_retry_after = v }

  unfoldable pub with_max_retry_body_bytes : ℤ → ClientOption H
  with_max_retry_body_bytes v c = record c { max_retry_body_bytes = v }

  unfoldable pub with_check_retry :
      (Request → Option Response → Option GoError → Bool) → ClientOption H
  with_check_retry v c = record c { check_retry = some v }

  unfoldable pub with_retry_observer : H → ClientOption H
  with_retry_observer v c = record c { retry_observer = some v }

  unfoldable pub with_transport : H → ClientOption H
  with_transport v c = record c { transport = some v }

  unfoldable pub with_tls_config : TlsConfig H → ClientOption H
  with_tls_config v c = record c { tls_config = some v }

  unfoldable pub with_disable_keep_alives : ClientOption H
  with_disable_keep_alives c = record c { disable_keep_alives = true }

  unfoldable pub with_disable_compression : ClientOption H
  with_disable_compression c = record c { disable_compression = true }

  unfoldable pub with_body_observer : H → ClientOption H
  with_body_observer v c = record c { body_observer = some v }

  unfoldable pub with_force_http2 : Bool → ClientOption H
  with_force_http2 v c = record c { force_http2 = v }

  unfoldable pub with_http2_read_idle_timeout : ℤ → ClientOption H
  with_http2_read_idle_timeout v c = record c { http2_read_idle_timeout = v }

  unfoldable pub with_http2_ping_timeout : ℤ → ClientOption H
  with_http2_ping_timeout v c = record c { http2_ping_timeout = v }

  unfoldable pub with_expect_continue_timeout : ℤ → ClientOption H
  with_expect_continue_timeout v c = record c { expect_continue_timeout = v }

  unfoldable pub with_dial_keep_alive : ℤ → ClientOption H
  with_dial_keep_alive v c = record c { dial_keep_alive = v }

  unfoldable pub with_dial_context : H → ClientOption H
  with_dial_context v c = record c { dial_context = some v }

  unfoldable pub with_resolver : H → ClientOption H
  with_resolver v c = record c { resolver = some v }

  unfoldable pub with_max_response_header_bytes : ℤ → ClientOption H
  with_max_response_header_bytes v c = record c { max_response_header_bytes = v }

  unfoldable pub with_idle_timeout : ℤ → ClientOption H
  with_idle_timeout v c = record c { idle_timeout = v }

  unfoldable pub with_max_response_body_bytes : ℤ → ClientOption H
  with_max_response_body_bytes v c = record c { max_response_body_bytes = v }

  unfoldable pub with_max_compression_ratio : Ratio → ClientOption H
  with_max_compression_ratio v c = record c { max_compression_ratio = v }

  unfoldable pub with_allow_scheme_downgrade : ClientOption H
  with_allow_scheme_downgrade c = record c { allow_scheme_downgrade = true }

  unfoldable pub with_allow_private_redirects : ClientOption H
  with_allow_private_redirects c = record c { allow_private_redirects = true }

  unfoldable pub with_strict_ssrf_protection : ClientOption H
  with_strict_ssrf_protection c = record c { strict_ssrf_initial = true }

  unfoldable pub with_sensitive_headers : List Bytes → ClientOption H
  with_sensitive_headers v c = record c { sensitive_headers = v }

  unfoldable pub with_retry_wait : ℤ → ℤ → ClientOption H
  with_retry_wait min_wait max_wait c = record c {
    retry_wait_min = min_wait;
    retry_wait_max = max_wait;
  }

  unfoldable pub with_retryable_status_codes : List ℕ → ClientOption H
  unfolding add_keys
  with_retryable_status_codes cs c = record c { retryable_status_codes = add_keys ◌==◌ [] cs }

  unfoldable pub with_additional_retryable_status_codes : List ℕ → ClientOption H
  unfolding add_keys
  with_additional_retryable_status_codes cs c = record c {
    retryable_status_codes = add_keys ◌==◌ c.retryable_status_codes cs;
  }

  unfoldable pub with_retryable_methods : List Bytes → ClientOption H
  unfolding add_keys
  with_retryable_methods ms c = record c { retryable_methods = add_keys bytes_equal [] ms }

  unfoldable pub with_additional_retryable_methods : List Bytes → ClientOption H
  unfolding add_keys
  with_additional_retryable_methods ms c = record c {
    retryable_methods = add_keys bytes_equal c.retryable_methods ms;
  }

  unfoldable pub with_proxy : H → ClientOption H
  with_proxy v c = record c { proxy = some (custom_proxy v); disable_proxy = false }

  unfoldable pub with_no_proxy : ClientOption H
  with_no_proxy c = record c { proxy = some direct; disable_proxy = true }

  unfoldable pub with_min_transfer_rate : ℤ → ℤ → ClientOption H
  with_min_transfer_rate bps window c = record c { min_rate = bps; min_rate_window = window }

  unfoldable pub apply_options : List (ClientOption H) → Config H → Config H
  apply_options [] c = c
  apply_options (o ∷ os) c = apply_options os (o c)

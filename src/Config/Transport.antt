-- ===== src/Config/Transport.antt =====
-- The transport that `New` builds, whatever the options set.
use jttp.Prelude.{
  ◌&&◌, not, Bool-cases, inl, inr, ◌≤◌, ◌≡◌, refl, ap, Bool, true, false, Option, none, some, List,
  if◌then◌else◌, arith,
}
use jttp.Prelude.Int.{ℤ, pos, ◌≤ℤ◌, max_ℤ}
use jttp.Config.{Config, TlsConfig, defaults}
use jttp.Config.Options.{ClientOption, apply_options}
use jttp.Config.Client.{
  Dialer, caller_dialer, net_dialer, ip_policy_dialer, Http2, HttpTransport, Base, custom_base,
  built_base, Client, BuildWorld, version_tls12, is_none,
}
use jttp.Config.Build.{
  plain_dialer, dialer_of, correct_retries, clamp_timeouts, hardened_tls, copied_tls, transport_of,
  configure_http2, with_http2, base_of, corrected, assemble, new,
}

max_ℤ-nonneg : (d : ℤ) → pos 0 ≤ℤ max_ℤ d (pos 0)
max_ℤ-nonneg d = ground arith

module _ {H : Type 0} where
  -- A net.Dialer has no negative timeout and no negative keep-alive, under the IP policy or not.
  abbrev pub IsPatient : Dialer H → Type 0
  IsPatient (caller_dialer dial) = Unit
  IsPatient (net_dialer timeout keep_alive resolver) = (pos 0 ≤ℤ timeout) × (pos 0 ≤ℤ keep_alive)
  IsPatient (ip_policy_dialer resolver dial staggered) = IsPatient dial

  plain_dialer-IsPatient :
      (c : Config H) (o : Option H) → let c = clamp_timeouts c in IsPatient (plain_dialer c o)
  unfolding clamp_timeouts
  plain_dialer-IsPatient c none = (max_ℤ-nonneg c.dial_timeout, max_ℤ-nonneg c.dial_keep_alive)
  plain_dialer-IsPatient c (some dial) = tt

  dialer_of-IsPatient : (c : Config H) → let c = clamp_timeouts c in IsPatient (dialer_of c)
  unfolding dialer_of
  dialer_of-IsPatient c =
      let d = clamp_timeouts c in
      let plain = plain_dialer-IsPatient c d.dial_context in
      elim (Bool-cases
        (d.strict_ssrf_initial && (d.disable_proxy && not d.allow_private_redirects))) [
          | inl strict ↦ rw strict plain
          | inr direct ↦ rw direct plain
        ]

  -- TLS 1.2 at least, and the version that the caller asked for; a session cache, no decompression of its
  -- own, and no negative timeouts.
  pub record IsHardened (w : BuildWorld H) (c : Config H) (tr : HttpTransport H) : Type 0 where
    pub above_tls12 : version_tls12 ≤ tr.tls.min_version
    pub above_given : (copied_tls w c.tls_config).min_version ≤ tr.tls.min_version
    pub has_cache : is_none tr.tls.client_session_cache ≡ false
    pub other_same : tr.tls.other ≡ (copied_tls w c.tls_config).other
    pub keeps_compressed : tr.disable_compression ≡ true
    pub dialer_patient : IsPatient tr.dialer
    pub idle_nonneg : pos 0 ≤ℤ tr.idle_conn_timeout
    pub handshake_nonneg : pos 0 ≤ℤ tr.tls_handshake_timeout
    pub header_nonneg : pos 0 ≤ℤ tr.response_header_timeout
    pub continue_nonneg : pos 0 ≤ℤ tr.expect_continue_timeout

  -- The caller's transport, or a hardened one, with HTTP/2 and its health checks if that is forced.
  abbrev pub IsBaseOf : BuildWorld H → Config H → Base H → Type 0
  IsBaseOf w c (custom_base transport) = c.transport ≡ some transport
  IsBaseOf w c (built_base tr h2) =
      (c.transport ≡ none)
      × IsHardened w c tr
      × (h2 ≡ (
          if c.force_http2
          then some (record {
            read_idle_timeout = c.http2_read_idle_timeout;
            ping_timeout = c.http2_ping_timeout;
          })
          else none))

  hardened_tls-secure :
      (w : BuildWorld H) (given : Option (TlsConfig H))
      → (version_tls12 ≤ (hardened_tls w given).min_version)
        × ((copied_tls w given).min_version ≤ (hardened_tls w given).min_version)
        × (is_none (hardened_tls w given).client_session_cache ≡ false)
        × ((hardened_tls w given).other ≡ (copied_tls w given).other)
  unfolding hardened_tls
  hardened_tls-secure w none = ground arith
  hardened_tls-secure w (some tls) = ground arith

  transport_of-IsHardened :
      (w : BuildWorld H) (c : Config H)
      → let c = clamp_timeouts c in IsHardened w c (transport_of w c)
  unfolding transport_of clamp_timeouts
  transport_of-IsHardened w c =
      let (version, given, cache, other) = hardened_tls-secure w c.tls_config in
      record {
        above_tls12 = version;
        above_given = given;
        has_cache = cache;
        other_same = other;
        keeps_compressed = refl;
        dialer_patient = dialer_of-IsPatient c;
        idle_nonneg = max_ℤ-nonneg c.idle_conn_timeout;
        handshake_nonneg = max_ℤ-nonneg c.tls_handshake_timeout;
        header_nonneg = max_ℤ-nonneg c.response_header_timeout;
        continue_nonneg = max_ℤ-nonneg c.expect_continue_timeout;
      }

  -- HTTP/2 can be configured on the transport that is built.
  abbrev pub Configures : BuildWorld H → Config H → Type 0
  Configures w c = w.configure_transports (transport_of w c) ≡ true

  configure_http2-some :
      (w : BuildWorld H) (tr : HttpTransport H) (read_idle ping : ℤ)
      → w.configure_transports tr ≡ true
      → configure_http2 w tr read_idle ping
        ≡ some (record { read_idle_timeout = read_idle; ping_timeout = ping })
  unfolding configure_http2
  configure_http2-some w tr read_idle ping e = rw e refl

  built_on :
      (tr : HttpTransport H) (o : Option Http2) (h2 : Http2) (forced : Bool)
      → o ≡ some h2
      → (if forced then with_http2 tr o else some (built_base tr none))
        ≡ some (built_base tr (if forced then some h2 else none))
  built_on tr o h2 true e = ap (with_http2 tr) e
  built_on tr o h2 false e = refl

  base_of-IsBaseOf :
      (w : BuildWorld H) (c : Config H) (o : Option H)
      → c.transport ≡ o
      → Configures w c
      → IsHardened w c (transport_of w c)
      → (base : Base H) × (base_of w c o ≡ some base) × IsBaseOf w c base
  base_of-IsBaseOf w c (some transport) given configures hardened =
      (custom_base transport, refl, given)
  base_of-IsBaseOf w c none given configures hardened =
      let tr = transport_of w c in
      let h2 : Http2 = record {
        read_idle_timeout = c.http2_read_idle_timeout;
        ping_timeout = c.http2_ping_timeout;
      } in
      (
        built_base tr (if c.force_http2 then some h2 else none),
        built_on tr _ h2 c.force_http2
            (configure_http2-some w tr c.http2_read_idle_timeout c.http2_ping_timeout configures),
        (given, hardened, refl),
      )

  timeout-nonneg : (c : Config H) → pos 0 ≤ℤ (clamp_timeouts c).timeout
  unfolding clamp_timeouts
  timeout-nonneg c = max_ℤ-nonneg c.timeout

  -- New returns a client, if http2.ConfigureTransports does not fail on the transport that it would
  -- build. The client has no negative timeout, whatever the options set. Its base is the caller's
  -- transport, if one was given. Otherwise it is a transport that asks for TLS 1.2 at least, and for the
  -- version that the caller's tls.Config asks for, that has a session cache and leaves responses
  -- compressed. Whatever the options set, none of its limits on a handshake, a response's header, an idle
  -- connection and an expected continue is negative, nor are the timeout and the keep-alive of its
  -- dialer, if that is a net.Dialer. It speaks HTTP/2 exactly if that is forced, with the health checks
  -- as they are configured, which may be negative.
  pub new-builds :
      (w : BuildWorld H) (options : List (ClientOption H))
      → Configures w (corrected options)
      → (client : Client H) × (new w options ≡ some client)
        × IsBaseOf w (corrected options) client.base
        × (pos 0 ≤ℤ client.timeout)
  unfolding new assemble
  new-builds w options configures =
      let c = corrected options in
      let given = correct_retries (apply_options options defaults) in
      let (base, built, is) =
        base_of-IsBaseOf w c c.transport refl configures (transport_of-IsHardened w given) in
      (assemble c base, rw built refl, is, timeout-nonneg given)

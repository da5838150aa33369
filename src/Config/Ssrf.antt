-- ===== src/Config/Ssrf.antt =====
-- Where strict protection is enforced in the client that `New` builds.
use jttp.Prelude.{
  ◌≡◌, refl, ap, Bool, true, false, Option, none, some, List, arith, ◌&&◌, ◌||◌, ◌∙◌, not,
  if◌then◌else◌,
}
use jttp.Config.{Config}
use jttp.Config.Options.{ClientOption}
use jttp.Config.Client.{
  Client, Base, BuildWorld, custom_base, built_base, Dialer, caller_dialer, net_dialer,
  ip_policy_dialer, HttpTransport, Http2, is_none,
}
use jttp.Config.Build.{
  corrected, dialer_of, transport_of, configure_http2, with_http2, plain_dialer, assemble, base_of,
  new,
}
use jttp.Config.Waits.{assemble_on-some}

or_left : (a b c : Bool) → a ≡ false → (a || b) ≡ c → b ≡ c
or_left a b c h e = ground arith

module _ {H : Type 0} where
  abbrev pub is_policy_dialer : Dialer H → Bool
  is_policy_dialer (caller_dialer d) = false
  is_policy_dialer (net_dialer timeout keep_alive resolver) = false
  is_policy_dialer (ip_policy_dialer resolver d staggered) = true

  -- The transport dials under the IP policy.
  abbrev pub is_bound : Base H → Bool
  is_bound (custom_base transport) = false
  is_bound (built_base tr h2) = is_policy_dialer tr.dialer

  is_policy_dialer-plain :
      (c : Config H) (o : Option H) → is_policy_dialer (plain_dialer c o) ≡ false
  is_policy_dialer-plain c none = refl
  is_policy_dialer-plain c (some d) = refl

  is_policy_dialer-dialer_of :
      (c : Config H)
      → is_policy_dialer (dialer_of c)
        ≡ (c.strict_ssrf_initial && (c.disable_proxy && not c.allow_private_redirects))
  unfolding dialer_of
  is_policy_dialer-dialer_of c = ground (arith, is_policy_dialer-plain c c.dial_context)

  dialer-transport_of : (w : BuildWorld H) (c : Config H) → (transport_of w c).dialer ≡ dialer_of c
  unfolding transport_of
  dialer-transport_of w c = refl

  is_bound-with_http2 :
      (tr : HttpTransport H) (o : Option Http2) (base : Base H)
      → with_http2 tr o ≡ some base
      → is_bound base ≡ is_policy_dialer tr.dialer
  is_bound-with_http2 tr none base e = absurd (ground arith)
  is_bound-with_http2 tr (some h2) base e =
      let same : base ≡ built_base tr (some h2) = cc in ap is_bound same

  is_bound-built :
      (force : Bool) (tr : HttpTransport H) (o : Option Http2) (base : Base H)
      → (if force then with_http2 tr o else some (built_base tr none)) ≡ some base
      → is_bound base ≡ is_policy_dialer tr.dialer
  is_bound-built true tr o base e = is_bound-with_http2 tr o base e
  is_bound-built false tr o base e = let same : base ≡ built_base tr none = cc in ap is_bound same

  is_bound-base_of :
      (w : BuildWorld H) (c : Config H) (o : Option H) (base : Base H)
      → base_of w c o ≡ some base
      → is_bound base ≡ (is_none o && is_policy_dialer (dialer_of c))
  is_bound-base_of w c (some transport) base e =
      let same : base ≡ custom_base transport = cc in ap is_bound same
  is_bound-base_of w c none base e =
      is_bound-built c.force_http2 (transport_of w c)
        (configure_http2 w (transport_of w c) c.http2_read_idle_timeout c.http2_ping_timeout) base e
      ∙ ap is_policy_dialer (dialer-transport_of w c)

  strict-parts :
      (c : Config H) (base : Base H)
      → is_bound base ≡ (
          is_none c.transport
          && (c.strict_ssrf_initial && (c.disable_proxy && not c.allow_private_redirects)))
      → ((assemble c base).guard.ip_policy_at_dial ≡ is_bound base)
        × ((is_bound base || (assemble c base).safety.strict_ssrf_initial) ≡ c.strict_ssrf_initial)
        × ((is_bound base && (assemble c base).safety.strict_ssrf_initial) ≡ false)
  unfolding assemble
  strict-parts c base h = ground arith

  pub new-strict :
      (w : BuildWorld H) (options : List (ClientOption H)) (client : Client H)
      → new w options ≡ some client
      → (client.guard.ip_policy_at_dial ≡ is_bound client.base)
        × ((is_bound client.base || client.safety.strict_ssrf_initial)
            ≡ (corrected options).strict_ssrf_initial)
        × ((is_bound client.base && client.safety.strict_ssrf_initial) ≡ false)
  unfolding new assemble
  new-strict w options client e =
      let c = corrected options in
      let (base, built, same) = assemble_on-some c (base_of w c c.transport) client e in
      let bound =
        is_bound-base_of w c c.transport base built
        ∙ ap (λ b. is_none c.transport && b) (is_policy_dialer-dialer_of c) in
      rw same (strict-parts c base bound)

  -- A strict client whose transport does not dial under the policy checks each round trip.
  pub strict-each_time :
      (w : BuildWorld H) (options : List (ClientOption H)) (client : Client H)
      → new w options ≡ some client
      → (corrected options).strict_ssrf_initial ≡ true
      → is_bound client.base ≡ false
      → client.safety.strict_ssrf_initial ≡ true
  strict-each_time w options client e strict unbound =
      or_left (is_bound client.base) client.safety.strict_ssrf_initial true unbound
        ((new-strict w options client e).1 ∙ strict)

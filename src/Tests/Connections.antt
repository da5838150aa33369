-- ===== src/Tests/Connections.antt =====
-- The theorem on what a client with strict protection can connect to, applied to one without a proxy.
use jttp.Prelude.{ℕ, ◌≡◌, ◌↔◌, ◌⊎◌, refl, true, false, some, List, [], ◌∷◌}
use jttp.Http.{codes}
use jttp.Ssrf.{other_network}
use jttp.Redirect.Policy.{IsPublicHost}
use jttp.Config.{defaults}
use jttp.Config.Options.{ClientOption, apply_options, with_strict_ssrf_protection, with_no_proxy}
use jttp.Config.Client.{Client}
use jttp.Config.Build.{new, correct_retries, clamp_timeouts, configure_http2, corrected}
use jttp.Config.Ssrf.{is_bound}
use jttp.Safety.{forward, safe_round_trip}
use jttp.Safety.Policy.{forwards}
use jttp.Safety.Connections.{connects, AreApproved, new-connects}
use jttp.Tests.Data.{request}
use jttp.Tests.Config.{client_of}
use jttp.Tests.Config as TestConfig
use jttp.Tests.Dial.{connect, connect-IsStaggered, world}
use jttp.Tests.Safety.{safety_world, public_ip, resolving}

abbrev options : List (ClientOption ℕ)
options = with_strict_ssrf_protection ∷ with_no_proxy ∷ []

abbrev client : Client ℕ
client = client_of options

client_built : new TestConfig.world options ≡ some client
unfolding new correct_retries clamp_timeouts configure_http2 apply_options defaults
    with_strict_ssrf_protection with_no_proxy
client_built = refl

options_strict : (corrected options).strict_ssrf_initial ≡ true
unfolding correct_retries clamp_timeouts apply_options defaults with_strict_ssrf_protection
    with_no_proxy
options_strict = refl

new-connects_example :
    ((is_bound client.base ≡ true)
      × AreApproved (connects world connect client.base other_network (codes "a.example:443")))
    ⊎ ((is_bound client.base ≡ false)
        × ((forwards (safe_round_trip (safety_world public_ip) client.safety request).1
              ≡ forward client.safety request ∷ [])
            ↔ IsPublicHost (resolving public_ip) (codes "a.example")))
new-connects_example =
    new-connects TestConfig.world options client world connect other_network (codes "a.example:443")
      (safety_world public_ip) request client_built options_strict connect-IsStaggered

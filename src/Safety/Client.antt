-- ===== src/Safety/Client.antt =====
-- Strict protection in a client that `New` built, from its options to its round trips.
use jttp.Prelude.{ℕ, ◌≡◌, refl, true, false, ◌&&◌, not, Option, none, some, List, [], ◌∷◌, arith}
use jttp.Errors.{ok, errorf}
use jttp.Http.{Url, Request, Response}
use jttp.Redirect.{
  RedirectConfig, ResolverWorld, blocked_error, normalize_url, visited, is_downgrade, is_too_long,
  last_of, scrub, check,
}
use jttp.Retry.{RetryWorld}
use jttp.Retry.Body.{GetBody}
use jttp.Retry.Loop.{returned, sent, with_user_agent, prepare, round_trip}
use jttp.Config.Options.{ClientOption}
use jttp.Config.Client.{Client, BuildWorld}
use jttp.Config.Build.{corrected, assemble, base_of, new}
use jttp.Config.Waits.{assemble_on-some}
use jttp.Config.Ssrf.{is_bound, strict-each_time}
use jttp.Safety.{SafeResponse, SafetyWorld, safe_round_trip}
use jttp.Safety.Policy.{forwards}
use jttp.Safety.Retried.{over, IsBlockedHost, round_trip-blocked}

-- A redirect that no other part of `check` refuses passes where private redirects are allowed.
check-private :
    (cfg : RedirectConfig) (w : ResolverWorld) (req : Request) (via : List Url)
    → cfg.allow_private ≡ true
    → is_too_long cfg via ≡ false
    → visited via (normalize_url req.url) ≡ false
    → (not cfg.allow_downgrade && is_downgrade (last_of via) req.url) ≡ false
    → check cfg w req via ≡ ok (record req { header = scrub cfg (last_of via) req.url req.header })
unfolding check
check-private cfg w req via p short fresh up = rw (short, fresh, up, p) refl

module _ {H : Type 0} where
  private_parts :
      (w : BuildWorld H) (options : List (ClientOption H)) (client : Client H)
      → new w options ≡ some client
      → (corrected options).strict_ssrf_initial ≡ true
      → (corrected options).allow_private_redirects ≡ true
      → (client.safety.strict_ssrf_initial ≡ true) × (client.guard.allow_private ≡ true)
  unfolding new assemble
  private_parts w options client e strict private =
      let c = corrected options in
      let (base, built, same) = assemble_on-some c (base_of w c c.transport) client e in
      rw same (ground arith)

  -- In a client built with strict protection whose transport does not dial under the IP policy, and with
  -- no test of the caller, a request to a host that is a blocked address, or that has one in its answer,
  -- is tried once: it fails with ErrBlockedByIPPolicy, is not retried, and nothing is sent for it.
  pub new-blocked :
      (b : BuildWorld H) (options : List (ClientOption H)) (client : Client H)
      (safety : ℕ → SafetyWorld) (view : ℕ → SafeResponse → Response) (w : RetryWorld)
      (original req : Request) (g : Option GetBody)
      → new b options ≡ some client
      → (corrected options).strict_ssrf_initial ≡ true
      → is_bound client.base ≡ false
      → client.retry.check_retry ≡ none
      → prepare client.retry (with_user_agent client.retry original) ≡ ok (req, g)
      → IsBlockedHost (safety 0).resolver req.url.hostname
      → (round_trip client.retry (over safety client.safety view w) original
          ≡ (returned none (some (errorf blocked_error)), sent req ∷ []))
        × (forwards (safe_round_trip (safety 0) client.safety req).1 ≡ [])
  new-blocked b options client safety view w original req g e strict unbound c prepared h =
      let each_time = strict-each_time b options client e strict unbound in
      round_trip-blocked client.retry safety client.safety view w original req g c each_time
        prepared h

  -- In a client built with strict protection and with private redirects allowed, and with no test of the
  -- caller, a redirect to a blocked host passes the guard if nothing else is wrong with it, and its request
  -- fails with ErrBlockedByIPPolicy all the same, with nothing sent for it.
  pub new-private_redirect :
      (b : BuildWorld H) (options : List (ClientOption H)) (client : Client H)
      (safety : ℕ → SafetyWorld) (view : ℕ → SafeResponse → Response) (w : RetryWorld)
      (resolver : ResolverWorld) (target req : Request) (via : List Url) (g : Option GetBody)
      → new b options ≡ some client
      → (corrected options).strict_ssrf_initial ≡ true
      → (corrected options).allow_private_redirects ≡ true
      → client.retry.check_retry ≡ none
      → is_too_long client.guard via ≡ false
      → visited via (normalize_url target.url) ≡ false
      → (not client.guard.allow_downgrade && is_downgrade (last_of via) target.url) ≡ false
      → let followed = record target {
        header = scrub client.guard (last_of via) target.url target.header;
      } in
        prepare client.retry (with_user_agent client.retry followed) ≡ ok (req, g)
        → IsBlockedHost (safety 0).resolver req.url.hostname
        → (check client.guard resolver target via ≡ ok followed)
          × (round_trip client.retry (over safety client.safety view w) followed
              ≡ (returned none (some (errorf blocked_error)), sent req ∷ []))
          × (forwards (safe_round_trip (safety 0) client.safety req).1 ≡ [])
  new-private_redirect b options client safety view w resolver target req via g e strict private c
        short fresh up prepared h =
      let (each_time, allowed) = private_parts b options client e strict private in
      let followed = record target {
        header = scrub client.guard (last_of via) target.url target.header;
      } in
      let (once, unsent) =
        round_trip-blocked client.retry safety client.safety view w followed req g c each_time
          prepared h in
      (check-private client.guard resolver target via allowed short fresh up, once, unsent)

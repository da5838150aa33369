-- ===== src/Tests/Safety.antt =====
-- The theorems on safety.go, applied, alone and in a client that `New` built.
use jttp.Prelude.{
  sym, ℕ, ◌≡◌, refl, true, false, ◌&&◌, ◌||◌, not, none, some, List, [], ◌∷◌, if◌then◌else◌, arith,
}
use jttp.Prelude.Int.{pos, negsuc, wrap64}
use jttp.Errors.{ok, err, errorf, plain, unexpected_eof}
use jttp.Ip.{Bytes}
use jttp.Ssrf.{is_blocked_ip}
use jttp.Http.{Request, Response, codes, get, lower, equal_fold}
use jttp.Redirect.{
  ResolverWorld, blocked_error, normalize_url, visited, is_downgrade, is_too_long, last_of, scrub,
  check, check_ip_policy,
}
use jttp.Retry.Loop.{returned, sent, with_user_agent, prepare, round_trip}
use jttp.Guard.Source.{still_active}
use jttp.Guard.Body.{ReadStep, FloatWorld}
use jttp.Guard.Body.Life.{new_guarded_body, fresh_body}
use jttp.Guard.Body.Limit.{consume, IsLimited}
use jttp.Config.{defaults}
use jttp.Config.Options.{
  ClientOption, apply_options, with_strict_ssrf_protection, with_allow_private_redirects,
}
use jttp.Config.Client.{Client, SafetyConfig}
use jttp.Config.Build.{
  new, correct_retries, clamp_timeouts, configure_http2, transport_of, assemble, corrected,
}
use jttp.Config.Ssrf.{is_bound}
use jttp.Safety.{
  forwarded, watched, drained, cancelled, forward, SafeResponse, SafetyWorld, guard_config,
  without_encoding, safe_round_trip, is_some,
}
use jttp.Safety.Policy.{forwards, Cleans, safe_round_trip-Cleans}
use jttp.Safety.Bodies.{of_encoding, safe_round_trip-IsLimited, safe_round_trip-encoding}
use jttp.Safety.Retried.{over, IsBlockedHost, blocked_answer}
use jttp.Safety.Client.{new-blocked, new-private_redirect}
use jttp.Tests.Data.{url, request, response, world}
use jttp.Tests.Config.{client_of}
use jttp.Tests.Config as TestConfig

abbrev pub limited : SafetyConfig ℕ
limited = record {
  compression_enabled = true;
  max_bytes = pos 10;
  idle_timeout = pos 30_000_000_000;
  min_rate = pos 0;
  min_rate_window = pos 0;
  max_ratio = record { numerator = pos 1000; denominator = 1 };
  body_observer = none;
  strict_ssrf_initial = true;
}

-- Every name has one address, and the transport answers with gzip.
abbrev pub resolving : Bytes → ResolverWorld
resolving ip = record { parse_ip = λ h. none; lookup = λ h. ok (some ip ∷ []) }

abbrev pub zipped : Response
zipped = record (response 200) { header = (codes "Content-Encoding", codes "GZIP" ∷ []) ∷ [] }

abbrev pub safety_world : Bytes → SafetyWorld
safety_world ip = record {
  resolver = resolving ip;
  next = λ f. ok zipped;
  gzip_reader = λ b. ok ((18, none) ∷ []);
  now = pos 0;
}

abbrev pub public_ip : Bytes
public_ip = 93 ∷ 184 ∷ 216 ∷ 34 ∷ []

abbrev private_ip : Bytes
private_ip = 10 ∷ 0 ∷ 0 ∷ 1 ∷ []

-- The header that gzip.NewReader looks for is missing.
abbrev refusing_world : SafetyWorld
refusing_world = record (safety_world public_ip) { gzip_reader = λ b. err (plain unexpected_eof) }

safe_round_trip-Cleans_example : Cleans limited (safe_round_trip refusing_world limited request)
safe_round_trip-Cleans_example = safe_round_trip-Cleans refusing_world limited request

-- The watchdog is started, and the response has no guard to close.
refusing_run : safe_round_trip refusing_world limited request ≡ (
  err (errorf (errorf (plain unexpected_eof))),
  forwarded (forward limited request) ∷ watched ∷ drained ∷ cancelled ∷ [],
)
unfolding safe_round_trip check_ip_policy is_blocked_ip new_guarded_body get lower
refusing_run = refl

abbrev safe_response : SafeResponse
safe_response =
    let body_cfg = guard_config limited (pos 0) request zipped in
    record {
      response = without_encoding limited zipped;
      guard_config = body_cfg;
      guard = fresh_body body_cfg (some (record { total = pos 18 }));
    }

request_answered : (safe_round_trip (safety_world public_ip) limited request).0 ≡ ok safe_response
unfolding safe_round_trip check_ip_policy is_blocked_ip new_guarded_body get lower wrap64
request_answered = refl

abbrev pub floats : FloatWorld
floats = record { rate = λ bytes window. bytes; above_ratio = λ read total. false }

abbrev pub chunk : ReadStep
chunk = record {
  before = still_active;
  count = 6;
  error = none;
  inner_reads = (12, none) ∷ [];
  now = 0;
  after = still_active;
}

safe_round_trip-IsLimited_example :
    (let (n, e) =
        consume floats safe_response.guard_config safe_response.guard (chunk ∷ chunk ∷ []) in
      IsLimited 10 0 n e)
safe_round_trip-IsLimited_example =
    safe_round_trip-IsLimited (safety_world public_ip) limited request safe_response floats 10
      (chunk ∷ chunk ∷ []) request_answered refl (omega arith) (omega arith, (omega arith, tt))

zipped_by_gzip : equal_fold (get zipped.header (codes "Content-Encoding")) (codes "gzip") ≡ true
unfolding get lower
zipped_by_gzip = refl

safe_round_trip-encoding_example :
    (get safe_response.response.header (codes "content-length") ≡ (
      if true && of_encoding (codes "content-length")
      then []
      else get zipped.header (codes "content-length")))
    × (safe_response.response.content_length ≡ negsuc 0)
    × (is_some safe_response.guard.compressed ≡ true)
    × (safe_response.response.status_code ≡ zipped.status_code)
    × (safe_response.guard.read_bytes ≡ pos 0)
safe_round_trip-encoding_example =
    safe_round_trip-encoding (safety_world public_ip) limited request zipped safe_response true
      (codes "content-length") refl request_answered (sym zipped_by_gzip)

abbrev options : List (ClientOption ℕ)
options = with_strict_ssrf_protection ∷ with_allow_private_redirects ∷ []

abbrev client : Client ℕ
client = client_of options

client_built : new TestConfig.world options ≡ some client
unfolding new correct_retries clamp_timeouts configure_http2 apply_options defaults
    with_strict_ssrf_protection with_allow_private_redirects
client_built = refl

options_strict :
    ((corrected options).strict_ssrf_initial ≡ true)
    × ((corrected options).allow_private_redirects ≡ true)
unfolding correct_retries clamp_timeouts apply_options defaults with_strict_ssrf_protection
    with_allow_private_redirects
options_strict = (refl, refl)

client_unbound : (is_bound client.base ≡ false) × (client.retry.check_retry ≡ none)
unfolding correct_retries clamp_timeouts apply_options defaults with_strict_ssrf_protection
    with_allow_private_redirects assemble transport_of
client_unbound = (refl, refl)

request_prepared : prepare client.retry (with_user_agent client.retry request) ≡ ok (request, none)
unfolding correct_retries clamp_timeouts apply_options defaults with_strict_ssrf_protection
    with_allow_private_redirects assemble
request_prepared = refl

private_is_blocked : (is_blocked_ip (some private_ip) || false) ≡ true
unfolding is_blocked_ip
private_is_blocked = refl

host-IsBlockedHost : (host : Bytes) → IsBlockedHost (resolving private_ip) host
host-IsBlockedHost host = blocked_answer (some private_ip ∷ []) refl refl private_is_blocked

new-blocked_example :
    (round_trip client.retry
        (over (λ k. safety_world private_ip) client.safety (λ k r. r.response) world)
        request
      ≡ (returned none (some (errorf blocked_error)), sent request ∷ []))
    × (forwards (safe_round_trip (safety_world private_ip) client.safety request).1 ≡ [])
new-blocked_example =
    new-blocked TestConfig.world options client (λ k. safety_world private_ip) (λ k r. r.response)
      world request request none client_built options_strict.0 client_unbound.0 client_unbound.1
      request_prepared (host-IsBlockedHost (codes "a.example"))

abbrev target : Request
target = record request { url = record url { hostname = codes "b.example" } }

abbrev followed : Request
followed = record target {
  header = scrub client.guard (last_of (url ∷ [])) target.url target.header;
}

redirect_passes :
    (is_too_long client.guard (url ∷ []) ≡ false)
    × (visited (url ∷ []) (normalize_url target.url) ≡ false)
    × ((not client.guard.allow_downgrade && is_downgrade (last_of (url ∷ [])) target.url) ≡ false)
unfolding correct_retries clamp_timeouts apply_options defaults with_strict_ssrf_protection
    with_allow_private_redirects assemble normalize_url lower
redirect_passes = (refl, refl, refl)

followed_prepared :
    prepare client.retry (with_user_agent client.retry followed) ≡ ok (followed, none)
unfolding correct_retries clamp_timeouts apply_options defaults with_strict_ssrf_protection
    with_allow_private_redirects assemble
followed_prepared = refl

new-private_redirect_example :
    (check client.guard (resolving private_ip) target (url ∷ []) ≡ ok followed)
    × (round_trip client.retry
          (over (λ k. safety_world private_ip) client.safety (λ k r. r.response) world)
          followed
        ≡ (returned none (some (errorf blocked_error)), sent followed ∷ []))
    × (forwards (safe_round_trip (safety_world private_ip) client.safety followed).1 ≡ [])
new-private_redirect_example =
    new-private_redirect TestConfig.world options client (λ k. safety_world private_ip)
      (λ k r. r.response) world (resolving private_ip) target followed (url ∷ []) none client_built
      options_strict.0 options_strict.1 client_unbound.1 redirect_passes.0 redirect_passes.1
      redirect_passes.2 followed_prepared (host-IsBlockedHost (codes "b.example"))

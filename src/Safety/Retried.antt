-- ===== src/Safety/Retried.antt =====
-- A retry transport over a safety transport, as `New` wires them.
use jttp.Prelude.{
  ℕ, suc, ◌≡◌, refl, ap, ◌∙◌, true, false, Option, none, some, List, [], ◌∷◌, arith, any,
}
use jttp.Errors.{
  GoError, Result, ok, err, errorf, errors_is, same_target, first_timeout, first_is_not_found,
}
use jttp.Ip.{Ip, Bytes}
use jttp.Ssrf.{is_blocked_ip}
use jttp.Http.{Request, Response}
use jttp.Redirect.{
  ResolverWorld, blocked_error, check_addresses, check_answer, check_parsed, check_ip_policy,
}
use jttp.Retry.{RetryTransport, RetryWorld, is_retryable_error, should_retry}
use jttp.Retry.Body.{GetBody}
use jttp.Retry.Loop.{
  returned, sent, used, stops, turn, attempt_loop, with_user_agent, prepare, start, round_trip,
}
use jttp.Config.Client.{SafetyConfig}
use jttp.Safety.{SafeResponse, SafetyWorld, SafetyRun, preflight, after_preflight, safe_round_trip}
use jttp.Safety.Policy.{forwards}

abbrev pub seen : (SafeResponse → Response) → Result SafeResponse → Option Response × Option GoError
seen view (ok r) = (some (view r), none)
seen view (err e) = (none, some e)

module _ {H : Type 0} where
  -- The world of a retry transport whose next transport is a safety transport. What the latter meets may
  -- differ from attempt to attempt, and `view` is the response with its guarded body: what a read of that
  -- gives depends on time.
  abbrev pub over :
      (ℕ → SafetyWorld) → SafetyConfig H → (ℕ → SafeResponse → Response) → RetryWorld → RetryWorld
  over safety cfg view w = record w {
    next = λ k req. seen (view k) (safe_round_trip (safety k) cfg req).0;
  }

-- A blocked literal address, or a name with a blocked address in the answer.
pub data IsBlockedHost (w : ResolverWorld) (host : Bytes) : Type 0 where
  blocked_literal :
      (ip : Bytes)
      → w.parse_ip host ≡ some ip
      → is_blocked_ip (some ip) ≡ true
      → IsBlockedHost w host
  blocked_answer :
      (ips : List Ip)
      → w.parse_ip host ≡ none
      → w.lookup host ≡ ok ips
      → any is_blocked_ip ips ≡ true
      → IsBlockedHost w host

check_addresses-blocked :
    (ips : List Ip)
    → any is_blocked_ip ips ≡ true
    → check_addresses ips ≡ some (errorf blocked_error)
unfolding check_addresses
check_addresses-blocked [] h = cc
check_addresses-blocked (ip ∷ ips) h = ground (arith, check_addresses-blocked ips)

check_answer-blocked :
    (ips : List Ip)
    → any is_blocked_ip ips ≡ true
    → check_answer (ok ips) ≡ some (errorf blocked_error)
unfolding check_answer
check_answer-blocked [] h = cc
check_answer-blocked (ip ∷ ips) h = check_addresses-blocked (ip ∷ ips) h

check_parsed-literal :
    (w : ResolverWorld) (host ip : Bytes)
    → is_blocked_ip (some ip) ≡ true
    → check_parsed w host (some ip) ≡ some (errorf blocked_error)
unfolding check_parsed
check_parsed-literal w host ip h = rw h refl

check_parsed-answer :
    (w : ResolverWorld) (host : Bytes) → check_parsed w host none ≡ check_answer (w.lookup host)
unfolding check_parsed
check_parsed-answer w host = refl

check_ip_policy-blocked :
    (w : ResolverWorld) (host : Bytes)
    → IsBlockedHost w host
    → check_ip_policy w host ≡ some (errorf blocked_error)
unfolding check_ip_policy
check_ip_policy-blocked w host (blocked_literal ip p h) =
    ap (check_parsed w host) p ∙ check_parsed-literal w host ip h
check_ip_policy-blocked w host (blocked_answer ips p l h) =
    ap (check_parsed w host) p
    ∙ (check_parsed-answer w host ∙ (ap check_answer l ∙ check_answer-blocked ips h))

is_retryable_error-blocked : is_retryable_error (some (errorf blocked_error)) ≡ false
unfolding is_retryable_error errors_is same_target first_timeout first_is_not_found
is_retryable_error-blocked = refl

should_retry-blocked :
    (t : RetryTransport) (req : Request)
    → t.check_retry ≡ none
    → should_retry t req none (some (errorf blocked_error)) ≡ false
unfolding should_retry
should_retry-blocked t req c = rw (c, is_retryable_error-blocked) (ground arith)

-- An attempt whose error is not retried ends the loop.
attempt_loop-last :
    (t : RetryTransport) (w : RetryWorld) (g : Option GetBody) (n : ℕ) (req : Request) (e : GoError)
    → w.next 0 req ≡ (none, some e)
    → should_retry t (used req) none (some e) ≡ false
    → attempt_loop t w g (suc n) 0 req ≡ (returned none (some e), sent req ∷ [])
unfolding attempt_loop
attempt_loop-last t w g n req e p h =
    let last : stops t 0 (used req) none (some e) ≡ true = rw h refl in
    ap (turn t w 0 g (attempt_loop t w g n 1) req) p ∙ rw last refl

module _ {H : Type 0} where
  safe_round_trip-blocked :
      (w : SafetyWorld) (cfg : SafetyConfig H) (req : Request)
      → cfg.strict_ssrf_initial ≡ true
      → IsBlockedHost w.resolver req.url.hostname
      → safe_round_trip w cfg req ≡ (err (errorf blocked_error), [])
  unfolding safe_round_trip
  safe_round_trip-blocked w cfg req strict h =
      let refused : preflight w cfg req ≡ some (errorf blocked_error) =
        rw strict (check_ip_policy-blocked w.resolver req.url.hostname h) in
      ap (after_preflight w cfg req) refused

  -- With a retry transport over a safety transport under strict protection, and no test of the caller, a
  -- request to a host that is a blocked address, or that has one in its answer, is tried once: it fails
  -- with ErrBlockedByIPPolicy, is not retried, and no request is given to the transport below.
  pub round_trip-blocked :
      (t : RetryTransport) (safety : ℕ → SafetyWorld) (cfg : SafetyConfig H)
      (view : ℕ → SafeResponse → Response) (w : RetryWorld) (original req : Request)
      (g : Option GetBody)
      → t.check_retry ≡ none
      → cfg.strict_ssrf_initial ≡ true
      → prepare t (with_user_agent t original) ≡ ok (req, g)
      → IsBlockedHost (safety 0).resolver req.url.hostname
      → (round_trip t (over safety cfg view w) original
          ≡ (returned none (some (errorf blocked_error)), sent req ∷ []))
        × (forwards (safe_round_trip (safety 0) cfg req).1 ≡ [])
  unfolding round_trip
  round_trip-blocked t safety cfg view w original req g c strict prepared h =
      let blocked = safe_round_trip-blocked (safety 0) cfg req strict h in
      let world = over safety cfg view w in
      (
        ap (start t world) prepared
            ∙ attempt_loop-last t world g t.max_retries req (errorf blocked_error)
                (ap (λ (run : SafetyRun). seen (view 0) run.0) blocked)
                (should_retry-blocked t (used req) c),
        ap (λ (run : SafetyRun). forwards run.1) blocked,
      )

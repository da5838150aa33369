-- ===== src/Safety/Policy.antt =====
-- Which requests a safety transport lets through, and what it cleans up.
use jttp.Prelude.{
  ◌≤◌, Bool-cases, ℕ, suc, ◌≡◌, ◌≢◌, ◌↔◌, refl, sym, ◌∙◌, true, ◌⊎◌, inl, inr, Option, none, some,
  List, [], ◌∷◌, arith, if◌then◌else◌, Option-cases,
}
use jttp.Errors.{GoError, Result, ok, err}
use jttp.Http.{Request, Response}
use jttp.Redirect.{check_ip_policy}
use jttp.Redirect.Policy.{IsPublicHost, check_ip_policy_iff}
use jttp.Guard.Body.{GuardedBodyConfig, GuardedBody}
use jttp.Guard.Body.Life.{new_guarded_body, new_watchdog, stops_once, fresh_body, gzip_body}
use jttp.Config.Client.{SafetyConfig}
use jttp.Prelude.Int.{pos, ltb_ℤ}
use jttp.Guard.Source.{InnerRead}
use jttp.Safety.{
  cancel, Forwarded, SafetyEvent, forwarded, watched, drained, cancelled, SafetyWorld, SafetyRun,
  is_guarded, forward, after_guard, after_next, preflight, after_preflight, safe_round_trip,
  without_encoding, guard_config,
}

-- The requests that were given to the next transport.
abbrev pub forwards : List SafetyEvent → List Forwarded
forwards [] = []
forwards (forwarded f ∷ es) = f ∷ forwards es
forwards (watched ∷ es) = forwards es
forwards (drained ∷ es) = forwards es
forwards (cancelled ∷ es) = forwards es

abbrev pub cancels : List SafetyEvent → ℕ
cancels [] = 0
cancels (forwarded f ∷ es) = cancels es
cancels (watched ∷ es) = cancels es
cancels (drained ∷ es) = cancels es
cancels (cancelled ∷ es) = suc (cancels es)

-- The watchdogs that were started for the body of the response.
abbrev pub watches : List SafetyEvent → ℕ
watches [] = 0
watches (forwarded f ∷ es) = watches es
watches (watched ∷ es) = suc (watches es)
watches (drained ∷ es) = watches es
watches (cancelled ∷ es) = watches es

-- The calls of `drainAndClose`.
abbrev pub drains : List SafetyEvent → ℕ
drains [] = 0
drains (forwarded f ∷ es) = drains es
drains (watched ∷ es) = drains es
drains (drained ∷ es) = suc (drains es)
drains (cancelled ∷ es) = drains es

new_guarded_body-watchdog :
    (c : GuardedBodyConfig) (gzip : Result (List InnerRead)) (body : GuardedBody)
    → new_guarded_body c gzip ≡ ok body
    → body.watchdog ≡ new_watchdog c
unfolding new_guarded_body
new_guarded_body-watchdog c gzip body e = elim (Bool-cases c.decompress_gzip) [
  | inl zipped ↦ opened gzip (rw zipped at e)
  | inr plain ↦ let same : ok (fresh_body c none) ≡ ok body = rw plain at e in cc
]
  where
    opened :
        (o : Result (List InnerRead)) → gzip_body c o ≡ ok body → body.watchdog ≡ new_watchdog c
    opened (ok reads) h = cc
    opened (err x) h = absurd (cc)

module _ {H : Type 0} where
  after_guard-forwards :
      (cfg : SafetyConfig H) (f : Forwarded) (resp : Response) (body_cfg : GuardedBodyConfig)
      (r : Result GuardedBody)
      → forwards (after_guard cfg f resp body_cfg r).1 ≡ f ∷ []
  after_guard-forwards cfg f resp body_cfg (ok body) = ground arith
  after_guard-forwards cfg f resp body_cfg (err e) = ground arith

  after_next-forwards :
      (w : SafetyWorld) (cfg : SafetyConfig H) (req : Request) (f : Forwarded) (r : Result Response)
      → forwards (after_next w cfg req f r).1 ≡ f ∷ []
  after_next-forwards w cfg req f (err e) = ground arith
  after_next-forwards w cfg req f (ok resp) =
      let body_cfg = guard_config cfg w.now req resp in
      after_guard-forwards cfg f (without_encoding cfg resp) body_cfg
        (new_guarded_body body_cfg (w.gzip_reader resp.body))

  pub after_preflight-forwards :
      (w : SafetyWorld) (cfg : SafetyConfig H) (req : Request) (o : Option GoError)
      → (o ≡ none → forwards (after_preflight w cfg req o).1 ≡ forward cfg req ∷ [])
        × (o ≢ none → forwards (after_preflight w cfg req o).1 ≡ [])
  after_preflight-forwards w cfg req none = (
    λ h. after_next-forwards w cfg req (forward cfg req) (w.next (forward cfg req)),
    λ h. absurd (h refl),
  )
  after_preflight-forwards w cfg req (some e) = (λ h. absurd (cc), λ h. refl)

  -- Under strict protection a round trip gives its request to the next transport exactly if the host is
  -- a literal address that is not blocked, or a name that resolves to at least one address and to no
  -- blocked one; and then it gives that one request only.
  pub safe_round_trip-strict :
      (w : SafetyWorld) (cfg : SafetyConfig H) (req : Request)
      → cfg.strict_ssrf_initial ≡ true
      → (forwards (safe_round_trip w cfg req).1 ≡ forward cfg req ∷ [])
        ↔ IsPublicHost w.resolver req.url.hostname
  unfolding safe_round_trip
  safe_round_trip-strict w cfg req strict =
      let policy = check_ip_policy_iff w.resolver req.url.hostname in
      let asked : preflight w cfg req ≡ check_ip_policy w.resolver req.url.hostname =
        rw strict refl in
      let cases = after_preflight-forwards w cfg req (preflight w cfg req) in
      (
        λ sent. elim (Option-cases (preflight w cfg req)) [
          | inl passed ↦ policy.0 (sym asked ∙ passed)
          | inr (e, refused) ↦ absurd (let none_sent = cases.1 (λ p. cc) in cc)
        ],
        λ public. cases.0 (asked ∙ policy.1 public),
      )

  -- Of a failed round trip: it sent nothing, or it cancelled the child context, where there is one, once,
  -- and started the watchdog of the body, where the idle timeout is positive, if it drained the response.
  -- Of one that gives a response: it did not cancel, and the watchdog it started is that of the body.
  abbrev pub Cleans : SafetyConfig H → SafetyRun → Type 0
  Cleans cfg (ok resp, events) =
      (cancels events ≡ 0) × (drains events ≡ 0) × (watches events ≡ stops_once resp.guard.watchdog)
  Cleans cfg (err e, events) =
      (events ≡ [])
      ⊎ ((cancels events ≡ (if is_guarded cfg then 1 else 0))
          × (drains events ≤ 1)
          × (watches events ≡ (if ltb_ℤ (pos 0) cfg.idle_timeout then drains events else 0)))

  cancel_counts :
      (cfg : SafetyConfig H)
      → (cancels (cancel cfg) ≡ (if is_guarded cfg then 1 else 0))
        × (drains (cancel cfg) ≡ 0)
        × (watches (cancel cfg) ≡ 0)
  cancel_counts cfg = ground arith

  after_guard-Cleans :
      (w : SafetyWorld) (cfg : SafetyConfig H) (req : Request) (f : Forwarded)
      (sent resp : Response) (r : Result GuardedBody)
      → ((body : GuardedBody)
          → r ≡ ok body
          → body.watchdog ≡ new_watchdog (guard_config cfg w.now req sent))
      → Cleans cfg (after_guard cfg f resp (guard_config cfg w.now req sent) r)
  after_guard-Cleans w cfg req f sent resp (ok body) h =
      elim (Bool-cases (ltb_ℤ (pos 0) cfg.idle_timeout)) [
        | inl idle ↦ rw (h body refl, idle) (refl, refl, refl)
        | inr never ↦ rw (h body refl, never) (refl, refl, refl)
      ]
  after_guard-Cleans w cfg req f sent resp (err e) h =
      elim (Bool-cases (ltb_ℤ (pos 0) cfg.idle_timeout)) [
        | inl idle ↦ rw idle (inr (refl, omega arith, refl))
        | inr never ↦ rw never (inr (ground arith, ground arith, ground arith))
      ]

  after_next-Cleans :
      (w : SafetyWorld) (cfg : SafetyConfig H) (req : Request) (f : Forwarded) (r : Result Response)
      → Cleans cfg (after_next w cfg req f r)
  after_next-Cleans w cfg req f (err e) =
      let (c, d, s) = cancel_counts cfg in inr (c, omega arith, ground arith)
  after_next-Cleans w cfg req f (ok resp) =
      let body_cfg = guard_config cfg w.now req resp in
      after_guard-Cleans w cfg req f resp (without_encoding cfg resp)
        (new_guarded_body body_cfg (w.gzip_reader resp.body))
        (new_guarded_body-watchdog body_cfg (w.gzip_reader resp.body))

  -- A round trip that fails after it sent its request cancels the child context, if there is one, once.
  -- It drains a response at most once. Where the idle timeout is positive, it has started a watchdog for
  -- the body of a response exactly if it drained that, and it gives no body whose Close would stop it. A
  -- round trip that gives a response cancels and drains nothing, and the watchdog that it started, if
  -- any, is that of the body.
  pub safe_round_trip-Cleans :
      (w : SafetyWorld) (cfg : SafetyConfig H) (req : Request)
      → Cleans cfg (safe_round_trip w cfg req)
  unfolding safe_round_trip
  safe_round_trip-Cleans w cfg req = passed (preflight w cfg req)
    where
      passed : (o : Option GoError) → Cleans cfg (after_preflight w cfg req o)
      passed none = after_next-Cleans w cfg req (forward cfg req) (w.next (forward cfg req))
      passed (some e) = inl refl

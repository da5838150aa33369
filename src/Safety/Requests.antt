-- ===== src/Safety/Requests.antt =====
-- The request that a safety transport gives to the next one.
use jttp.Prelude.{
  ◌≡◌, refl, Bool, true, false, ◌&&◌, ◌||◌, ◌⊎◌, inl, inr, Option, none, some, List, [], ◌∷◌, arith,
  if◌then◌else◌, Bool-cases, Option-cases,
}
use jttp.Prelude.Int.{ℤ, pos, ltb_ℤ}
use jttp.Errors.{GoError, err}
use jttp.Ip.{Bytes, bytes_equal}
use jttp.Http.{Header, Request, codes, get, set, canonical_key, header_values}
use jttp.Retry.Hint.{is_empty}
use jttp.Redirect.Headers.{same_header, values-remove_key}
use jttp.Guard.Writer.{GuardedWriter, new_guarded_writer}
use jttp.Guard.Writer.Calls.{WriterCall, run_writer, IsPassedOn, run_writer-IsPassedOn, watching}
use jttp.Config.Client.{SafetyConfig}
use jttp.Safety.{
  Forwarded, SafetyWorld, has_body, with_accept_encoding, forward, preflight, is_positive,
  safe_round_trip,
}
use jttp.Safety.Policy.{forwards, after_preflight-forwards}

-- After Header.Set a header of that name, in any case of letters, has the value, and the others are as they
-- were.
get-set :
    (h : Header) (name value other : Bytes)
    → get (set h name value) other ≡ (if same_header name other then value else get h other)
unfolding get set header_values
get-set h name value other =
    elim (Bool-cases (bytes_equal (canonical_key name) (canonical_key other))) [
      | inl same ↦ rw same refl
      | inr differs ↦ ground (arith, values-remove_key (canonical_key name) (canonical_key other) h)
    ]

-- A body is guarded by a writer, which passes on what is done with it, or there is no writer.
abbrev pub IsGuardedBy : Bool → Option GuardedWriter → List WriterCall → Type 0
IsGuardedBy true (some g) calls = IsPassedOn 0 none calls (run_writer g calls)
IsGuardedBy true none calls = ⊥
IsGuardedBy false (some g) calls = ⊥
IsGuardedBy false none calls = Unit

-- The writer that guards a body while the idle timeout is positive.
new_guarded_writer-watching :
    (d : ℤ) → ltb_ℤ (pos 0) d ≡ true → new_guarded_writer true d ≡ watching 0 none
unfolding new_guarded_writer
new_guarded_writer-watching d e = rw e refl

body_if :
    (idle present slow large dense : Bool) (g : GuardedWriter) (calls : List WriterCall)
    → (idle ≡ true → g ≡ watching 0 none)
    → IsGuardedBy
        (idle && present)
        (if idle && (present && (idle || slow || large || dense)) then some g else none)
        calls
body_if true true slow large dense g calls h = rw (h refl) (run_writer-IsPassedOn 0 none calls)
body_if true false slow large dense g calls h = tt
body_if false present slow large dense g calls h = tt

rest_if :
    (sets : Bool) (req : Request) (h : Header)
    → let sent : Request = if sets then record req { header = h } else req in
      sent ≡ record req { header = sent.header }
rest_if true req h = refl
rest_if false req h = refl

headers_if :
    (enabled missing : Bool) (req : Request) (name : Bytes)
    → let sent : Request =
        if enabled && missing
        then record req { header = set req.header (codes "Accept-Encoding") (codes "gzip") }
        else req in
      get sent.header name ≡ (
        if enabled && (missing && same_header (codes "Accept-Encoding") name)
        then codes "gzip"
        else get req.header name)
headers_if true true req name = get-set req.header (codes "Accept-Encoding") (codes "gzip") name
headers_if true false req name = refl
headers_if false missing req name = refl

module _ {H : Type 0} where
  -- The caller's request, but for Accept-Encoding where it is missing and compression is enabled, with a
  -- guarded body if there is one and the idle timeout is positive.
  pub record IsForwarded (cfg : SafetyConfig H) (req : Request) (calls : List WriterCall)
      (f : Forwarded) : Type 0 where
    pub headers_are :
        (name : Bytes)
        → get f.request.header name ≡ (
            if cfg.compression_enabled
              && (is_empty (get req.header (codes "Accept-Encoding"))
                  && same_header (codes "Accept-Encoding") name)
            then codes "gzip"
            else get req.header name)
    pub rest_same : f.request ≡ record req { header = f.request.header }
    pub body_guarded :
        IsGuardedBy (ltb_ℤ (pos 0) cfg.idle_timeout && has_body req.body) f.writer calls

  headers_of :
      (cfg : SafetyConfig H) (req : Request) (name : Bytes)
      → get (with_accept_encoding cfg req).header name ≡ (
          if cfg.compression_enabled
            && (is_empty (get req.header (codes "Accept-Encoding"))
                && same_header (codes "Accept-Encoding") name)
          then codes "gzip"
          else get req.header name)
  headers_of cfg req name =
      headers_if cfg.compression_enabled (is_empty (get req.header (codes "Accept-Encoding"))) req
        name

  rest_of :
      (cfg : SafetyConfig H) (req : Request)
      → with_accept_encoding cfg req ≡ record req { header = (with_accept_encoding cfg req).header }
  rest_of cfg req =
      rest_if (cfg.compression_enabled && is_empty (get req.header (codes "Accept-Encoding"))) req
        (set req.header (codes "Accept-Encoding") (codes "gzip"))

  body_of :
      (cfg : SafetyConfig H) (req : Request) (calls : List WriterCall)
      → IsGuardedBy
          (ltb_ℤ (pos 0) cfg.idle_timeout && has_body req.body)
          (forward cfg req).writer
          calls
  body_of cfg req calls =
      body_if (ltb_ℤ (pos 0) cfg.idle_timeout) (has_body req.body) (ltb_ℤ (pos 0) cfg.min_rate)
        (ltb_ℤ (pos 0) cfg.max_bytes) (is_positive cfg.max_ratio)
        (new_guarded_writer true cfg.idle_timeout) calls
        (new_guarded_writer-watching cfg.idle_timeout)

  -- A round trip that fails its preflight gives no request to the next transport, and returns that error.
  -- Any other gives one: the caller's, but that Accept-Encoding is gzip if compression is enabled and it was
  -- empty. Its body, if there is one and the idle timeout is positive, is guarded by a writer. However
  -- that is read and closed, each Read returns what the body returns, each Close returns the result of
  -- the first, the body is closed and the watchdog is stopped once, if ever, and the watchdog is reset at
  -- each Read that returns some bytes. Without an idle timeout, or without a body, there is no such writer.
  pub safe_round_trip-request :
      (w : SafetyWorld) (cfg : SafetyConfig H) (req : Request) (calls : List WriterCall)
      → ((e : GoError) × (preflight w cfg req ≡ some e) × (safe_round_trip w cfg req ≡ (err e, [])))
        ⊎ ((f : Forwarded) × (preflight w cfg req ≡ none)
            × (forwards (safe_round_trip w cfg req).1 ≡ f ∷ [])
            × IsForwarded cfg req calls f)
  unfolding safe_round_trip
  safe_round_trip-request w cfg req calls = elim (Option-cases (preflight w cfg req)) [
    | inl passed ↦ inr (
      forward cfg req,
      passed,
      (after_preflight-forwards w cfg req (preflight w cfg req)).0 passed,
      record {
        headers_are = headers_of cfg req;
        rest_same = rest_of cfg req;
        body_guarded = body_of cfg req calls;
      },
    )
    | inr (e, refused) ↦ inl (e, refused, rw refused refl)
  ]

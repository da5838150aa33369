-- ===== src/Retry/Backoff/Total.antt =====
-- Every wait is positive and bounded, with a server's hint or without one.
use jttp.Prelude.{
  ℕ, ◌≡◌, refl, inl, inr, Option, none, some, List, [], ◌∷◌, arith, Bool-cases, Option-cases,
}
use jttp.Prelude.Int.{ℤ, pos, ◌≤ℤ◌, ◌<ℤ◌, max_ℤ, le-max_ℤ_left, le-max_ℤ_right, ≤ℤ_trans, leb_ℤ}
use jttp.Ip.{Bytes}
use jttp.Http.{Response}
use jttp.Retry.{RetryTransport, RetryWorld, IsRandom}
use jttp.Retry.Hint.{clamp_server_wait, first_hint, hint_sources, is_empty, parse_server_wait_hint}
use jttp.Retry.Backoff.{exponential_wait, backoff, hint_of}
use jttp.Retry.Backoff.Bounds.{HasValidWaits, exponential_wait_bounds, jittered_bounds}

-- What holds of a wait that a hint gives.
abbrev pub IsClamped : RetryTransport → ℤ → Type 0
IsClamped t d =
    (pos 0 <ℤ d) × (d ≤ℤ t.max_retry_after) × (t.wait_min ≤ℤ t.max_retry_after → t.wait_min ≤ℤ d)

clamp_server_wait-IsClamped :
    (t : RetryTransport) (d : ℤ)
    → HasValidWaits t
    → pos 0 <ℤ d
    → IsClamped t (clamp_server_wait t d)
unfolding clamp_server_wait
clamp_server_wait-IsClamped t d v p = ground arith

first_hint-IsClamped :
    (t : RetryTransport) (sources : List (Bytes × (Bytes → ℤ))) (d : ℤ)
    → HasValidWaits t
    → first_hint t sources ≡ some d
    → IsClamped t d
unfolding first_hint
first_hint-IsClamped t [] d v e = absurd (cc)
first_hint-IsClamped t ((raw, parse) ∷ sources) d v e = elim (Bool-cases (is_empty raw)) [
  | inl empty ↦ first_hint-IsClamped t sources d v (rw empty at e)
  | inr filled ↦ elim (Bool-cases (leb_ℤ (parse raw) (pos 0))) [
    | inl past ↦ first_hint-IsClamped t sources d v (rw (filled, past) at e)
    | inr future ↦
        let same : clamp_server_wait t (parse raw) ≡ d = ground arith in
        rw (← same) (clamp_server_wait-IsClamped t (parse raw) v (ground arith))
  ]
]

-- With valid waits, a hint that is heeded is positive, at most maxRetryAfter, and at least waitMin where that is not
-- above maxRetryAfter.
parse_server_wait_hint-IsClamped :
    (t : RetryTransport) (w : RetryWorld) (attempt : ℕ) (resp : Response) (d : ℤ)
    → HasValidWaits t
    → parse_server_wait_hint t w attempt resp ≡ some d
    → IsClamped t d
unfolding parse_server_wait_hint
parse_server_wait_hint-IsClamped t w attempt resp d v e =
    first_hint-IsClamped t (hint_sources w attempt resp) d v e

backoff-hint :
    (t : RetryTransport) (w : RetryWorld) (attempt : ℕ) (resp : Option Response) (d : ℤ)
    → HasValidWaits t
    → hint_of t w attempt resp ≡ some d
    → IsClamped t d
backoff-hint t w attempt none d v e = absurd (cc)
backoff-hint t w attempt (some resp) d v e = parse_server_wait_hint-IsClamped t w attempt resp d v e

-- With valid waits, and each draw of rand.Int64N in its range, the backoff does not panic: it is a
-- positive wait, at most the larger of waitMax and maxRetryAfter, whatever the attempt and the response.
pub backoff_bounded :
    (t : RetryTransport) (w : RetryWorld) (attempt : ℕ) (resp : Option Response)
    → HasValidWaits t
    → IsRandom w
    → (d : ℤ) × (backoff t w attempt resp ≡ some d)
      × (pos 0 <ℤ d)
      × (d ≤ℤ max_ℤ t.wait_max t.max_retry_after)
unfolding backoff
backoff_bounded t w attempt resp v r = elim (Option-cases (hint_of t w attempt resp)) [
  | inl e ↦
      let b = exponential_wait_bounds t attempt v in
      let (d, is, p, le, ge) =
        jittered_bounds t (w.int64n attempt) (r.int64n-lt attempt) (exponential_wait t attempt) v
          b.0 b.1 in
      (
        d,
        rw e is,
        p,
        le-max_ℤ_left d t.wait_max t.max_retry_after
            (≤ℤ_trans d (exponential_wait t attempt) t.wait_max le b.1),
      )
  | inr (d, e) ↦
      let (p, le, ge) = backoff-hint t w attempt resp d v e in
      (d, rw e refl, p, le-max_ℤ_right d t.wait_max t.max_retry_after le)
]

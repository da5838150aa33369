-- ===== src/Retry/Backoff.antt =====
-- retry.go: how long to wait before the next attempt.
pub mod Bounds
pub mod Overflow
pub mod Total
use jttp.Prelude.{
  ℕ, ◌+◌, ◌-◌, ◌*◌, ◌^◌, min, Bool, true, false, ◌||◌, Option, none, some, if◌then◌else◌,
}
use jttp.Prelude.Int.{ℤ, pos, negsuc, pos_part, ◌+ℤ◌, ◌-ℤ◌, ◌*ℤ◌, ltb_ℤ, leb_ℤ, wrap64}
use jttp.Http.{Response}
use jttp.Retry.{RetryTransport, RetryWorld}
use jttp.Retry.Hint.{parse_server_wait_hint}

abbrev pub max_backoff_shift : ℕ
max_backoff_shift = 62

-- A wait out of (0, waitMax] becomes waitMax.
abbrev pub cap_wait : ℤ → ℤ → ℤ
cap_wait wait_max wait = if leb_ℤ wait (pos 0) || ltb_ℤ wait_max wait then wait_max else wait

-- The product wraps.
unfoldable pub exponential_wait : RetryTransport → ℕ → ℤ
exponential_wait t attempt =
    let shift = min attempt max_backoff_shift in
    cap_wait t.wait_max (wrap64 (t.wait_min *ℤ pos (2 ^ shift)))

-- The jitter. rand.Int64N panics unless its argument is positive: `none`.
unfoldable pub jittered : RetryTransport → (ℕ → ℕ) → ℤ → Option ℤ
jittered t int64n wait =
    let range = wrap64 (wrap64 (wait -ℤ t.wait_min) +ℤ pos 1) in
    let drawn = some (wrap64 (t.wait_min +ℤ pos (int64n (pos_part range)))) in
    if ltb_ℤ t.wait_min wait then (if leb_ℤ range (pos 0) then none else drawn) else some wait

abbrev pub hint_of : RetryTransport → RetryWorld → ℕ → Option Response → Option ℤ
hint_of t w attempt none = none
hint_of t w attempt (some resp) = parse_server_wait_hint t w attempt resp

abbrev pub hint_or : Option ℤ → Option ℤ → Option ℤ
hint_or (some d) computed = some d
hint_or none computed = computed

-- The wait after the failed attempt with number `attempt`; `none` is a panic.
unfoldable pub backoff : RetryTransport → RetryWorld → ℕ → Option Response → Option ℤ
unfolding parse_server_wait_hint exponential_wait jittered
backoff t w attempt resp =
    hint_or (hint_of t w attempt resp) (jittered t (w.int64n attempt) (exponential_wait t attempt))

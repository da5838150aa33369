-- ===== src/Guard.antt =====
-- guard.go: the tracker of the transfer rate of a response body.
pub mod Window
pub mod Tracking
pub mod Observed
pub mod Source
pub mod Body
pub mod Writer
pub mod Watchdog
use jttp.Prelude.{
  ℕ, ◌+◌, ◌-◌, ◌%◌, ◌^◌, Bool, true, false, ◌||◌, not, Option, none, some, List, [], ◌∷◌, ◌++◌, ltb,
  if◌then◌else◌,
}

-- A rateSample. A time is a count of nanoseconds on the monotonic clock.
pub record RateSample : Type 0 where
  pub time : ℕ
  pub bytes : ℕ

-- A rateTracker; the zero time is `none`. `bytes_in_window` is the bit pattern of an int64. The window is
-- positive, which `newGuardedBody` sees to.
pub record RateTracker : Type 0 where
  pub window : ℕ
  pub first_time : Option ℕ
  pub samples : List RateSample
  pub bytes_in_window : ℕ

abbrev pub new_rate_tracker : ℕ → RateTracker
new_rate_tracker window = record {
  window = window;
  first_time = none;
  samples = [];
  bytes_in_window = 0;
}

abbrev pub first_or : Option ℕ → ℕ → Option ℕ
first_or none now = some now
first_or (some t) now = some t

abbrev pub add64 : ℕ → ℕ → ℕ
add64 a b = (a + b) % 2 ^ 64

abbrev pub sub64 : ℕ → ℕ → ℕ
sub64 a b = (a + (2 ^ 64 - b % 2 ^ 64)) % 2 ^ 64

-- The part under `if n > 0`.
unfoldable pub record_sample : RateTracker → ℕ → ℕ → RateTracker
record_sample r now n =
    if ltb 0 n
    then record r {
      samples = r.samples ++ record { time = now; bytes = n } ∷ [];
      bytes_in_window = add64 r.bytes_in_window n;
      first_time = first_or r.first_time now;
    }
    else r

-- `s.t.Before(cutoff)`, where the cutoff is `now` less the window.
abbrev pub is_old : ℕ → ℕ → RateSample → Bool
is_old window now s = ltb (s.time + window) now

-- The two loops over the samples: the old ones at the front go, and their bytes are subtracted.
unfoldable pub trim : ℕ → ℕ → List RateSample → ℕ → List RateSample × ℕ
trim window now [] bytes = ([], bytes)
trim window now (s ∷ ss) bytes =
    let rest = trim window now ss (sub64 bytes s.bytes) in
    if is_old window now s then rest else (s ∷ ss, bytes)

abbrev pub is_full : ℕ → ℕ → Option ℕ → Bool
is_full window now none = false
is_full window now (some first) = not (ltb (now - first) window)

-- `observeAt`: the tracker afterwards, the rate and whether the window is full. `rate` is the division of
-- float64 values, of the bytes by the window in seconds, with the conversion of its result.
unfoldable pub observe_at : (ℕ → ℕ → ℕ) → RateTracker → ℕ → ℕ → RateTracker × (ℕ × Bool)
unfolding record_sample trim
observe_at rate r now n =
    let recorded = record_sample r now n in
    let (samples, bytes) = trim r.window now recorded.samples recorded.bytes_in_window in
    (
      record recorded { samples = samples; bytes_in_window = bytes },
      if is_full r.window now recorded.first_time then (rate bytes r.window, true) else (0, false),
    )

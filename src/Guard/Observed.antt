-- ===== src/Guard/Observed.antt =====
-- The rate tracker from its start on, against all reads that it has been told of.
use jttp.Prelude.{
  ℕ, ◌+◌, ◌%◌, ◌^◌, ◌≤◌, ◌≡◌, refl, ap, ◌∙◌, Bool, true, false, Option, none, some, List, [], ◌∷◌,
  ◌++◌, All, All-append_one, ltb, leb, if◌then◌else◌, arith, Bool-cases, inl, inr,
}
use jttp.Guard.{RateSample, RateTracker, record_sample, new_rate_tracker, is_full, observe_at}
use jttp.Guard.Window.{recent, total, IsOrdered, recent-append, total-append}
use jttp.Guard.Tracking.{with_sample, first_of, Tracks, observe_at-Tracks, observe_at-rate}

-- The tracker after some reads, each with its time and its bytes.
unfoldable pub observe_all : (ℕ → ℕ → ℕ) → RateTracker → List RateSample → RateTracker
observe_all rate r [] = r
observe_all rate r (o ∷ os) = observe_all rate (observe_at rate r o.time o.bytes).0 os

-- The bytes of the reads that the window reaches back to.
abbrev pub bytes_within : ℕ → ℕ → List RateSample → ℕ
bytes_within window now [] = 0
bytes_within window now (o ∷ os) =
    (if leb now (o.time + window) then o.bytes else 0) + bytes_within window now os

-- The time of the first read that gave some bytes.
abbrev pub first_read : List RateSample → Option ℕ
first_read [] = none
first_read (o ∷ os) = if ltb 0 o.bytes then some o.time else first_read os

abbrev pub has_passed : ℕ → ℕ → Option ℕ → Bool
has_passed window now none = false
has_passed window now (some first) = leb (first + window) now

-- The samples of some reads, after those of `history`.
abbrev with_samples : List RateSample → List RateSample → List RateSample
with_samples history [] = history
with_samples history (o ∷ os) = with_samples (with_sample history o.time o.bytes) os

abbrev or_else : Option ℕ → Option ℕ → Option ℕ
or_else none other = other
or_else (some t) other = some t

total_of_one :
    (window now : ℕ) (o : RateSample)
    → total (recent window now (o ∷ [])) ≡ (if leb now (o.time + window) then o.bytes else 0)
total_of_one window now o = ground arith

total-with_sample :
    (window now : ℕ) (history : List RateSample) (o : RateSample)
    → total (recent window now (with_sample history o.time o.bytes))
      ≡ total (recent window now history) + (if leb now (o.time + window) then o.bytes else 0)
total-with_sample window now history o = elim (Bool-cases (ltb 0 o.bytes)) [
  | inl some_bytes ↦ rw some_bytes (
      omega (
        arith,
        ap total (recent-append window now history (o ∷ [])),
        total-append (recent window now history) (recent window now (o ∷ [])),
        total_of_one window now o,
      ))
  | inr no_bytes ↦
      let none_read : o.bytes ≡ 0 = ground arith in rw no_bytes (ground (arith, none_read))
]

first_of-with_sample :
    (history : List RateSample) (o : RateSample)
    → first_of (with_sample history o.time o.bytes)
      ≡ or_else (first_of history) (first_read (o ∷ []))
first_of-with_sample [] o = ground arith
first_of-with_sample (h ∷ history) o = ground arith

total-with_samples :
    (window now : ℕ) (history os : List RateSample)
    → total (recent window now (with_samples history os))
      ≡ total (recent window now history) + bytes_within window now os
total-with_samples window now history [] = omega arith
total-with_samples window now history (o ∷ os) = omega (
  arith,
  total-with_samples window now (with_sample history o.time o.bytes) os,
  total-with_sample window now history o,
)

first_of-with_samples :
    (history os : List RateSample)
    → first_of (with_samples history os) ≡ or_else (first_of history) (first_read os)
first_of-with_samples [] [] = refl
first_of-with_samples (h ∷ history) [] = refl
first_of-with_samples history (o ∷ os) =
    first_of-with_samples (with_sample history o.time o.bytes) os
    ∙ (ap (λ f. or_else f (first_read os)) (first_of-with_sample history o)
        ∙ or_else_step (first_of history))
  where
    or_else_step :
        (f : Option ℕ)
        → or_else (or_else f (first_read (o ∷ []))) (first_read os)
          ≡ or_else f (first_read (o ∷ os))
    or_else_step none = ground arith
    or_else_step (some t) = refl

observe_at-window :
    (rate : ℕ → ℕ → ℕ) (r : RateTracker) (now n : ℕ) → (observe_at rate r now n).0.window ≡ r.window
unfolding observe_at record_sample
observe_at-window rate r now n = elim (Bool-cases (ltb 0 n)) [
  | inl some_bytes ↦ rw some_bytes refl
  | inr no_bytes ↦ rw no_bytes refl
]

-- The tracker that was told of the reads holds their samples, at a time that is no later than `now`.
observe_all-Tracks :
    (rate : ℕ → ℕ → ℕ) (now : ℕ) (r : RateTracker) (history : List RateSample) (last : ℕ)
    (os : List RateSample)
    → Tracks r history last
    → last ≤ now
    → All (λ o. last ≤ o.time) os
    → IsOrdered os
    → All (λ o. o.time ≤ now) os
    → (end : ℕ) × Tracks (observe_all rate r os) (with_samples history os) end
      × (end ≤ now)
      × ((observe_all rate r os).window ≡ r.window)
unfolding observe_all
observe_all-Tracks rate now r history last [] t le after ordered bounded = (last, t, le, refl)
observe_all-Tracks rate now r history last (o ∷ os) t le after ordered bounded =
    let next = observe_at-Tracks r history last o.time o.bytes t after.0 rate in
    let (end, tracks, early, window) =
      observe_all-Tracks rate now (observe_at rate r o.time o.bytes).0
        (with_sample history o.time o.bytes) o.time os next bounded.0 ordered.0 ordered.1
        bounded.1 in
    (end, tracks, early, window ∙ observe_at-window rate r o.time o.bytes)

first_read_bounded :
    (now first : ℕ) (os : List RateSample)
    → All (λ o. o.time ≤ now) os
    → first_read os ≡ some first
    → first ≤ now
first_read_bounded now first [] h e = absurd (ground arith)
first_read_bounded now first (o ∷ os) h e = elim (Bool-cases (ltb 0 o.bytes)) [
  | inl some_bytes ↦ let same : some o.time ≡ some first = rw some_bytes at e in ground (arith, h.0)
  | inr no_bytes ↦ first_read_bounded now first os h.1 (rw no_bytes at e)
]

is_full-has_passed :
    (window now : ℕ) (o : Option ℕ)
    → ((first : ℕ) → o ≡ some first → first ≤ now)
    → is_full window now o ≡ has_passed window now o
is_full-has_passed window now none h = refl
is_full-has_passed window now (some first) h = ground (arith, h first refl)

with_samples-append :
    (history os : List RateSample) (now n : ℕ)
    → with_sample (with_samples history os) now n
      ≡ with_samples history (os ++ record { time = now; bytes = n } ∷ [])
with_samples-append history [] now n = refl
with_samples-append history (o ∷ os) now n =
    with_samples-append (with_sample history o.time o.bytes) os now n

after_zero : (os : List RateSample) → All (λ o. 0 ≤ o.time) os
after_zero [] = tt
after_zero (o ∷ os) = (omega arith, after_zero os)

new_rate_tracker-Tracks : (window : ℕ) → Tracks (new_rate_tracker window) [] 0
new_rate_tracker-Tracks window = record {
  samples_are = refl;
  bytes_are = refl;
  first_is = refl;
  ordered = tt;
  bounded = tt;
}

-- Let a new tracker of a window be told of reads, each with its time and its bytes, the last at `now`,
-- where the clock does not go back. Until a window has passed since the first read that gave some bytes,
-- the last observation answers that the window is not full. From then on it answers with the rate of the
-- bytes of all reads that are not older than the window, modulo 2^64.
pub observe_at-observe_all :
    (rate : ℕ → ℕ → ℕ) (window now n : ℕ) (os : List RateSample)
    → let all = os ++ record { time = now; bytes = n } ∷ [] in
      IsOrdered os
      → All (λ o. o.time ≤ now) os
      → (observe_at rate (observe_all rate (new_rate_tracker window) os) now n).1 ≡ (
          if has_passed window now (first_read all)
          then (rate (bytes_within window now all % 2 ^ 64) window, true)
          else (0, false))
observe_at-observe_all rate window now n os ordered bounded =
    let r = observe_all rate (new_rate_tracker window) os in
    let o : RateSample = record { time = now; bytes = n } in
    let all = os ++ o ∷ [] in
    let history = with_samples [] os in
    let (end, tracks, early, same) =
      observe_all-Tracks rate now (new_rate_tracker window) [] 0 os (new_rate_tracker-Tracks window)
        (omega arith) (after_zero os) ordered bounded in
    let is_all = with_samples-append [] os now n in
    let first : first_of (with_sample history now n) ≡ first_read all =
      ap first_of is_all ∙ first_of-with_samples [] all in
    let bytes : total (recent window now (with_sample history now n))
        ≡ bytes_within window now all =
      omega (
        arith,
        ap (λ h. total (recent window now h)) is_all,
        total-with_samples window now [] all,
      ) in
    let full = is_full-has_passed window now (first_read all) (λ t.
      first_read_bounded now t all
        (All-append_one (λ x. x.time ≤ now) os o bounded (omega arith))) in
    observe_at-rate r history end now n tracks early rate ∙ rw (same, first, bytes, full) refl

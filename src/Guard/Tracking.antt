-- ===== src/Guard/Tracking.antt =====
-- What the rate tracker holds and answers, in terms of all samples that it has been given.
use jttp.Prelude.{
  ℕ, ◌+◌, ◌%◌, ◌^◌, ◌≤◌, ◌≡◌, refl, sym, ap, ◌∙◌, true, false, Option, none, some, List, [], ◌∷◌,
  ◌++◌, All, ltb, if◌then◌else◌, arith, Bool-cases, inl, inr, All-append_one,
}
use jttp.Guard.{RateSample, RateTracker, add64, first_or, record_sample, trim, is_full, observe_at}
use jttp.Guard.Window.{
  recent, total, IsOrdered, trim-recent, trim-total, recent-append, recent-recent, total-append,
  All-recent, IsOrdered-recent, IsOrdered-append,
}

-- All samples so far, with the read of `n` bytes at `now`; a read of nothing is no sample.
abbrev pub with_sample : List RateSample → ℕ → ℕ → List RateSample
with_sample history now n =
    if ltb 0 n then history ++ record { time = now; bytes = n } ∷ [] else history

abbrev pub first_of : List RateSample → Option ℕ
first_of [] = none
first_of (s ∷ ss) = some s.time

-- The tracker at the time `now`, after the samples of `history`.
pub record Tracks (r : RateTracker) (history : List RateSample) (now : ℕ) : Type 0 where
  pub samples_are : r.samples ≡ recent r.window now history
  pub bytes_are : r.bytes_in_window ≡ total r.samples % 2 ^ 64
  pub first_is : r.first_time ≡ first_of history
  pub ordered : IsOrdered history
  pub bounded : All (λ s. s.time ≤ now) history

-- A tracker whose samples are those of the last call, with a later sample perhaps.
record Recorded (r : RateTracker) (window : ℕ) (history : List RateSample) (now : ℕ) : Type 0 where
  window_is : r.window ≡ window
  ordered : IsOrdered r.samples
  samples_are : recent window now r.samples ≡ recent window now history
  bytes_are : r.bytes_in_window ≡ total r.samples % 2 ^ 64
  first_is : r.first_time ≡ first_of history

All-later :
    (a b : ℕ) (ss : List RateSample) → a ≤ b → All (λ s. s.time ≤ a) ss → All (λ s. s.time ≤ b) ss
All-later a b [] le h = tt
All-later a b (s ∷ ss) le h = (omega (arith, h.0), All-later a b ss le h.1)

first_or-append :
    (o : Option ℕ) (history : List RateSample) (s : RateSample)
    → o ≡ first_of history
    → first_or o s.time ≡ first_of (history ++ s ∷ [])
first_or-append o [] s h = rw h refl
first_or-append o (x ∷ history) s h = rw h refl

add64-total : (a b n : ℕ) → a ≡ b % 2 ^ 64 → add64 a n ≡ (b + (n + 0)) % 2 ^ 64
add64-total a b n h = omega arith

module _ (r : RateTracker) (history : List RateSample) (last now n : ℕ) (t : Tracks r history last)
    (le : last ≤ now) where
  samples-IsOrdered : IsOrdered r.samples
  samples-IsOrdered = rw t.samples_are (IsOrdered-recent r.window last history t.ordered)

  samples_bounded : All (λ s. s.time ≤ now) r.samples
  samples_bounded = rw t.samples_are (
      All-recent (λ s. s.time ≤ now) r.window last history
        (All-later last now history le t.bounded))

  samples-recent : recent r.window now r.samples ≡ recent r.window now history
  samples-recent = rw t.samples_are (recent-recent r.window last now history le)

  record_sample-Recorded : Recorded (record_sample r now n) r.window (with_sample history now n) now
  unfolding record_sample
  record_sample-Recorded = elim (Bool-cases (ltb 0 n)) [
    | inl some_bytes ↦ rw some_bytes (
        let s : RateSample = record { time = now; bytes = n } in
        record {
          window_is = refl;
          ordered = IsOrdered-append r.samples s samples-IsOrdered samples_bounded;
          samples_are =
              recent-append r.window now r.samples (s ∷ [])
              ∙ ap (λ l. l ++ recent r.window now (s ∷ [])) samples-recent
              ∙ sym (recent-append r.window now history (s ∷ []));
          bytes_are =
              add64-total r.bytes_in_window (total r.samples) n t.bytes_are
              ∙ ap (λ k. k % 2 ^ 64) (sym (total-append r.samples (s ∷ [])));
          first_is = first_or-append r.first_time history s t.first_is;
        })
    | inr no_bytes ↦ rw no_bytes (record {
      window_is = refl;
      ordered = samples-IsOrdered;
      samples_are = samples-recent;
      bytes_are = t.bytes_are;
      first_is = t.first_is;
    })
  ]

  with_sample-IsOrdered : IsOrdered (with_sample history now n)
  with_sample-IsOrdered = elim (Bool-cases (ltb 0 n)) [
    | inl some_bytes ↦
        rw (some_bytes, IsOrdered)
          (IsOrdered-append history (record { time = now; bytes = n }) t.ordered
            (All-later last now history le t.bounded))
    | inr no_bytes ↦ rw (no_bytes, IsOrdered) t.ordered
  ]

  with_sample_bounded : All (λ s. s.time ≤ now) (with_sample history now n)
  with_sample_bounded = elim (Bool-cases (ltb 0 n)) [
    | inl some_bytes ↦
        rw (some_bytes, All)
          (All-append_one (λ s. s.time ≤ now) history (record { time = now; bytes = n })
            (All-later last now history le t.bounded) (omega arith))
    | inr no_bytes ↦ rw (no_bytes, All) (All-later last now history le t.bounded)
  ]

  trimmed-recent :
      (let rec = record_sample r now n in
        (trim r.window now rec.samples rec.bytes_in_window).0
        ≡ recent r.window now (with_sample history now n))
  trimmed-recent =
      let rec = record_sample r now n in
      let c = record_sample-Recorded in
      trim-recent r.window now rec.samples rec.bytes_in_window c.ordered ∙ c.samples_are

  trimmed-total :
      (let rec = record_sample r now n in
        let (samples, bytes) = trim r.window now rec.samples rec.bytes_in_window in
        bytes ≡ total samples % 2 ^ 64)
  trimmed-total =
      let rec = record_sample r now n in
      trim-total r.window now rec.samples rec.bytes_in_window record_sample-Recorded.bytes_are

  -- If the tracker holds the samples of the window, and the clock does not go back, then after another
  -- observation it holds those of the window as it is then: exactly the samples that are not older than
  -- the window, their bytes modulo 2^64 and the time of the first sample of all.
  pub observe_at-Tracks :
      (rate : ℕ → ℕ → ℕ) → Tracks (observe_at rate r now n).0 (with_sample history now n) now
  unfolding observe_at
  observe_at-Tracks rate =
      let c = record_sample-Recorded in
      record {
        samples_are = rw c.window_is trimmed-recent;
        bytes_are = trimmed-total;
        first_is = c.first_is;
        ordered = with_sample-IsOrdered;
        bounded = with_sample_bounded;
      }

  -- If the tracker holds the samples of the window, and the clock does not go back, then an observation
  -- answers with the rate of the bytes of the samples that are not older than the window, modulo 2^64,
  -- once the window has passed since the first sample of all, and says before that that it is not full.
  pub observe_at-rate :
      (rate : ℕ → ℕ → ℕ)
      → let all = with_sample history now n in
        (observe_at rate r now n).1 ≡ (
          if is_full r.window now (first_of all)
          then (rate (total (recent r.window now all) % 2 ^ 64) r.window, true)
          else (0, false))
  unfolding observe_at
  observe_at-rate rate =
      let c = record_sample-Recorded in rw (c.first_is, trimmed-total, trimmed-recent) refl

-- ===== src/Guard/Body/Guards.antt =====
-- What a read of a response body without an error has passed.
use jttp.Prelude.{
  lt→ltb, ℕ, ◌≡◌, refl, Bool, true, false, ◌&&◌, Option, none, some, ltb, if◌then◌else◌, ◌<◌,
}
use jttp.Prelude.Int.{ℤ, pos, ltb_ℤ, leb_ℤ}
use jttp.Errors.{GoError}
use jttp.Guard.{RateTracker, observe_at}
use jttp.Guard.Source.{ctx_err, CountingReader}
use jttp.Guard.Body.{
  GuardedBodyConfig, GuardedBody, ReadStep, FloatWorld, ReadResult, finish, guard_ratio, guard_rate,
  sourced, counted, after_before, read, bomb_guard_min_compressed,
}

-- More bytes than the limit, if there is one.
abbrev pub is_too_large : GuardedBodyConfig → ℤ → Bool
is_too_large cfg total = ltb_ℤ (pos 0) cfg.max_bytes && ltb_ℤ cfg.max_bytes total

-- A full window with a rate below the least.
abbrev pub is_slow : FloatWorld → GuardedBodyConfig → ReadStep → Option RateTracker → Bool
is_slow w cfg s none = false
is_slow w cfg s (some tracker) =
    let (observed, (bps, full)) = observe_at w.rate tracker s.now s.count in
    full && ltb_ℤ (pos bps) cfg.min_rate

-- At least 64 KiB of compressed bytes with a ratio above the limit, if there is one.
abbrev pub is_bomb : FloatWorld → GuardedBodyConfig → ℤ → Option CountingReader → Bool
is_bomb w cfg read_bytes none = false
is_bomb w cfg read_bytes (some reader) =
    cfg.has_max_ratio
    && (leb_ℤ bomb_guard_min_compressed reader.total && w.above_ratio read_bytes reader.total)

pub finish_passed :
    (b : GuardedBody) (s : ReadStep) (e after : Option GoError)
    → (finish b s e after).1.1 ≡ none
    → e ≡ none
finish_passed b s none after h = refl
finish_passed b s (some e) none h = absurd (cc)
finish_passed b s (some e) (some cause) h = absurd (cc)

-- A guard that gave no error did not fire.
not_fired :
    (fires : Bool) (b : GuardedBody) (n : ℕ) (e : GoError) (rest : ReadResult)
    → (if fires then (b, (n, some e)) else rest).1.1 ≡ none
    → (fires ≡ false) × (rest.1.1 ≡ none)
not_fired true b n e rest h = absurd (cc)
not_fired false b n e rest h = (refl, h)

module _ (w : FloatWorld) (cfg : GuardedBodyConfig) where
  guard_ratio_passed :
      (b : GuardedBody) (s : ReadStep) (o : Option CountingReader)
      → (guard_ratio w cfg b s o).1.1 ≡ none
      → (is_bomb w cfg b.read_bytes o ≡ false) × (s.error ≡ none)
  guard_ratio_passed b s none h = (refl, finish_passed b s s.error (ctx_err s.after) h)
  guard_ratio_passed b s (some total) h =
      let (calm, rest) =
        not_fired (is_bomb w cfg b.read_bytes (some total)) b s.count _
          (finish b s s.error (ctx_err s.after)) h in
      (calm, finish_passed b s s.error (ctx_err s.after) rest)

  guard_rate_passed :
      (b : GuardedBody) (s : ReadStep) (o : Option RateTracker)
      → (guard_rate w cfg b s o).1.1 ≡ none
      → (is_slow w cfg s o ≡ false)
        × (is_bomb w cfg b.read_bytes b.compressed ≡ false)
        × (s.error ≡ none)
  guard_rate_passed b s none h =
      let (calm, met) = guard_ratio_passed b s b.compressed h in (refl, calm, met)
  guard_rate_passed b s (some tracker) h =
      let seen : GuardedBody = record b {
        rate = some (observe_at w.rate tracker s.now s.count).0;
      } in
      let (fast, rest) =
        not_fired (is_slow w cfg s (some tracker)) seen s.count _
          (guard_ratio w cfg seen s b.compressed) h in
      let (calm, met) = guard_ratio_passed seen s b.compressed rest in (fast, calm, met)

  -- A read of some bytes that returns no error began before the context was done, and met no error of the
  -- source; the bytes read so far are within the limit, a full window is not slower than the least rate,
  -- and the ratio is within its limit once 64 KiB of compressed bytes were read.
  pub read_passed :
      (b : GuardedBody) (s : ReadStep)
      → 0 < s.count
      → (read w cfg b s).1.1 ≡ none
      → let after = counted (sourced b s) s in
        (ctx_err s.before ≡ none)
        × (is_too_large cfg after.read_bytes ≡ false)
        × (is_slow w cfg s b.rate ≡ false)
        × (is_bomb w cfg after.read_bytes after.compressed ≡ false)
        × (s.error ≡ none)
  unfolding read
  read_passed b s p h = passed (ctx_err s.before) h
    where
      passed :
          (o : Option GoError)
          → (after_before w cfg b s o).1.1 ≡ none
          → let after = counted (sourced b s) s in
            (o ≡ none)
            × (is_too_large cfg after.read_bytes ≡ false)
            × (is_slow w cfg s b.rate ≡ false)
            × (is_bomb w cfg after.read_bytes after.compressed ≡ false)
            × (s.error ≡ none)
      passed (some cause) e = absurd (cc)
      passed none e =
          let after = counted (sourced b s) s in
          let more : ltb 0 s.count ≡ true = lt→ltb 0 s.count p in
          let (small, rest) =
            not_fired (is_too_large cfg after.read_bytes) after s.count _
              (guard_rate w cfg after s after.rate) (rw more at e) in
          let (fast, calm, met) = guard_rate_passed after s after.rate rest in
          (refl, small, fast, calm, met)

-- ===== src/Guard/Body/Delivers.antt =====
-- What one read of a response body changes.
use jttp.Prelude.{
  ℕ, suc, ◌+◌, ◌^◌, ◌≤◌, ◌<◌, ◌≡◌, refl, sym, ap, ◌∙◌, inl, inr, Option, none, some, ltb, arith,
  Bool-cases,
}
use jttp.Prelude.Int.{pos, ◌+ℤ◌, wrap64, wrap64-IsInt64}
use jttp.Errors.{GoError}
use jttp.Guard.{RateTracker, observe_at}
use jttp.Guard.Source.{ctx_err, CountingReader, count_reads}
use jttp.Guard.Body.{
  GuardedBodyConfig, GuardedBody, ReadStep, FloatWorld, ReadResult, finish, guard_ratio, guard_rate,
  guard_size, sourced, counted, after_before, read, map_option,
}
use jttp.Guard.Body.Life.{stops_once}

-- The watchdog is there or not as before, and closeErr is as before.
abbrev pub Keeps : GuardedBody → ReadResult → Type 0
Keeps b result =
    (result.0.close_result ≡ b.close_result)
    × (stops_once result.0.watchdog ≡ stops_once b.watchdog)

-- The guards leave the counts of the body as well, and return all bytes.
abbrev pub Delivers : GuardedBody → ℕ → ReadResult → Type 0
Delivers b n result =
    (result.0.read_bytes ≡ b.read_bytes)
    × (result.1.0 ≡ n)
    × (result.0.compressed ≡ b.compressed)
    × Keeps b result

pub finish-Delivers :
    (b : GuardedBody) (s : ReadStep) (e after : Option GoError)
    → Delivers b s.count (finish b s e after)
finish-Delivers b s none after = (refl, refl, refl, (refl, refl))
finish-Delivers b s (some e) none = (refl, refl, refl, (refl, refl))
finish-Delivers b s (some e) (some cause) = (refl, refl, refl, (refl, refl))

module _ (w : FloatWorld) (cfg : GuardedBodyConfig) where
  guard_ratio-Delivers :
      (b : GuardedBody) (s : ReadStep) (o : Option CountingReader)
      → Delivers b s.count (guard_ratio w cfg b s o)
  guard_ratio-Delivers b s none = finish-Delivers b s s.error (ctx_err s.after)
  guard_ratio-Delivers b s (some total) =
      ground (arith, finish-Delivers b s s.error (ctx_err s.after))

  pub guard_rate-Delivers :
      (b : GuardedBody) (s : ReadStep) (o : Option RateTracker)
      → Delivers b s.count (guard_rate w cfg b s o)
  guard_rate-Delivers b s none = guard_ratio-Delivers b s b.compressed
  guard_rate-Delivers b s (some tracker) = ground (
    arith,
    guard_ratio-Delivers (record b { rate = some (observe_at w.rate tracker s.now s.count).0 }) s
        b.compressed,
  )

  pub guard_size-Delivers :
      (b : GuardedBody) (s : ReadStep) → Delivers b s.count (guard_size w cfg b s)
  guard_size-Delivers b s = ground (arith, guard_rate-Delivers b s b.rate)

pub stops_once-map_option : (o : Option ℕ) (f : ℕ → ℕ) → stops_once (map_option f o) ≡ stops_once o
stops_once-map_option none f = refl
stops_once-map_option (some n) f = refl

pub pos-+ℤ : (a b : ℕ) → pos a +ℤ pos b ≡ pos (a + b)
pos-+ℤ a b = ground arith

-- The bytes of a read are added to the count, if they do not overflow it.
pub counted_bytes :
    (b : GuardedBody) (s : ReadStep) (k : ℕ)
    → b.read_bytes ≡ pos k
    → k + s.count < 2 ^ 63
    → (counted (sourced b s) s).read_bytes ≡ pos (k + s.count)
counted_bytes b s k e small =
    ap wrap64 (ap (λ z. z +ℤ pos s.count) e ∙ pos-+ℤ k s.count)
    ∙ wrap64-IsInt64 (pos (k + s.count)) (omega arith)

-- The countingReader after a read: a context that was done leaves it.
abbrev pub taken : Option CountingReader → ReadStep → Option GoError → Option CountingReader
taken reader s (some cause) = reader
taken reader s none = map_option (λ r. count_reads r s.inner_reads) reader

module _ (w : FloatWorld) (cfg : GuardedBodyConfig) where
  after_before-Keeps :
      (b : GuardedBody) (s : ReadStep) (o : Option GoError) → Keeps b (after_before w cfg b s o)
  after_before-Keeps b s (some cause) = (refl, refl)
  after_before-Keeps b s none = elim (Bool-cases (ltb 0 s.count)) [
    | inl some_bytes ↦
        let (bytes, given, read, (closing, watched)) =
          guard_size-Delivers w cfg (counted (sourced b s) s) s in
        rw some_bytes (closing, watched ∙ stops_once-map_option b.watchdog suc)
    | inr no_bytes ↦
        let (bytes, given, read, kept) =
          finish-Delivers (sourced b s) s s.error (ctx_err s.after) in
        rw no_bytes kept
  ]

  pub read-Keeps : (b : GuardedBody) (s : ReadStep) → Keeps b (read w cfg b s)
  unfolding read
  read-Keeps b s = after_before-Keeps b s (ctx_err s.before)

  after_before-taken :
      (b : GuardedBody) (s : ReadStep) (o : Option GoError)
      → (after_before w cfg b s o).0.compressed ≡ taken b.compressed s o
  after_before-taken b s (some cause) = refl
  after_before-taken b s none = elim (Bool-cases (ltb 0 s.count)) [
    | inl some_bytes ↦ rw some_bytes (guard_size-Delivers w cfg (counted (sourced b s) s) s).2
    | inr no_bytes ↦ rw no_bytes (finish-Delivers (sourced b s) s s.error (ctx_err s.after)).2
  ]

  pub read-taken :
      (b : GuardedBody) (s : ReadStep)
      → (read w cfg b s).0.compressed ≡ taken b.compressed s (ctx_err s.before)
  unfolding read
  read-taken b s = after_before-taken b s (ctx_err s.before)

  -- The bytes that a read returns are those by which the count grows.
  abbrev pub Counts : ℕ → ReadStep → ReadResult → Type 0
  Counts k s result = (result.0.read_bytes ≡ pos (k + result.1.0)) × (result.1.0 ≤ s.count)

  Delivers-Counts :
      (b : GuardedBody) (s : ReadStep) (k : ℕ) (result : ReadResult)
      → b.read_bytes ≡ pos (k + s.count)
      → Delivers b s.count result
      → Counts k s result
  Delivers-Counts b s k result e (bytes, given, read, kept) =
      (bytes ∙ (e ∙ ap (λ n. pos (k + n)) (sym given)), omega (arith, given))

  after_before-Counts :
      (b : GuardedBody) (s : ReadStep) (k : ℕ) (o : Option GoError)
      → b.read_bytes ≡ pos k
      → k + s.count < 2 ^ 63
      → Counts k s (after_before w cfg b s o)
  after_before-Counts b s k (some cause) e small = (e ∙ ap pos (omega arith), omega arith)
  after_before-Counts b s k none e small = elim (Bool-cases (ltb 0 s.count)) [
    | inl some_bytes ↦ rw some_bytes (
        Delivers-Counts (counted (sourced b s) s) s k (guard_size w cfg (counted (sourced b s) s) s)
          (counted_bytes b s k e small) (guard_size-Delivers w cfg (counted (sourced b s) s) s))
    | inr no_bytes ↦
        let nothing : s.count ≡ 0 = ground arith in
        rw no_bytes (
          Delivers-Counts (sourced b s) s k (finish (sourced b s) s s.error (ctx_err s.after))
            (e ∙ ap pos (omega arith)) (finish-Delivers (sourced b s) s s.error (ctx_err s.after)))
  ]

  pub read-Counts :
      (b : GuardedBody) (s : ReadStep) (k : ℕ)
      → b.read_bytes ≡ pos k
      → k + s.count < 2 ^ 63
      → Counts k s (read w cfg b s)
  unfolding read
  read-Counts b s k e small = after_before-Counts b s k (ctx_err s.before) e small

-- ===== src/Guard/Body.antt =====
-- guard.go: `guardedBody.Read`, with the guards on size, rate and ratio in their order.
pub mod Delivers
pub mod Limit
pub mod Guards
pub mod Life
pub mod Once
pub mod Trace
pub mod Compressed
use jttp.Prelude.{
  ℕ, suc, ◌+◌, ◌*◌, ◌^◌, Bool, true, false, ◌&&◌, Option, none, some, List, [], ◌∷◌, ltb,
  if◌then◌else◌,
}
use jttp.Prelude.Int.{ℤ, pos, ◌+ℤ◌, ltb_ℤ, leb_ℤ, wrap64}
use jttp.Errors.{
  GoError, errorf, plain, sentinel, err_response_too_large, err_body_transfer_too_slow,
  err_decompression_bomb,
}
use jttp.Http.{Url}
use jttp.Guard.{RateTracker, observe_at}
use jttp.Guard.Source.{Context, ctx_err, InnerRead, CountingReader, count_reads}

-- A guardedBodyConfig. Of the cancel function and the observer, whether there is one; of maxRatio,
-- whether it is positive. The context is read in each `ReadStep`.
pub record GuardedBodyConfig : Type 0 where
  pub has_cancel : Bool
  pub max_bytes : ℤ
  pub idle_timeout : ℤ
  pub min_rate : ℤ
  pub min_rate_window : ℤ
  pub decompress_gzip : Bool
  pub has_max_ratio : Bool
  pub has_observer : Bool
  pub observe_url : Url
  pub status_code : ℕ
  pub observe_started : ℤ

-- A guardedBody: the number of Resets of its watchdog, and its countingReader where it decompresses. `close_result` is what closeOnce has left in closeErr, `none` before the first Close.
pub record GuardedBody : Type 0 where
  pub read_bytes : ℤ
  pub watchdog : Option ℕ
  pub rate : Option RateTracker
  pub compressed : Option CountingReader
  pub close_result : Option (Option GoError)

-- What one call of Read meets: the context before and after, what the source returns, the reads of the
-- body below that gzip makes for it, and the time.
pub record ReadStep : Type 0 where
  pub before : Context
  pub count : ℕ
  pub error : Option GoError
  pub inner_reads : List InnerRead
  pub now : ℕ
  pub after : Context

-- The two float64 computations: the rate, and the test of the ratio against the limit.
pub record FloatWorld : Type 0 where
  pub rate : ℕ → ℕ → ℕ
  pub above_ratio : ℤ → ℤ → Bool

-- The body afterwards, and the two results of Read.
abbrev pub ReadResult : Type 0
ReadResult = GuardedBody × (ℕ × Option GoError)

abbrev pub too_large : GoError
too_large = errorf (plain (sentinel err_response_too_large))

abbrev pub map_option {ℓ} : {A : Type ℓ} → (A → A) → Option A → Option A
map_option f none = none
map_option f (some a) = some (f a)

-- The part `if err != nil` and the last return.
abbrev pub finish : GuardedBody → ReadStep → Option GoError → Option GoError → ReadResult
finish b s none after = (b, (s.count, none))
finish b s (some e) none = (b, (s.count, some e))
finish b s (some e) (some cause) = (b, (s.count, some cause))

abbrev pub bomb_guard_min_compressed : ℤ
bomb_guard_min_compressed = pos 65_536

-- The ratio guard, and what follows.
abbrev pub guard_ratio :
    FloatWorld → GuardedBodyConfig → GuardedBody → ReadStep → Option CountingReader → ReadResult
guard_ratio w cfg b s none = finish b s s.error (ctx_err s.after)
guard_ratio w cfg b s (some reader) =
    let passed = finish b s s.error (ctx_err s.after) in
    if cfg.has_max_ratio
      && (leb_ℤ bomb_guard_min_compressed reader.total && w.above_ratio b.read_bytes reader.total)
    then (b, (s.count, some (errorf (plain (sentinel err_decompression_bomb)))))
    else passed

-- `rateTracker.observe`, at the time of the read.
abbrev pub observe : FloatWorld → RateTracker → ReadStep → RateTracker × (ℕ × Bool)
observe w tracker s = observe_at w.rate tracker s.now s.count

-- The rate guard, and what follows.
abbrev pub guard_rate :
    FloatWorld → GuardedBodyConfig → GuardedBody → ReadStep → Option RateTracker → ReadResult
guard_rate w cfg b s none = guard_ratio w cfg b s b.compressed
guard_rate w cfg b s (some tracker) =
    let (observed, (bps, full)) = observe w tracker s in
    let seen : GuardedBody = record b { rate = some observed } in
    let passed = guard_ratio w cfg seen s seen.compressed in
    if full && ltb_ℤ (pos bps) cfg.min_rate
    then (seen, (s.count, some (errorf (plain (sentinel err_body_transfer_too_slow)))))
    else passed

-- The size guard, and what follows.
abbrev pub guard_size : FloatWorld → GuardedBodyConfig → GuardedBody → ReadStep → ReadResult
guard_size w cfg b s =
    let passed = guard_rate w cfg b s b.rate in
    if ltb_ℤ (pos 0) cfg.max_bytes && ltb_ℤ cfg.max_bytes b.read_bytes
    then (b, (s.count, some too_large))
    else passed

-- The body after the source was read, and after its bytes are counted.
abbrev pub sourced : GuardedBody → ReadStep → GuardedBody
sourced b s = record b {
  compressed = map_option (λ reader. count_reads reader s.inner_reads) b.compressed;
}

abbrev pub counted : GuardedBody → ReadStep → GuardedBody
counted b s = record b {
  watchdog = map_option suc b.watchdog;
  read_bytes = wrap64 (b.read_bytes +ℤ pos s.count);
}

abbrev pub after_before :
    FloatWorld → GuardedBodyConfig → GuardedBody → ReadStep → Option GoError → ReadResult
after_before w cfg b s (some cause) = (b, (0, some cause))
after_before w cfg b s none =
    let guarded = guard_size w cfg (counted (sourced b s) s) s in
    if ltb 0 s.count then guarded else finish (sourced b s) s s.error (ctx_err s.after)

unfoldable pub read : FloatWorld → GuardedBodyConfig → GuardedBody → ReadStep → ReadResult
read w cfg b s = after_before w cfg b s (ctx_err s.before)

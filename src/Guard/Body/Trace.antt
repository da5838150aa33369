-- ===== src/Guard/Body/Trace.antt =====
-- A response body that is read, closed, and then read or closed any number of times.
use jttp.Prelude.{
  Bool, true, false, ℕ, ◌+◌, ◌^◌, ◌<◌, ◌≡◌, refl, ap, ◌∙◌, Option, none, some, List, [], ◌∷◌, ◌++◌,
  map, arith, if◌then◌else◌,
}
use jttp.Prelude.Int.{ℤ, pos, ◌-ℤ◌, saturate64}
use jttp.Errors.{GoError}
use jttp.Guard.Source.{ctx_err, CountingReader}
use jttp.Guard.Body.{GuardedBodyConfig, GuardedBody, ReadStep, FloatWorld, read}
use jttp.Guard.Body.Delivers.{read-Keeps, read-Counts, read-taken}
use jttp.Guard.Body.Compressed.{
  arrived_for, arrived_in, HasTotal, taken-HasTotal, compressed_of-HasTotal,
}
use jttp.Guard.Body.Life.{
  CloseEvent, CloseStep, BodyObservation, observation, close_events, stops_once, close,
}
use jttp.Guard.Body.Once.{
  inner_closes, watchdog_stops, gzip_closes, observations, append-nil_events, close-closed,
  close-first, close_events-once,
}

pub data BodyCall : Type 0 where
  read_call : ReadStep → BodyCall
  close_call : CloseStep → BodyCall

-- The results of the calls of Close, and what these do.
unfoldable pub run_calls :
    FloatWorld
    → GuardedBodyConfig
    → GuardedBody
    → List BodyCall
    → List (Option GoError) × List CloseEvent
run_calls w cfg b [] = ([], [])
run_calls w cfg b (read_call s ∷ calls) = run_calls w cfg (read w cfg b s).0 calls
run_calls w cfg b (close_call s ∷ calls) =
    let (closed, (result, events)) = close cfg b s in
    let (results, others) = run_calls w cfg closed calls in (result ∷ results, events ++ others)

-- The number of bytes that the reads return.
unfoldable pub delivered : FloatWorld → GuardedBodyConfig → GuardedBody → List ReadStep → ℕ
delivered w cfg b [] = 0
delivered w cfg b (s ∷ ss) = let (after, (n, e)) = read w cfg b s in n + delivered w cfg after ss

-- The bytes that the source gives to the reads.
abbrev pub supplied : List ReadStep → ℕ
supplied [] = 0
supplied (s ∷ ss) = s.count + supplied ss

-- The results of the calls of Close, where the first has the result `first`.
abbrev pub repeats : Option GoError → List BodyCall → List (Option GoError)
repeats first [] = []
repeats first (read_call s ∷ calls) = repeats first calls
repeats first (close_call s ∷ calls) = first ∷ repeats first calls

-- What an observer is told when the body is closed: `compressed` and `uncompressed` bytes were read.
abbrev pub seen_at : GuardedBodyConfig → CloseStep → ℤ → ℤ → BodyObservation
seen_at cfg s compressed uncompressed = record {
  url = cfg.observe_url;
  status_code = cfg.status_code;
  compressed_bytes = compressed;
  uncompressed_bytes = uncompressed;
  duration = saturate64 (s.now -ℤ cfg.observe_started);
}

-- One call of the observer, if there is one: `c` bytes have arrived, and `k` bytes were returned.
abbrev pub told : GuardedBodyConfig → CloseStep → ℕ → ℕ → List BodyObservation
told cfg s c k =
    if cfg.has_observer
    then seen_at cfg s (pos (if cfg.decompress_gzip then c else k)) (pos k) ∷ []
    else []

told_of :
    (cfg : GuardedBodyConfig) (b : GuardedBody) (s : CloseStep) (c k : ℕ)
    → HasTotal cfg.decompress_gzip b.compressed c
    → b.read_bytes ≡ pos k
    → (if cfg.has_observer then observation cfg b s ∷ [] else []) ≡ told cfg s c k
told_of cfg b s c k total bytes =
    ap (λ z. if cfg.has_observer then seen_at cfg s z b.read_bytes ∷ [] else [])
      (compressed_of-HasTotal cfg.decompress_gzip b b.compressed c k total bytes)
    ∙ ap
        (λ z.
          if cfg.has_observer
          then seen_at cfg s (pos (if cfg.decompress_gzip then c else k)) z ∷ []
          else [])
        bytes

-- A body that counts compressed bytes has a gzip.Reader.
stops_once-HasTotal :
    (zipped : Bool) (o : Option CountingReader) (c : ℕ)
    → HasTotal zipped o c
    → stops_once o ≡ (if zipped then 1 else 0)
stops_once-HasTotal true (some reader) c h = refl
stops_once-HasTotal true none c h = absurd h
stops_once-HasTotal false (some reader) c h = absurd h
stops_once-HasTotal false none c h = refl

module _ (w : FloatWorld) (cfg : GuardedBodyConfig) where
  run_calls-closed :
      (b : GuardedBody) (first : Option GoError) (calls : List BodyCall)
      → b.close_result ≡ some first
      → run_calls w cfg b calls ≡ (repeats first calls, [])
  unfolding run_calls
  run_calls-closed b first [] e = refl
  run_calls-closed b first (read_call s ∷ calls) e =
      run_calls-closed (read w cfg b s).0 first calls ((read-Keeps w cfg b s).0 ∙ e)
  run_calls-closed b first (close_call s ∷ calls) e =
      rw (close-closed cfg b s first e) (rw (run_calls-closed b first calls e) refl)

  -- The first Close, and all that follows.
  run_calls-close :
      (b : GuardedBody) (s : CloseStep) (calls : List BodyCall)
      → b.close_result ≡ none
      → run_calls w cfg b (close_call s ∷ calls)
        ≡ (s.error ∷ repeats s.error calls, close_events cfg b s)
  unfolding run_calls
  run_calls-close b s calls e = rw (close-first cfg b s e) (
      rw
        (
          run_calls-closed (record b { close_result = some s.error }) s.error calls refl,
          append-nil_events (close_events cfg b s),
        )
        refl)

  cong_told : (s : CloseStep) {c c' k k' : ℕ} → c ≡ c' → k ≡ k' → told cfg s c k ≡ told cfg s c' k'
  cong_told s p q = rw (p, q) refl

  -- What holds of the events of all calls, where `c` bytes have arrived and `k` were returned.
  abbrev IsClosedOnce : GuardedBody → CloseStep → ℕ → ℕ → List CloseEvent → Type 0
  IsClosedOnce b s c k events =
      (inner_closes events ≡ 1)
      × (watchdog_stops events ≡ stops_once b.watchdog)
      × (gzip_closes events ≡ (if cfg.decompress_gzip then 1 else 0))
      × (observations events ≡ told cfg s c k)

  close-IsClosedOnce :
      (b : GuardedBody) (c k : ℕ) (s : CloseStep) (calls : List BodyCall)
      → b.close_result ≡ none
      → b.read_bytes ≡ pos k
      → HasTotal cfg.decompress_gzip b.compressed c
      → ((run_calls w cfg b (close_call s ∷ calls)).0 ≡ s.error ∷ repeats s.error calls)
        × IsClosedOnce b s c k (run_calls w cfg b (close_call s ∷ calls)).1
  close-IsClosedOnce b c k s calls unclosed bytes total =
      let (inner, stops, unzipped, seen) = close_events-once cfg b s in
      rw (run_calls-close b s calls unclosed) (
        refl,
        (
          inner,
          stops,
          unzipped ∙ stops_once-HasTotal cfg.decompress_gzip b.compressed c total,
          seen ∙ told_of cfg b s c k total bytes,
        ),
      )

  run_calls-IsClosedOnce :
      (b : GuardedBody) (c k : ℕ) (ss : List ReadStep) (s : CloseStep) (calls : List BodyCall)
      → b.close_result ≡ none
      → b.read_bytes ≡ pos k
      → HasTotal cfg.decompress_gzip b.compressed c
      → k + supplied ss < 2 ^ 63
      → c + arrived_in ss < 2 ^ 63
      → ((run_calls w cfg b (map read_call ss ++ close_call s ∷ calls)).0
          ≡ s.error ∷ repeats s.error calls)
        × IsClosedOnce b s
            (c + arrived_in ss)
            (k + delivered w cfg b ss)
            (run_calls w cfg b (map read_call ss ++ close_call s ∷ calls)).1
  unfolding run_calls delivered
  run_calls-IsClosedOnce b c k [] s calls unclosed bytes total small fits =
      let (results, (inner, stops, unzipped, seen)) =
        close-IsClosedOnce b c k s calls unclosed bytes total in
      (results, (inner, stops, unzipped, seen ∙ cong_told s (omega arith) (omega arith)))
  run_calls-IsClosedOnce b c k (r ∷ ss) s calls unclosed bytes total small fits =
      let (counted, below) = read-Counts w cfg b r k bytes (omega arith) in
      let (closing, watched) = read-Keeps w cfg b r in
      let (after, (n, e)) = read w cfg b r in
      let more = arrived_for r (ctx_err r.before) in
      let next : HasTotal cfg.decompress_gzip (read w cfg b r).0.compressed (c + more) =
        rw (read-taken w cfg b r) (
          taken-HasTotal cfg.decompress_gzip b.compressed r (ctx_err r.before) c total
            (omega arith)) in
      let (results, (inner, stops, unzipped, seen)) =
        run_calls-IsClosedOnce after (c + more) (k + n) ss s calls (closing ∙ unclosed) counted next
          (omega (arith, below)) (omega arith) in
      (results, (inner, stops ∙ watched, unzipped, seen ∙ cong_told s (omega arith) (omega arith)))

  -- A body that is new is closed and observed once.
  pub run_calls-once :
      (b : GuardedBody) (c : ℕ) (ss : List ReadStep) (s : CloseStep) (calls : List BodyCall)
      → b.close_result ≡ none
      → b.read_bytes ≡ pos 0
      → HasTotal cfg.decompress_gzip b.compressed c
      → supplied ss < 2 ^ 63
      → c + arrived_in ss < 2 ^ 63
      → let (results, events) = run_calls w cfg b (map read_call ss ++ close_call s ∷ calls) in
        (results ≡ s.error ∷ repeats s.error calls)
        × (inner_closes events ≡ 1)
        × (watchdog_stops events ≡ stops_once b.watchdog)
        × (gzip_closes events ≡ (if cfg.decompress_gzip then 1 else 0))
        × (observations events ≡ told cfg s (c + arrived_in ss) (delivered w cfg b ss))
  run_calls-once b c ss s calls unclosed bytes total small fits =
      let (results, (inner, stops, unzipped, seen)) =
        run_calls-IsClosedOnce b c 0 ss s calls unclosed bytes total (omega arith) fits in
      (results, inner, stops, unzipped, seen ∙ ap (told cfg s (c + arrived_in ss)) (omega arith))

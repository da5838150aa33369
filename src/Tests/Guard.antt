-- ===== src/Tests/Guard.antt =====
-- The theorems on guard.go, applied.
use jttp.Prelude.{
  List, ◌++◌, ℕ, ◌%◌, ◌^◌, ◌*◌, ◌/◌, ◌≡◌, refl, true, false, [], arith, if◌then◌else◌, none, some,
  ◌∷◌,
}
use jttp.Prelude.Int.{pos, wrap64}
use jttp.Guard.Source.{still_active, ctx_err}
use jttp.Guard.Body.{GuardedBodyConfig, GuardedBody, ReadStep, FloatWorld, too_large, read}
use jttp.Guard.Body.{counted, sourced}
use jttp.Guard.Body.Guards.{is_too_large, is_slow, is_bomb, read_passed}
use jttp.Guard.Body.Limit.{consume}
use jttp.Tests.Data.{url}
use jttp.Guard.{RateSample, new_rate_tracker, observe_at}
use jttp.Guard.Observed.{observe_all, bytes_within, first_read, has_passed, observe_at-observe_all}

-- The division, rounded down.
abbrev rate : ℕ → ℕ → ℕ
rate bytes window = bytes * 1_000_000_000 / window

-- The first read is older than the window of a second.
abbrev earlier_reads : List RateSample
earlier_reads = record { time = 0; bytes = 100 } ∷ record { time = 500_000_000; bytes = 50 } ∷ []

observe_at-observe_all_example :
    (let all = earlier_reads ++ record { time = 1_200_000_000; bytes = 30 } ∷ [] in
      (observe_at rate
        (observe_all rate (new_rate_tracker 1_000_000_000) earlier_reads)
        1_200_000_000
        30).1
      ≡ (if has_passed 1_000_000_000 1_200_000_000 (first_read all)
          then (rate (bytes_within 1_000_000_000 1_200_000_000 all % 2 ^ 64) 1_000_000_000, true)
          else (0, false)))
observe_at-observe_all_example =
    observe_at-observe_all rate 1_000_000_000 1_200_000_000 30 earlier_reads
      ((omega arith, tt), (tt, tt)) (omega arith, (omega arith, tt))

second_read_in_window :
    (observe_at rate
      (observe_all rate (new_rate_tracker 1_000_000_000) earlier_reads)
      1_200_000_000
      30).1
    ≡ (80, true)
unfolding observe_at observe_all
second_read_in_window = refl

abbrev limits : GuardedBodyConfig
limits = record {
  has_cancel = true;
  max_bytes = pos 10;
  idle_timeout = pos 30_000_000_000;
  min_rate = pos 0;
  min_rate_window = pos 0;
  decompress_gzip = false;
  has_max_ratio = false;
  has_observer = true;
  observe_url = url;
  status_code = 200;
  observe_started = pos 0;
}

abbrev opened : GuardedBody
opened = record {
  read_bytes = pos 0;
  watchdog = some 0;
  rate = none;
  compressed = none;
  close_result = none;
}

abbrev chunk : ℕ → ReadStep
chunk n = record {
  before = still_active;
  count = n;
  error = none;
  inner_reads = [];
  now = 0;
  after = still_active;
}

abbrev floats : FloatWorld
floats = record { rate = rate; above_ratio = λ read total. false }

-- The second of the three chunks passes the limit.
three_chunks :
    consume floats limits opened (chunk 6 ∷ chunk 6 ∷ chunk 6 ∷ []) ≡ (12, some too_large)
unfolding consume read wrap64
three_chunks = refl

chunk_without_error : (read floats limits opened (chunk 6)).1.1 ≡ none
unfolding read wrap64
chunk_without_error = refl

read_passed_example :
    (let after = counted (sourced opened (chunk 6)) (chunk 6) in
      (ctx_err (chunk 6).before ≡ none)
      × (is_too_large limits after.read_bytes ≡ false)
      × (is_slow floats limits (chunk 6) opened.rate ≡ false)
      × (is_bomb floats limits after.read_bytes after.compressed ≡ false)
      × ((chunk 6).error ≡ none))
read_passed_example = read_passed floats limits opened (chunk 6) (omega arith) chunk_without_error

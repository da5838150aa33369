-- ===== src/Guard/Writer/Calls.antt =====
-- A guardedWriter that is read and closed any number of times, in any order.
use jttp.Prelude.{
  ℕ, ◌+◌, ◌≡◌, refl, ap, ◌∙◌, Option, none, some, List, [], ◌∷◌, ◌++◌, ltb, arith, if◌then◌else◌,
  Bool-cases, inl, inr,
}
use jttp.Errors.{GoError}
use jttp.Guard.Source.{InnerRead}
use jttp.Guard.Body.Life.{CloseEvent}
use jttp.Guard.Body.Once.{inner_closes, watchdog_stops}
use jttp.Guard.Writer.{GuardedWriter, read_writer, close_writer}

-- A Read, for which the inner body returns the given results, or a Close, likewise.
pub data WriterCall : Type 0 where
  read_call : InnerRead → WriterCall
  close_call : Option GoError → WriterCall

-- The writer afterwards, the results of the calls of Read, those of the calls of Close, and what these do.
pub record WriterRun : Type 0 where
  pub writer : GuardedWriter
  pub reads : List InnerRead
  pub results : List (Option GoError)
  pub events : List CloseEvent

unfoldable pub run_writer : GuardedWriter → List WriterCall → WriterRun
run_writer g [] = record { writer = g; reads = []; results = []; events = [] }
run_writer g (read_call inner ∷ calls) =
    let (after, given) = read_writer g inner in
    let rest = run_writer after calls in record rest { reads = given ∷ rest.reads }
run_writer g (close_call e ∷ calls) =
    let (after, (result, events)) = close_writer g e in
    let rest = run_writer after calls in
    record rest { results = result ∷ rest.results; events = events ++ rest.events }

-- The results of the inner body's calls of Read.
abbrev pub inner_reads_of : List WriterCall → List InnerRead
inner_reads_of [] = []
inner_reads_of (read_call inner ∷ calls) = inner ∷ inner_reads_of calls
inner_reads_of (close_call e ∷ calls) = inner_reads_of calls

-- The calls of Read that return some bytes.
abbrev pub progress : List WriterCall → ℕ
progress [] = 0
progress (read_call (n, e) ∷ calls) = (if ltb 0 n then 1 else 0) + progress calls
progress (close_call e ∷ calls) = progress calls

-- Each Close returns the result of the first.
abbrev pub first_results : Option (Option GoError) → List WriterCall → List (Option GoError)
first_results o [] = []
first_results o (read_call inner ∷ calls) = first_results o calls
first_results none (close_call e ∷ calls) = e ∷ first_results (some e) calls
first_results (some first) (close_call e ∷ calls) = first ∷ first_results (some first) calls

-- The inner body is closed once if there is a Close, and if it was not closed before.
abbrev pub closes_due : Option (Option GoError) → List WriterCall → ℕ
closes_due o [] = 0
closes_due o (read_call inner ∷ calls) = closes_due o calls
closes_due none (close_call e ∷ calls) = 1
closes_due (some first) (close_call e ∷ calls) = 0

-- What holds of a run of a writer with a watchdog, which had `k` Resets before.
pub record IsPassedOn (k : ℕ) (o : Option (Option GoError)) (calls : List WriterCall)
    (run : WriterRun) : Type 0 where
  pub reads_same : run.reads ≡ inner_reads_of calls
  pub results_first : run.results ≡ first_results o calls
  pub closed_once : inner_closes run.events ≡ closes_due o calls
  pub stopped_once : watchdog_stops run.events ≡ closes_due o calls
  pub resets : run.writer.watchdog ≡ some (k + progress calls)

abbrev pub watching : ℕ → Option (Option GoError) → GuardedWriter
watching k o = record { watchdog = some k; close_result = o }

closes_due-closed :
    (first : Option GoError) (calls : List WriterCall) → closes_due (some first) calls ≡ 0
closes_due-closed first [] = refl
closes_due-closed first (read_call inner ∷ calls) = closes_due-closed first calls
closes_due-closed first (close_call e ∷ calls) = refl

read_writer-resets :
    (k n : ℕ) (o : Option (Option GoError)) (e : Option GoError)
    → read_writer (watching k o) (n, e) ≡ (watching (k + (if ltb 0 n then 1 else 0)) o, (n, e))
unfolding read_writer
read_writer-resets k n o e = elim (Bool-cases (ltb 0 n)) [
  | inl some_bytes ↦ rw some_bytes (ap (λ i. (watching i o, (n, e))) (omega arith))
  | inr no_bytes ↦ rw no_bytes (ap (λ i. (watching i o, (n, e))) (omega arith))
]

pub run_writer-IsPassedOn :
    (k : ℕ) (o : Option (Option GoError)) (calls : List WriterCall)
    → IsPassedOn k o calls (run_writer (watching k o) calls)
unfolding run_writer close_writer
run_writer-IsPassedOn k o [] = record {
  reads_same = refl;
  results_first = refl;
  closed_once = refl;
  stopped_once = refl;
  resets = ap some (omega arith);
}
run_writer-IsPassedOn k o (read_call (n, e) ∷ calls) =
    let rest = run_writer-IsPassedOn (k + (if ltb 0 n then 1 else 0)) o calls in
    rw (read_writer-resets k n o e) (record {
      reads_same = ap (λ l. (n, e) ∷ l) rest.reads_same;
      results_first = rest.results_first;
      closed_once = rest.closed_once;
      stopped_once = rest.stopped_once;
      resets = rest.resets ∙ ap some (omega arith);
    })
run_writer-IsPassedOn k none (close_call e ∷ calls) =
    let rest = run_writer-IsPassedOn k (some e) calls in
    record {
      reads_same = rest.reads_same;
      results_first = ap (λ l. e ∷ l) rest.results_first;
      closed_once = omega (arith, rest.closed_once, closes_due-closed e calls);
      stopped_once = omega (arith, rest.stopped_once, closes_due-closed e calls);
      resets = rest.resets;
    }
run_writer-IsPassedOn k (some first) (close_call e ∷ calls) =
    let rest = run_writer-IsPassedOn k (some first) calls in
    record {
      reads_same = rest.reads_same;
      results_first = ap (λ l. first ∷ l) rest.results_first;
      closed_once = rest.closed_once ∙ closes_due-closed first calls;
      stopped_once = rest.stopped_once ∙ closes_due-closed first calls;
      resets = rest.resets;
    }

-- ===== src/Guard/Source.antt =====
-- guard.go: what a guardedBody reads from, its countingReader, and the context that it asks.
use jttp.Prelude.{ℕ, Option, none, some, List, [], ◌∷◌}
use jttp.Prelude.Int.{ℤ, pos, ◌+ℤ◌, wrap64}
use jttp.Errors.{GoError}

-- A context at one time: nil, not done, or done with what context.Cause and its Err give.
pub data Context : Type 0 where
  no_context still_active : Context
  ended : Option GoError → GoError → Context

abbrev pub ctx_err : Context → Option GoError
ctx_err no_context = none
ctx_err still_active = none
ctx_err (ended (some cause) e) = some cause
ctx_err (ended none e) = some e

-- The two results of a Read of the body below.
abbrev pub InnerRead : Type 0
InnerRead = ℕ × Option GoError

-- A countingReader; the reader below is what its calls are given.
pub record CountingReader : Type 0 where
  pub total : ℤ

-- `countingReader.Read`, where the reader below returns `inner`.
abbrev pub count_read : CountingReader → InnerRead → CountingReader × InnerRead
count_read c (n, e) = (record c { total = wrap64 (c.total +ℤ pos n) }, (n, e))

-- The reader after a number of calls, which gzip makes.
abbrev pub count_reads : CountingReader → List InnerRead → CountingReader
count_reads c [] = c
count_reads c (inner ∷ rest) = count_reads (count_read c inner).0 rest

-- A new reader.
abbrev pub new_counting_reader : CountingReader
new_counting_reader = record { total = pos 0 }

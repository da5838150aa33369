-- ===== src/Guard/Body/Compressed.antt =====
-- The compressed bytes that a response body has read.
use jttp.Prelude.{
  ℕ, ◌+◌, ◌^◌, ◌<◌, ◌≡◌, ap, ◌∙◌, Bool, true, false, Option, none, some, List, [], ◌∷◌, arith,
  if◌then◌else◌,
}
use jttp.Prelude.Int.{pos, ◌+ℤ◌, wrap64, wrap64-IsInt64}
use jttp.Errors.{GoError, Result, ok, err}
use jttp.Guard.Source.{ctx_err, InnerRead, CountingReader, count_read, count_reads}
use jttp.Guard.Body.{GuardedBody, ReadStep}
use jttp.Guard.Body.Delivers.{taken, pos-+ℤ}
use jttp.Guard.Body.Life.{compressed_of}

-- The bytes of some reads of the body below.
abbrev pub arrived : List InnerRead → ℕ
arrived [] = 0
arrived ((n, e) ∷ rest) = n + arrived rest

-- Those that arrive for one read: none if the context was done.
abbrev pub arrived_for : ReadStep → Option GoError → ℕ
arrived_for s (some cause) = 0
arrived_for s none = arrived s.inner_reads

abbrev pub arrived_in : List ReadStep → ℕ
arrived_in [] = 0
arrived_in (s ∷ ss) = arrived_for s (ctx_err s.before) + arrived_in ss

-- Those of a header that gzip has read.
abbrev pub header_bytes : Result (List InnerRead) → ℕ
header_bytes (err e) = 0
header_bytes (ok reads) = arrived reads

-- A body has a countingReader if it decompresses, with the total `c`.
abbrev pub HasTotal : Bool → Option CountingReader → ℕ → Type 0
HasTotal false none c = Unit
HasTotal false (some reader) c = ⊥
HasTotal true none c = ⊥
HasTotal true (some reader) c = reader.total ≡ pos c

pub count_reads-total :
    (reader : CountingReader) (reads : List InnerRead) (c : ℕ)
    → reader.total ≡ pos c
    → c + arrived reads < 2 ^ 63
    → (count_reads reader reads).total ≡ pos (c + arrived reads)
count_reads-total reader [] c e small = e ∙ ap pos (omega arith)
count_reads-total reader ((n, x) ∷ rest) c e small =
    let next : wrap64 (reader.total +ℤ pos n) ≡ pos (c + n) =
      ap wrap64 (ap (λ z. z +ℤ pos n) e ∙ pos-+ℤ c n)
      ∙ wrap64-IsInt64 (pos (c + n)) (omega arith) in
    count_reads-total (count_read reader (n, x)).0 rest (c + n) next (omega arith)
    ∙ ap pos (omega arith)

pub taken-HasTotal :
    (gzip : Bool) (reader : Option CountingReader) (s : ReadStep) (o : Option GoError) (c : ℕ)
    → HasTotal gzip reader c
    → c + arrived_for s o < 2 ^ 63
    → HasTotal gzip (taken reader s o) (c + arrived_for s o)
taken-HasTotal true none s o c h small = absurd h
taken-HasTotal false (some r) s o c h small = absurd h
taken-HasTotal false none s none c h small = tt
taken-HasTotal false none s (some cause) c h small = tt
taken-HasTotal true (some r) s none c h small = count_reads-total r s.inner_reads c h small
taken-HasTotal true (some r) s (some cause) c h small = h ∙ ap pos (omega arith)

-- What an observer is told of a body that has returned `k` bytes: the total, or `k` without gzip.
pub compressed_of-HasTotal :
    (gzip : Bool) (b : GuardedBody) (reader : Option CountingReader) (c k : ℕ)
    → HasTotal gzip reader c
    → b.read_bytes ≡ pos k
    → compressed_of b reader ≡ pos (if gzip then c else k)
compressed_of-HasTotal true b none c k h e = absurd h
compressed_of-HasTotal false b (some r) c k h e = absurd h
compressed_of-HasTotal false b none c k h e = e
compressed_of-HasTotal true b (some r) c k h e = h

-- ===== src/Retry/Body/Drain.antt =====
-- retry.go: `drainAndClose` on a body that is guarded by guard.go: the reads that it makes.
use jttp.Prelude.{
  ℕ, zero, suc, ◌-◌, ◌*◌, min, ◌≤◌, ◌<◌, ◌≡◌, refl, ap, ◌⊎◌, inl, inr, Option, none, some, List, [],
  ◌∷◌, ltb, arith, Bool-cases,
}
use jttp.Errors.{GoError}
use jttp.Guard.Source.{ctx_err}
use jttp.Guard.Body.{
  GuardedBodyConfig, GuardedBody, ReadStep, FloatWorld, ReadResult, sourced, counted, after_before,
  read,
}
use jttp.Guard.Body.Delivers.{finish-Delivers, guard_size-Delivers}
use jttp.Guard.Body.Guards.{finish_passed}
use jttp.Guard.Body.Compressed.{arrived, arrived_for, arrived_in}
use jttp.Guard.Body.Trace.{supplied, delivered}
use jttp.Retry.Body.{max_drain_bytes}

-- What a read meets through io.LimitReader, whose buffer has room for `left` bytes.
abbrev pub limit_step : ℕ → ReadStep → ReadStep
limit_step left s = record s { count = min s.count left }

abbrev pub add_read : ReadStep → Option (List ReadStep) → Option (List ReadStep)
add_read s none = none
add_read s (some rest) = some (s ∷ rest)

-- The next reads, which an error ends.
abbrev pub next_reads :
    ReadStep → ReadResult → (GuardedBody → ℕ → Option (List ReadStep)) → Option (List ReadStep)
next_reads s (after, (n, some e)) again = some (s ∷ [])
next_reads s (after, (n, none)) again = add_read s (again after n)

-- The reads that io.Copy makes of the body through io.LimitReader, where `steps k` is what the read `k` would
-- meet; `none` if the fuel runs out.
unfoldable pub reads_within :
    FloatWorld
    → GuardedBodyConfig
    → (ℕ → ReadStep)
    → ℕ
    → ℕ
    → ℕ
    → GuardedBody
    → Option (List ReadStep)
reads_within w cfg steps zero k left b = none
reads_within w cfg steps (suc fuel) k zero b = some []
reads_within w cfg steps (suc fuel) k (suc left) b =
    let s = limit_step (suc left) (steps k) in
    next_reads s (read w cfg b s)
      (λ after n. reads_within w cfg steps fuel (suc k) (suc left - n) after)

-- The reads of a drain.
abbrev pub drain :
    FloatWorld → GuardedBodyConfig → (ℕ → ReadStep) → GuardedBody → Option (List ReadStep)
drain w cfg steps b = reads_within w cfg steps (suc max_drain_bytes) 0 max_drain_bytes b

-- A reader that gives some bytes or an error, as io.Reader asks, for at most 4 GiB of compressed bytes.
pub record Progresses (s : ReadStep) : Type 0 where
  pub gives : (0 < s.count) ⊎ ((e : GoError) × (s.error ≡ some e))
  pub takes : arrived s.inner_reads ≤ 4_294_967_296

module _ (w : FloatWorld) (cfg : GuardedBodyConfig) where
  after_before-bytes :
      (b : GuardedBody) (s : ReadStep) (o : Option GoError)
      → (after_before w cfg b s o).1.0 ≤ s.count
  after_before-bytes b s (some cause) = omega arith
  after_before-bytes b s none = elim (Bool-cases (ltb 0 s.count)) [
    | inl some_bytes ↦
        rw some_bytes (omega (arith, (guard_size-Delivers w cfg (counted (sourced b s) s) s).1))
    | inr no_bytes ↦
        rw no_bytes (omega (arith, (finish-Delivers (sourced b s) s s.error (ctx_err s.after)).1))
  ]

  -- A read without an error returns all bytes of the source, and met no error if there are none.
  after_before_complete :
      (b : GuardedBody) (s : ReadStep) (o : Option GoError)
      → (after_before w cfg b s o).1.1 ≡ none
      → ((after_before w cfg b s o).1.0 ≡ s.count) × ((0 < s.count) ⊎ (s.error ≡ none))
  after_before_complete b s (some cause) h = absurd (cc)
  after_before_complete b s none h = elim (Bool-cases (ltb 0 s.count)) [
    | inl some_bytes ↦
        rw some_bytes
          ((guard_size-Delivers w cfg (counted (sourced b s) s) s).1, inl (ground arith))
    | inr no_bytes ↦ rw no_bytes (
      (finish-Delivers (sourced b s) s s.error (ctx_err s.after)).1,
      inr (finish_passed (sourced b s) s s.error (ctx_err s.after) (rw no_bytes at h)),
    )
  ]

  read-bytes : (b : GuardedBody) (s : ReadStep) → (read w cfg b s).1.0 ≤ s.count
  unfolding read
  read-bytes b s = after_before-bytes b s (ctx_err s.before)

  read_complete :
      (b : GuardedBody) (s : ReadStep)
      → (read w cfg b s).1.1 ≡ none
      → ((read w cfg b s).1.0 ≡ s.count) × ((0 < s.count) ⊎ (s.error ≡ none))
  unfolding read
  read_complete b s h = after_before_complete b s (ctx_err s.before) h

  pub delivered-le-supplied :
      (b : GuardedBody) (ss : List ReadStep) → delivered w cfg b ss ≤ supplied ss
  unfolding delivered
  delivered-le-supplied b [] = omega arith
  delivered-le-supplied b (s ∷ ss) =
      omega (arith, read-bytes b s, delivered-le-supplied (read w cfg b s).0 ss)

  -- The reads come to an end, and keep to what is left.
  abbrev pub IsWithin : ℕ → Option (List ReadStep) → Type 0
  IsWithin left o =
      (reads : List ReadStep) × (o ≡ some reads)
      × (supplied reads ≤ left)
      × (arrived_in reads ≤ left * 4_294_967_296)

  arrived_for-le : (s : ReadStep) (o : Option GoError) → arrived_for s o ≤ arrived s.inner_reads
  arrived_for-le s none = omega arith
  arrived_for-le s (some cause) = omega arith

  next_reads-IsWithin :
      (s : ReadStep) (left : ℕ) (result : ReadResult)
      (again : GuardedBody → ℕ → Option (List ReadStep))
      → s.count ≤ suc left
      → arrived s.inner_reads ≤ 4_294_967_296
      → (result.1.1 ≡ none → (result.1.0 ≡ s.count) × (0 < s.count))
      → ((after : GuardedBody) (n : ℕ)
          → n ≡ s.count
          → 0 < n
          → IsWithin (suc left - n) (again after n))
      → IsWithin (suc left) (next_reads s result again)
  next_reads-IsWithin s left (after, (n, some e)) again fits takes complete h =
      (s ∷ [], refl, omega arith, omega (arith, arrived_for-le s (ctx_err s.before)))
  next_reads-IsWithin s left (after, (n, none)) again fits takes complete h =
      let (all, some_bytes) = complete refl in
      let (reads, is, supplies, arrives) = h after n all (omega (arith, all)) in
      (
        s ∷ reads,
        ap (add_read s) is,
        omega (arith, all),
        omega (arith, all, arrived_for-le s (ctx_err s.before)),
      )

  module _ (steps : ℕ → ReadStep) (progress : (k : ℕ) → Progresses (steps k)) where
    read-limit_step :
        (left k : ℕ) (b : GuardedBody)
        → let s = limit_step (suc left) (steps k) in
          (read w cfg b s).1.1 ≡ none → ((read w cfg b s).1.0 ≡ s.count) × (0 < s.count)
    read-limit_step left k b h =
        let (all, o) = read_complete b (limit_step (suc left) (steps k)) h in
        (
          all,
          elim o [
            | inl some_bytes ↦ some_bytes
            | inr none_met ↦ elim (progress k).gives [
              | inl given ↦ omega arith
              | inr (e, met) ↦ absurd (cc)
            ]
          ],
        )

    pub reads_within-IsWithin :
        (fuel k left : ℕ) (b : GuardedBody)
        → left ≤ fuel
        → IsWithin left (reads_within w cfg steps (suc fuel) k left b)
    unfolding reads_within
    reads_within-IsWithin fuel k zero b h = ([], refl, omega arith, omega arith)
    reads_within-IsWithin zero k (suc left) b h = absurd (omega arith)
    reads_within-IsWithin (suc fuel) k (suc left) b h =
        let s = limit_step (suc left) (steps k) in
        next_reads-IsWithin s left (read w cfg b s)
          (λ after n. reads_within w cfg steps (suc fuel) (suc k) (suc left - n) after)
          (omega arith) (progress k).takes (read-limit_step left k b)
          (λ after n is p. reads_within-IsWithin fuel (suc k) (suc left - n) after (omega arith))

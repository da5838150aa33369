-- ===== src/Guard/Body/Limit.antt =====
-- The limit on the size of a response body.
use jttp.Prelude.{
  sym, ap, ◌∙◌, ltb→lt, ℕ, ◌+◌, ◌^◌, ◌≤◌, ◌<◌, ◌≡◌, refl, ◌⊎◌, inl, inr, true, false, ◌&&◌, Option,
  none, some, List, [], ◌∷◌, ltb, arith, Bool-cases, All,
}
use jttp.Prelude.Int.{pos, ltb_ℤ}
use jttp.Errors.{GoError}
use jttp.Guard.Body.Delivers.{Delivers, finish-Delivers, guard_rate-Delivers, counted_bytes}
use jttp.Guard.Source.{ctx_err}
use jttp.Guard.Body.{
  GuardedBodyConfig, GuardedBody, ReadStep, FloatWorld, ReadResult, too_large, finish, guard_rate,
  guard_size, sourced, counted, after_before, read,
}

-- A caller that reads until it is given an error: the number of bytes that it got, and the error.
abbrev pub consume_after : ReadResult → (GuardedBody → ℕ × Option GoError) → ℕ × Option GoError
consume_after (b, (n, none)) continue = let rest = continue b in (n + rest.0, rest.1)
consume_after (b, (n, some e)) continue = (n, some e)

unfoldable pub consume :
    FloatWorld → GuardedBodyConfig → GuardedBody → List ReadStep → ℕ × Option GoError
consume w cfg b [] = (0, none)
consume w cfg b (s ∷ ss) = consume_after (read w cfg b s) (λ next. consume w cfg next ss)

-- At most `m` bytes in all, `k` of them from before, or the error for more.
abbrev pub IsLimited : ℕ → ℕ → ℕ → Option GoError → Type 0
IsLimited m k n e = (k + n ≤ m) ⊎ (e ≡ some too_large)

module _ (w : FloatWorld) (cfg : GuardedBodyConfig) (m : ℕ) (limited : cfg.max_bytes ≡ pos m)
    (m_pos : 0 < m) where
  guard_size-above :
      (b : GuardedBody) (s : ReadStep) (k : ℕ)
      → b.read_bytes ≡ pos k
      → m < k
      → guard_size w cfg b s ≡ (b, (s.count, some too_large))
  guard_size-above b s k e h =
      let above : (ltb_ℤ (pos 0) cfg.max_bytes && ltb_ℤ cfg.max_bytes b.read_bytes) ≡ true =
        rw (limited, e) (ground arith) in
      rw above refl

  guard_size-within :
      (b : GuardedBody) (s : ReadStep) (k : ℕ)
      → b.read_bytes ≡ pos k
      → k ≤ m
      → guard_size w cfg b s ≡ guard_rate w cfg b s b.rate
  guard_size-within b s k e h =
      let within : (ltb_ℤ (pos 0) cfg.max_bytes && ltb_ℤ cfg.max_bytes b.read_bytes) ≡ false =
        rw (limited, e) (ground arith) in
      rw within refl

  -- What one read gives: its bytes are counted, and they keep the limit or come with the error.
  abbrev Counts : ℕ → ReadResult → Type 0
  Counts k (b, (n, e)) = (b.read_bytes ≡ pos (k + n)) × IsLimited m k n e

  Counts-Delivers :
      (k n : ℕ) (b : GuardedBody) (result : ReadResult)
      → Delivers b n result
      → b.read_bytes ≡ pos (k + n)
      → k + n ≤ m
      → Counts k result
  Counts-Delivers k n b (b', (i, e)) d h le =
      (d.0 ∙ (h ∙ ap (λ j. pos (k + j)) (sym d.1)), inl (omega (arith, d.1)))

  guard_size-Counts :
      (b : GuardedBody) (s : ReadStep) (k : ℕ)
      → b.read_bytes ≡ pos (k + s.count)
      → Counts k (guard_size w cfg b s)
  guard_size-Counts b s k e = elim (Bool-cases (ltb m (k + s.count))) [
    | inl above ↦
        rw (guard_size-above b s (k + s.count) e (ltb→lt m (k + s.count) above)) (e, inr refl)
    | inr within ↦
        let le : k + s.count ≤ m = ground arith in
        rw (guard_size-within b s (k + s.count) e le) (
          Counts-Delivers k s.count b (guard_rate w cfg b s b.rate)
            (guard_rate-Delivers w cfg b s b.rate) e le)
  ]

  after_before-Counts :
      (b : GuardedBody) (s : ReadStep) (o : Option GoError) (k : ℕ)
      → b.read_bytes ≡ pos k
      → k ≤ m
      → m + s.count < 2 ^ 63
      → Counts k (after_before w cfg b s o)
  after_before-Counts b s (some cause) k e le small =
      (rw e (ap pos (omega arith)), inl (omega arith))
  after_before-Counts b s none k e le small = elim (Bool-cases (ltb 0 s.count)) [
    | inl some_bytes ↦
        rw some_bytes
          (guard_size-Counts (counted (sourced b s) s) s k (counted_bytes b s k e (omega arith)))
    | inr no_bytes ↦
        let nothing : s.count ≡ 0 = ground arith in
        rw no_bytes (
          Counts-Delivers k s.count (sourced b s) (finish (sourced b s) s s.error (ctx_err s.after))
            (finish-Delivers (sourced b s) s s.error (ctx_err s.after))
            (rw e (ap pos (omega arith))) (omega arith))
  ]

  consume_after-IsLimited :
      (result : ReadResult) (continue : GuardedBody → ℕ × Option GoError) (k : ℕ)
      → Counts k result
      → ((b : GuardedBody) (i : ℕ)
          → b.read_bytes ≡ pos i
          → i ≤ m
          → IsLimited m i (continue b).0 (continue b).1)
      → k ≤ m
      → (let (n, e) = consume_after result continue in IsLimited m k n e)
  consume_after-IsLimited (b, (n, some e)) continue k c h le = c.1
  consume_after-IsLimited (b, (n, none)) continue k c h le = elim c.1 [
    | inl within ↦ elim (h b (k + n) c.0 within) [
      | inl all ↦ inl (omega arith)
      | inr stopped ↦ inr stopped
    ]
    | inr wrong ↦ absurd (cc)
  ]

  -- With a positive limit on the size, and reads that do not overflow the count, a caller that reads
  -- until it is given an error gets at most maxBytes bytes in all, or the error is ErrResponseTooLarge,
  -- whatever the source, the clock and the context do.
  pub consume-IsLimited :
      (b : GuardedBody) (ss : List ReadStep) (k : ℕ)
      → b.read_bytes ≡ pos k
      → k ≤ m
      → All (λ s. m + s.count < 2 ^ 63) ss
      → (let (n, e) = consume w cfg b ss in IsLimited m k n e)
  unfolding consume read
  consume-IsLimited b [] k e le h = inl (omega arith)
  consume-IsLimited b (s ∷ ss) k e le h =
      consume_after-IsLimited (read w cfg b s) (λ next. consume w cfg next ss) k
        (after_before-Counts b s (ctx_err s.before) k e le h.0)
        (λ next i p q. consume-IsLimited next ss i p q h.1) le

-- ===== src/Retry/Backoff/Bounds.antt =====
-- The bounds of the exponential backoff with jitter.
use jttp.Prelude.{
  ℕ, ◌+◌, ◌-◌, ◌^◌, ◌<◌, ◌≡◌, refl, some, arith, if◌then◌else◌, ltb, inl, inr, Bool-cases,
}
use jttp.Prelude.Int.{ℤ, pos, negsuc, ◌≤ℤ◌, ◌<ℤ◌, wrap64, wrap64-IsInt64, IsInt64}
use jttp.Retry.{RetryTransport}
use jttp.Retry.Backoff.{exponential_wait, jittered}

-- The waits of a transport as `New` leaves them: positive, in order, and in the range of int64.
pub record HasValidWaits (t : RetryTransport) : Type 0 where
  pub min_pos : pos 0 <ℤ t.wait_min
  pub min-le-max : t.wait_min ≤ℤ t.wait_max
  pub in_range : IsInt64 t.wait_max
  pub after_pos : pos 0 <ℤ t.max_retry_after

-- Whatever the product wraps to, the wait before the jitter is positive and at most waitMax.
pub exponential_wait_bounds :
    (t : RetryTransport) (attempt : ℕ)
    → HasValidWaits t
    → (pos 0 <ℤ exponential_wait t attempt) × (exponential_wait t attempt ≤ℤ t.wait_max)
unfolding exponential_wait
exponential_wait_bounds t attempt v = ground arith

wrap64-pos : (n : ℕ) → n < 2 ^ 63 → wrap64 (pos n) ≡ pos n
wrap64-pos n h = wrap64-IsInt64 (pos n) h

-- What the jitter adds to a wait of `w` nanoseconds.
abbrev pub jittered_ℕ : ℕ → (ℕ → ℕ) → ℕ → ℕ
jittered_ℕ m draw w = if ltb m w then m + draw (w - m + 1) else w

jittered-pos :
    (t : RetryTransport) (draw : ℕ → ℕ) (m w : ℕ)
    → t.wait_min ≡ pos m
    → 0 < m
    → w < 2 ^ 63
    → ((n : ℕ) → 0 < n → draw n < n)
    → jittered t draw (pos w) ≡ some (pos (jittered_ℕ m draw w))
unfolding jittered
jittered-pos t draw m w e h k lt = elim (Bool-cases (ltb m w)) [
  | inl b ↦ ground (
    arith,
    wrap64-pos (w - m),
    wrap64-pos (w - m + 1),
    wrap64-pos (m + draw (w - m + 1)),
    lt (w - m + 1),
  )
  | inr b ↦ ground arith
]

positive-cases : (z : ℤ) → pos 0 <ℤ z → (n : ℕ) × (z ≡ pos n) × (0 < n)
positive-cases (pos n) h = (n, refl, omega arith)
positive-cases (negsuc n) h = absurd (omega arith)

module _ (t : RetryTransport) (draw : ℕ → ℕ) (lt : (n : ℕ) → 0 < n → draw n < n) where
  -- The jitter does not panic, keeps at most the wait, and at least waitMin if the wait is not less.
  pub jittered_bounds :
      (wait : ℤ)
      → HasValidWaits t
      → pos 0 <ℤ wait
      → wait ≤ℤ t.wait_max
      → (d : ℤ) × (jittered t draw wait ≡ some d)
        × (pos 0 <ℤ d)
        × (d ≤ℤ wait)
        × (t.wait_min ≤ℤ wait → t.wait_min ≤ℤ d)
  jittered_bounds wait v p le = go (positive-cases wait p) (positive-cases t.wait_min v.min_pos)
    where
      go :
          (n : ℕ) × (wait ≡ pos n) × (0 < n)
          → (n : ℕ) × (t.wait_min ≡ pos n) × (0 < n)
          → (d : ℤ) × (jittered t draw wait ≡ some d)
            × (pos 0 <ℤ d)
            × (d ≤ℤ wait)
            × (t.wait_min ≤ℤ wait → t.wait_min ≤ℤ d)
      go (n, en, hn) (m, em, hm) = (
        pos (jittered_ℕ m draw n),
        rw en (jittered-pos t draw m n em hm (ground arith) lt),
        ground (arith, lt (n - m + 1)),
        ground (arith, lt (n - m + 1)),
        ground (arith, lt (n - m + 1)),
      )

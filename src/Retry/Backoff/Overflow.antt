-- ===== src/Retry/Backoff/Overflow.antt =====
-- When the product of the backoff is exact, and what happens when it wraps.
use jttp.Prelude.{
  ◌⊎◌, inl, inr, ℕ, zero, suc, ◌+◌, ◌*◌, ◌^◌, ◌<◌, ◌≤◌, ◌≡◌, refl, ap, ◌∙◌, min, Bool, true, none,
  some, arith, ◌&&◌, ◌||◌,
}
use native.Mathlib.Nat.{one-le-pow}
use jttp.Prelude.Int.{ℤ, pos, ◌≤ℤ◌, ◌<ℤ◌, ◌*ℤ◌, min_ℤ, leb_ℤ, wrap64, wrap64-IsInt64, ≤ℤ_trans}
use jttp.Retry.{RetryTransport, RetryWorld, IsRandom}
use jttp.Retry.Backoff.{max_backoff_shift, cap_wait, exponential_wait, jittered, backoff}
use jttp.Retry.Backoff.Bounds.{HasValidWaits, exponential_wait_bounds, jittered_bounds}

pos-*ℤ : (a b : ℕ) → pos a *ℤ pos b ≡ pos (a * b)
pos-*ℤ a b = ground arith

cap_wait-pos : (wait_max : ℤ) (n : ℕ) → 0 < n → cap_wait wait_max (pos n) ≡ min_ℤ (pos n) wait_max
cap_wait-pos wait_max n h = ground arith

mul-pow_pos : (m n : ℕ) → 0 < m → 0 < m * 2 ^ n
mul-pow_pos m n h = let p : 1 ≤ 2 ^ n = one-le-pow n 2 (omega arith) in grind arith

exponential_wait-pos :
    (t : RetryTransport) (m attempt : ℕ)
    → t.wait_min ≡ pos m
    → exponential_wait t attempt
      ≡ cap_wait t.wait_max (wrap64 (pos (m * 2 ^ min attempt max_backoff_shift)))
unfolding exponential_wait
exponential_wait-pos t m attempt e = rw (e, pos-*ℤ m (2 ^ min attempt max_backoff_shift)) refl

-- Where the product fits in an int64, the wait before the jitter is waitMin * 2^attempt, capped at
-- waitMax.
pub exponential_wait_exact :
    (t : RetryTransport) (m attempt : ℕ)
    → t.wait_min ≡ pos m
    → 0 < m
    → attempt ≤ 62
    → m * 2 ^ attempt < 2 ^ 63
    → exponential_wait t attempt ≡ min_ℤ (pos (m * 2 ^ attempt)) t.wait_max
exponential_wait_exact t m attempt e p small fits =
    let shift : min attempt max_backoff_shift ≡ attempt = omega arith in
    rw (exponential_wait-pos t m attempt e, shift, wrap64-IsInt64 (pos (m * 2 ^ attempt)) fits)
      (cap_wait-pos t.wait_max (m * 2 ^ attempt) (mul-pow_pos m attempt p))

-- Bounds of the wait before the jitter hold after it.
backoff_between :
    (t : RetryTransport) (w : RetryWorld) (attempt : ℕ) (high : ℤ)
    → HasValidWaits t
    → IsRandom w
    → t.wait_min ≤ℤ exponential_wait t attempt
    → exponential_wait t attempt ≤ℤ high
    → (d : ℤ) × (backoff t w attempt none ≡ some d) × (t.wait_min ≤ℤ d) × (d ≤ℤ high)
unfolding backoff
backoff_between t w attempt high v r low up =
    let b = exponential_wait_bounds t attempt v in
    let (d, is, p, le, ge) =
      jittered_bounds t (w.int64n attempt) (r.int64n-lt attempt) (exponential_wait t attempt) v b.0
        b.1 in
    (d, is, ge low, ≤ℤ_trans d (exponential_wait t attempt) high le up)

le-double : (m k : ℕ) → 1 ≤ k → m ≤ m * k
le-double m k h = grind arith

min_ℤ-ge : (m n : ℕ) (a z : ℤ) → a ≡ pos m → m ≤ n → a ≤ℤ z → a ≤ℤ min_ℤ (pos n) z
min_ℤ-ge m n a z e h k = ground arith

≤ℤ_refl : (a : ℤ) → a ≤ℤ a
≤ℤ_refl a = omega arith

-- With valid waits, draws in their range, no hint, at most 62 attempts before and a product that fits
-- in an int64, the wait lies between waitMin and the smaller of
-- waitMin * 2^attempt and waitMax.
pub backoff_in_range :
    (t : RetryTransport) (w : RetryWorld) (m attempt : ℕ)
    → HasValidWaits t
    → IsRandom w
    → t.wait_min ≡ pos m
    → attempt ≤ 62
    → m * 2 ^ attempt < 2 ^ 63
    → (d : ℤ) × (backoff t w attempt none ≡ some d)
      × (t.wait_min ≤ℤ d)
      × (d ≤ℤ min_ℤ (pos (m * 2 ^ attempt)) t.wait_max)
backoff_in_range t w m attempt v r e small fits =
    let m_pos : 0 < m = ground (arith, v.min_pos) in
    let exact = exponential_wait_exact t m attempt e m_pos small fits in
    let grows = le-double m (2 ^ attempt) (one-le-pow attempt 2 (omega arith)) in
    backoff_between t w attempt (min_ℤ (pos (m * 2 ^ attempt)) t.wait_max) v r
      (rw exact (min_ℤ-ge m (m * 2 ^ attempt) t.wait_min t.wait_max e grows v.min-le-max))
      (rw exact (≤ℤ_refl (min_ℤ (pos (m * 2 ^ attempt)) t.wait_max)))

-- The product of `m` with 2^shift wraps to a number that is not positive, or not below `m`.
abbrev stays_above : ℕ → ℕ → Bool
stays_above m shift =
    let wait = wrap64 (pos (m * 2 ^ shift)) in leb_ℤ wait (pos 0) || leb_ℤ (pos m) wait

abbrev pub default_retry_wait_min : ℕ
default_retry_wait_min = 250_000_000

≤-cases : (k n : ℕ) → k ≤ suc n → (k ≡ suc n) ⊎ (k ≤ n)
≤-cases k n h = ground arith

and-left : (a b : Bool) → (a && b) ≡ true → a ≡ true
and-left a b h = ground arith

and-right : (a b : Bool) → (a && b) ≡ true → b ≡ true
and-right a b h = ground arith

-- So does the product with each power up to 2^last.
all_stay_above : ℕ → ℕ → Bool
all_stay_above m zero = stays_above m 0
all_stay_above m (suc last) =
    let lower_powers = all_stay_above m last in lower_powers && stays_above m (suc last)

stays_above_up_to :
    (m last shift : ℕ) → shift ≤ last → all_stay_above m last ≡ true → stays_above m shift ≡ true
unfolding all_stay_above
stays_above_up_to m zero shift le h = let same : shift ≡ 0 = omega arith in rw same h
stays_above_up_to m (suc last) shift le h = elim (≤-cases shift last le) [
  | inl same ↦ rw same (and-right (all_stay_above m last) (stays_above m (suc last)) h)
  | inr less ↦
      stays_above_up_to m last shift less
        (and-left (all_stay_above m last) (stays_above m (suc last)) h)
]

default_stays_above : all_stay_above default_retry_wait_min 62 ≡ true
unfolding all_stay_above wrap64
default_stays_above = refl

cap_wait-ge :
    (wait_max wait : ℤ) (m : ℕ)
    → pos m ≤ℤ wait_max
    → (leb_ℤ wait (pos 0) || leb_ℤ (pos m) wait) ≡ true
    → pos m ≤ℤ cap_wait wait_max wait
cap_wait-ge wait_max wait m h k = ground arith

exponential_wait_default :
    (t : RetryTransport) (attempt : ℕ)
    → t.wait_min ≡ pos default_retry_wait_min
    → t.wait_min ≤ℤ t.wait_max
    → t.wait_min ≤ℤ exponential_wait t attempt
exponential_wait_default t attempt e h =
    let shift = min attempt 62 in
    let above =
      stays_above_up_to default_retry_wait_min 62 shift (omega arith) default_stays_above in
    let product = wrap64 (pos (default_retry_wait_min * 2 ^ shift)) in
    let ge = cap_wait-ge t.wait_max product default_retry_wait_min (ground arith) above in
    rw (exponential_wait-pos t default_retry_wait_min attempt e, e) ge

-- With valid waits, draws in their range, no hint and the default waitMin, no wait is
-- shorter than waitMin, at any attempt, although the product
-- overflows from attempt 36 on.
backoff_default-ge-min :
    (t : RetryTransport) (w : RetryWorld) (attempt : ℕ)
    → HasValidWaits t
    → IsRandom w
    → t.wait_min ≡ pos default_retry_wait_min
    → (d : ℤ) × (backoff t w attempt none ≡ some d) × (t.wait_min ≤ℤ d) × (d ≤ℤ t.wait_max)
backoff_default-ge-min t w attempt v r e =
    backoff_between t w attempt t.wait_max v r (exponential_wait_default t attempt e v.min-le-max)
      (exponential_wait_bounds t attempt v).1

product_wraps : (r : ℕ) → r ≤ 4 → wrap64 (pos ((2 ^ 33 + r) * 2 ^ 31)) ≡ pos (r * 2 ^ 31)
unfolding wrap64
product_wraps r h = ground arith

cap_wait-short :
    (wait_max : ℤ) (n : ℕ) → 0 < n → pos n ≤ℤ wait_max → cap_wait wait_max (pos n) ≡ pos n
cap_wait-short wait_max n p h = ground arith

jittered-short :
    (t : RetryTransport) (draw : ℕ → ℕ) (wait : ℤ)
    → wait ≤ℤ t.wait_min
    → jittered t draw wait ≡ some wait
unfolding jittered
jittered-short t draw wait h = ground arith

-- With waitMin = 2^33 + r nanoseconds, 0 < r <= 4, waitMax not less, and no hint, the product of attempt 31 wraps to r * 2^31. The
-- wait is then r * 2^31 nanoseconds, which is less than waitMin.
pub backoff_wraps :
    (t : RetryTransport) (w : RetryWorld) (r : ℕ)
    → t.wait_min ≡ pos (2 ^ 33 + r)
    → t.wait_min ≤ℤ t.wait_max
    → 0 < r
    → r ≤ 4
    → (backoff t w 31 none ≡ some (pos (r * 2 ^ 31))) × (pos (r * 2 ^ 31) <ℤ t.wait_min)
unfolding backoff
backoff_wraps t w r e h p q =
    let short : pos (r * 2 ^ 31) <ℤ t.wait_min = ground arith in
    let wait =
      exponential_wait-pos t (2 ^ 33 + r) 31 e
      ∙ ap (cap_wait t.wait_max) (product_wraps r q)
      ∙ cap_wait-short t.wait_max (r * 2 ^ 31) (omega arith) (omega arith) in
    (rw wait (jittered-short t (w.int64n 31) (pos (r * 2 ^ 31)) (omega arith)), short)

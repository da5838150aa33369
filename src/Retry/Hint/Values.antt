-- ===== src/Retry/Hint/Values.antt =====
-- What a wait hint of the server is worth, from the text of its header on.
use jttp.Prelude.{
  min, max, ℕ, ◌+◌, ◌-◌, ◌*◌, ◌^◌, ◌<◌, ◌≤◌, ◌≡◌, refl, sym, ap, ◌&&◌, ◌∙◌, Option, some, List, [],
  ◌∷◌, map, arith, length, leb, ◌==◌, true, false,
}
use native.Mathlib.Nat.{pow-suc}
use jttp.Prelude.Int.{ℤ, pos, ◌*ℤ◌, ◌<ℤ◌, leb_ℤ, wrap64, wrap64-IsInt64}
use jttp.Ip.{Bytes}
use jttp.Http.{Response, get, codes}
use jttp.Retry.{RetryTransport, RetryWorld}
use jttp.Retry.Hint.{
  digits, parse_int, seconds_of, parse_delta_seconds, parse_delta_seconds_or_epoch,
  parse_retry_after, is_empty, clamp_server_wait, first_hint, parse_server_wait_hint, second,
}

-- The number that a list of decimal digits stands for, and its text.
abbrev pub value : List ℕ → ℕ
value [] = 0
value (d ∷ ds) = d * 10 ^ length ds + value ds

abbrev pub AreDigits : List ℕ → Type 0
AreDigits [] = Unit
AreDigits (d ∷ ds) = (d < 10) × AreDigits ds

abbrev pub text : List ℕ → Bytes
text = map (λ d. b'0' + d)

digit-test : (d : ℕ) → d < 10 → (leb b'0' (b'0' + d) && leb (b'0' + d) b'9') ≡ true
digit-test d h = ground arith

digit-value : (d : ℕ) → b'0' + d - b'0' ≡ d
digit-value d = omega arith

shift-value : (acc d p v : ℕ) → (acc * 10 + d) * p + v ≡ acc * (p * 10) + (d * p + v)
shift-value acc d p v = grind arith

digits-text :
    (acc : ℕ) (ds : List ℕ)
    → AreDigits ds
    → digits acc (text ds) ≡ some (acc * 10 ^ length ds + value ds)
unfolding digits
digits-text acc [] h = ap some (omega arith)
digits-text acc (d ∷ ds) h =
    rw (digit-test d h.0, digit-value d)
      (digits-text (acc * 10 + d) ds h.1
        ∙ ap some (
            shift-value acc d (10 ^ length ds) (value ds)
            ∙ ap (λ p. acc * p + (d * 10 ^ length ds + value ds)) (sym (pow-suc 10 (length ds)))))

no_sign : (d : ℕ) → (b'0' + d == b'+') ≡ false
no_sign d = ground arith

no_minus : (d : ℕ) → (b'0' + d == b'-') ≡ false
no_minus d = ground arith

-- strconv.Atoi reads a decimal text as the number that it stands for, if that is an int64.
pub parse_int-text :
    (d : ℕ) (ds : List ℕ)
    → AreDigits (d ∷ ds)
    → value (d ∷ ds) < 2 ^ 63
    → parse_int (text (d ∷ ds)) ≡ some (pos (value (d ∷ ds)))
unfolding parse_int
parse_int-text d ds h small = rw (no_sign d, no_minus d, digits-text 0 (d ∷ ds) h) (ground arith)

wrap64-once : (n : ℕ) → 2 ^ 64 ≤ n → n < 2 ^ 64 + 2 ^ 63 → wrap64 (pos n) ≡ pos (n - 2 ^ 64)
unfolding wrap64
wrap64-once n low high = ground arith

pos-seconds : (n : ℕ) → pos n *ℤ second ≡ pos (n * 1_000_000_000)
pos-seconds n = ground arith

first_hint-first :
    (t : RetryTransport) (raw : Bytes) (parse : Bytes → ℤ) (sources : List (Bytes × (Bytes → ℤ)))
    (z : ℤ)
    → is_empty raw ≡ false
    → parse raw ≡ z
    → pos 0 <ℤ z
    → first_hint t ((raw, parse) ∷ sources) ≡ some (clamp_server_wait t z)
unfolding first_hint
first_hint-first t raw parse sources z filled e p =
    let later : leb_ℤ z (pos 0) ≡ false = ground arith in rw (filled, e, later) refl

parse_retry_after-text :
    (parse_time : Bytes → Option ℤ) (now : ℤ) (d : ℕ) (ds : List ℕ)
    → AreDigits (d ∷ ds)
    → 0 < value (d ∷ ds)
    → value (d ∷ ds) < 2 ^ 63
    → parse_retry_after parse_time now (text (d ∷ ds))
      ≡ wrap64 (pos (value (d ∷ ds) * 1_000_000_000))
unfolding parse_retry_after seconds_of
parse_retry_after-text parse_time now d ds h p small =
    rw (parse_int-text d ds h small, pos-seconds (value (d ∷ ds))) (ground arith)

-- The floor and the cap on a hint of `s` nanoseconds.
clamp_server_wait-kept :
    (t : RetryTransport) (s a b : ℕ)
    → t.wait_min ≡ pos a
    → t.max_retry_after ≡ pos b
    → 0 < b
    → clamp_server_wait t (pos s) ≡ pos (min (max s a) b)
unfolding clamp_server_wait
clamp_server_wait-kept t s a b e f h = rw (e, f) (ground arith)

module _ (t : RetryTransport) (w : RetryWorld) (attempt : ℕ) (resp : Response) (d : ℕ) (ds : List ℕ)
    (e : get resp.header (codes "Retry-After") ≡ text (d ∷ ds)) (h : AreDigits (d ∷ ds)) where
  retry_after-seconds :
      (z : ℤ)
      → 0 < value (d ∷ ds)
      → value (d ∷ ds) < 2 ^ 63
      → wrap64 (pos (value (d ∷ ds) * 1_000_000_000)) ≡ z
      → pos 0 <ℤ z
      → parse_server_wait_hint t w attempt resp ≡ some (clamp_server_wait t z)
  unfolding parse_server_wait_hint
  retry_after-seconds z p small wraps gain = rw e (
      first_hint-first t (text (d ∷ ds)) (parse_retry_after w.parse_time (w.now attempt 0))
        ((get resp.header (codes "RateLimit-Reset"), parse_delta_seconds)
          ∷ (
            get resp.header (codes "X-RateLimit-Reset"),
            parse_delta_seconds_or_epoch (w.now attempt 1),
          )
          ∷ [])
        z refl (parse_retry_after-text w.parse_time (w.now attempt 0) d ds h p small ∙ wraps) gain)

  -- Let waitMin be `a` and maxRetryAfter be `b` nanoseconds, the latter positive, as New gives them. A
  -- Retry-After header with a positive decimal number of seconds that fit in an int64 of nanoseconds
  -- decides the wait, whatever the other headers say: it is that many seconds, but `a` where that is
  -- more, and `b` where the larger of the two is more than `b`. So the cap wins over the floor: with
  -- a > b the wait is `b`, which is less than waitMin.
  pub retry_after-exact :
      (a b : ℕ)
      → t.wait_min ≡ pos a
      → t.max_retry_after ≡ pos b
      → 0 < b
      → 0 < value (d ∷ ds)
      → value (d ∷ ds) * 1_000_000_000 < 2 ^ 63
      → parse_server_wait_hint t w attempt resp
        ≡ some (pos (min (max (value (d ∷ ds) * 1_000_000_000) a) b))
  retry_after-exact a b low cap cap_pos p fits =
      retry_after-seconds (pos (value (d ∷ ds) * 1_000_000_000)) p (omega arith)
        (wrap64-IsInt64 (pos (value (d ∷ ds) * 1_000_000_000)) fits) (omega arith)
      ∙ ap some (clamp_server_wait-kept t (value (d ∷ ds) * 1_000_000_000) a b low cap cap_pos)

  -- Let waitMin be `a` and maxRetryAfter be `b` nanoseconds, with a < b, and let a Retry-After header ask
  -- for a number of seconds whose nanoseconds are at least 2^64, but less than 2^64 + b. The wait is the
  -- excess over 2^64, which may be a fraction of a second, or `a` where that is more. Either is less than
  -- maxRetryAfter, although the header asks for far more.
  pub retry_after-wraps :
      (a b : ℕ)
      → t.wait_min ≡ pos a
      → t.max_retry_after ≡ pos b
      → a < b
      → b < 2 ^ 63
      → 2 ^ 64 ≤ value (d ∷ ds) * 1_000_000_000
      → value (d ∷ ds) * 1_000_000_000 < 2 ^ 64 + b
      → (parse_server_wait_hint t w attempt resp
          ≡ some (pos (max (value (d ∷ ds) * 1_000_000_000 - 2 ^ 64) a)))
        × (max (value (d ∷ ds) * 1_000_000_000 - 2 ^ 64) a < b)
  retry_after-wraps a b low cap le small from below =
      let excess = value (d ∷ ds) * 1_000_000_000 - 2 ^ 64 in
      (
        retry_after-seconds (pos excess) (omega arith) (omega arith)
              (wrap64-once (value (d ∷ ds) * 1_000_000_000) (omega arith) (omega arith))
              (omega arith)
            ∙ ap some
                (clamp_server_wait-kept t excess a b low cap (omega arith) ∙ ap pos (omega arith)),
        omega arith,
      )

-- ===== src/Guard/Window.antt =====
-- The rate tracker against the list of all samples that it has been given.
use jttp.Prelude.{
  All-append_one, ℕ, ◌+◌, ◌%◌, ◌^◌, ◌≤◌, ◌≡◌, refl, sym, ap, true, false, List, [], ◌∷◌, ◌++◌, All,
  if◌then◌else◌, arith, Bool-cases, inl, inr,
}
use jttp.Guard.{RateSample, sub64, is_old, trim}

-- The samples that are not older than the window.
abbrev pub recent : ℕ → ℕ → List RateSample → List RateSample
recent window now [] = []
recent window now (s ∷ ss) =
    let rest = recent window now ss in if is_old window now s then rest else s ∷ rest

abbrev pub total : List RateSample → ℕ
total [] = 0
total (s ∷ ss) = s.bytes + total ss

-- Later samples do not have earlier times.
abbrev pub IsOrdered : List RateSample → Type 0
IsOrdered [] = Unit
IsOrdered (s ∷ ss) = All (λ x. s.time ≤ x.time) ss × IsOrdered ss

recent-whole :
    (window now : ℕ) (s : RateSample) (ss : List RateSample)
    → is_old window now s ≡ false
    → All (λ x. s.time ≤ x.time) ss
    → recent window now ss ≡ ss
recent-whole window now s [] h a = refl
recent-whole window now s (x ∷ ss) h a =
    let young : is_old window now x ≡ false = ground (arith, a.0) in
    rw young (ap (λ l. x ∷ l) (recent-whole window now s ss h a.1))

pub trim-recent :
    (window now : ℕ) (ss : List RateSample) (bytes : ℕ)
    → IsOrdered ss
    → (trim window now ss bytes).0 ≡ recent window now ss
unfolding trim
trim-recent window now [] bytes h = refl
trim-recent window now (s ∷ ss) bytes h = elim (Bool-cases (is_old window now s)) [
  | inl old ↦ rw old (trim-recent window now ss (sub64 bytes s.bytes) h.1)
  | inr young ↦ rw young (ap (λ l. s ∷ l) (sym (recent-whole window now s ss young h.0)))
]

sub64-total : (a b c : ℕ) → a ≡ (b + c) % 2 ^ 64 → sub64 a b ≡ c % 2 ^ 64
sub64-total a b c h = omega arith

pub trim-total :
    (window now : ℕ) (ss : List RateSample) (bytes : ℕ)
    → bytes ≡ total ss % 2 ^ 64
    → (let (rest, left) = trim window now ss bytes in left ≡ total rest % 2 ^ 64)
unfolding trim
trim-total window now [] bytes h = h
trim-total window now (s ∷ ss) bytes h = elim (Bool-cases (is_old window now s)) [
  | inl old ↦
      rw old
        (trim-total window now ss (sub64 bytes s.bytes) (sub64-total bytes s.bytes (total ss) h))
  | inr young ↦ rw young h
]

pub recent-append :
    (window now : ℕ) (xs ys : List RateSample)
    → recent window now (xs ++ ys) ≡ recent window now xs ++ recent window now ys
recent-append window now [] ys = refl
recent-append window now (x ∷ xs) ys = elim (Bool-cases (is_old window now x)) [
  | inl old ↦ rw old (recent-append window now xs ys)
  | inr young ↦ rw young (ap (λ l. x ∷ l) (recent-append window now xs ys))
]

-- What is old stays old.
pub recent-recent :
    (window before now : ℕ) (ss : List RateSample)
    → before ≤ now
    → recent window now (recent window before ss) ≡ recent window now ss
recent-recent window before now [] h = refl
recent-recent window before now (s ∷ ss) h = elim (Bool-cases (is_old window before s)) [
  | inl old ↦
      let older : is_old window now s ≡ true = ground arith in
      rw (old, older) (recent-recent window before now ss h)
  | inr young ↦ elim (Bool-cases (is_old window now s)) [
    | inl old ↦ rw (young, old) (recent-recent window before now ss h)
    | inr still ↦ rw (young, still) (ap (λ l. s ∷ l) (recent-recent window before now ss h))
  ]
]

pub All-recent :
    (P : RateSample → Type 0) (window now : ℕ) (ss : List RateSample)
    → All P ss
    → All P (recent window now ss)
All-recent P window now [] h = tt
All-recent P window now (s ∷ ss) h = elim (Bool-cases (is_old window now s)) [
  | inl old ↦ rw (old, All) (All-recent P window now ss h.1)
  | inr young ↦ rw (young, All) (h.0, All-recent P window now ss h.1)
]

pub IsOrdered-recent :
    (window now : ℕ) (ss : List RateSample) → IsOrdered ss → IsOrdered (recent window now ss)
IsOrdered-recent window now [] h = tt
IsOrdered-recent window now (s ∷ ss) h = elim (Bool-cases (is_old window now s)) [
  | inl old ↦ rw (old, IsOrdered) (IsOrdered-recent window now ss h.1)
  | inr young ↦
      rw (young, IsOrdered)
        (All-recent (λ x. s.time ≤ x.time) window now ss h.0, IsOrdered-recent window now ss h.1)
]

-- A sample that is no earlier than all others may follow them.
pub IsOrdered-append :
    (ss : List RateSample) (x : RateSample)
    → IsOrdered ss
    → All (λ s. s.time ≤ x.time) ss
    → IsOrdered (ss ++ x ∷ [])
IsOrdered-append [] x h a = (tt, tt)
IsOrdered-append (s ∷ ss) x h a =
    (All-append_one (λ y. s.time ≤ y.time) ss x h.0 a.0, IsOrdered-append ss x h.1 a.1)

pub total-append : (xs ys : List RateSample) → total (xs ++ ys) ≡ total xs + total ys
total-append [] ys = omega arith
total-append (x ∷ xs) ys = omega (arith, total-append xs ys)

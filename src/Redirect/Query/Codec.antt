-- ===== src/Redirect/Query/Codec.antt =====
-- `QueryUnescape` reads what `QueryEscape` writes.
use jttp.Prelude.{
  ℕ, ◌+◌, ◌*◌, ◌/◌, ◌%◌, ◌<◌, ◌≡◌, refl, ap, ◌∙◌, true, false, Option, none, some, [], ◌∷◌, ◌++◌,
  arith, Bool-cases, inl, inr, ◌==◌, if◌then◌else◌, All,
}
use jttp.Ip.{Bytes}
use jttp.Redirect.Query.{
  Mode, normal, percent, percent_high, hex_digit, hex_upper, is_unreserved, unescape, escape,
  prepend, after_percent,
}

abbrev pub IsByte : ℕ → Type 0
IsByte c = c < 256

hex_digit-hex_upper : (d : ℕ) → d < 16 → hex_digit (hex_upper d) ≡ some d
unfolding hex_digit
hex_digit-hex_upper d h = ground arith

-- What `escape` writes for one byte.
abbrev escape_byte : ℕ → Bytes
escape_byte c =
    if c == b' '
    then b'+' ∷ []
    else if is_unreserved c
    then c ∷ []
    else b'%' ∷ hex_upper (c / 16) ∷ hex_upper (c % 16) ∷ []

is_unreserved_plain :
    (c : ℕ) → is_unreserved c ≡ true → ((c == b'%') ≡ false) × ((c == b'+') ≡ false)
unfolding is_unreserved
is_unreserved_plain c h = ground arith

unescape_space :
    (rest : Bytes) → unescape normal (b'+' ∷ rest) ≡ prepend b' ' (unescape normal rest)
unfolding unescape
unescape_space rest = refl

unescape_plain :
    (c : ℕ) (rest : Bytes)
    → (c == b'%') ≡ false
    → (c == b'+') ≡ false
    → unescape normal (c ∷ rest) ≡ prepend c (unescape normal rest)
unfolding unescape
unescape_plain c rest h k = rw (h, k) refl

unescape_hex :
    (d e : ℕ) (rest : Bytes)
    → d < 16
    → e < 16
    → unescape normal (b'%' ∷ hex_upper d ∷ hex_upper e ∷ rest)
      ≡ prepend (d * 16 + e) (unescape normal rest)
unfolding unescape
unescape_hex d e rest h k = rw (hex_digit-hex_upper d h, hex_digit-hex_upper e k) refl

unescape-escape_byte :
    (c : ℕ) (rest : Bytes)
    → IsByte c
    → unescape normal (escape_byte c ++ rest) ≡ prepend c (unescape normal rest)
unescape-escape_byte c rest h = elim (Bool-cases (c == b' ')) [
  | inl space ↦ let same : c ≡ b' ' = ground arith in rw same (unescape_space rest)
  | inr other ↦ elim (Bool-cases (is_unreserved c)) [
    | inl plain ↦
        let (p, q) = is_unreserved_plain c plain in rw (other, plain) (unescape_plain c rest p q)
    | inr reserved ↦
        rw (other, reserved)
          (unescape_hex (c / 16) (c % 16) rest (omega arith) (omega arith)
            ∙ ap (λ d. prepend d (unescape normal rest)) (omega arith))
  ]
]

pub unescape-escape : (s : Bytes) → All IsByte s → unescape normal (escape s) ≡ some s
unfolding escape unescape
unescape-escape [] h = refl
unescape-escape (c ∷ s) h =
    unescape-escape_byte c (escape s) h.0 ∙ ap (prepend c) (unescape-escape s h.1)

-- None of the characters that have a meaning in a query.
abbrev pub IsSafe : ℕ → Type 0
IsSafe c = ((c == b'&') ≡ false) × ((c == b';') ≡ false) × ((c == b'=') ≡ false)

is_unreserved-IsSafe : (c : ℕ) → is_unreserved c ≡ true → IsSafe c
unfolding is_unreserved
is_unreserved-IsSafe c h = ground arith

hex_upper-IsSafe : (d : ℕ) → IsSafe (hex_upper d)
hex_upper-IsSafe d = ground arith

pub escape-IsSafe : (s : Bytes) → All IsSafe (escape s)
unfolding escape
escape-IsSafe [] = tt
escape-IsSafe (c ∷ s) = elim (Bool-cases (c == b' ')) [
  | inl space ↦ rw space ((refl, refl, refl), escape-IsSafe s)
  | inr other ↦ elim (Bool-cases (is_unreserved c)) [
    | inl plain ↦ rw (other, plain) (is_unreserved-IsSafe c plain, escape-IsSafe s)
    | inr reserved ↦
        rw (other, reserved)
          (
            (refl, refl, refl),
            (hex_upper-IsSafe (c / 16), (hex_upper-IsSafe (c % 16), escape-IsSafe s)),
          )
  ]
]

hex_upper-IsByte : (d : ℕ) → d < 16 → IsByte (hex_upper d)
hex_upper-IsByte d h = ground arith

-- What is written for bytes is bytes.
pub escape-IsByte : (s : Bytes) → All IsByte s → All IsByte (escape s)
unfolding escape
escape-IsByte [] h = tt
escape-IsByte (c ∷ s) h = elim (Bool-cases (c == b' ')) [
  | inl space ↦ rw space (omega arith, escape-IsByte s h.1)
  | inr other ↦ elim (Bool-cases (is_unreserved c)) [
    | inl plain ↦ rw (other, plain) (h.0, escape-IsByte s h.1)
    | inr reserved ↦
        rw (other, reserved)
          (
            omega arith,
            (
              hex_upper-IsByte (c / 16) (omega arith),
              (hex_upper-IsByte (c % 16) (omega arith), escape-IsByte s h.1),
            ),
          )
  ]
]

hex_digit-lt : (c d : ℕ) → hex_digit c ≡ some d → d < 16
unfolding hex_digit
hex_digit-lt c d h = ground arith

-- A mode that has read bytes.
abbrev IsReading : Mode → Type 0
IsReading normal = Unit
IsReading percent = Unit
IsReading (percent_high h) = h < 16

AreBytes : Option Bytes → Type 0
AreBytes none = Unit
AreBytes (some t) = All IsByte t

AreBytes-prepend : (c : ℕ) (o : Option Bytes) → IsByte c → AreBytes o → AreBytes (prepend c o)
unfolding AreBytes
AreBytes-prepend c none h k = tt
AreBytes-prepend c (some t) h k = (h, k)

AreBytes-after_percent :
    (o : Option ℕ) (f : ℕ → Option Bytes)
    → ((d : ℕ) → o ≡ some d → AreBytes (f d))
    → AreBytes (after_percent o f)
unfolding AreBytes
AreBytes-after_percent none f h = tt
AreBytes-after_percent (some d) f h = h d refl

unescape-AreBytes :
    (mode : Mode) (s : Bytes) → IsReading mode → All IsByte s → AreBytes (unescape mode s)
unfolding unescape AreBytes
unescape-AreBytes normal [] r h = tt
unescape-AreBytes percent [] r h = tt
unescape-AreBytes (percent_high d) [] r h = tt
unescape-AreBytes normal (c ∷ cs) r h = elim (Bool-cases (c == b'%')) [
  | inl escaped ↦ rw escaped (unescape-AreBytes percent cs tt h.1)
  | inr other ↦ elim (Bool-cases (c == b'+')) [
    | inl plus ↦
        rw (other, plus)
          (AreBytes-prepend b' ' (unescape normal cs) (omega arith)
            (unescape-AreBytes normal cs tt h.1))
    | inr plain ↦
        rw (other, plain)
          (AreBytes-prepend c (unescape normal cs) h.0 (unescape-AreBytes normal cs tt h.1))
  ]
]
unescape-AreBytes percent (c ∷ cs) r h =
    AreBytes-after_percent (hex_digit c) (λ d. unescape (percent_high d) cs)
      (λ d e. unescape-AreBytes (percent_high d) cs (hex_digit-lt c d e) h.1)
unescape-AreBytes (percent_high d) (c ∷ cs) r h =
    AreBytes-after_percent (hex_digit c) (λ l. prepend (d * 16 + l) (unescape normal cs))
      (λ l e.
        let small = hex_digit-lt c l e in
        AreBytes-prepend (d * 16 + l) (unescape normal cs) (omega arith)
          (unescape-AreBytes normal cs tt h.1))

pub unescape-IsByte : (s t : Bytes) → All IsByte s → unescape normal s ≡ some t → All IsByte t
unfolding AreBytes
unescape-IsByte s t h e = rw e at (unescape-AreBytes normal s tt h)

-- ===== src/Redirect/Query/Decoded.antt =====
-- The decoded pairs of a query of bytes are of bytes.
use mathlib.Core.List.{Permᴰ}
use jttp.Prelude.{
  ℕ, ◌≡◌, refl, Option, none, some, List, [], ◌∷◌, any, Bool-cases, inl, inr, ◌==◌, All, All-append,
}
use jttp.Ip.{Bytes, bytes_equal}
use jttp.Redirect.Query.{normal, unescape, cut, split, first_piece}
use jttp.Redirect.Query.Codec.{IsByte, unescape-IsByte}
use jttp.Redirect.Query.Pairs.{Pairs, one_pair, decode_piece, join_pairs, pairs_in, query_pairs}
use jttp.Redirect.Query.Written.{AreBytePairs}

cut-All :
    (P : ℕ → Type 0) (sep : ℕ) (s : Bytes) → All P s → All P (cut sep s).0 × All P (cut sep s).1
unfolding cut
cut-All P sep [] h = (tt, tt)
cut-All P sep (c ∷ s) h = elim (Bool-cases (c == sep)) [
  | inl here ↦ rw here (tt, h.1)
  | inr later ↦ let (before, after) = cut-All P sep s h.1 in rw later ((h.0, before), after)
]

first_piece-All :
    (P : ℕ → Type 0) (c : ℕ) (ps : List Bytes)
    → P c
    → All (λ p. All P p) ps
    → All (λ p. All P p) (first_piece c ps)
first_piece-All P c [] h k = ((h, tt), tt)
first_piece-All P c (p ∷ ps) h k = ((h, k.0), k.1)

split-All : (P : ℕ → Type 0) (sep : ℕ) (s : Bytes) → All P s → All (λ p. All P p) (split sep s)
unfolding split
split-All P sep [] h = (tt, tt)
split-All P sep (c ∷ s) h = elim (Bool-cases (c == sep)) [
  | inl here ↦ rw here (tt, split-All P sep s h.1)
  | inr later ↦ rw later (first_piece-All P c (split sep s) h.0 (split-All P sep s h.1))
]

-- Nothing, or pairs of bytes.
abbrev AreDecoded : Option Pairs → Type 0
AreDecoded none = Unit
AreDecoded (some ps) = AreBytePairs ps

AreDecoded-one_pair :
    (k v : Option Bytes)
    → ((t : Bytes) → k ≡ some t → All IsByte t)
    → ((t : Bytes) → v ≡ some t → All IsByte t)
    → AreDecoded (one_pair k v)
AreDecoded-one_pair (some k) (some v) h i = ((h k refl, i v refl), tt)
AreDecoded-one_pair (some k) none h i = tt
AreDecoded-one_pair none v h i = tt

AreDecoded-decode_piece : (p : Bytes) → All IsByte p → AreDecoded (decode_piece p)
AreDecoded-decode_piece p h = elim (Bool-cases (any (λ c. c == b';') p)) [
  | inl bad ↦ rw bad tt
  | inr good ↦ elim (Bool-cases (bytes_equal p [])) [
    | inl empty ↦ rw (good, empty) tt
    | inr filled ↦
        let (key, value) = cut-All IsByte b'=' p h in
        rw (good, filled)
          (AreDecoded-one_pair (unescape normal (cut b'=' p).0) (unescape normal (cut b'=' p).1)
            (λ t. unescape-IsByte (cut b'=' p).0 t key)
            (λ t. unescape-IsByte (cut b'=' p).1 t value))
  ]
]

AreDecoded-join_pairs :
    (o r : Option Pairs) → AreDecoded o → AreDecoded r → AreDecoded (join_pairs o r)
AreDecoded-join_pairs none r h k = tt
AreDecoded-join_pairs (some ps) none h k = tt
AreDecoded-join_pairs (some ps) (some qs) h k =
    All-append (λ p. All IsByte p.0 × All IsByte p.1) ps qs h k

AreDecoded-pairs_in : (ps : List Bytes) → All (λ p. All IsByte p) ps → AreDecoded (pairs_in ps)
unfolding pairs_in
AreDecoded-pairs_in [] h = tt
AreDecoded-pairs_in (p ∷ ps) h =
    AreDecoded-join_pairs (decode_piece p) (pairs_in ps) (AreDecoded-decode_piece p h.0)
      (AreDecoded-pairs_in ps h.1)

pub query_pairs-AreBytePairs :
    (raw : Bytes) (ps : Pairs) → All IsByte raw → query_pairs raw ≡ some ps → AreBytePairs ps
unfolding query_pairs
query_pairs-AreBytePairs raw ps h e =
    rw e at (AreDecoded-pairs_in (split b'&' raw) (split-All IsByte b'&' raw h))

pub All-Perm : {A : Type 0} (P : A → Type 0) (xs ys : List A) → Permᴰ xs ys → All P xs → All P ys
All-Perm P xs ys Permᴰ.nil h = h
All-Perm P xs ys (Permᴰ.cons {l₁ = xs'} {l₂ = ys'} e d) h = (rw (← e) h.0, All-Perm P xs' ys' d h.1)
All-Perm P xs ys (Permᴰ.swap e f) h = (rw (← f) h.1.0, (rw (← e) h.0, h.1.1))
All-Perm P xs ys (Permᴰ.trans {l₂ = zs} d e) h = All-Perm P zs ys e (All-Perm P xs zs d h)

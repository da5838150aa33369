-- ===== src/Redirect/Query/Written.antt =====
-- What `canonicalizeQuery` writes for a list of pairs, read again.
use mathlib.Core.List.{append_assoc, append-nil}
use jttp.Prelude.{
  arith, Bool, ℕ, ◌≡◌, refl, sym, ap, ◌∙◌, true, false, some, [], ◌∷◌, ◌++◌, map, any, ◌==◌, All,
  All-append,
}
use jttp.Ip.{Bytes, bytes_equal}
use jttp.Redirect.Query.{escape, cut, split, write_pairs}
use jttp.Redirect.Query.Codec.{escape-IsByte, IsByte, IsSafe, unescape-escape, escape-IsSafe}
use jttp.Redirect.Query.Pairs.{Pairs, decode_piece, join_pairs, pairs_in, query_pairs}

-- The piece of one pair.
abbrev written : Bytes × Bytes → Bytes
written (k, v) = escape k ++ (b'=' ∷ escape v)

cut-safe : (s rest : Bytes) → All IsSafe s → cut b'=' (s ++ (b'=' ∷ rest)) ≡ (s, rest)
unfolding cut
cut-safe [] rest h = refl
cut-safe (c ∷ s) rest h = rw (h.0.2, cut-safe s rest h.1) refl

-- Bytes with no ampersand among them.
abbrev IsWhole : Bytes → Type 0
IsWhole s = All (λ c. (c == b'&') ≡ false) s

split-whole : (s : Bytes) → IsWhole s → split b'&' s ≡ s ∷ []
unfolding split
split-whole [] h = refl
split-whole (c ∷ s) h = rw (h.0, split-whole s h.1) refl

split-append : (s rest : Bytes) → IsWhole s → split b'&' (s ++ (b'&' ∷ rest)) ≡ s ∷ split b'&' rest
unfolding split
split-append [] rest h = refl
split-append (c ∷ s) rest h = rw (h.0, split-append s rest h.1) refl

IsWhole-safe : (s : Bytes) → All IsSafe s → IsWhole s
IsWhole-safe [] h = tt
IsWhole-safe (c ∷ s) h = (h.0.0, IsWhole-safe s h.1)

IsWhole-written : (p : Bytes × Bytes) → IsWhole (written p)
IsWhole-written (k, v) =
    All-append (λ c. (c == b'&') ≡ false) (escape k) (b'=' ∷ escape v)
      (IsWhole-safe (escape k) (escape-IsSafe k)) (refl, IsWhole-safe (escape v) (escape-IsSafe v))

any-safe : (s : Bytes) → All IsSafe s → any (λ c. c == b';') s ≡ false
any-safe [] h = refl
any-safe (c ∷ s) h = rw (h.0.1, any-safe s h.1) refl

any-append_safe :
    (s t : Bytes)
    → All IsSafe s
    → any (λ c. c == b';') t ≡ false
    → any (λ c. c == b';') (s ++ t) ≡ false
any-append_safe [] t h k = k
any-append_safe (c ∷ s) t h k = rw (h.0.1, any-append_safe s t h.1 k) refl

bytes_equal-filled : (s t : Bytes) (c : ℕ) → bytes_equal (s ++ (c ∷ t)) [] ≡ false
bytes_equal-filled [] t c = refl
bytes_equal-filled (d ∷ s) t c = refl

decode_piece-written :
    (p : Bytes × Bytes) → All IsByte p.0 → All IsByte p.1 → decode_piece (written p) ≡ some (p ∷ [])
decode_piece-written (k, v) h i =
    rw
      (
        any-append_safe (escape k) (b'=' ∷ escape v) (escape-IsSafe k)
            (any-safe (escape v) (escape-IsSafe v)),
        bytes_equal-filled (escape k) (escape v) b'=',
        cut-safe (escape k) (escape v) (escape-IsSafe k),
        unescape-escape k h,
        unescape-escape v i,
      )
      refl

abbrev pub AreBytePairs : Pairs → Type 0
AreBytePairs ps = All (λ p. All IsByte p.0 × All IsByte p.1) ps

pairs_in-written : (ps : Pairs) → AreBytePairs ps → pairs_in (map written ps) ≡ some ps
unfolding pairs_in
pairs_in-written [] h = refl
pairs_in-written (p ∷ ps) h =
    ap (λ o. join_pairs o (pairs_in (map written ps))) (decode_piece-written p h.0.0 h.0.1)
    ∙ ap (λ o. join_pairs (some (p ∷ [])) o) (pairs_in-written ps h.1)

split-write_pairs :
    (s : Bytes) (ps : Pairs)
    → IsWhole s
    → split b'&' (s ++ write_pairs false ps) ≡ s ∷ map written ps
unfolding write_pairs
split-write_pairs s [] h = rw append-nil (split-whole s h)
split-write_pairs s ((k, v) ∷ ps) h =
    split-append s (escape k ++ (b'=' ∷ escape v ++ write_pairs false ps)) h
    ∙ ap (λ qs. s ∷ qs)
        (ap (split b'&') (sym (append_assoc (escape k) (b'=' ∷ escape v) (write_pairs false ps)))
          ∙ split-write_pairs (written (k, v)) ps (IsWhole-written (k, v)))

-- The pairs that are written are read again.
pub query_pairs-write_pairs :
    (ps : Pairs) → AreBytePairs ps → query_pairs (write_pairs true ps) ≡ some ps
unfolding query_pairs write_pairs split pairs_in
query_pairs-write_pairs [] h = refl
query_pairs-write_pairs ((k, v) ∷ ps) h =
    ap (λ r. pairs_in (split b'&' r))
      (sym (append_assoc (escape k) (b'=' ∷ escape v) (write_pairs false ps)))
    ∙ (ap pairs_in (split-write_pairs (written (k, v)) ps (IsWhole-written (k, v)))
        ∙ pairs_in-written ((k, v) ∷ ps) h)

pair-IsByte :
    (k v rest : Bytes)
    → All IsByte k
    → All IsByte v
    → All IsByte rest
    → All IsByte (escape k ++ (b'=' ∷ escape v ++ rest))
pair-IsByte k v rest h i j =
    All-append IsByte (escape k) (b'=' ∷ escape v ++ rest) (escape-IsByte k h)
      (omega arith, All-append IsByte (escape v) rest (escape-IsByte v i) j)

-- What is written for pairs of bytes is bytes.
pub write_pairs-IsByte :
    (first : Bool) (ps : Pairs) → AreBytePairs ps → All IsByte (write_pairs first ps)
unfolding write_pairs
write_pairs-IsByte first [] h = tt
write_pairs-IsByte true ((k, v) ∷ ps) h =
    pair-IsByte k v (write_pairs false ps) h.0.0 h.0.1 (write_pairs-IsByte false ps h.1)
write_pairs-IsByte false ((k, v) ∷ ps) h = (
  omega arith,
  pair-IsByte k v (write_pairs false ps) h.0.0 h.0.1 (write_pairs-IsByte false ps h.1),
)

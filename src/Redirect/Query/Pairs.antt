-- ===== src/Redirect/Query/Pairs.antt =====
-- The decoded pairs of a query, and the values that they add up to.
use jttp.Prelude.{
  ◌≡◌, refl, sym, ap, ◌∙◌, Option, none, some, List, [], ◌∷◌, ◌++◌, any, Bool-cases, inl, inr, ◌==◌,
  if◌then◌else◌,
}
use jttp.Ip.{Bytes, bytes_equal}
use jttp.Redirect.Query.{
  Values, normal, unescape, cut, add_value, add_pair, parse_piece, then_parse, parse_pieces, split,
  sort_by, sorted_pairs,
}

abbrev pub Pairs : Type 0
Pairs = List (Bytes × Bytes)

abbrev pub one_pair : Option Bytes → Option Bytes → Option Pairs
one_pair (some k) (some v) = some ((k, v) ∷ [])
one_pair (some k) none = none
one_pair none v = none

-- The pair that a piece holds, if any; `none` is an error.
abbrev pub decode_piece : Bytes → Option Pairs
decode_piece piece =
    let (key, value) = cut b'=' piece in
    if any (λ c. c == b';') piece
    then none
    else if bytes_equal piece []
    then some []
    else one_pair (unescape normal key) (unescape normal value)

abbrev pub join_pairs : Option Pairs → Option Pairs → Option Pairs
join_pairs (some ps) (some qs) = some (ps ++ qs)
join_pairs (some ps) none = none
join_pairs none o = none

unfoldable pub pairs_in : List Bytes → Option Pairs
pairs_in [] = some []
pairs_in (p ∷ ps) = join_pairs (decode_piece p) (pairs_in ps)

-- The pairs of a query in their order, where url.ParseQuery accepts it.
unfoldable pub query_pairs : Bytes → Option Pairs
unfolding pairs_in
query_pairs raw = pairs_in (split b'&' raw)

abbrev pub add_all : Pairs → Values → Values
add_all [] m = m
add_all ((k, v) ∷ ps) m = add_all ps (add_value k v m)

abbrev pub add_decoded : Option Pairs → Values → Option Values
add_decoded none m = none
add_decoded (some ps) m = some (add_all ps m)

add_decoded-pair : (k v : Option Bytes) (m : Values) → add_pair k v m ≡ add_decoded (one_pair k v) m
unfolding add_pair
add_decoded-pair (some k) (some v) m = refl
add_decoded-pair (some k) none m = refl
add_decoded-pair none v m = refl

parse_piece-decode_piece :
    (p : Bytes) (m : Values) → parse_piece p m ≡ add_decoded (decode_piece p) m
unfolding parse_piece
parse_piece-decode_piece p m = elim (Bool-cases (any (λ c. c == b';') p)) [
  | inl bad ↦ rw bad refl
  | inr good ↦ elim (Bool-cases (bytes_equal p [])) [
    | inl empty ↦ rw (good, empty) refl
    | inr filled ↦
        rw (good, filled)
          (add_decoded-pair (unescape normal (cut b'=' p).0) (unescape normal (cut b'=' p).1) m)
  ]
]

add_all-append : (ps qs : Pairs) (m : Values) → add_all (ps ++ qs) m ≡ add_all qs (add_all ps m)
add_all-append [] qs m = refl
add_all-append ((k, v) ∷ ps) qs m = add_all-append ps qs (add_value k v m)

add_decoded-join :
    (o r : Option Pairs) (m : Values)
    → then_parse (add_decoded o m) (λ n. add_decoded r n) ≡ add_decoded (join_pairs o r) m
add_decoded-join none r m = refl
add_decoded-join (some ps) none m = refl
add_decoded-join (some ps) (some qs) m = ap some (sym (add_all-append ps qs m))

-- What is parsed is what the pairs add up to.
pub parse_pieces-pairs_in :
    (ps : List Bytes) (m : Values) → parse_pieces ps m ≡ add_decoded (pairs_in ps) m
unfolding parse_pieces pairs_in
parse_pieces-pairs_in [] m = refl
parse_pieces-pairs_in (p ∷ ps) m =
    ap (λ o. then_parse o (λ n. parse_pieces ps n)) (parse_piece-decode_piece p m)
    ∙ (then_later (λ n. parse_pieces-pairs_in ps n) (add_decoded (decode_piece p) m)
        ∙ add_decoded-join (decode_piece p) (pairs_in ps) m)
  where
    then_later :
        ((n : Values) → parse_pieces ps n ≡ add_decoded (pairs_in ps) n)
        → (o : Option Values)
        → then_parse o (λ n. parse_pieces ps n) ≡ then_parse o (λ n. add_decoded (pairs_in ps) n)
    then_later h none = refl
    then_later h (some n) = h n

-- The pairs in the order in which they are written.
unfoldable pub grouped : Pairs → Pairs
grouped ps = sorted_pairs (sort_by (λ e. e.0) (add_all ps []))

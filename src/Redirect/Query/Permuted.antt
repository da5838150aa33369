-- ===== src/Redirect/Query/Permuted.antt =====
-- What the canonical form of a query keeps of it: its decoded pairs, but for their order.
use mathlib.Core.List.Permᴰ
use mathlib.Core.List.{Permᴰ}
use jttp.Prelude.{◌≡◌, ◌↔◌, sym, ap, ◌∙◌, true, some, [], All}
use jttp.Ip.{Bytes}
use jttp.Redirect.Query.{split, write_pairs, write_values, canonicalize_query}
use jttp.Redirect.Query.Codec.{IsByte}
use jttp.Redirect.Query.Pairs.{Pairs, query_pairs, add_decoded, grouped, parse_pieces-pairs_in}
use jttp.Redirect.Query.Grouped.{grouped-Perm, grouped-same}
use jttp.Redirect.Query.Written.{AreBytePairs, write_pairs-IsByte, query_pairs-write_pairs}
use jttp.Redirect.Query.Decoded.{query_pairs-AreBytePairs, All-Perm}

canonicalize_query-grouped :
    (raw : Bytes) (ps : Pairs)
    → query_pairs raw ≡ some ps
    → canonicalize_query raw ≡ write_pairs true (grouped ps)
unfolding canonicalize_query query_pairs grouped
canonicalize_query-grouped raw ps e =
    ap (write_values raw) (parse_pieces-pairs_in (split b'&' raw) [] ∙ ap (λ o. add_decoded o []) e)

grouped-AreBytePairs :
    (raw : Bytes) (ps : Pairs)
    → All IsByte raw
    → query_pairs raw ≡ some ps
    → AreBytePairs (grouped ps)
grouped-AreBytePairs raw ps h e =
    All-Perm (λ p. All IsByte p.0 × All IsByte p.1) ps (grouped ps) (Permᴰ.symm (grouped-Perm ps))
      (query_pairs-AreBytePairs raw ps h e)

query_pairs-canonicalize_query :
    (raw : Bytes) (ps : Pairs)
    → All IsByte raw
    → query_pairs raw ≡ some ps
    → query_pairs (canonicalize_query raw) ≡ some (grouped ps)
query_pairs-canonicalize_query raw ps h e =
    rw (canonicalize_query-grouped raw ps e)
      (query_pairs-write_pairs (grouped ps) (grouped-AreBytePairs raw ps h e))

-- If url.ParseQuery accepts a query of bytes, it accepts the canonical form, which has the same decoded
-- pairs, each as often, and is its own canonical form.
pub canonicalize_query-pairs :
    (raw : Bytes) (ps : Pairs)
    → All IsByte raw
    → query_pairs raw ≡ some ps
    → ((qs : Pairs) × (query_pairs (canonicalize_query raw) ≡ some qs) × Permᴰ qs ps)
      × (canonicalize_query (canonicalize_query raw) ≡ canonicalize_query raw)
canonicalize_query-pairs raw ps h e =
    let again = query_pairs-canonicalize_query raw ps h e in
    (
      (grouped ps, again, grouped-Perm ps),
      canonicalize_query-grouped (canonicalize_query raw) (grouped ps) again
          ∙ (ap (write_pairs true) (grouped-same (grouped ps) ps (grouped-Perm ps))
              ∙ sym (canonicalize_query-grouped raw ps e)),
    )

-- Two queries of bytes that url.ParseQuery accepts have one canonical form exactly if they have the same
-- decoded pairs, each as often, in any order.
pub canonicalize_query_iff :
    (raw other : Bytes) (ps qs : Pairs)
    → All IsByte raw
    → All IsByte other
    → query_pairs raw ≡ some ps
    → query_pairs other ≡ some qs
    → (canonicalize_query raw ≡ canonicalize_query other) ↔ Permᴰ ps qs
canonicalize_query_iff raw other ps qs h i e f = (
  λ same.
      let written : some (grouped ps) ≡ some (grouped qs) =
        sym (query_pairs-canonicalize_query raw ps h e)
        ∙ (ap query_pairs same ∙ query_pairs-canonicalize_query other qs i f) in
      let eq : grouped ps ≡ grouped qs = cc in
      Permᴰ.trans (Permᴰ.symm (grouped-Perm ps)) (rw eq (grouped-Perm qs)),
  λ d.
      canonicalize_query-grouped raw ps e
      ∙ (ap (write_pairs true) (grouped-same ps qs d)
          ∙ sym (canonicalize_query-grouped other qs f)),
)

-- The canonical form of a query of bytes that url.ParseQuery accepts is of bytes.
pub canonicalize_query-IsByte :
    (raw : Bytes) (ps : Pairs)
    → All IsByte raw
    → query_pairs raw ≡ some ps
    → All IsByte (canonicalize_query raw)
canonicalize_query-IsByte raw ps h e =
    rw (canonicalize_query-grouped raw ps e)
      (write_pairs-IsByte true (grouped ps) (grouped-AreBytePairs raw ps h e))

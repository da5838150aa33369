-- ===== src/Tests/Query.antt =====
-- The theorems on the canonical form of a query, applied.
use mathlib.Core.List.{Permᴰ}
use jttp.Prelude.{◌≡◌, ◌↔◌, refl, some, [], ◌∷◌, All, arith, Bool, true, ◌&&◌, ltb}
use jttp.Ip.{Bytes}
use jttp.Http.{codes}
use jttp.Redirect.Query.{split, cut, unescape, canonicalize_query}
use jttp.Redirect.Query.Codec.{IsByte}
use jttp.Redirect.Query.Pairs.{Pairs, pairs_in, query_pairs}
use jttp.Redirect.Query.Permuted.{canonicalize_query-pairs}
use jttp.Redirect.Query.Classes.{AcceptedQuery, QueryClass, canonical, IsNormal, canonical_iff}
use mathlib.Core.Quot

abbrev pub query : Bytes
query = codes "b=1&a=2&a=%31"

abbrev pub other_query : Bytes
other_query = codes "a=1&b=1&&a=2"

abbrev pub decoded : Pairs
decoded = (codes "b", codes "1") ∷ (codes "a", codes "2") ∷ (codes "a", codes "1") ∷ []

abbrev pub other_decoded : Pairs
other_decoded = (codes "a", codes "1") ∷ (codes "b", codes "1") ∷ (codes "a", codes "2") ∷ []

pub query-decoded : query_pairs query ≡ some decoded
unfolding query_pairs pairs_in split cut unescape
query-decoded = refl

pub other_query-decoded : query_pairs other_query ≡ some other_decoded
unfolding query_pairs pairs_in split cut unescape
other_query-decoded = refl

abbrev pub are_bytes : Bytes → Bool
are_bytes [] = true
are_bytes (c ∷ s) = ltb c 256 && are_bytes s

pub are_bytes-IsByte : (s : Bytes) → are_bytes s ≡ true → All IsByte s
are_bytes-IsByte [] h = tt
are_bytes-IsByte (c ∷ s) h = (ground arith, are_bytes-IsByte s (ground arith))

pub query-IsByte : All IsByte query
query-IsByte = are_bytes-IsByte query refl

pub other_query-IsByte : All IsByte other_query
other_query-IsByte = are_bytes-IsByte other_query refl

pub decoded-Perm : Permᴰ decoded other_decoded
decoded-Perm = Permᴰ.trans (Permᴰ.cons refl (Permᴰ.swap refl refl)) (Permᴰ.swap refl refl)

abbrev accepted_query : AcceptedQuery
accepted_query = record {
  raw = query;
  pairs = decoded;
  are_bytes = query-IsByte;
  accepted = query-decoded;
}

abbrev other_accepted_query : AcceptedQuery
other_accepted_query = record {
  raw = other_query;
  pairs = other_decoded;
  are_bytes = other_query-IsByte;
  accepted = other_query-decoded;
}

canonical_iff_example :
    ((canonical (Quot.mk accepted_query) ≡ canonical (Quot.mk other_accepted_query))
      ↔ (◌≡◌ {A = QueryClass} (Quot.mk accepted_query) (Quot.mk other_accepted_query)))
    × IsNormal (Quot.mk other_accepted_query)
canonical_iff_example = canonical_iff (Quot.mk accepted_query) (Quot.mk other_accepted_query)

canonicalize_query-pairs_example :
    ((qs : Pairs) × (query_pairs (canonicalize_query query) ≡ some qs) × Permᴰ qs decoded)
    × (canonicalize_query (canonicalize_query query) ≡ canonicalize_query query)
canonicalize_query-pairs_example = canonicalize_query-pairs query decoded query-IsByte query-decoded

-- ===== src/Redirect/Query/Classes.antt =====
-- Queries up to what they mean: the canonical form as a function of the class of a query.
use mathlib.Core.Quot
use mathlib.Core.Quot.{Quot, Quot-set}
use mathlib.Core.HLevel.{Π_prop}
use mathlib.Core.List.{Permᴰ}
use jttp.Prelude.{◌≡◌, ◌↔◌, refl, ap, some, All}
use jttp.Ip.{Bytes}
use jttp.Redirect.Query.{canonicalize_query}
use jttp.Redirect.Query.Codec.{IsByte}
use jttp.Redirect.Query.Pairs.{Pairs, query_pairs}
use jttp.Redirect.Query.Permuted.{
  canonicalize_query_iff, canonicalize_query-pairs, canonicalize_query-IsByte,
}

-- A query of bytes that url.ParseQuery accepts, with its decoded pairs.
pub record AcceptedQuery : Type 0 where
  pub raw : Bytes
  pub pairs : Pairs
  pub are_bytes : All IsByte raw
  pub accepted : query_pairs raw ≡ some pairs

-- The same decoded pairs, each as often, in any order.
abbrev pub SamePairs : AcceptedQuery → AcceptedQuery → Type 0
SamePairs x y = Permᴰ x.pairs y.pairs

-- A query, but for the spelling and the order of its pairs.
abbrev pub QueryClass : Type 0
QueryClass = Quot SamePairs

bytes_set : IsSet Bytes
bytes_set = hlevel

canonicalize_query-SamePairs :
    (x y : AcceptedQuery) → (canonicalize_query x.raw ≡ canonicalize_query y.raw) ↔ SamePairs x y
canonicalize_query-SamePairs x y =
    canonicalize_query_iff x.raw y.raw x.pairs y.pairs x.are_bytes y.are_bytes x.accepted y.accepted

pub canonical : QueryClass → Bytes
canonical =
    Quot.lift bytes_set (λ x. canonicalize_query x.raw)
      (λ x y. (canonicalize_query-SamePairs x y).1)

-- The member of a class that is its own canonical form.
abbrev pub IsNormal : QueryClass → Type 0
IsNormal q = ∥ ((x : AcceptedQuery) × (Quot.mk x ≡ q) × (x.raw ≡ canonical q)) ∥₁

mk-IsNormal : (x : AcceptedQuery) → IsNormal (Quot.mk x)
unfolding canonical
mk-IsNormal x =
    let ((qs, again, perm), same) = canonicalize_query-pairs x.raw x.pairs x.are_bytes x.accepted in
    let normal : AcceptedQuery = record {
      raw = canonicalize_query x.raw;
      pairs = qs;
      are_bytes = canonicalize_query-IsByte x.raw x.pairs x.are_bytes x.accepted;
      accepted = again;
    } in
    ∣ (normal, Quot.sound perm, refl) ∣₁

canonical_eq : (p q : QueryClass) → canonical p ≡ canonical q → p ≡ q
unfolding canonical
canonical_eq =
    Quot.ind (λ p. Π_prop (λ q. Π_prop (λ _. Quot-set p q)))
      (λ x.
        Quot.ind (λ q. Π_prop (λ _. Quot-set (Quot.mk x) q))
          (λ y same. Quot.sound ((canonicalize_query-SamePairs x y).0 same)))

-- Let a class be the queries of bytes that url.ParseQuery accepts and that have the same decoded pairs,
-- each as often, in any order. The canonical form is a function of the class; two classes have one
-- canonical form exactly if they are one class; and each class has a query that is the canonical form of
-- the class.
pub canonical_iff : (p q : QueryClass) → ((canonical p ≡ canonical q) ↔ (p ≡ q)) × IsNormal q
canonical_iff p q =
    ((canonical_eq p q, ap canonical), Quot.ind {β = IsNormal} (λ r. squash₁) mk-IsNormal q)

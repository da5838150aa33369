-- ===== src/Redirect/Headers.antt =====
-- The headers of a redirected request.
use jttp.Prelude.{◌≡◌, ap, Bool, List, [], ◌∷◌, any, arith, if◌then◌else◌, Bool-cases, inl, inr}
use jttp.Ip.{Bytes, bytes_equal}
use jttp.Ip.Equality.{bytes_equal-eq, bytes_equal_comm}
use jttp.Http.{Header, get, del, canonical_key, header_values, remove_key}

-- Two names are the same header.
abbrev pub same_header : Bytes → Bytes → Bool
same_header a b = bytes_equal (canonical_key a) (canonical_key b)

pub values-remove_key :
    (key k : Bytes) (h : Header)
    → header_values k (remove_key key h) ≡ (if bytes_equal key k then [] else header_values k h)
unfolding header_values remove_key
values-remove_key key k [] = ground arith
values-remove_key key k ((j, vs) ∷ h) = elim (Bool-cases (bytes_equal j key)) [
  | inl e ↦
      let same : j ≡ key = bytes_equal-eq j key e in
      rw e (ground (arith, values-remove_key key k h, ap (λ x. bytes_equal x k) same))
  | inr e ↦ rw e (
      ground (
        arith,
        values-remove_key key k h,
        bytes_equal-eq j k,
        bytes_equal_comm key j,
        λ (p : j ≡ k). ap (λ x. bytes_equal key x) p,
      ))
]

-- After Header.Del a header of that name, in any case of letters, has no value, and the others are as
-- they were.
pub get-del :
    (h : Header) (name other : Bytes)
    → get (del h name) other ≡ (if same_header name other then [] else get h other)
unfolding get del
get-del h name other =
    ground (arith, values-remove_key (canonical_key name) (canonical_key other) h)

-- A name is one of the list.
abbrev pub listed : List Bytes → Bytes → Bool
listed names other = any (λ name. same_header name other) names

-- ===== src/Ssrf/Documented.antt =====
-- `isBlockedIP` on each value of net.IP, against the documented blocks.
use jttp.Prelude.{
  ℕ, zero, suc, ◌<◌, ◌≡◌, refl, sym, ap, ◌∙◌, Bool, true, false, none, some, [], ◌∷◌, ◌==◌,
  if◌then◌else◌, length, drop, get_or, All, arith, Bool-cases, inl, inr,
}
use mathlib.Core.Path.{subst}
use jttp.Ip.{Bytes, Ip, to4}
use jttp.Ssrf.{is_blocked_ip}
use jttp.Ssrf.Ranges.{
  contains_from, in_blocks, blocked_v4, blocked_v6, is_blocked_ip-v4, is_blocked_ip-v6,
  is_blocked_ip-invalid,
}

-- The block ::ffff:0:0/96, whose addresses are IPv4 addresses in 16 bytes, as net.ParseIP gives them.
is_mapped : Bytes → Bool
unfolding contains_from
is_mapped ip = contains_from (0 ∷ 0 ∷ 0 ∷ 0 ∷ 0 ∷ 0 ∷ 0 ∷ 0 ∷ 0 ∷ 0 ∷ 255 ∷ 255 ∷ []) 96 ip

-- What the documented blocks say of an address, in 4 bytes or in 16. A nil slice is blocked, as documented;
-- another slice that is no address is not, against the comment of `isBlockedIP`.
abbrev pub is_documented : Ip → Bool
unfolding in_blocks is_mapped
is_documented none = true
is_documented (some ip) =
    if length ip == 4
    then in_blocks blocked_v4 ip
    else if length ip == 16
    then (if is_mapped ip then in_blocks blocked_v4 (drop 12 ip) else in_blocks blocked_v6 ip)
    else false

abbrev pub AreBytes : Ip → Type 0
AreBytes none = Unit
AreBytes (some ip) = All (λ b. b < 256) ip

-- The list of the first `n` values of a function.
abbrev values : ℕ → (ℕ → ℕ) → Bytes
values zero f = []
values (suc n) f = f 0 ∷ values n (λ i. f (suc i))

values_of : (ip : Bytes) → ip ≡ values (length ip) (λ i. get_or ip i 0)
values_of [] = refl
values_of (x ∷ xs) = ap (λ ys. x ∷ ys) (values_of xs)

get_or-lt : (ip : Bytes) (i : ℕ) → All (λ b. b < 256) ip → get_or ip i 0 < 256
get_or-lt [] i h = omega arith
get_or-lt (x ∷ xs) zero h = h.0
get_or-lt (x ∷ xs) (suc i) h = get_or-lt xs i h.1

abbrev Agrees : Bytes → Type 0
Agrees ip = is_blocked_ip (some ip) ≡ is_documented (some ip)

documented_four : (f : ℕ → ℕ) → ((i : ℕ) → f i < 256) → Agrees (values 4 f)
unfolding is_documented
documented_four f h = is_blocked_ip-v4 (f 0) (f 1) (f 2) (f 3) (h 0) (h 1) (h 2) (h 3)

is_blocked_ip-mapped :
    (a b c d : ℕ)
    → is_blocked_ip (some (0 ∷ 0 ∷ 0 ∷ 0 ∷ 0 ∷ 0 ∷ 0 ∷ 0 ∷ 0 ∷ 0 ∷ 255 ∷ 255 ∷ a ∷ b ∷ c ∷ d ∷ []))
      ≡ is_blocked_ip (some (a ∷ b ∷ c ∷ d ∷ []))
unfolding is_blocked_ip
is_blocked_ip-mapped a b c d = ground arith

-- The bytes of a mapped address.
mapped_values :
    (f : ℕ → ℕ)
    → is_mapped (values 16 f) ≡ true
    → values 16 f
      ≡ 0 ∷ 0 ∷ 0 ∷ 0 ∷ 0 ∷ 0 ∷ 0 ∷ 0 ∷ 0 ∷ 0 ∷ 255 ∷ 255 ∷ f 12 ∷ f 13 ∷ f 14 ∷ f 15 ∷ []
unfolding is_mapped contains_from
mapped_values f h = ground arith

to4-is_mapped : (f : ℕ → ℕ) → is_mapped (values 16 f) ≡ false → to4 (values 16 f) ≡ none
unfolding to4 is_mapped contains_from
to4-is_mapped f h = ground arith

documented_mapped :
    (f : ℕ → ℕ)
    → ((i : ℕ) → f i < 256)
    → is_mapped (values 16 f) ≡ true
    → is_blocked_ip (some (values 16 f)) ≡ in_blocks blocked_v4 (drop 12 (values 16 f))
documented_mapped f h m =
    ap (λ ip. is_blocked_ip (some ip)) (mapped_values f m)
    ∙ (is_blocked_ip-mapped (f 12) (f 13) (f 14) (f 15)
        ∙ is_blocked_ip-v4 (f 12) (f 13) (f 14) (f 15) (h 12) (h 13) (h 14) (h 15))

documented_six :
    (f : ℕ → ℕ)
    → ((i : ℕ) → f i < 256)
    → is_mapped (values 16 f) ≡ false
    → is_blocked_ip (some (values 16 f)) ≡ in_blocks blocked_v6 (values 16 f)
documented_six f h m =
    is_blocked_ip-v6 (f 0) (f 1) (f 2) (f 3) (f 4) (f 5) (f 6) (f 7) (f 8) (f 9) (f 10) (f 11)
      (f 12) (f 13) (f 14) (f 15) (h 0) (h 1) (to4-is_mapped f m)

documented_sixteen : (f : ℕ → ℕ) → ((i : ℕ) → f i < 256) → Agrees (values 16 f)
unfolding is_documented
documented_sixteen f h = elim (Bool-cases (is_mapped (values 16 f))) [
  | inl m ↦ rw m (documented_mapped f h m)
  | inr m ↦ rw m (documented_six f h m)
]

-- What holds of each list of `n` bytes.
by_length :
    (n : ℕ) (ip : Bytes)
    → length ip ≡ n
    → All (λ b. b < 256) ip
    → ((f : ℕ → ℕ) → ((i : ℕ) → f i < 256) → Agrees (values n f))
    → Agrees ip
by_length n ip e h agrees =
    let same = values_of ip ∙ ap (λ m. values m (λ i. get_or ip i 0)) e in
    subst Agrees (sym same) (agrees (λ i. get_or ip i 0) (λ i. get_or-lt ip i h))

documented_invalid : (ip : Bytes) → (length ip == 4) ≡ false → (length ip == 16) ≡ false → Agrees ip
unfolding is_documented
documented_invalid ip other invalid =
    rw (other, invalid) (is_blocked_ip-invalid ip (ground arith) (ground arith))

-- On each value of net.IP, nil, invalid slices and IPv4 addresses in 16 bytes included, the classifier
-- answers what the documented blocks say: nil is blocked; an IPv4 address, in either form, exactly if one
-- of the IPv4 blocks has it; another address of 16 bytes exactly if one of the IPv6 blocks has it; and a
-- slice that is not nil and of another length is not blocked.
pub is_blocked_ip_lem : (ip : Ip) → AreBytes ip → is_blocked_ip ip ≡ is_documented ip
unfolding is_documented is_blocked_ip
is_blocked_ip_lem none h = refl
is_blocked_ip_lem (some ip) h = elim (Bool-cases (length ip == 4)) [
  | inl four ↦ by_length 4 ip (ground arith) h documented_four
  | inr other ↦ elim (Bool-cases (length ip == 16)) [
    | inl six ↦ by_length 16 ip (ground arith) h documented_sixteen
    | inr invalid ↦ documented_invalid ip other invalid
  ]
]

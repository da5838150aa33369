-- ===== src/Ip.antt =====
-- The type net.IP of Go's standard library and the methods of it that ssrf.go calls. An address is a
-- byte slice: nil is `none`, and a slice of another length than 4 or 16 is a value like any other.
pub mod Equality
use jttp.Prelude.{
  ℕ, ◌/◌, ◌*◌, Bool, true, false, ◌&&◌, ◌||◌, Option, none, some, List, [], ◌∷◌, ◌++◌, ◌==◌,
  if◌then◌else◌, length, take, drop, get_or, all,
}

abbrev pub Bytes : Type 0
Bytes = List ℕ

abbrev pub Ip : Type 0
Ip = Option Bytes

-- bytes.Equal
abbrev pub bytes_equal : Bytes → Bytes → Bool
bytes_equal [] [] = true
bytes_equal [] (y ∷ ys) = false
bytes_equal (x ∷ xs) [] = false
bytes_equal (x ∷ xs) (y ∷ ys) = x == y && bytes_equal xs ys

-- The byte `x` with its low bits cleared, as `x & 0xf0` does with `clear_low x 16`.
abbrev pub clear_low : ℕ → ℕ → ℕ
clear_low x unit = x / unit * unit

abbrev v4_in_v6_prefix : Bytes
v4_in_v6_prefix = 0 ∷ 0 ∷ 0 ∷ 0 ∷ 0 ∷ 0 ∷ 0 ∷ 0 ∷ 0 ∷ 0 ∷ 255 ∷ 255 ∷ []

-- net.IPv4(0, 0, 0, 0), which has 16 bytes.
abbrev ipv4_zero : Bytes
ipv4_zero = v4_in_v6_prefix ++ 0 ∷ 0 ∷ 0 ∷ 0 ∷ []

abbrev ipv6_unspecified : Bytes
ipv6_unspecified = 0 ∷ 0 ∷ 0 ∷ 0 ∷ 0 ∷ 0 ∷ 0 ∷ 0 ∷ 0 ∷ 0 ∷ 0 ∷ 0 ∷ 0 ∷ 0 ∷ 0 ∷ 0 ∷ []

abbrev ipv6_loopback : Bytes
ipv6_loopback = 0 ∷ 0 ∷ 0 ∷ 0 ∷ 0 ∷ 0 ∷ 0 ∷ 0 ∷ 0 ∷ 0 ∷ 0 ∷ 0 ∷ 0 ∷ 0 ∷ 0 ∷ 1 ∷ []

unfoldable pub to4 : Bytes → Ip
to4 ip =
    if length ip == 4
    then some ip
    else if length ip == 16
        && (all (λ b. b == 0) (take 10 ip) && (get_or ip 10 0 == 255 && get_or ip 11 0 == 255))
    then some (drop 12 ip)
    else none

unfoldable pub to16 : Bytes → Ip
to16 ip =
    if length ip == 4
    then some (v4_in_v6_prefix ++ ip)
    else if length ip == 16
    then some ip
    else none

equal : Bytes → Bytes → Bool
equal ip x =
    if length ip == length x
    then bytes_equal ip x
    else if length ip == 4 && length x == 16
    then bytes_equal (take 12 x) v4_in_v6_prefix && bytes_equal ip (drop 12 x)
    else if length ip == 16 && length x == 4
    then bytes_equal (take 12 ip) v4_in_v6_prefix && bytes_equal (drop 12 ip) x
    else false

-- The body of the methods below: a test of the four bytes where `To4` finds them, or another test.
abbrev by_version : (Bytes → Bool) → Bool → Ip → Bool
by_version v4 v6 none = v6
by_version v4 v6 (some ip4) = v4 ip4

unfoldable pub is_unspecified : Bytes → Bool
unfolding equal
is_unspecified ip = equal ip ipv4_zero || equal ip ipv6_unspecified

unfoldable pub is_loopback : Bytes → Bool
unfolding equal to4
is_loopback ip = by_version (λ ip4. get_or ip4 0 0 == 127) (equal ip ipv6_loopback) (to4 ip)

unfoldable pub is_private : Bytes → Bool
unfolding to4
is_private ip =
    by_version
      (λ ip4.
        get_or ip4 0 0 == 10
        || (get_or ip4 0 0 == 172 && clear_low (get_or ip4 1 0) 16 == 16)
        || (get_or ip4 0 0 == 192 && get_or ip4 1 0 == 168))
      (length ip == 16 && clear_low (get_or ip 0 0) 2 == 252) (to4 ip)

unfoldable pub is_multicast : Bytes → Bool
unfolding to4
is_multicast ip =
    by_version (λ ip4. clear_low (get_or ip4 0 0) 16 == 224)
      (length ip == 16 && get_or ip 0 0 == 255) (to4 ip)

unfoldable pub is_link_local_unicast : Bytes → Bool
unfolding to4
is_link_local_unicast ip =
    by_version (λ ip4. get_or ip4 0 0 == 169 && get_or ip4 1 0 == 254)
      (length ip == 16 && (get_or ip 0 0 == 254 && clear_low (get_or ip 1 0) 64 == 128)) (to4 ip)

-- ===== src/Ssrf.antt =====
-- ssrf.go: the classifier of blocked addresses and the filter by network.
pub mod Ranges
pub mod Documented
pub mod Dial
use jttp.Prelude.{
  Bool, true, false, ◌&&◌, ◌||◌, not, Option, none, some, List, [], ◌∷◌, ◌==◌, leb, if◌then◌else◌,
  take, get_or,
}
use jttp.Ip.{
  Bytes, Ip, bytes_equal, to4, to16, is_loopback, is_link_local_unicast, is_multicast,
  is_unspecified, is_private,
}

abbrev well_known_nat64_prefix : Bytes
well_known_nat64_prefix = 0 ∷ 100 ∷ 255 ∷ 155 ∷ 0 ∷ 0 ∷ 0 ∷ 0 ∷ 0 ∷ 0 ∷ 0 ∷ 0 ∷ []

abbrev local_nat64_prefix : Bytes
local_nat64_prefix = 0 ∷ 100 ∷ 255 ∷ 155 ∷ 0 ∷ 1 ∷ []

-- The tests of `isBlockedIP` on the four bytes of an IPv4 address.
abbrev is_blocked_v4 : Bytes → Bool
is_blocked_v4 ip4 =
    if get_or ip4 0 0 == 0
    then true
    else if get_or ip4 0 0 == 255
        && (get_or ip4 1 0 == 255 && (get_or ip4 2 0 == 255 && get_or ip4 3 0 == 255))
    then true
    else if get_or ip4 0 0 == 100 && (leb 64 (get_or ip4 1 0) && leb (get_or ip4 1 0) 127)
    then true
    else false

-- Its tests on the result of `To16`.
abbrev is_blocked_v6 : Ip → Bool
is_blocked_v6 none = false
is_blocked_v6 (some ip16) =
    if bytes_equal (take 12 ip16) well_known_nat64_prefix
    then true
    else if bytes_equal (take 6 ip16) local_nat64_prefix
    then true
    else false

-- Its chain `if ip4 := ip.To4(); ip4 != nil … else if ip16 := ip.To16(); ip16 != nil …`.
abbrev is_blocked_by_version : Ip → Ip → Bool
is_blocked_by_version (some ip4) ip16 = is_blocked_v4 ip4
is_blocked_by_version none ip16 = is_blocked_v6 ip16

unfoldable pub is_blocked_ip : Ip → Bool
unfolding is_loopback is_link_local_unicast is_multicast is_unspecified is_private to4 to16
is_blocked_ip none = true
is_blocked_ip (some ip) =
    if is_loopback ip
      || is_link_local_unicast ip
      || is_multicast ip
      || is_unspecified ip
      || is_private ip
    then true
    else is_blocked_by_version (to4 ip) (to16 ip)

-- The `network` argument of a dial: "tcp4", "tcp6" or another name.
pub data Network : Type 0 where
  tcp4 tcp6 other_network : Network

abbrev is_some {ℓ} : {A : Type ℓ} → Option A → Bool
is_some none = false
is_some (some a) = true

-- `To4` of a nil slice is nil.
abbrev to4_of : Ip → Ip
unfolding to4
to4_of none = none
to4_of (some ip) = to4 ip

unfoldable pub ip_matches_network : Ip → Network → Bool
unfolding to4
ip_matches_network ip tcp4 = is_some (to4_of ip)
ip_matches_network ip tcp6 = not (is_some (to4_of ip))
ip_matches_network ip other_network = true

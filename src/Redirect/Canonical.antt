-- ===== src/Redirect/Canonical.antt =====
-- Two different URLs that have one canonical form.
use mathlib.Core.List.{map-append}
use jttp.Prelude.{◌≡◌, refl, false, [], ◌∷◌, ◌++◌, arith}
use jttp.Ip.{Bytes}
use jttp.Http.{Url, to_lower, lower}
use jttp.Redirect.{normalize_url, is_default_port, is_empty}

lower-colon : lower b':' ≡ b':'
unfolding lower
lower-colon = refl

to_lower-colon : (h p : Bytes) → to_lower (h ++ (b':' ∷ p)) ≡ to_lower h ++ (b':' ∷ to_lower p)
to_lower-colon h p = rw (map-append, lower-colon) refl

is_default_port-nil : (scheme : Bytes) → is_default_port scheme [] ≡ false
is_default_port-nil scheme = ground arith

-- The host `h` with a port `p` that is in lower case, not empty and not the scheme's own has the
-- canonical form of the host `h:p` with no port, since `normalizeURL` does not write the brackets that
-- `url.URL.Hostname` drops: http://[2001:db8::1]:8080/ and http://[2001:db8::1:8080]/ are taken for one URL.
pub normalize_url_brackets :
    (u : Url) (h p : Bytes)
    → is_empty p ≡ false
    → is_default_port (to_lower u.scheme) p ≡ false
    → to_lower p ≡ p
    → normalize_url (record u { hostname = h; port = p })
      ≡ normalize_url (record u { hostname = h ++ (b':' ∷ p); port = [] })
unfolding normalize_url
normalize_url_brackets u h p filled other same =
    rw (other, filled, is_default_port-nil (to_lower u.scheme), to_lower-colon h p, same) refl

-- ===== src/Tests/Redirect.antt =====
-- The theorems on redirect.go, applied.
use jttp.Prelude.{◌≡◌, refl, false, none, some, length, [], ◌∷◌, ◌++◌, arith}
use jttp.Prelude.Int.{pos, ◌≤ℤ◌}
use jttp.Errors.{ok}
use jttp.Ssrf.{is_blocked_ip}
use jttp.Http.{lower, to_lower, Url, Header, Request, codes}
use jttp.Redirect.{
  is_default_port, RedirectConfig, ResolverWorld, normalize_url, check_ip_policy, scrub, check,
}
use jttp.Redirect.Query.{canonicalize_query}
use jttp.Redirect.Policy.{IsAllowed, check-IsAllowed}
use jttp.Redirect.Chain.{Chain, initial, follow, Chain-length}
use jttp.Redirect.Canonical.{normalize_url_brackets}
use jttp.Tests.Data.{url, request}

abbrev pub config : RedirectConfig
config = record {
  max_redirects = pos 5;
  allow_downgrade = false;
  allow_private = false;
  strict_initial = false;
  sensitive_headers = codes "x-api-key" ∷ [];
  ip_policy_at_dial = false;
}

abbrev pub world : ResolverWorld
world = record { parse_ip = λ h. none; lookup = λ h. ok (some (93 ∷ 184 ∷ 216 ∷ 34 ∷ []) ∷ []) }

abbrev other_url : Url
other_url = record url { hostname = codes "b.example" }

abbrev with_key : Header
with_key = (codes "X-Api-Key", codes "secret" ∷ []) ∷ []

abbrev redirected : Request
redirected = record request { url = other_url; header = with_key }

redirected_allowed :
    check config world redirected (url ∷ [])
    ≡ ok (record redirected { header = scrub config (some url) other_url with_key })
unfolding check normalize_url check_ip_policy is_blocked_ip lower
redirected_allowed = refl

abbrev scrubbed : Request
scrubbed = record redirected { header = scrub config (some url) other_url with_key }

check-IsAllowed_example :
    IsAllowed config world (url ∷ []) other_url
    × (scrubbed ≡ record redirected { header = scrub config (some url) other_url with_key })
check-IsAllowed_example =
    check-IsAllowed config world redirected (url ∷ []) scrubbed redirected_allowed

abbrev two_requests : Chain config world (url ∷ other_url ∷ [])
two_requests = follow redirected scrubbed (initial url) redirected_allowed

Chain-length_example : pos (length (url ∷ other_url ∷ [])) ≤ℤ config.max_redirects
Chain-length_example = Chain-length two_requests (omega arith)

https_other : is_default_port (to_lower (codes "https")) (codes "8080") ≡ false
unfolding lower
https_other = refl

digits_lower : to_lower (codes "8080") ≡ codes "8080"
unfolding lower
digits_lower = refl

normalize_url_brackets_example :
    normalize_url (record url { hostname = codes "2001:db8::1"; port = codes "8080" })
    ≡ normalize_url
        (record url { hostname = codes "2001:db8::1" ++ (b':' ∷ codes "8080"); port = [] })
normalize_url_brackets_example =
    normalize_url_brackets url (codes "2001:db8::1") (codes "8080") refl https_other digits_lower

query_sorted : canonicalize_query (codes "b=2&a=%7e+x&b=1") ≡ codes "a=~+x&b=1&b=2"
unfolding canonicalize_query
query_sorted = refl

query_unparsed : canonicalize_query (codes "b=2&a=%zz") ≡ codes "b=2&a=%zz"
unfolding canonicalize_query
query_unparsed = refl

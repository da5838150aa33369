-- ===== src/Redirect.antt =====
-- redirect.go: URLs in canonical form, the IP policy of a host, and the check of a redirect.
pub mod Query
pub mod Policy
pub mod Chain
pub mod Headers
pub mod Canonical
pub mod Loops
use jttp.Prelude.{
  ℕ, Bool, true, false, ◌&&◌, ◌||◌, not, Option, none, some, List, [], ◌∷◌, ◌++◌, if◌then◌else◌,
  any, length,
}
use jttp.Prelude.Int.{ℤ, pos, ltb_ℤ, leb_ℤ}
use jttp.Errors.{
  GoError, Result, ok, err, errorf, errorf₂, plain, sentinel, err_too_many_redirects,
  err_redirect_loop, err_scheme_downgrade, err_blocked_by_ip_policy,
}
use jttp.Ip.{Ip, Bytes, bytes_equal}
use jttp.Ssrf.{is_blocked_ip}
use jttp.Http.{Url, Header, Request, codes, to_lower, equal_fold, del}
use jttp.Redirect.Query.{canonicalize_query}

abbrev pub is_default_port : Bytes → Bytes → Bool
is_default_port scheme port =
    bytes_equal scheme (codes "http") && bytes_equal port (codes "80")
    || (bytes_equal scheme (codes "https") && bytes_equal port (codes "443"))

abbrev pub is_empty : Bytes → Bool
is_empty [] = true
is_empty (c ∷ cs) = false

abbrev pub host_port : Bytes → Bytes → Bytes
host_port host port = if not (is_empty port) then host ++ (b':' ∷ port) else host

abbrev pub query_part : Bytes → Bytes
query_part raw = if not (is_empty raw) then b'?' ∷ canonicalize_query raw else []

-- The parts are written one after the other.
unfoldable pub normalize_url : Url → Bytes
normalize_url u =
    let scheme = to_lower u.scheme in
    let host = to_lower u.hostname in
    let port = if is_default_port scheme u.port then [] else u.port in
    scheme ++ (codes "://" ++ (host_port host port ++ (u.escaped_path ++ query_part u.raw_query)))

-- A redirectConfig. Its resolver is that of the world below.
pub record RedirectConfig : Type 0 where
  pub max_redirects : ℤ
  pub allow_downgrade : Bool
  pub allow_private : Bool
  pub strict_initial : Bool
  pub sensitive_headers : List Bytes
  pub ip_policy_at_dial : Bool

-- What the guard calls: net.ParseIP and the lookup of the resolver, of which it reads the addresses.
pub record ResolverWorld : Type 0 where
  pub parse_ip : Bytes → Ip
  pub lookup : Bytes → Result (List Ip)

abbrev pub blocked_error : GoError
blocked_error = plain (sentinel err_blocked_by_ip_policy)

-- The loop over the addresses of an answer; a nil error is `none`.
unfoldable pub check_addresses : List Ip → Option GoError
check_addresses [] = none
check_addresses (ip ∷ ips) =
    let rest = check_addresses ips in if is_blocked_ip ip then some (errorf blocked_error) else rest

unfoldable pub check_answer : Result (List Ip) → Option GoError
unfolding check_addresses
check_answer (err e) = some (errorf₂ blocked_error e)
check_answer (ok []) = some (errorf blocked_error)
check_answer (ok (ip ∷ ips)) = check_addresses (ip ∷ ips)

unfoldable pub check_parsed : ResolverWorld → Bytes → Ip → Option GoError
unfolding check_answer
check_parsed w host none = check_answer (w.lookup host)
check_parsed w host (some ip) =
    if is_blocked_ip (some ip) then some (errorf blocked_error) else none

unfoldable pub check_ip_policy : ResolverWorld → Bytes → Option GoError
unfolding check_parsed
check_ip_policy w host = check_parsed w host (w.parse_ip host)

unfoldable pub check_initial : RedirectConfig → ResolverWorld → Request → Option GoError
unfolding check_ip_policy
check_initial cfg w req =
    if not cfg.strict_initial then none else check_ip_policy w req.url.hostname

unfoldable pub same_origin : Url → Url → Bool
same_origin a b =
    equal_fold a.scheme b.scheme && (equal_fold a.hostname b.hostname && bytes_equal a.port b.port)

-- The last URL of the chain.
abbrev pub last_of : List Url → Option Url
last_of [] = none
last_of (u ∷ []) = some u
last_of (u ∷ v ∷ us) = last_of (v ∷ us)

abbrev pub is_downgrade : Option Url → Url → Bool
is_downgrade none target = false
is_downgrade (some prev) target =
    bytes_equal prev.scheme (codes "https") && bytes_equal target.scheme (codes "http")

abbrev pub visited : List Url → Bytes → Bool
visited via canonical = any (λ prev. bytes_equal (normalize_url prev) canonical) via

unfoldable pub del_all : List Bytes → Header → Header
del_all [] h = h
del_all (name ∷ names) h = del_all names (del h name)

-- The fifth part of `check`: the headers of the request afterwards.
abbrev pub scrub : RedirectConfig → Option Url → Url → Header → Header
scrub cfg none target h = h
scrub cfg (some prev) target h =
    if not (same_origin prev target) then del_all cfg.sensitive_headers h else h

abbrev pub is_too_long : RedirectConfig → List Url → Bool
is_too_long cfg via = ltb_ℤ (pos 0) cfg.max_redirects && leb_ℤ cfg.max_redirects (pos (length via))

abbrev pub policy_check : RedirectConfig → ResolverWorld → Url → Option GoError
policy_check cfg w target =
    if not cfg.allow_private && not cfg.ip_policy_at_dial
    then check_ip_policy w target.hostname
    else none

abbrev pub after_policy : Option GoError → Request → Result Request
after_policy (some e) req = err e
after_policy none req = ok req

-- `check`: an error, or the upcoming request with its headers as they are then. `via` has the URLs of
-- the chain so far, the earliest first.
unfoldable pub check : RedirectConfig → ResolverWorld → Request → List Url → Result Request
check cfg w req via =
    if is_too_long cfg via
    then err (errorf (plain (sentinel err_too_many_redirects)))
    else if visited via (normalize_url req.url)
    then err (errorf (plain (sentinel err_redirect_loop)))
    else if not cfg.allow_downgrade && is_downgrade (last_of via) req.url
    then err (errorf (plain (sentinel err_scheme_downgrade)))
    else after_policy (policy_check cfg w req.url)
        (record req { header = scrub cfg (last_of via) req.url req.header })

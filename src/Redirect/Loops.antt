-- ===== src/Redirect/Loops.antt =====
-- Redirect loops: a redirect to a URL that the chain has visited, however it is written.
use mathlib.Core.List.{Permᴰ}
use jttp.Prelude.{
  ◌≡◌, refl, ap, true, false, some, List, [], ◌∷◌, ◌++◌, All, arith, if◌then◌else◌, Bool-cases, inl,
  inr,
}
use jttp.Errors.{err, errorf, plain, sentinel, err_too_many_redirects, err_redirect_loop}
use jttp.Ip.{Bytes}
use jttp.Ip.Equality.{bytes_equal_refl}
use jttp.Http.{Url, Request, to_lower}
use jttp.Redirect.{
  RedirectConfig, ResolverWorld, is_default_port, is_empty, query_part, normalize_url, visited,
  is_too_long, check,
}
use jttp.Redirect.Query.Codec.{IsByte}
use jttp.Redirect.Query.Pairs.{Pairs, query_pairs}
use jttp.Redirect.Query.Permuted.{canonicalize_query_iff}

-- The port, or nothing where it is the default of the scheme.
abbrev pub port_of : Url → Bytes
port_of u = if is_default_port (to_lower u.scheme) u.port then [] else u.port

-- Two queries that mean the same: the same text, or two that are not empty and that url.ParseQuery decodes
-- to the same pairs in some order.
pub data IsSameQuery (raw other : Bytes) : Type 0 where
  same_text : raw ≡ other → IsSameQuery raw other
  same_pairs :
      (ps qs : Pairs)
      → is_empty raw ≡ false
      → is_empty other ≡ false
      → All IsByte raw
      → All IsByte other
      → query_pairs raw ≡ some ps
      → query_pairs other ≡ some qs
      → Permᴰ ps qs
      → IsSameQuery raw other

-- Two URLs that differ in the case of the scheme and of the host, in a default port that is written or not,
-- and in how the query is written.
pub record IsSameUrl (u v : Url) : Type 0 where
  pub scheme_same : to_lower u.scheme ≡ to_lower v.scheme
  pub host_same : to_lower u.hostname ≡ to_lower v.hostname
  pub port_same : port_of u ≡ port_of v
  pub path_same : u.escaped_path ≡ v.escaped_path
  pub query_same : IsSameQuery u.raw_query v.raw_query

query_part-IsSameQuery :
    (raw other : Bytes) → IsSameQuery raw other → query_part raw ≡ query_part other
query_part-IsSameQuery raw other (same_text e) = ap query_part e
query_part-IsSameQuery raw other (same_pairs ps qs filled filled' h i p q perm) =
    rw (filled, filled')
      (ap (λ s. b'?' ∷ s) ((canonicalize_query_iff raw other ps qs h i p q).1 perm))

normalize_url-IsSameUrl : (u v : Url) → IsSameUrl u v → normalize_url u ≡ normalize_url v
unfolding normalize_url
normalize_url-IsSameUrl u v s =
    let query = query_part-IsSameQuery u.raw_query v.raw_query s.query_same in
    rw (s.port_same, s.scheme_same, s.host_same, s.path_same, query) refl

visited-same :
    (before : List Url) (v : Url) (after : List Url) (c : Bytes)
    → normalize_url v ≡ c
    → visited (before ++ v ∷ after) c ≡ true
visited-same [] v after c e = rw (e, bytes_equal_refl c) refl
visited-same (u ∷ before) v after c e = ground (arith, visited-same before v after c e)

-- A redirect to a URL that the chain has visited, with the same path, is refused whatever the case of its
-- scheme and of its host, with its default port written or not, and with the same query or, if both are
-- not empty and url.ParseQuery accepts them, one whose decoded pairs are the same in any order. The error
-- is ErrTooManyRedirects if the chain has reached the limit, and else ErrRedirectLoop.
pub check-loop :
    (cfg : RedirectConfig) (w : ResolverWorld) (req : Request) (before : List Url) (v : Url)
    (after : List Url)
    → IsSameUrl v req.url
    → let via = before ++ v ∷ after in
      check cfg w req via
      ≡ err (
          errorf (
            plain (
              sentinel
                (if is_too_long cfg via then err_too_many_redirects else err_redirect_loop))))
unfolding check
check-loop cfg w req before v after s =
    let via = before ++ v ∷ after in
    let again =
      visited-same before v after (normalize_url req.url) (normalize_url-IsSameUrl v req.url s) in
    elim (Bool-cases (is_too_long cfg via)) [
      | inl long ↦ rw long refl
      | inr short ↦ rw (short, again) refl
    ]

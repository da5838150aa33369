-- ===== src/Redirect/Chain.antt =====
-- Chains of requests that http.Client follows with `check` as its CheckRedirect.
use jttp.Prelude.{◌≡◌, refl, false, ◌||◌, List, [], ◌∷◌, ◌++◌, length, length-append, arith}
use jttp.Prelude.Int.{pos, ◌<ℤ◌, ◌≤ℤ◌}
use jttp.Errors.{ok}
use jttp.Ip.{Bytes, bytes_equal}
use jttp.Ip.Equality.{bytes_equal_comm}
use jttp.Http.{Url, Request}
use jttp.Redirect.{RedirectConfig, ResolverWorld, normalize_url, visited, check}
use jttp.Redirect.Policy.{check-IsAllowed}

-- The URLs of the requests so far, the earliest first. The environment chooses each next request; the
-- client makes it if `check` returns nil.
pub data Chain (cfg : RedirectConfig) (w : ResolverWorld) : List Url → Type 0 where
  initial : (u : Url) → Chain cfg w (u ∷ [])
  follow :
      {via : List Url} (req result : Request)
      → Chain cfg w via
      → check cfg w req via ≡ ok result
      → Chain cfg w (via ++ req.url ∷ [])

-- No two URLs have the same canonical form.
abbrev pub AreDistinct : List Url → Type 0
AreDistinct [] = Unit
AreDistinct (u ∷ us) = (visited us (normalize_url u) ≡ false) × AreDistinct us

visited-append :
    (via : List Url) (u : Url) (c : Bytes)
    → visited (via ++ u ∷ []) c ≡ (visited via c || bytes_equal (normalize_url u) c)
visited-append [] u c = ground arith
visited-append (v ∷ via) u c = ground (arith, visited-append via u c)

AreDistinct-append :
    (via : List Url) (u : Url)
    → AreDistinct via
    → visited via (normalize_url u) ≡ false
    → AreDistinct (via ++ u ∷ [])
AreDistinct-append [] u h f = (refl, tt)
AreDistinct-append (v ∷ via) u h f = (
  ground (
    arith,
    visited-append via u (normalize_url v),
    bytes_equal_comm (normalize_url u) (normalize_url v),
  ),
  AreDistinct-append via u h.1 (ground arith),
)

-- If maxRedirects is positive, a chain has at most maxRedirects requests, the initial one included, so
-- at most maxRedirects - 1 redirects are followed.
pub Chain-length :
    {cfg : RedirectConfig} {w : ResolverWorld} {via : List Url}
    → Chain cfg w via
    → pos 0 <ℤ cfg.max_redirects
    → pos (length via) ≤ℤ cfg.max_redirects
Chain-length (initial u) p = omega arith
Chain-length (follow {via = via} req result c e) p = omega (
  arith,
  length-append via (req.url ∷ []),
  (check-IsAllowed _ _ req via result e).0.within_limit p,
)

-- A chain visits no two URLs with the same canonical form.
pub Chain-AreDistinct :
    {cfg : RedirectConfig} {w : ResolverWorld} {via : List Url} → Chain cfg w via → AreDistinct via
Chain-AreDistinct (initial u) = (refl, tt)
Chain-AreDistinct (follow {via = via} req result c e) =
    AreDistinct-append via req.url (Chain-AreDistinct c)
      (check-IsAllowed _ _ req via result e).0.not_visited

-- ===== src/Tests/Loops.antt =====
-- The theorem on redirect loops, applied: a URL that is written in another way.
use jttp.Prelude.{◌≡◌, refl, [], ◌∷◌}
use jttp.Errors.{err, errorf, plain, sentinel, err_redirect_loop}
use jttp.Http.{Url, Request, lower, codes}
use jttp.Redirect.{check}
use jttp.Redirect.Loops.{IsSameUrl, same_pairs, check-loop}
use jttp.Tests.Data.{url, request}
use jttp.Tests.Query.{
  query, other_query, decoded, other_decoded, query-decoded, other_query-decoded, query-IsByte,
  other_query-IsByte, decoded-Perm,
}
use jttp.Tests.Redirect.{config, world}

abbrev first : Url
first = record url { hostname = codes "A.Example"; port = codes "443"; raw_query = query }

abbrev second : Url
second = record url { hostname = codes "b.example" }

-- The third request goes to the first URL.
abbrev third : Request
third = record request { url = record url { scheme = codes "HTTPS"; raw_query = other_query } }

first-IsSameUrl : IsSameUrl first third.url
unfolding lower
first-IsSameUrl = record {
  scheme_same = refl;
  host_same = refl;
  port_same = refl;
  path_same = refl;
  query_same =
      same_pairs decoded other_decoded refl refl query-IsByte other_query-IsByte query-decoded
        other_query-decoded decoded-Perm;
}

check-loop_example :
    check config world third (first ∷ second ∷ [])
    ≡ err (errorf (plain (sentinel err_redirect_loop)))
check-loop_example = check-loop config world third [] first (second ∷ []) first-IsSameUrl

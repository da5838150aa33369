-- ===== src/Redirect/Policy.antt =====
-- What a redirect that `check` allows has been checked for, and the IP policy of a host.
use jttp.Prelude.{
  ◌≡◌, ◌↔◌, refl, Bool, true, false, ◌&&◌, not, Option, none, some, List, [], ◌∷◌, All, length,
  if◌then◌else◌, arith, Bool-cases, inl, inr,
}
use jttp.Prelude.Int.{pos, ◌<ℤ◌}
use jttp.Errors.{GoError, Result, ok, err}
use jttp.Ip.{Ip, Bytes}
use jttp.Ssrf.{is_blocked_ip}
use jttp.Http.{Url, Request}
use jttp.Redirect.{
  RedirectConfig, ResolverWorld, normalize_url, check_addresses, check_answer, check_parsed,
  check_ip_policy, last_of, is_downgrade, is_too_long, visited, policy_check, after_policy, check,
  scrub,
}

-- What the policy asks of a host: a literal address that is not blocked, or a name that resolves to at
-- least one address and to no blocked one.
abbrev pub Unblocked : Ip → Type 0
Unblocked ip = is_blocked_ip ip ≡ false

abbrev pub IsPublicAnswer : Result (List Ip) → Type 0
IsPublicAnswer (err e) = ⊥
IsPublicAnswer (ok []) = ⊥
IsPublicAnswer (ok (ip ∷ ips)) = All Unblocked (ip ∷ ips)

abbrev IsPublicParsed : ResolverWorld → Bytes → Ip → Type 0
IsPublicParsed w host (some ip) = Unblocked (some ip)
IsPublicParsed w host none = IsPublicAnswer (w.lookup host)

abbrev pub IsPublicHost : ResolverWorld → Bytes → Type 0
IsPublicHost w host = IsPublicParsed w host (w.parse_ip host)

check_addresses_iff : (ips : List Ip) → (check_addresses ips ≡ none) ↔ All Unblocked ips
unfolding check_addresses
check_addresses_iff [] = (λ e. tt, λ h. refl)
check_addresses_iff (ip ∷ ips) = elim (Bool-cases (is_blocked_ip ip)) [
  | inl b ↦ (λ e. absurd (ground arith), λ h. absurd (ground arith))
  | inr b ↦ (
    λ e. (b, (check_addresses_iff ips).0 (rw b at e)),
    λ h. rw b ((check_addresses_iff ips).1 h.1),
  )
]

check_answer_iff : (r : Result (List Ip)) → (check_answer r ≡ none) ↔ IsPublicAnswer r
unfolding check_answer
check_answer_iff (err e) = (λ h. absurd (ground arith), λ h. absurd h)
check_answer_iff (ok []) = (λ h. absurd (ground arith), λ h. absurd h)
check_answer_iff (ok (ip ∷ ips)) = check_addresses_iff (ip ∷ ips)

check_parsed_iff :
    (w : ResolverWorld) (host : Bytes) (o : Ip)
    → (check_parsed w host o ≡ none) ↔ IsPublicParsed w host o
unfolding check_parsed
check_parsed_iff w host none = check_answer_iff (w.lookup host)
check_parsed_iff w host (some ip) = (λ h. ground arith, λ h. ground arith)

-- The IP policy lets a host through exactly when the host is a literal address that is not blocked, or
-- a name for which the resolver gives at least one address and no blocked one. So it fails closed.
pub check_ip_policy_iff :
    (w : ResolverWorld) (host : Bytes) → (check_ip_policy w host ≡ none) ↔ IsPublicHost w host
unfolding check_ip_policy
check_ip_policy_iff w host = check_parsed_iff w host (w.parse_ip host)

-- What `check` asks of a redirect.
pub record IsAllowed (cfg : RedirectConfig) (w : ResolverWorld) (via : List Url) (target : Url)
    : Type 0 where
  pub within_limit : pos 0 <ℤ cfg.max_redirects → pos (length via) <ℤ cfg.max_redirects
  pub not_visited : visited via (normalize_url target) ≡ false
  pub no_downgrade : cfg.allow_downgrade ≡ false → is_downgrade (last_of via) target ≡ false
  pub public :
      cfg.allow_private ≡ false → cfg.ip_policy_at_dial ≡ false → IsPublicHost w target.hostname

-- A guard that returned nil did not fire.
guard_passed :
    (b : Bool) (e : GoError) (x : Result Request) (r : Request)
    → (if b then err e else x) ≡ ok r
    → (b ≡ false) × (x ≡ ok r)
guard_passed true e x r h = absurd (ground arith)
guard_passed false e x r h = (refl, h)

after_policy_passed :
    (o : Option GoError) (req r : Request) → after_policy o req ≡ ok r → (o ≡ none) × (r ≡ req)
after_policy_passed none req r h = (refl, cc)
after_policy_passed (some e) req r h = absurd (ground arith)

policy_check-IsPublicHost :
    (cfg : RedirectConfig) (w : ResolverWorld) (target : Url)
    → policy_check cfg w target ≡ none
    → cfg.allow_private ≡ false
    → cfg.ip_policy_at_dial ≡ false
    → IsPublicHost w target.hostname
policy_check-IsPublicHost cfg w target h a b =
    (check_ip_policy_iff w target.hostname).0 (rw (a, b) at h)

-- A redirect is allowed only if the chain is shorter than the limit, no URL of the chain has the same
-- canonical form, the scheme does not go down from https to http, and the host passes the IP policy;
-- the last two unless the configuration says otherwise. Of the request only the headers change.
pub check-IsAllowed :
    (cfg : RedirectConfig) (w : ResolverWorld) (req : Request) (via : List Url) (result : Request)
    → check cfg w req via ≡ ok result
    → IsAllowed cfg w via req.url
      × (result ≡ record req { header = scrub cfg (last_of via) req.url req.header })
unfolding check
check-IsAllowed cfg w req via result e =
    let (short, e₁) = guard_passed (is_too_long cfg via) _ _ result e in
    let (fresh, e₂) = guard_passed (visited via (normalize_url req.url)) _ _ result e₁ in
    let (up, e₃) =
      guard_passed (not cfg.allow_downgrade && is_downgrade (last_of via) req.url) _ _ result e₂ in
    let (passed, same) = after_policy_passed (policy_check cfg w req.url) _ result e₃ in
    (
      record {
        within_limit = λ p. ground arith;
        not_visited = fresh;
        no_downgrade = λ a. rw a at up;
        public = policy_check-IsPublicHost cfg w req.url passed;
      },
      same,
    )

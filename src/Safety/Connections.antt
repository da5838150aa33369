-- ===== src/Safety/Connections.antt =====
-- What a client with strict protection can connect to: gttp.go and safety.go over the dial function of
-- ssrf.go.
use jttp.Prelude.{
  ◌≡◌, ◌↔◌, ◌⊎◌, Bool, true, false, Option, none, some, List, [], ◌∷◌, All, inl, inr, Bool-cases,
}
use jttp.Ip.{Bytes}
use jttp.Ssrf.{Network}
use jttp.Ssrf.Dial.{
  Literal, Dialed, DialWorld, dial_approved_addresses_sequentially, ip_policy_dial_context,
}
use jttp.Ssrf.Dial.Policy.{IsApproved, KeepsTo, ip_policy_dial_context-IsApproved}
use jttp.Ssrf.Dial.Sequential.{dial_approved_addresses_sequentially-KeepsTo}
use jttp.Ssrf.Dial.Staggered.Approved.{IsStaggered, IsStaggered-KeepsTo}
use jttp.Http.{Request}
use jttp.Redirect.Policy.{IsPublicHost}
use jttp.Config.Options.{ClientOption}
use jttp.Config.Client.{
  Client, Base, BuildWorld, custom_base, built_base, Dialer, caller_dialer, net_dialer,
  ip_policy_dialer,
}
use jttp.Config.Build.{corrected, new}
use jttp.Config.Ssrf.{is_bound, strict-each_time}
use jttp.Safety.{SafetyWorld, forward, safe_round_trip}
use jttp.Safety.Policy.{forwards, safe_round_trip-strict}

module _ {Conn : Type 0} where
  -- The way to dial a list of addresses: `staggered` is that of `dialApprovedAddresses`.
  abbrev pub way_of :
      DialWorld Conn
      → (Network → List Literal → Dialed Conn)
      → Bool
      → Network
      → List Literal
      → Dialed Conn
  way_of dials staggered true = staggered
  way_of dials staggered false = dial_approved_addresses_sequentially dials

  way_of-KeepsTo :
      (dials : DialWorld Conn) (staggered : Network → List Literal → Dialed Conn) (staggers : Bool)
      → IsStaggered staggered
      → KeepsTo (way_of dials staggered staggers)
  way_of-KeepsTo dials staggered true h = IsStaggered-KeepsTo staggered h
  way_of-KeepsTo dials staggered false h = dial_approved_addresses_sequentially-KeepsTo dials

-- The addresses are known, and the policy lets each of them through.
abbrev pub AreApproved : Option (List Literal) → Type 0
AreApproved none = ⊥
AreApproved (some addresses) = All IsApproved addresses

module _ {H : Type 0} {Conn : Type 0} (dials : DialWorld Conn)
    (staggered : Network → List Literal → Dialed Conn) where
  -- The addresses that a call of a dial function dials, where the function is one under the IP policy.
  abbrev pub dialed_by : Dialer H → Network → Bytes → Option (List Literal)
  dialed_by (caller_dialer d) network address = none
  dialed_by (net_dialer timeout keep_alive resolver) network address = none
  dialed_by (ip_policy_dialer resolver d staggers) network address =
      some (ip_policy_dial_context dials (way_of dials staggered staggers) network address).1

  abbrev pub connects : Base H → Network → Bytes → Option (List Literal)
  connects (custom_base transport) network address = none
  connects (built_base transport h2) network address = dialed_by transport.dialer network address

  connects-AreApproved :
      (base : Base H) (network : Network) (address : Bytes)
      → IsStaggered staggered
      → is_bound base ≡ true
      → AreApproved (connects base network address)
  connects-AreApproved (custom_base transport) network address h bound = absurd (cc)
  connects-AreApproved (built_base transport h2) network address h bound =
      dialer transport.dialer bound
    where
      dialer :
          (d : Dialer H)
          → is_bound (built_base (record transport { dialer = d }) h2) ≡ true
          → AreApproved (dialed_by d network address)
      dialer (caller_dialer d) bound = absurd (cc)
      dialer (net_dialer timeout keep_alive resolver) bound = absurd (cc)
      dialer (ip_policy_dialer resolver d staggers) bound =
          ip_policy_dial_context-IsApproved dials (way_of dials staggered staggers) network address
            (way_of-KeepsTo dials staggered staggers h)

-- In a client that is built with strict protection, either the transport dials under the IP policy, and
-- then each call of its dial function dials approved addresses only, in whichever of its two ways it goes
-- through them, if the staggered way always comes to a state that its steps reach; or it does not, and
-- then each round trip gives its request to the transport exactly if its host is a literal address that is
-- not blocked, or a name that resolves to at least one address and to no blocked one.
pub new-connects :
    {H : Type 0} {Conn : Type 0} (b : BuildWorld H) (options : List (ClientOption H))
    (client : Client H) (dials : DialWorld Conn) (staggered : Network → List Literal → Dialed Conn)
    (network : Network) (address : Bytes) (w : SafetyWorld) (req : Request)
    → new b options ≡ some client
    → (corrected options).strict_ssrf_initial ≡ true
    → IsStaggered staggered
    → ((is_bound client.base ≡ true)
        × AreApproved (connects dials staggered client.base network address))
      ⊎ ((is_bound client.base ≡ false)
          × ((forwards (safe_round_trip w client.safety req).1 ≡ forward client.safety req ∷ [])
              ↔ IsPublicHost w.resolver req.url.hostname))
new-connects b options client dials staggered network address w req e strict h =
    elim (Bool-cases (is_bound client.base)) [
      | inl bound ↦
          inl (bound, connects-AreApproved dials staggered client.base network address h bound)
      | inr unbound ↦ inr (
        unbound,
        safe_round_trip-strict w client.safety req
            (strict-each_time b options client e strict unbound),
      )
    ]

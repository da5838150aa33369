-- ===== src/Ssrf/Dial/Policy.antt =====
-- Which addresses the dial function of ssrf.go can reach.
use jttp.Prelude.{
  All-append_one, ◌≡◌, refl, Bool, true, false, none, some, List, [], ◌∷◌, ◌++◌, All, any, arith,
  inl, inr, Bool-cases,
}
use jttp.Errors.{Result, ok, err, errorf}
use jttp.Ip.{Ip, Bytes}
use jttp.Ssrf.{Network, is_blocked_ip, ip_matches_network}
use jttp.Ssrf.Dial.{
  IpAddr, Literal, DialWorld, Dialed, wrap_dial_error, collect, dial_collected, dial_answer,
  blocked, dial_literal, dial_parsed, dial_split, ip_policy_dial_context,
}

-- The addresses that the policy lets through.
abbrev pub IsApproved : Literal → Type 0
IsApproved a = is_blocked_ip a.addr.ip ≡ false

collect-IsApproved :
    (network : Network) (port : Bytes) (ips : List IpAddr) (addresses result : List Literal)
    → All IsApproved addresses
    → collect network port ips addresses ≡ ok result
    → All IsApproved result
unfolding collect
collect-IsApproved network port [] addresses result h e = ground arith
collect-IsApproved network port (ipa ∷ ips) addresses result h e =
    elim (Bool-cases (is_blocked_ip ipa.ip)) [
      | inl b ↦ ground arith
      | inr b ↦ elim (Bool-cases (ip_matches_network ipa.ip network)) [
        | inl m ↦
            collect-IsApproved network port ips
              (addresses ++ record { addr = ipa; port = port } ∷ []) result
              (All-append_one IsApproved addresses (record { addr = ipa; port = port }) h b)
              (ground arith)
        | inr m ↦ collect-IsApproved network port ips addresses result h (ground arith)
      ]
    ]

-- A way to dial a list of addresses, which is not empty, keeps to the list.
abbrev pub KeepsTo : {Conn : Type 0} → (Network → List Literal → Dialed Conn) → Type 1
KeepsTo connect =
    (P : Literal → Type 0) (network : Network) (a : Literal) (rest : List Literal)
    → All P (a ∷ rest)
    → All P (connect network (a ∷ rest)).1

wrap_dial_error-dialed : {Conn : Type 0} (d : Dialed Conn) → (wrap_dial_error d).1 ≡ d.1
wrap_dial_error-dialed (ok conn, dialed) = refl
wrap_dial_error-dialed (err e, dialed) = refl

module _ {Conn : Type 0} (connect : Network → List Literal → Dialed Conn)
    (keeps : KeepsTo connect) where
  dial_collected-IsApproved :
      (network : Network) (r : Result (List Literal))
      → ((result : List Literal) → r ≡ ok result → All IsApproved result)
      → All IsApproved (dial_collected (connect network) r).1
  dial_collected-IsApproved network (err e) h = tt
  dial_collected-IsApproved network (ok []) h = tt
  dial_collected-IsApproved network (ok (a ∷ rest)) h =
      rw (wrap_dial_error-dialed (connect network (a ∷ rest)))
        (keeps IsApproved network a rest (h (a ∷ rest) refl))

  dial_answer-IsApproved :
      (network : Network) (port : Bytes) (answer : Result (List IpAddr))
      → All IsApproved (dial_answer (connect network) network port answer).1
  unfolding dial_answer
  dial_answer-IsApproved network port (err e) = tt
  dial_answer-IsApproved network port (ok []) = tt
  dial_answer-IsApproved network port (ok (ipa ∷ ips)) =
      dial_collected-IsApproved network (collect network port (ipa ∷ ips) [])
        (λ result. collect-IsApproved network port (ipa ∷ ips) [] result tt)

module _ {Conn : Type 0} (world : DialWorld Conn)
    (connect : Network → List Literal → Dialed Conn) where
  dial_literal-IsApproved :
      (network : Network) (ip port : Bytes)
      → All IsApproved (dial_literal world connect network ip port).1
  unfolding dial_literal
  dial_literal-IsApproved network ip port = elim (Bool-cases (is_blocked_ip (some ip))) [
    | inl b ↦ rw (b, All) tt
    | inr b ↦ rw (b, All) (b, tt)
  ]

  dial_split-IsApproved :
      (network : Network) (s : Result (Bytes × Bytes))
      → KeepsTo connect
      → All IsApproved (dial_split world connect network s).1
  unfolding dial_split
  dial_split-IsApproved network (err e) keeps = tt
  dial_split-IsApproved network (ok (host, port)) keeps = parsed (world.parse_ip host)
    where
      parsed : (o : Ip) → All IsApproved (dial_parsed world connect network host port o).1
      parsed none = dial_answer-IsApproved connect keeps network port (world.lookup_ip_addr host)
      parsed (some ip) = dial_literal-IsApproved network ip port

  -- If the way to dial a list keeps to the list, the dial function reaches no address that the policy
  -- blocks, literal host or name: every address that it dials is a literal that `isBlockedIP` lets through.
  pub ip_policy_dial_context-IsApproved :
      (network : Network) (address : Bytes)
      → KeepsTo connect
      → All IsApproved (ip_policy_dial_context world connect network address).1
  unfolding ip_policy_dial_context
  ip_policy_dial_context-IsApproved network address =
      dial_split-IsApproved network (world.split_host_port address)

abbrev pub any_blocked : List IpAddr → Bool
any_blocked = any (λ ipa. is_blocked_ip ipa.ip)

collect-blocked :
    (network : Network) (port : Bytes) (ips : List IpAddr) (addresses : List Literal)
    → any_blocked ips ≡ true
    → collect network port ips addresses ≡ err (errorf blocked)
unfolding collect
collect-blocked network port [] addresses h = cc
collect-blocked network port (ipa ∷ ips) addresses h = ground (
  arith,
  collect-blocked network port ips addresses,
  collect-blocked network port ips (addresses ++ record { addr = ipa; port = port } ∷ []),
)

-- If the host is no literal address and one address of the lookup's answer is blocked, then the dial
-- fails with ErrBlockedByIPPolicy and no address is dialed, not even one that is not blocked or one
-- that stands before it.
pub ip_policy_dial_context-blocked :
    {Conn : Type 0} (world : DialWorld Conn) (connect : Network → List Literal → Dialed Conn)
    (network : Network) (address host port : Bytes) (ips : List IpAddr)
    → world.split_host_port address ≡ ok (host, port)
    → world.parse_ip host ≡ none
    → world.lookup_ip_addr host ≡ ok ips
    → any_blocked ips ≡ true
    → ip_policy_dial_context world connect network address ≡ (err (errorf blocked), [])
unfolding ip_policy_dial_context
ip_policy_dial_context-blocked world connect network address host port [] s p l h = cc
ip_policy_dial_context-blocked world connect network address host port (ipa ∷ ips) s p l h =
    ground (arith, collect-blocked network port (ipa ∷ ips) [])

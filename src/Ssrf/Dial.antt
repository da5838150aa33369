-- ===== src/Ssrf/Dial.antt =====
-- ssrf.go: the dial function that resolves a host once, checks every address of the answer, and
-- dials literal addresses alone.
pub mod Policy
pub mod Sequential
pub mod Outcome
pub mod Staggered
use jttp.Prelude.{ℕ, suc, Bool, Option, none, some, List, [], ◌∷◌, ◌++◌, not, if◌then◌else◌}
use jttp.Errors.{
  GoError, Result, ok, err, errorf, errorf₂, message, join, plain, sentinel,
  err_blocked_by_ip_policy,
}
use jttp.Ip.{Ip, Bytes}
use jttp.Ssrf.{Network, is_blocked_ip, ip_matches_network}

-- A net.IPAddr.
pub record IpAddr : Type 0 where
  pub ip : Ip
  pub zone : Bytes

-- The address that net.JoinHostPort(ip.String(), port) writes: a literal, never a name.
pub record Literal : Type 0 where
  pub addr : IpAddr
  pub port : Bytes

abbrev pub blocked : GoError
blocked = plain (sentinel err_blocked_by_ip_policy)

-- The loop over the lookup's answer, with the list `addresses` that it fills.
collect : Network → Bytes → List IpAddr → List Literal → Result (List Literal)
collect network port [] addresses = ok addresses
collect network port (ipa ∷ ips) addresses =
    let matching =
      collect network port ips (addresses ++ record { addr = ipa; port = port } ∷ []) in
    let others = collect network port ips addresses in
    if is_blocked_ip ipa.ip
    then err (errorf blocked)
    else if not (ip_matches_network ipa.ip network)
    then others
    else matching

-- What the functions call. `attempt n` is the outcome of the dial call with number n, and
-- `context_error n` is ctx.Err() after it. Every result is arbitrary.
pub record DialWorld (Conn : Type 0) : Type 0 where
  pub split_host_port : Bytes → Result (Bytes × Bytes)
  pub parse_ip : Bytes → Ip
  pub lookup_ip_addr : Bytes → Result (List IpAddr)
  pub attempt : ℕ → Network → Literal → Result Conn
  pub context_error : ℕ → Option GoError

-- A connection or an error, with the addresses that were dialed, in order.
abbrev pub Dialed : Type 0 → Type 0
Dialed Conn = Result Conn × List Literal

-- What follows one call of `dial` in the loop of `dialApprovedAddressesSequentially`: its result, and
-- ctx.Err() where that is read.
abbrev after_attempt :
    {Conn : Type 0}
    → Result Conn
    → Option GoError
    → List GoError
    → Literal
    → (List GoError → Dialed Conn)
    → Dialed Conn
after_attempt (ok conn) ctx_err errs address continue = (ok conn, address ∷ [])
after_attempt (err e) (some c) errs address continue =
    (err (c ++ join (errs ++ e ∷ [])), address ∷ [])
after_attempt (err e) none errs address continue =
    let rest = continue (errs ++ e ∷ []) in (rest.0, address ∷ rest.1)

module _ {Conn : Type 0} (world : DialWorld Conn) where
  -- The loop itself: `n` counts the calls, `errs` is its list of errors.
  dial_from : ℕ → List GoError → Network → List Literal → Dialed Conn
  dial_from n errs network [] = (err (join errs), [])
  dial_from n errs network (address ∷ addresses) =
      let continue = λ (es : List GoError). dial_from (suc n) es network addresses in
      after_attempt (world.attempt n network address) (world.context_error n) errs address continue

  unfoldable pub dial_approved_addresses_sequentially : Network → List Literal → Dialed Conn
  unfolding dial_from
  dial_approved_addresses_sequentially network addresses = dial_from 0 [] network addresses

abbrev pub wrap_dial_error : {Conn : Type 0} → Dialed Conn → Dialed Conn
wrap_dial_error (ok conn, dialed) = (ok conn, dialed)
wrap_dial_error (err e, dialed) = (err (errorf e), dialed)

-- What follows the loop over the answer; `connect` is the chosen way to dial a list of addresses.
abbrev pub dial_collected :
    {Conn : Type 0} → (List Literal → Dialed Conn) → Result (List Literal) → Dialed Conn
dial_collected connect (err e) = (err e, [])
dial_collected connect (ok []) = (err message, [])
dial_collected connect (ok (a ∷ rest)) = wrap_dial_error (connect (a ∷ rest))

-- What follows the lookup.
dial_answer :
    {Conn : Type 0}
    → (List Literal → Dialed Conn)
    → Network
    → Bytes
    → Result (List IpAddr)
    → Dialed Conn
unfolding collect
dial_answer connect network port (err e) = (err (errorf₂ blocked e), [])
dial_answer connect network port (ok []) = (err (errorf blocked), [])
dial_answer connect network port (ok (ipa ∷ ips)) =
    dial_collected connect (collect network port (ipa ∷ ips) [])

module _ {Conn : Type 0} (world : DialWorld Conn)
    (connect : Network → List Literal → Dialed Conn) where
  -- The branch for a host that net.ParseIP accepts: the one call of `dial` has number 0.
  dial_literal : Network → Bytes → Bytes → Dialed Conn
  dial_literal network ip port =
      let address : Literal = record { addr = record { ip = some ip; zone = [] }; port = port } in
      if is_blocked_ip (some ip)
      then (err (errorf blocked), [])
      else (world.attempt 0 network address, address ∷ [])

  -- The branches on the result of net.ParseIP.
  dial_parsed : Network → Bytes → Bytes → Ip → Dialed Conn
  unfolding dial_literal dial_answer
  dial_parsed network host port (some ip) = dial_literal network ip port
  dial_parsed network host port none =
      dial_answer (connect network) network port (world.lookup_ip_addr host)

  dial_split : Network → Result (Bytes × Bytes) → Dialed Conn
  unfolding dial_parsed
  dial_split network (err e) = (err (errorf e), [])
  dial_split network (ok (host, port)) = dial_parsed network host port (world.parse_ip host)

  -- The function that `newIPPolicyDialContext` returns.
  unfoldable pub ip_policy_dial_context : Network → Bytes → Dialed Conn
  unfolding dial_split
  ip_policy_dial_context network address = dial_split network (world.split_host_port address)

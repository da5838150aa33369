-- ===== src/Tests/Ssrf.antt =====
-- The theorems on ssrf.go, applied.
use jttp.Prelude.{◌||◌, ◌++◌, ℕ, ◌≡◌, refl, true, false, none, some, [], ◌∷◌, ◌==◌, if◌then◌else◌}
use jttp.Errors.{ok, err, errorf, plain, join, deadline_exceeded, canceled}
use jttp.Ip.{Bytes}
use jttp.Http.{codes}
use jttp.Ssrf.{other_network, is_blocked_ip}
use jttp.Ssrf.Documented.{is_documented, is_blocked_ip_lem}
use jttp.Tests.Query.{are_bytes-IsByte}
use jttp.Ssrf.Dial.{
  IpAddr, Literal, DialWorld, blocked, ip_policy_dial_context, dial_approved_addresses_sequentially,
}
use jttp.Ssrf.Dial.Policy.{ip_policy_dial_context-blocked}
use jttp.Ssrf.Dial.Outcome.{Outcome, dial_approved_addresses_sequentially-Outcome}
use jttp.Ssrf.Dial.Staggered.Approved.{Answers}
use jttp.Ssrf.Dial.Staggered.Serial.{dial_approved_addresses_sequentially-Answers}
use jttp.Ssrf.Dial.Sequential.{
  dial_approved_addresses_sequentially-first, dial_approved_addresses_sequentially-done,
}

blocked_loopback : is_blocked_ip (some (127 ∷ 0 ∷ 0 ∷ 1 ∷ [])) ≡ true
unfolding is_blocked_ip
blocked_loopback = refl

unblocked_public : is_blocked_ip (some (93 ∷ 184 ∷ 216 ∷ 34 ∷ [])) ≡ false
unfolding is_blocked_ip
unblocked_public = refl

-- 172.31.0.1 in 16 bytes.
abbrev mapped_address : Bytes
mapped_address = 0 ∷ 0 ∷ 0 ∷ 0 ∷ 0 ∷ 0 ∷ 0 ∷ 0 ∷ 0 ∷ 0 ∷ 255 ∷ 255 ∷ 172 ∷ 31 ∷ 0 ∷ 1 ∷ []

mapped_is_blocked : is_blocked_ip (some mapped_address) ≡ true
unfolding is_blocked_ip
mapped_is_blocked = refl

is_blocked_ip_lem_example :
    is_blocked_ip (some mapped_address) ≡ is_documented (some mapped_address)
is_blocked_ip_lem_example =
    is_blocked_ip_lem (some mapped_address) (are_bytes-IsByte mapped_address refl)

-- A name with a public and a private address. The first dial fails, the second succeeds.
abbrev public_address : IpAddr
public_address = record { ip = some (93 ∷ 184 ∷ 216 ∷ 34 ∷ []); zone = [] }

abbrev private_address : IpAddr
private_address = record { ip = some (10 ∷ 0 ∷ 0 ∷ 1 ∷ []); zone = [] }

abbrev world : DialWorld ℕ
world = record {
  split_host_port = λ a. ok (a, codes "443");
  parse_ip = λ h. none;
  lookup_ip_addr = λ h. ok (public_address ∷ private_address ∷ []);
  attempt = λ n network a. if n == 1 then ok 7 else err (plain deadline_exceeded);
  context_error = λ n. if n == 2 then some (plain canceled) else none;
}

one_private :
    (is_blocked_ip public_address.ip || (is_blocked_ip private_address.ip || false)) ≡ true
unfolding is_blocked_ip
one_private = refl

ip_policy_dial_context-blocked_example :
    ip_policy_dial_context world
      (dial_approved_addresses_sequentially world)
      other_network
      (codes "a.example")
    ≡ (err (errorf blocked), [])
ip_policy_dial_context-blocked_example =
    ip_policy_dial_context-blocked world (dial_approved_addresses_sequentially world) other_network
      (codes "a.example") (codes "a.example") (codes "443") (public_address ∷ private_address ∷ [])
      refl refl refl one_private

abbrev literal : IpAddr → Literal
literal a = record { addr = a; port = codes "443" }

abbrev first_literal : Literal
first_literal = literal public_address

second_dial_connects :
    dial_approved_addresses_sequentially world other_network
      (first_literal ∷ first_literal ∷ first_literal ∷ [])
    ≡ (ok 7, first_literal ∷ first_literal ∷ [])
second_dial_connects =
    dial_approved_addresses_sequentially-first world other_network (first_literal ∷ [])
      (first_literal ∷ []) (plain deadline_exceeded ∷ []) first_literal 7 (refl, refl, tt) refl

-- Every dial fails, and the context is done after the second.
abbrev slow_world : DialWorld ℕ
slow_world = record world {
  attempt = λ n network a. err (plain deadline_exceeded);
  context_error = λ n. if n == 1 then some (plain canceled) else none;
}

second_dial_interrupted :
    dial_approved_addresses_sequentially slow_world other_network
      (first_literal ∷ first_literal ∷ first_literal ∷ [])
    ≡ (
      err (plain canceled ++ join (plain deadline_exceeded ∷ plain deadline_exceeded ∷ [])),
      first_literal ∷ first_literal ∷ [],
    )
second_dial_interrupted =
    dial_approved_addresses_sequentially-done slow_world other_network (first_literal ∷ [])
      (first_literal ∷ []) (plain deadline_exceeded ∷ []) first_literal (plain deadline_exceeded)
      (plain canceled) (refl, refl, tt) refl refl

dial_approved_addresses_sequentially-Outcome_example :
    Outcome slow_world other_network (first_literal ∷ first_literal ∷ []) (
      dial_approved_addresses_sequentially slow_world other_network
        (first_literal ∷ first_literal ∷ []))
dial_approved_addresses_sequentially-Outcome_example =
    dial_approved_addresses_sequentially-Outcome slow_world other_network
      (first_literal ∷ first_literal ∷ [])

dial_approved_addresses_sequentially-Answers_example : Answers first_literal (first_literal ∷ []) (
    dial_approved_addresses_sequentially slow_world other_network
      (first_literal ∷ first_literal ∷ []))
dial_approved_addresses_sequentially-Answers_example =
    dial_approved_addresses_sequentially-Answers slow_world other_network first_literal
      (first_literal ∷ [])

-- ===== src/Ssrf/Dial/Sequential.antt =====
-- `dialApprovedAddressesSequentially`: the order of the attempts and when they stop.
use jttp.Prelude.{
  ℕ, suc, ◌+◌, ◌≡◌, refl, Option, none, some, List, [], ◌∷◌, ◌++◌, All, length, arith,
}
use mathlib.Core.List.{append-nil, append_assoc}
use jttp.Errors.{GoError, Result, ok, err, join}
use jttp.Ssrf.{Network}
use jttp.Ssrf.Dial.{
  Literal, DialWorld, Dialed, after_attempt, dial_from, dial_approved_addresses_sequentially,
}
use jttp.Ssrf.Dial.Policy.{KeepsTo}

module _ {Conn : Type 0} (world : DialWorld Conn) where
  after_attempt-All :
      (P : Literal → Type 0) (r : Result Conn) (c : Option GoError) (errs : List GoError)
      (a : Literal) (continue : List GoError → Dialed Conn)
      → P a
      → ((es : List GoError) → All P (continue es).1)
      → All P (after_attempt r c errs a continue).1
  after_attempt-All P (ok conn) c errs a continue p h = (p, tt)
  after_attempt-All P (err e) (some x) errs a continue p h = (p, tt)
  after_attempt-All P (err e) none errs a continue p h = (p, h (errs ++ e ∷ []))

  dial_from-All :
      (P : Literal → Type 0) (n : ℕ) (errs : List GoError) (network : Network)
      (addresses : List Literal)
      → All P addresses
      → All P (dial_from world n errs network addresses).1
  unfolding dial_from
  dial_from-All P n errs network [] h = tt
  dial_from-All P n errs network (a ∷ rest) h =
      after_attempt-All P (world.attempt n network a) (world.context_error n) errs a
        (λ es. dial_from world (suc n) es network rest) h.0
        (λ es. dial_from-All P (suc n) es network rest h.1)

  -- It dials addresses of its list only.
  pub dial_approved_addresses_sequentially-KeepsTo :
      KeepsTo (dial_approved_addresses_sequentially world)
  unfolding dial_approved_addresses_sequentially
  dial_approved_addresses_sequentially-KeepsTo P network a rest =
      dial_from-All P 0 [] network (a ∷ rest)

  -- The calls from number `n` on for these addresses fail, with these errors, and the context lasts.
  abbrev pub Fail : ℕ → Network → List Literal → List GoError → Type 0
  Fail n network [] [] = Unit
  Fail n network [] (e ∷ es) = ⊥
  Fail n network (a ∷ rest) [] = ⊥
  Fail n network (a ∷ rest) (e ∷ es) =
      (world.attempt n network a ≡ err e)
      × (world.context_error n ≡ none)
      × Fail (suc n) network rest es

  -- The loop goes through addresses that fail and reaches the rest of its list.
  dial_from-append :
      (n m : ℕ) (errs es : List GoError) (network : Network) (failing rest : List Literal)
      → Fail n network failing es
      → n + length failing ≡ m
      → dial_from world n errs network (failing ++ rest)
        ≡ (let (r, dialed) = dial_from world m (errs ++ es) network rest in (r, failing ++ dialed))
  unfolding dial_from
  dial_from-append n m errs [] network [] rest h e =
      let same : n ≡ m = omega arith in rw (append-nil, same) refl
  dial_from-append n m errs (x ∷ es) network [] rest h e = absurd h
  dial_from-append n m errs [] network (a ∷ failing) rest h e = absurd h
  dial_from-append n m errs (x ∷ es) network (a ∷ failing) rest h e =
      let ih =
        dial_from-append (suc n) m (errs ++ x ∷ []) es network failing rest h.2 (omega arith) in
      rw (h.0, h.1) (rw (ih, append_assoc) refl)

  -- The connection of the first address whose dial succeeds is returned. The addresses before it were
  -- dialed once each, in order, and none after it.
  pub dial_approved_addresses_sequentially-first :
      (network : Network) (failing rest : List Literal) (es : List GoError) (a : Literal)
      (conn : Conn)
      → Fail 0 network failing es
      → world.attempt (length failing) network a ≡ ok conn
      → dial_approved_addresses_sequentially world network (failing ++ a ∷ rest)
        ≡ (ok conn, failing ++ a ∷ [])
  unfolding dial_approved_addresses_sequentially
  dial_approved_addresses_sequentially-first network failing rest es a conn h s =
      rw (dial_from-append 0 (length failing) [] es network failing (a ∷ rest) h (omega arith))
        (rw s refl)

  -- If every dial fails and the context lasts, all addresses were dialed once each, in order, and the
  -- error joins the errors of all.
  pub dial_approved_addresses_sequentially-Fail :
      (network : Network) (failing : List Literal) (es : List GoError)
      → Fail 0 network failing es
      → dial_approved_addresses_sequentially world network failing ≡ (err (join es), failing)
  unfolding dial_approved_addresses_sequentially
  dial_approved_addresses_sequentially-Fail network failing es h =
      rw append-nil at
        (dial_from-append 0 (length failing) [] es network failing [] h (omega arith))

  -- Once the context is done after a failed dial, no further address is dialed, and the error joins the
  -- context's error and those of the dials so far.
  pub dial_approved_addresses_sequentially-done :
      (network : Network) (failing rest : List Literal) (es : List GoError) (a : Literal)
      (e c : GoError)
      → Fail 0 network failing es
      → world.attempt (length failing) network a ≡ err e
      → world.context_error (length failing) ≡ some c
      → dial_approved_addresses_sequentially world network (failing ++ a ∷ rest)
        ≡ (err (c ++ join (es ++ e ∷ [])), failing ++ a ∷ [])
  unfolding dial_approved_addresses_sequentially
  dial_approved_addresses_sequentially-done network failing rest es a e c h f d =
      rw (dial_from-append 0 (length failing) [] es network failing (a ∷ rest) h (omega arith))
        (rw (f, d) refl)

-- ===== src/Ssrf/Dial/Outcome.antt =====
-- `dialApprovedAddressesSequentially` in all cases: what it dials and what it returns.
use jttp.Prelude.{
  ℕ, suc, ◌+◌, ◌≡◌, refl, ap, ◌∙◌, Option, none, some, List, [], ◌∷◌, ◌++◌, length, arith,
}
use jttp.Errors.{GoError, Result, ok, err, join}
use jttp.Ssrf.{Network}
use jttp.Ssrf.Dial.{Literal, DialWorld, Dialed, dial_approved_addresses_sequentially}
use jttp.Ssrf.Dial.Sequential.{
  Fail, dial_approved_addresses_sequentially-first, dial_approved_addresses_sequentially-Fail,
  dial_approved_addresses_sequentially-done,
}

from_zero : {A : Type 0} (f : ℕ → A) (n : ℕ) → f n ≡ f (0 + n)
from_zero f n = ap f (omega arith)

module _ {Conn : Type 0} (world : DialWorld Conn) where
  -- What the calls from number `n` on come to.
  data Course (n : ℕ) (network : Network) (addresses : List Literal) : Type 0 where
    all_fail : (es : List GoError) → Fail world n network addresses es → Course n network addresses
    succeeds :
        (failing rest : List Literal) (es : List GoError) (a : Literal) (conn : Conn)
        → addresses ≡ failing ++ a ∷ rest
        → Fail world n network failing es
        → world.attempt (n + length failing) network a ≡ ok conn
        → Course n network addresses
    is_done :
        (failing rest : List Literal) (es : List GoError) (a : Literal) (e c : GoError)
        → addresses ≡ failing ++ a ∷ rest
        → Fail world n network failing es
        → world.attempt (n + length failing) network a ≡ err e
        → world.context_error (n + length failing) ≡ some c
        → Course n network addresses

  Course-failed :
      (n : ℕ) (network : Network) (a : Literal) (rest : List Literal) (e : GoError)
      → world.attempt n network a ≡ err e
      → world.context_error n ≡ none
      → Course (suc n) network rest
      → Course n network (a ∷ rest)
  Course-failed n network a rest e f l (all_fail es h) = all_fail (e ∷ es) (f, l, h)
  Course-failed n network a rest e f l (succeeds failing rest' es b conn same h s) =
      succeeds (a ∷ failing) rest' (e ∷ es) b conn (ap (λ as'. a ∷ as') same) (f, l, h)
        (ap (λ k. world.attempt k network b) (omega arith) ∙ s)
  Course-failed n network a rest e f l (is_done failing rest' es b x c same h s d) =
      is_done (a ∷ failing) rest' (e ∷ es) b x c (ap (λ as'. a ∷ as') same) (f, l, h)
        (ap (λ k. world.attempt k network b) (omega arith) ∙ s)
        (ap (λ k. world.context_error k) (omega arith) ∙ d)

  course : (n : ℕ) (network : Network) (addresses : List Literal) → Course n network addresses
  course n network [] = all_fail [] tt
  course n network (a ∷ rest) =
      from (world.attempt n network a) (world.context_error n) refl refl
        (course (suc n) network rest)
    where
      at_start : n + 0 ≡ n
      at_start = omega arith

      from :
          (r : Result Conn) (o : Option GoError)
          → world.attempt n network a ≡ r
          → world.context_error n ≡ o
          → Course (suc n) network rest
          → Course n network (a ∷ rest)
      from (ok conn) o f l later =
          succeeds [] rest [] a conn refl tt (ap (λ k. world.attempt k network a) at_start ∙ f)
      from (err e) (some c) f l later =
          is_done [] rest [] a e c refl tt (ap (λ k. world.attempt k network a) at_start ∙ f)
            (ap (λ k. world.context_error k) at_start ∙ l)
      from (err e) none f l later = Course-failed n network a rest e f l later

  -- What the function comes to: its result, with the addresses that it dialed.
  pub data Outcome (network : Network) : List Literal → Dialed Conn → Type 0 where
    exhausted :
        (addresses : List Literal) (es : List GoError)
        → Fail world 0 network addresses es
        → Outcome network addresses (err (join es), addresses)
    connected :
        (failing rest : List Literal) (es : List GoError) (a : Literal) (conn : Conn)
        → Fail world 0 network failing es
        → world.attempt (length failing) network a ≡ ok conn
        → Outcome network (failing ++ a ∷ rest) (ok conn, failing ++ a ∷ [])
    interrupted :
        (failing rest : List Literal) (es : List GoError) (a : Literal) (e c : GoError)
        → Fail world 0 network failing es
        → world.attempt (length failing) network a ≡ err e
        → world.context_error (length failing) ≡ some c
        → Outcome network (failing ++ a ∷ rest) (err (c ++ join (es ++ e ∷ [])), failing ++ a ∷ [])

  -- The sequential way to dial a list goes through it in order, once each, while the dials fail and the
  -- context lasts. It ends with the first dial that succeeds, and returns its connection; or with the
  -- first one that fails with the context done, and its error joins the context's error and those of the
  -- dials so far; or with the last address, and its error joins the errors of all.
  pub dial_approved_addresses_sequentially-Outcome :
      (network : Network) (addresses : List Literal)
      → Outcome network addresses (dial_approved_addresses_sequentially world network addresses)
  dial_approved_addresses_sequentially-Outcome network addresses =
      elim (course 0 network addresses) [
        | all_fail es h ↦
            rw (dial_approved_addresses_sequentially-Fail world network addresses es h)
              (exhausted addresses es h)
        | succeeds failing rest es a conn same h s ↦ rw same (
            rw
              (dial_approved_addresses_sequentially-first world network failing rest es a conn h
                (from_zero (λ k. world.attempt k network a) (length failing) ∙ s))
              (connected failing rest es a conn h
                (from_zero (λ k. world.attempt k network a) (length failing) ∙ s)))
        | is_done failing rest es a e c same h s d ↦ rw same (
            rw
              (dial_approved_addresses_sequentially-done world network failing rest es a e c h
                (from_zero (λ k. world.attempt k network a) (length failing) ∙ s)
                (from_zero world.context_error (length failing) ∙ d))
              (interrupted failing rest es a e c h
                (from_zero (λ k. world.attempt k network a) (length failing) ∙ s)
                (from_zero world.context_error (length failing) ∙ d)))
      ]

-- ===== src/Ssrf/Dial/Staggered/Serial.antt =====
-- The sequential way to dial a list of addresses as one order of the steps of the staggered way.
use mathlib.Core.List.{append_assoc, append-nil}
use jttp.Prelude.{
  ℕ, suc, ◌+◌, ◌<◌, ◌≡◌, refl, sym, ◌∙◌, true, Option, none, some, List, [], ◌∷◌, ◌++◌, ◌==◌,
  length, arith,
}
use jttp.Errors.{GoError, Result, ok, err, join}
use jttp.Ssrf.{Network}
use jttp.Ssrf.Dial.{
  Literal, DialWorld, Dialed, after_attempt, dial_from, dial_approved_addresses_sequentially,
}
use jttp.Ssrf.Dial.Staggered.{
  armed, Race, begin, opened_by, take_result, Step, dial_ends, loop_result, loop_context, loop_ends,
  Run, here, next,
}
use jttp.Ssrf.Dial.Staggered.Approved.{Answers}

same_count : (c : ℕ) → (c == c) ≡ true
same_count c = ground arith

module _ {Conn : Type 0} where
  -- Only the dial of `a` runs; `c` others have failed before it.
  abbrev serial : ℕ → List GoError → List Literal → Literal → List Literal → Race Conn
  serial c errs before a rest = record {
    started = suc c;
    waiting = rest;
    running = a ∷ [];
    results = [];
    completed = c;
    errs = errs;
    timer = armed;
    outcome = none;
    to_drain = 0;
    dialed = before ++ a ∷ [];
    opened = [];
    closed = [];
  }

  -- That dial has returned.
  abbrev answered :
      ℕ → List GoError → List Literal → Literal → List Literal → Result Conn → Race Conn
  answered c errs before a rest r = record (serial c errs before a rest) {
    running = [];
    results = r ∷ [];
    opened = opened_by r;
  }

  -- All dials have failed.
  abbrev failed : ℕ → List GoError → List Literal → Race Conn
  failed c errs dialed = record {
    started = c;
    waiting = [];
    running = [];
    results = [];
    completed = c;
    errs = errs;
    timer = armed;
    outcome = none;
    to_drain = 0;
    dialed = dialed;
    opened = [];
    closed = [];
  }

  take_result-next :
      (c : ℕ) (errs : List GoError) (before : List Literal) (a b : Literal) (rest : List Literal)
      (e : GoError)
      → take_result (answered c errs before a (b ∷ rest) (err e)) (err e) []
        ≡ serial (suc c) (errs ++ e ∷ []) (before ++ a ∷ []) b rest
  take_result-next c errs before a b [] e = rw (same_count (suc c)) refl
  take_result-next c errs before a b (x ∷ rest) e = rw (same_count (suc c)) refl

  take_result-failed :
      (c : ℕ) (errs : List GoError) (before : List Literal) (a : Literal) (e : GoError)
      → take_result (answered c errs before a [] (err e)) (err e) []
        ≡ failed (suc c) (errs ++ e ∷ []) (before ++ a ∷ [])
  take_result-failed c errs before a e = rw (same_count (suc c)) refl

  step_serial :
      (n c : ℕ) (errs : List GoError) (before : List Literal) (a b : Literal) (rest : List Literal)
      (e : GoError)
      → c < n
      → Step n
          (answered c errs before a (b ∷ rest) (err e))
          (serial (suc c) (errs ++ e ∷ []) (before ++ a ∷ []) b rest)
  step_serial n c errs before a b rest e small =
      let s = answered c errs before a (b ∷ rest) (err e) in
      let taken : Step n s (take_result s (err e) []) =
        loop_result s (err e) [] (refl, small) refl in
      rw (take_result-next c errs before a b rest e) at taken

  step_failed :
      (n c : ℕ) (errs : List GoError) (before : List Literal) (a : Literal) (e : GoError)
      → c < n
      → Step n
          (answered c errs before a [] (err e))
          (failed (suc c) (errs ++ e ∷ []) (before ++ a ∷ []))
  step_failed n c errs before a e small =
      let s = answered c errs before a [] (err e) in
      let taken : Step n s (take_result s (err e) []) =
        loop_result s (err e) [] (refl, small) refl in
      rw (take_result-failed c errs before a e) at taken

  -- A run from `first` that returns the result, and has dialed the addresses after those `before`.
  record Reaches (n : ℕ) (first : Race Conn) (before : List Literal) (d : Dialed Conn)
      : Type 0 where
    steps : ℕ
    last : Race Conn
    run : Run n first steps last
    returned : last.outcome ≡ some d.0
    dialed_are : before ++ d.1 ≡ last.dialed

  after_attempt-Reaches :
      (n : ℕ) (first : Race Conn) (k c : ℕ) (errs : List GoError) (before : List Literal)
      (a : Literal) (rest : List Literal) (r : Result Conn) (o : Option GoError)
      (continue : List GoError → Dialed Conn)
      → c < n
      → ((s : Result Conn) → Run n first (suc k) (answered c errs before a rest s))
      → ((e : GoError)
          → Run n first (suc k) (answered c errs before a rest (err e))
          → Reaches n first (before ++ a ∷ []) (continue (errs ++ e ∷ [])))
      → Reaches n first before (after_attempt r o errs a continue)
  after_attempt-Reaches n first k c errs before a rest (ok conn) o continue small run later =
      record {
        steps = suc (suc k);
        last = _;
        run = next (run (ok conn)) (loop_result _ (ok conn) [] (refl, small) refl);
        returned = refl;
        dialed_are = refl;
      }
  after_attempt-Reaches n first k c errs before a rest (err e) (some x) continue small run later =
      record {
        steps = suc (suc k);
        last = _;
        run = next (run (err e)) (loop_context _ (x ++ join (errs ++ e ∷ [])) (refl, small));
        returned = refl;
        dialed_are = refl;
      }
  after_attempt-Reaches n first k c errs before a rest (err e) none continue small run later =
      let l = later e (run (err e)) in
      record {
        steps = l.steps;
        last = l.last;
        run = l.run;
        returned = l.returned;
        dialed_are =
            sym (append_assoc before (a ∷ []) (continue (errs ++ e ∷ [])).1) ∙ l.dialed_are;
      }

module _ {Conn : Type 0} (world : DialWorld Conn) where
  dial_from-Reaches :
      (n : ℕ) (first : Race Conn) (network : Network) (rest : List Literal) (k c : ℕ)
      (errs : List GoError) (before : List Literal) (a : Literal)
      → Run n first k (serial c errs before a rest)
      → n ≡ suc c + length rest
      → Reaches n first before (dial_from world c errs network (a ∷ rest))
  unfolding dial_from
  dial_from-Reaches n first network [] k c errs before a run e =
      after_attempt-Reaches n first k c errs before a [] (world.attempt c network a)
        (world.context_error c) (λ es. dial_from world (suc c) es network []) (omega arith)
        (λ s. next run (dial_ends _ [] [] a s refl))
        λ x r. record {
          steps = suc (suc (suc k));
          last = _;
          run =
              next (next r (step_failed n c errs before a x (omega arith)))
                (loop_ends _ refl (omega arith));
          returned = refl;
          dialed_are = append-nil (before ++ a ∷ []);
        }
  dial_from-Reaches n first network (b ∷ rest) k c errs before a run e =
      after_attempt-Reaches n first k c errs before a (b ∷ rest) (world.attempt c network a)
        (world.context_error c) (λ es. dial_from world (suc c) es network (b ∷ rest)) (omega arith)
        (λ s. next run (dial_ends _ [] [] a s refl))
        λ x r.
          dial_from-Reaches n first network rest (suc (suc k)) (suc c) (errs ++ x ∷ [])
            (before ++ a ∷ []) b (next r (step_serial n c errs before a b rest x (omega arith)))
            (omega arith)

  -- Whatever the dials and the context do, the sequential way to dial a list is one order of the steps of
  -- the staggered way on the same list: a run of the latter returns the same result and has dialed the
  -- same addresses, where the error that it returns at the end of the context is left open.
  pub dial_approved_addresses_sequentially-Answers :
      (network : Network) (a : Literal) (rest : List Literal)
      → Answers a rest (dial_approved_addresses_sequentially world network (a ∷ rest))
  unfolding dial_approved_addresses_sequentially
  dial_approved_addresses_sequentially-Answers network a rest =
      let r =
        dial_from-Reaches (length (a ∷ rest)) (begin a rest) network rest 0 0 [] [] a here
          (omega arith) in
      record {
        steps = r.steps;
        last = r.last;
        run = r.run;
        returned = r.returned;
        dialed_are = r.dialed_are;
      }

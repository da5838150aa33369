-- ===== src/Ssrf/Dial/Staggered/Ends.antt =====
-- Every order of the steps of a staggered dial ends.
use jttp.Prelude.{
  ℕ, suc, ◌+◌, ◌*◌, ◌≤◌, ◌<◌, ◌≡◌, refl, ap, Option, none, some, List, [], ◌∷◌, ◌++◌, length,
  length-append, arith, ◌==◌, Bool-cases, inl, inr,
}
use jttp.Errors.{Result, ok, err}
use jttp.Ssrf.Dial.{Literal}
use jttp.Ssrf.Dial.Staggered.{
  Timer, armed, expired, off, Race, begin, start_next, completed_one, take_result, take_timer, Step,
  dial_ends, timer_fires, loop_result, loop_timer, loop_context, loop_ends, drain, Run, here, next,
}

abbrev pub timer_weight : Timer → ℕ
timer_weight armed = 2
timer_weight expired = 1
timer_weight off = 0

module _ {Conn : Type 0} where
  abbrev pub outcome_weight : Option (Result Conn) → ℕ
  outcome_weight none = 1
  outcome_weight (some r) = 0

  -- An address that waits is worth four steps, an attempt that runs two, and a result one.
  abbrev pub weight : Race Conn → ℕ
  weight s =
      4 * length s.waiting
      + 2 * length s.running
      + length s.results
      + timer_weight s.timer
      + outcome_weight s.outcome

  weight-start_next :
      (s : Race Conn) (last more : Timer) (waiting : List Literal)
      → timer_weight last ≤ 2
      → timer_weight more ≤ 2
      → s.waiting ≡ waiting
      → weight (start_next s last more waiting) ≤ weight s
  weight-start_next s last more [] p q e = omega arith
  weight-start_next s last more (a ∷ []) p q e =
      rw e (omega (arith, length-append {0} s.running (a ∷ [])))
  weight-start_next s last more (a ∷ b ∷ rest) p q e =
      rw e (omega (arith, length-append {0} s.running (a ∷ [])))

  -- A timer that has fired pays for being armed again.
  weight-start_next_off :
      (s : Race Conn) (waiting : List Literal)
      → s.waiting ≡ waiting
      → weight (start_next s off armed waiting) ≤ weight s
  weight-start_next_off s waiting e =
      weight-start_next s off armed waiting (omega arith) (omega arith) e

  weight-take_result :
      (s : Race Conn) (r : Result Conn) (rest : List (Result Conn))
      → s.outcome ≡ none
      → s.results ≡ r ∷ rest
      → weight (take_result s r rest) < weight s
  weight-take_result s (ok conn) rest o e =
      omega (arith, ap (length {A = Result Conn}) e, ap outcome_weight o)
  weight-take_result s (err x) rest o e =
      let failed : Race Conn = record (completed_one s rest) { errs = s.errs ++ x ∷ [] } in
      let taken : weight failed < weight s = omega (arith, ap (length {A = Result Conn}) e) in
      elim (Bool-cases (suc s.completed == s.started)) [
        | inl alone ↦ rw alone (
            omega (
              arith,
              taken,
              weight-start_next failed armed armed s.waiting (omega arith) (omega arith) refl,
            ))
        | inr others ↦ rw others taken
      ]

  weight-take_timer : (s : Race Conn) → s.timer ≡ expired → weight (take_timer s) < weight s
  weight-take_timer s e =
      let idle : Race Conn = record s { timer = off } in
      omega (arith, ap timer_weight e, weight-start_next_off idle s.waiting refl)

  -- Each step makes the weight less.
  Step-weight : {n : ℕ} {s u : Race Conn} → Step n s u → weight u < weight s
  Step-weight (dial_ends s before after a r e) = omega (
    arith,
    ap (length {A = Literal}) e,
    length-append {0} before (a ∷ after),
    length-append {0} before after,
    length-append {0} s.results (r ∷ []),
  )
  Step-weight (timer_fires s e) = omega (arith, ap timer_weight e)
  Step-weight (loop_result s r rest h e) = weight-take_result s r rest h.0 e
  Step-weight (loop_timer s h e) = weight-take_timer s e
  Step-weight (loop_context s e h) = omega (arith, ap outcome_weight h.0)
  Step-weight (loop_ends s o h) = omega (arith, ap outcome_weight o)
  Step-weight (drain s r rest k d e) = omega (arith, ap (length {A = Result Conn}) e)

  Run-weight :
      {n : ℕ} {s : Race Conn} {k : ℕ} {u : Race Conn} → Run n s k u → weight u + k ≤ weight s
  Run-weight here = omega arith
  Run-weight (next r st) = omega (arith, Run-weight r, Step-weight st)

  -- A staggered dial and all that it starts end, whatever the order of the steps and whatever the dials
  -- return: with `n` addresses there are at most 4 * n + 1 steps.
  pub Run-length :
      {k : ℕ} {u : Race Conn} (a : Literal) (rest : List Literal)
      → Run (length (a ∷ rest)) (begin a rest) k u
      → k ≤ 4 * length (a ∷ rest) + 1
  Run-length a rest r = omega (arith, Run-weight r)

-- ===== src/Ssrf/Dial/Staggered/Leaks.antt =====
-- No connection of a staggered dial is lost.
use jttp.Prelude.{
  ℕ, suc, ◌+◌, ◌≡◌, refl, ap, Bool, Option, none, some, List, [], ◌∷◌, ◌++◌, length, arith, ◌==◌,
  if◌then◌else◌, Bool-cases, inl, inr,
}
use jttp.Errors.{Result, ok, err}
use jttp.Ssrf.Dial.{Literal}
use jttp.Ssrf.Dial.Staggered.{
  Timer, armed, off, Race, begin, start_next, completed_one, take_result, opened_by, Step,
  dial_ends, timer_fires, loop_result, loop_timer, loop_context, loop_ends, drain, Run, here, next,
}
use jttp.Ssrf.Dial.Staggered.Counts.{Counts, begin-Inv, Run-Inv}

-- `p` picks the connections that are counted.
module _ {Conn : Type 0} (p : Conn → Bool) where
  abbrev pub count : List Conn → ℕ
  count [] = 0
  count (c ∷ cs) = (if p c then 1 else 0) + count cs

  abbrev pub count_results : List (Result Conn) → ℕ
  count_results [] = 0
  count_results (r ∷ rs) = count (opened_by r) + count_results rs

  abbrev pub count_outcome : Option (Result Conn) → ℕ
  count_outcome none = 0
  count_outcome (some r) = count (opened_by r)

  count-append : (xs ys : List Conn) → count (xs ++ ys) ≡ count xs + count ys
  count-append [] ys = omega arith
  count-append (x ∷ xs) ys = omega (arith, count-append xs ys)

  count_results-append :
      (xs ys : List (Result Conn)) → count_results (xs ++ ys) ≡ count_results xs + count_results ys
  count_results-append [] ys = omega arith
  count_results-append (x ∷ xs) ys = omega (arith, count_results-append xs ys)

  -- Every connection that was opened was closed, waits in the channel, or was returned.
  abbrev Kept : Race Conn → Type 0
  Kept s = count s.opened ≡ count s.closed + count_results s.results + count_outcome s.outcome

  start_next-Kept :
      (s : Race Conn) (last more : Timer) (waiting : List Literal)
      → Kept s
      → Kept (start_next s last more waiting)
  start_next-Kept s last more [] h = h
  start_next-Kept s last more (a ∷ []) h = h
  start_next-Kept s last more (a ∷ b ∷ rest) h = h

  take_result-Kept :
      (s : Race Conn) (r : Result Conn) (rest : List (Result Conn))
      → s.outcome ≡ none
      → s.results ≡ r ∷ rest
      → Kept s
      → Kept (take_result s r rest)
  take_result-Kept s (ok conn) rest o e h = omega (arith, h, ap count_results e, ap count_outcome o)
  take_result-Kept s (err x) rest o e h =
      let failed : Race Conn = record (completed_one s rest) { errs = s.errs ++ x ∷ [] } in
      let kept : Kept failed = omega (arith, h, ap count_results e) in
      elim (Bool-cases (suc s.completed == s.started)) [
        | inl alone ↦ rw alone (start_next-Kept failed armed armed s.waiting kept)
        | inr others ↦ rw others kept
      ]

  Step-Kept : {n : ℕ} {s u : Race Conn} → Step n s u → Kept s → Kept u
  Step-Kept (dial_ends s before after a r e) h =
      omega (arith, h, count-append s.opened (opened_by r), count_results-append s.results (r ∷ []))
  Step-Kept (timer_fires s e) h = h
  Step-Kept (loop_result s r rest l e) h = take_result-Kept s r rest l.0 e h
  Step-Kept (loop_timer s l e) h = start_next-Kept (record s { timer = off }) off armed s.waiting h
  Step-Kept (loop_context s e l) h = omega (arith, h, ap count_outcome l.0)
  Step-Kept (loop_ends s o l) h = omega (arith, h, ap count_outcome o)
  Step-Kept (drain s r rest k d e) h =
      omega (arith, h, count-append s.closed (opened_by r), ap count_results e)

  Run-Kept : {n : ℕ} {s : Race Conn} {k : ℕ} {u : Race Conn} → Kept s → Run n s k u → Kept u
  Run-Kept h here = h
  Run-Kept h (next r st) = Step-Kept st (Run-Kept h r)

no_results : {A : Type 0} (xs : List A) → length xs ≡ 0 → xs ≡ []
no_results [] h = refl
no_results (x ∷ xs) h = absurd (omega arith)

module _ {Conn : Type 0} where
  -- Once a staggered dial has returned and its draining goroutine has taken what it waits for, every
  -- connection that any of its dials opened was closed or is the one that was returned, each as often as
  -- it was opened; and no dial still runs.
  pub Run-opened :
      {k : ℕ} {u : Race Conn} (p : Conn → Bool) (a : Literal) (rest : List Literal)
      (r : Result Conn)
      → Run (length (a ∷ rest)) (begin a rest) k u
      → u.outcome ≡ some r
      → u.to_drain ≡ 0
      → (count p u.opened ≡ count p u.closed + count p (opened_by r)) × (u.running ≡ [])
  Run-opened {u} p a rest r run o d =
      let v = Run-Inv (begin-Inv a rest) run in
      let left : Counts u (some r) = rw o at v.counts in
      let empty : u.results ≡ [] = no_results u.results (omega (arith, left, d)) in
      (
        omega (arith, Run-Kept p (refl) run, ap (count_results p) empty, ap (count_outcome p) o),
        no_results u.running (omega (arith, left, d)),
      )

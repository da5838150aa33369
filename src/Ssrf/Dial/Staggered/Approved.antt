-- ===== src/Ssrf/Dial/Staggered/Approved.antt =====
-- A staggered dial keeps to its list of addresses.
use jttp.Prelude.{
  ℕ, suc, ◌≡◌, refl, some, List, [], ◌∷◌, ◌++◌, length, All, All-append_one, ◌==◌, Bool-cases, inl,
  inr,
}
use jttp.Errors.{Result, ok, err}
use jttp.Ssrf.{Network}
use jttp.Ssrf.Dial.{Literal, Dialed}
use jttp.Ssrf.Dial.Policy.{KeepsTo}
use jttp.Ssrf.Dial.Staggered.{
  Timer, armed, off, Race, begin, start_next, completed_one, take_result, Step, dial_ends,
  timer_fires, loop_result, loop_timer, loop_context, loop_ends, drain, Run, here, next,
}

module _ {Conn : Type 0} (P : Literal → Type 0) where
  -- What was dialed, and what may be.
  abbrev Keeps : Race Conn → Type 0
  Keeps s = All P s.dialed × All P s.waiting

  start_next-Keeps :
      (s : Race Conn) (last more : Timer) (waiting : List Literal)
      → All P s.dialed
      → All P waiting
      → s.waiting ≡ waiting
      → Keeps (start_next s last more waiting)
  start_next-Keeps s last more [] d w e = (d, rw e tt)
  start_next-Keeps s last more (a ∷ []) d w e = (All-append_one P s.dialed a d w.0, tt)
  start_next-Keeps s last more (a ∷ b ∷ rest) d w e = (All-append_one P s.dialed a d w.0, w.1)

  take_result-Keeps :
      (s : Race Conn) (r : Result Conn) (rest : List (Result Conn))
      → Keeps s
      → Keeps (take_result s r rest)
  take_result-Keeps s (ok conn) rest h = h
  take_result-Keeps s (err x) rest h =
      let failed : Race Conn = record (completed_one s rest) { errs = s.errs ++ x ∷ [] } in
      elim (Bool-cases (suc s.completed == s.started)) [
        | inl alone ↦ rw alone (start_next-Keeps failed armed armed s.waiting h.0 h.1 refl)
        | inr others ↦ rw others h
      ]

  Step-Keeps : {n : ℕ} {s u : Race Conn} → Step n s u → Keeps s → Keeps u
  Step-Keeps (dial_ends s before after a r e) h = h
  Step-Keeps (timer_fires s e) h = h
  Step-Keeps (loop_result s r rest l e) h = take_result-Keeps s r rest h
  Step-Keeps (loop_timer s l e) h =
      start_next-Keeps (record s { timer = off }) off armed s.waiting h.0 h.1 refl
  Step-Keeps (loop_context s e l) h = h
  Step-Keeps (loop_ends s o l) h = h
  Step-Keeps (drain s r rest k d e) h = h

  Run-Keeps : {n : ℕ} {s : Race Conn} {k : ℕ} {u : Race Conn} → Keeps s → Run n s k u → Keeps u
  Run-Keeps h here = h
  Run-Keeps h (next r st) = Step-Keeps st (Run-Keeps h r)

module _ {Conn : Type 0} where
  -- A possible result of `dialApprovedAddresses`, with the addresses that are dialed by the end.
  pub record Answers (a : Literal) (rest : List Literal) (d : Dialed Conn) : Type 0 where
    pub steps : ℕ
    pub last : Race Conn
    pub run : Run (length (a ∷ rest)) (begin a rest) steps last
    pub returned : last.outcome ≡ some d.0
    pub dialed_are : d.1 ≡ last.dialed

  -- A function that always gives a possible result, on the lists that it is called with.
  abbrev pub IsStaggered : (Network → List Literal → Dialed Conn) → Type 0
  IsStaggered connect =
      (network : Network) (a : Literal) (rest : List Literal)
      → Answers a rest (connect network (a ∷ rest))

  pub IsStaggered-KeepsTo :
      (connect : Network → List Literal → Dialed Conn) → IsStaggered connect → KeepsTo connect
  IsStaggered-KeepsTo connect h P network a rest all =
      let answer = h network a rest in
      rw answer.dialed_are (Run-Keeps P ((all.0, tt), all.1) answer.run).0

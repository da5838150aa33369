-- ===== src/Ssrf/Dial/Staggered/Counts.antt =====
-- The counts of a staggered dial, and that it never waits for nothing.
use jttp.Prelude.{
  false, ℕ, suc, ◌+◌, ◌<◌, ◌≡◌, refl, sym, ap, ◌∙◌, Option, none, some, List, [], ◌∷◌, ◌++◌, length,
  length-append, arith, ◌==◌, Bool-cases, ◌⊎◌, inl, inr,
}
use jttp.Errors.{Result, ok, err}
use jttp.Ssrf.Dial.{Literal}
use jttp.Ssrf.Dial.Staggered.{
  Timer, armed, expired, off, Race, begin, start_next, return, completed_one, take_result,
  take_timer, opened_by, Step, dial_ends, timer_fires, loop_result, loop_timer, loop_context,
  loop_ends, drain, Run, here, next,
}

module _ {Conn : Type 0} where
  -- The attempts whose result was not taken.
  abbrev pub outstanding : Race Conn → ℕ
  outstanding s = length s.running + length s.results

  -- In the loop every attempt has completed or is outstanding, and while an address waits an attempt is
  -- outstanding; afterwards the draining goroutine waits for all that are.
  abbrev pub Counts : Race Conn → Option (Result Conn) → Type 0
  Counts s none =
      (s.started ≡ s.completed + outstanding s)
      × ((s.waiting ≡ []) ⊎ (s.completed < s.started))
      × (s.to_drain ≡ 0)
  Counts s (some r) = s.to_drain ≡ outstanding s

  pub record Inv (n : ℕ) (s : Race Conn) : Type 0 where
    pub all_there : s.started + length s.waiting ≡ n
    pub counts : Counts s s.outcome

  pub begin-Inv : (a : Literal) (rest : List Literal) → Inv (length (a ∷ rest)) (begin a rest)
  begin-Inv a rest = record { all_there = omega arith; counts = (refl, inr (omega arith), refl) }

  -- What a start keeps.
  record IsLoop (n : ℕ) (s : Race Conn) : Type 0 where
    open_still : s.outcome ≡ none
    all_there : s.started + length s.waiting ≡ n
    counted : s.started ≡ s.completed + outstanding s
    busy : (s.waiting ≡ []) ⊎ (s.completed < s.started)
    undrained : s.to_drain ≡ 0

  IsLoop-Inv : (n : ℕ) (s : Race Conn) → IsLoop n s → Inv n s
  IsLoop-Inv n s l = record {
    all_there = l.all_there;
    counts = rw l.open_still (l.counted, l.busy, l.undrained);
  }

  Inv-IsLoop : (n : ℕ) (s : Race Conn) → Inv n s → s.outcome ≡ none → IsLoop n s
  Inv-IsLoop n s v o =
      let c : Counts s none = rw o at v.counts in
      record { open_still = o; all_there = v.all_there; counted = c.0; busy = c.1; undrained = c.2 }

  start_next-IsLoop :
      (n : ℕ) (s : Race Conn) (last more : Timer) (waiting : List Literal)
      → s.waiting ≡ waiting
      → s.outcome ≡ none
      → s.started + length s.waiting ≡ n
      → s.started ≡ s.completed + outstanding s
      → s.to_drain ≡ 0
      → IsLoop n (start_next s last more waiting)
  start_next-IsLoop n s last more [] e o all counted d = record {
    open_still = o;
    all_there = all;
    counted = counted;
    busy = inl e;
    undrained = d;
  }
  start_next-IsLoop n s last more (a ∷ []) e o all counted d = record {
    open_still = o;
    all_there = omega (arith, ap (length {A = Literal}) e);
    counted = omega (arith, length-append {0} s.running (a ∷ []));
    busy = inl refl;
    undrained = d;
  }
  start_next-IsLoop n s last more (a ∷ b ∷ rest) e o all counted d = record {
    open_still = o;
    all_there = omega (arith, ap (length {A = Literal}) e);
    counted = omega (arith, length-append {0} s.running (a ∷ []));
    busy = inr (omega (arith, counted));
    undrained = d;
  }

  return-Inv :
      (n : ℕ) (s : Race Conn) (r : Result Conn)
      → s.started + length s.waiting ≡ n
      → s.started ≡ s.completed + outstanding s
      → Inv n (return s r)
  return-Inv n s r all counted = record { all_there = all; counts = omega (arith, counted) }

  take_result-Inv :
      (n : ℕ) (s : Race Conn) (r : Result Conn) (rest : List (Result Conn))
      → IsLoop n s
      → s.results ≡ r ∷ rest
      → Inv n (take_result s r rest)
  take_result-Inv n s (ok conn) rest l e =
      return-Inv n (completed_one s rest) (ok conn) l.all_there
        (omega (arith, l.counted, ap (length {A = Result Conn}) e))
  take_result-Inv n s (err x) rest l e =
      let failed : Race Conn = record (completed_one s rest) { errs = s.errs ++ x ∷ [] } in
      let counted : failed.started ≡ failed.completed + outstanding failed =
        omega (arith, l.counted, ap (length {A = Result Conn}) e) in
      elim (Bool-cases (suc s.completed == s.started)) [
        | inl alone ↦ rw alone (
            IsLoop-Inv n (start_next failed armed armed s.waiting) (
              start_next-IsLoop n failed armed armed s.waiting refl l.open_still l.all_there counted
                l.undrained))
        | inr others ↦ rw others (
            IsLoop-Inv n failed (record {
              open_still = l.open_still;
              all_there = l.all_there;
              counted = counted;
              busy = inr (still_busy others counted);
              undrained = l.undrained;
            }))
      ]
    where
      still_busy :
          (suc s.completed == s.started) ≡ false
          → s.started ≡ suc s.completed + (length s.running + length rest)
          → suc s.completed < s.started
      still_busy h c = ground arith

  Counts-same :
      (s u : Race Conn) (o : Option (Result Conn))
      → outstanding u ≡ outstanding s
      → u.started ≡ s.started
      → u.completed ≡ s.completed
      → u.waiting ≡ s.waiting
      → u.to_drain ≡ s.to_drain
      → Counts s o
      → Counts u o
  Counts-same s u none e f g h d c = (omega (arith, c.0), rw (h, f, g) c.1, d ∙ c.2)
  Counts-same s u (some r) e f g h d c = d ∙ (c ∙ sym e)

  -- Each step keeps the counts.
  Step-Inv : {n : ℕ} {s u : Race Conn} → Step n s u → Inv n s → Inv n u
  Step-Inv (dial_ends s before after a r e) v =
      let u : Race Conn = record s {
        running = before ++ after;
        results = s.results ++ r ∷ [];
        opened = s.opened ++ opened_by r;
      } in
      let same : outstanding u ≡ outstanding s = omega (
        arith,
        ap (length {A = Literal}) e,
        length-append {0} before (a ∷ after),
        length-append {0} before after,
        length-append {0} s.results (r ∷ []),
      ) in
      record {
        all_there = v.all_there;
        counts = Counts-same s u s.outcome same refl refl refl refl v.counts;
      }
  Step-Inv (timer_fires s e) v = record {
    all_there = v.all_there;
    counts =
        Counts-same s (record s { timer = expired }) s.outcome refl refl refl refl refl v.counts;
  }
  Step-Inv {n} (loop_result s r rest h e) v = take_result-Inv n s r rest (Inv-IsLoop n s v h.0) e
  Step-Inv {n} (loop_timer s h e) v =
      let l = Inv-IsLoop n s v h.0 in
      IsLoop-Inv n (take_timer s) (
        start_next-IsLoop n (record s { timer = off }) off armed s.waiting refl l.open_still
          l.all_there l.counted l.undrained)
  Step-Inv {n} (loop_context s e h) v =
      let l = Inv-IsLoop n s v h.0 in return-Inv n s (err e) l.all_there l.counted
  Step-Inv {n} (loop_ends s o h) v =
      let l = Inv-IsLoop n s v o in
      record {
        all_there = v.all_there;
        counts = omega (arith, l.undrained, l.counted, l.all_there);
      }
  Step-Inv {n} (drain s r rest k d e) v = record {
    all_there = v.all_there;
    counts = drained s.outcome v.counts;
  }
    where
      drained :
          (o : Option (Result Conn))
          → Counts s o
          → Counts (record s { to_drain = k; results = rest; closed = s.closed ++ opened_by r }) o
      drained none c = absurd (omega (arith, c.2))
      drained (some x) c = omega (arith, ap (length {A = Result Conn}) e)

  pub Run-Inv : {n : ℕ} {s : Race Conn} {k : ℕ} {u : Race Conn} → Inv n s → Run n s k u → Inv n u
  Run-Inv v here = v
  Run-Inv v (next r st) = Step-Inv st (Run-Inv v r)

  -- A staggered dial that has not returned, and has not seen every attempt complete, has an attempt whose
  -- dial runs or whose result waits: no order of the steps leaves it waiting for nothing.
  pub Run-outstanding :
      {k : ℕ} {u : Race Conn} (a : Literal) (rest : List Literal)
      → Run (length (a ∷ rest)) (begin a rest) k u
      → u.outcome ≡ none
      → u.completed < length (a ∷ rest)
      → 0 < outstanding u
  Run-outstanding {u} a rest r o small =
      let l = Inv-IsLoop (length (a ∷ rest)) u (Run-Inv (begin-Inv a rest) r) o in
      elim l.busy [
        | inl all_started ↦
            omega (arith, l.counted, l.all_there, ap (length {A = Literal}) all_started)
        | inr busy ↦ omega (arith, l.counted)
      ]

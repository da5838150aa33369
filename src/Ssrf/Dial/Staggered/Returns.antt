-- ===== src/Ssrf/Dial/Staggered/Returns.antt =====
-- What a staggered dial returns.
use mathlib.Core.List.{append_assoc, append-nil}
use jttp.Prelude.{
  ℕ, suc, ◌≡◌, refl, ap, ◌∙◌, Bool, true, false, ◌||◌, inl, inr, none, List, [], ◌∷◌, ◌++◌, length,
  length-append, arith, ◌==◌, Bool-cases,
}
use jttp.Errors.{Result, ok, err}
use jttp.Ssrf.Dial.{Literal}
use jttp.Ssrf.Dial.Staggered.{
  Timer, armed, expired, off, Race, begin, start_next, completed_one, take_result, Step, dial_ends,
  timer_fires, loop_result, loop_timer, loop_context, loop_ends, drain, Run, here, next,
}
use jttp.Ssrf.Dial.Staggered.Counts.{Inv, begin-Inv, Run-Inv}
use jttp.Ssrf.Dial.Staggered.Told.{
  conns, Told, dial_ends-Told, timer-Told, drain-Told, loop_ends-Told,
}

module _ {Conn : Type 0} where
  -- The loop takes the end of the context.
  abbrev is_context : {n : ℕ} {s u : Race Conn} → Step n s u → Bool
  is_context (dial_ends s before after a r e) = false
  is_context (timer_fires s e) = false
  is_context (loop_result s r rest l e) = false
  is_context (loop_timer s l e) = false
  is_context (loop_context s e l) = true
  is_context (loop_ends s o l) = false
  is_context (drain s r rest k d e) = false

  -- It did so in a run.
  abbrev pub is_cut_short : {n : ℕ} {s u : Race Conn} {k : ℕ} → Run n s k u → Bool
  is_cut_short here = false
  is_cut_short (next r st) = is_context st || is_cut_short r

  pub record Returns (n : ℕ) (addresses : List Literal) (s : Race Conn) (cut : Bool) : Type 0 where
    pub in_order : s.dialed ++ s.waiting ≡ addresses
    pub told : Told n s s.outcome cut

  begin-Returns :
      (a : Literal) (rest : List Literal)
      → Returns (length (a ∷ rest)) (a ∷ rest) (begin a rest) false
  begin-Returns a rest = record { in_order = refl; told = (refl, refl) }

  start_next-Returns :
      (n : ℕ) (addresses : List Literal) (s : Race Conn) (last more : Timer) (cut : Bool)
      (waiting : List Literal)
      → s.waiting ≡ waiting
      → Returns n addresses s cut
      → s.outcome ≡ none
      → Returns n addresses (start_next s last more waiting) cut
  start_next-Returns n addresses s last more cut waiting e v o = record {
    in_order = order waiting e;
    told = started waiting e;
  }
    where
      order :
          (ws : List Literal)
          → s.waiting ≡ ws
          → (start_next s last more ws).dialed ++ (start_next s last more ws).waiting ≡ addresses
      order [] h = v.in_order
      order (a ∷ []) h = append-nil (s.dialed ++ a ∷ []) ∙ rw h at v.in_order
      order (a ∷ b ∷ ws) h = append_assoc s.dialed (a ∷ []) (b ∷ ws) ∙ rw h at v.in_order

      started :
          (ws : List Literal)
          → s.waiting ≡ ws
          → Told n (start_next s last more ws) (start_next s last more ws).outcome cut
      started [] h = v.told
      started (a ∷ []) h = let t : Told n s none cut = rw o at v.told in rw o t
      started (a ∷ b ∷ ws) h = let t : Told n s none cut = rw o at v.told in rw o t

  take_result-Returns :
      (n : ℕ) (addresses : List Literal) (s : Race Conn) (r : Result Conn)
      (rest : List (Result Conn)) (cut : Bool)
      → s.outcome ≡ none
      → s.results ≡ r ∷ rest
      → Returns n addresses s cut
      → Returns n addresses (take_result s r rest) cut
  take_result-Returns n addresses s (ok conn) rest cut o e v =
      let t : Told n s none cut = rw o at v.told in
      record { in_order = v.in_order; told = ([], conns rest, t.0 ∙ ap conns e) }
  take_result-Returns n addresses s (err x) rest cut o e v =
      let t : Told n s none cut = rw o at v.told in
      let failed : Race Conn = record (completed_one s rest) { errs = s.errs ++ x ∷ [] } in
      let kept : Returns n addresses failed cut = record {
        in_order = v.in_order;
        told = rw o (t.0 ∙ ap conns e, omega (arith, t.1, length-append s.errs (x ∷ [])));
      } in
      elim (Bool-cases (suc s.completed == s.started)) [
        | inl alone ↦
            rw alone (start_next-Returns n addresses failed armed armed cut s.waiting refl kept o)
        | inr others ↦ rw others kept
      ]

  Step-Returns :
      {n : ℕ} {s u : Race Conn} (addresses : List Literal) (cut : Bool) (st : Step n s u)
      → Inv n s
      → Returns n addresses s cut
      → Returns n addresses u (is_context st || cut)
  Step-Returns {n} addresses cut (dial_ends s before after a r e) i v = record {
    in_order = v.in_order;
    told = dial_ends-Told n s before after a r s.outcome cut e v.told;
  }
  Step-Returns {n} addresses cut (timer_fires s e) i v = record {
    in_order = v.in_order;
    told = timer-Told n s expired s.outcome cut v.told;
  }
  Step-Returns {n} addresses cut (loop_result s r rest l e) i v =
      take_result-Returns n addresses s r rest cut l.0 e v
  Step-Returns {n} addresses cut (loop_timer s l e) i v =
      let stopped : Returns n addresses (record s { timer = off }) cut = record {
        in_order = v.in_order;
        told = timer-Told n s off s.outcome cut v.told;
      } in
      start_next-Returns n addresses (record s { timer = off }) off armed cut s.waiting refl stopped
        l.0
  Step-Returns {n} addresses cut (loop_context s e l) i v = record {
    in_order = v.in_order;
    told = tt;
  }
  Step-Returns {n} addresses cut (loop_ends s o l) i v = record {
    in_order = v.in_order;
    told = loop_ends-Told n s cut l i.all_there (rw o at i.counts) (rw o at v.told);
  }
  Step-Returns {n} addresses cut (drain s r rest k d e) i v = record {
    in_order = v.in_order;
    told = drain-Told n s r rest k s.outcome cut d i.counts v.told;
  }

  -- A staggered dial dials its addresses in order, once each at most. Until it returns, each attempt that
  -- it has seen complete gave an error, and the connections that its dials opened wait in the channel.
  -- When it has returned, it gave a connection that one of its dials opened; or it was cut short by the
  -- end of the context; or it has dialed all addresses, no dial runs or has opened a connection, and its
  -- error joins one error for each address.
  pub Run-Returns :
      (a : Literal) (rest : List Literal) {k : ℕ} {u : Race Conn}
      (run : Run (length (a ∷ rest)) (begin a rest) k u)
      → Returns (length (a ∷ rest)) (a ∷ rest) u (is_cut_short run)
  Run-Returns a rest here = begin-Returns a rest
  Run-Returns a rest (next run st) =
      Step-Returns (a ∷ rest) (is_cut_short run) st (Run-Inv (begin-Inv a rest) run)
        (Run-Returns a rest run)

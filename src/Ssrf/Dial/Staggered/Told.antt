-- ===== src/Ssrf/Dial/Staggered/Told.antt =====
-- What a state of a staggered dial tells of what it has returned.
use mathlib.Core.List.{append_assoc, append-nil}
use jttp.Prelude.{
  ℕ, suc, ◌+◌, ◌≤◌, ◌≡◌, refl, sym, ap, ◌∙◌, Bool, true, false, Option, none, some, List, [], ◌∷◌,
  ◌++◌, length, length-append, arith,
}
use jttp.Errors.{GoError, Result, ok, err, join}
use jttp.Ssrf.Dial.{Literal}
use jttp.Ssrf.Dial.Staggered.{Timer, off, Race, opened_by}
use jttp.Ssrf.Dial.Staggered.Counts.{Counts}

length-none : {A : Type 0} (xs : List A) → length xs ≡ 0 → xs ≡ []
length-none [] h = refl
length-none (x ∷ xs) h = absurd (omega arith)

module _ {Conn : Type 0} where
  -- The connections among some results.
  abbrev pub conns : List (Result Conn) → List Conn
  conns [] = []
  conns (r ∷ rs) = opened_by r ++ conns rs

  conns-append :
      (rs : List (Result Conn)) (r : Result Conn) → conns (rs ++ r ∷ []) ≡ conns rs ++ opened_by r
  conns-append [] r = append-nil (opened_by r)
  conns-append (x ∷ rs) r =
      ap (λ cs. opened_by x ++ cs) (conns-append rs r)
      ∙ sym (append_assoc (opened_by x) (conns rs) (opened_by r))

  abbrev pub IsAmong : Conn → List Conn → Type 0
  IsAmong c cs = (before : List Conn) × (after : List Conn) × (cs ≡ before ++ c ∷ after)

  -- Every dial has returned an error, and the result joins these errors.
  pub record AllFailed (n : ℕ) (s : Race Conn) (e : GoError) : Type 0 where
    pub none_runs : s.running ≡ []
    pub none_waits : s.waiting ≡ []
    pub none_opened : s.opened ≡ []
    pub an_error_each : length s.errs ≡ n
    pub joined : e ≡ join s.errs

  -- What is known of a state, from what it has returned and whether the context cut it short.
  abbrev pub Told : ℕ → Race Conn → Option (Result Conn) → Bool → Type 0
  Told n s none cut = (s.opened ≡ conns s.results) × (length s.errs ≡ s.completed)
  Told n s (some (ok c)) cut = IsAmong c s.opened
  Told n s (some (err e)) true = Unit
  Told n s (some (err e)) false = AllFailed n s e

  -- Another dial ends: none of those that a joined error tells of.
  pub dial_ends-Told :
      (n : ℕ) (s : Race Conn) (before after : List Literal) (a : Literal) (r : Result Conn)
      (o : Option (Result Conn)) (cut : Bool)
      → s.running ≡ before ++ a ∷ after
      → Told n s o cut
      → Told n
          (record s {
            running = before ++ after;
            results = s.results ++ r ∷ [];
            opened = s.opened ++ opened_by r;
          })
          o
          cut
  dial_ends-Told n s before after a r none cut e t =
      (ap (λ cs. cs ++ opened_by r) t.0 ∙ sym (conns-append s.results r), t.1)
  dial_ends-Told n s before after a r (some (ok c)) cut e (first, later, found) = (
    first,
    later ++ opened_by r,
    ap (λ cs. cs ++ opened_by r) found ∙ append_assoc first (c ∷ later) (opened_by r),
  )
  dial_ends-Told n s before after a r (some (err x)) true e t = tt
  dial_ends-Told n s before after a r (some (err x)) false e t = absurd (
      omega (
        arith,
        ap (length {A = Literal}) (sym e ∙ t.none_runs),
        length-append {0} before (a ∷ after),
      ))

  pub timer-Told :
      (n : ℕ) (s : Race Conn) (timer : Timer) (o : Option (Result Conn)) (cut : Bool)
      → Told n s o cut
      → Told n (record s { timer = timer }) o cut
  timer-Told n s timer none cut t = t
  timer-Told n s timer (some (ok c)) cut t = t
  timer-Told n s timer (some (err x)) true t = tt
  timer-Told n s timer (some (err x)) false t = record {
    none_runs = t.none_runs;
    none_waits = t.none_waits;
    none_opened = t.none_opened;
    an_error_each = t.an_error_each;
    joined = t.joined;
  }

  pub drain-Told :
      (n : ℕ) (s : Race Conn) (r : Result Conn) (rest : List (Result Conn)) (k : ℕ)
      (o : Option (Result Conn)) (cut : Bool)
      → s.to_drain ≡ suc k
      → Counts s o
      → Told n s o cut
      → Told n (record s { to_drain = k; results = rest; closed = s.closed ++ opened_by r }) o cut
  drain-Told n s r rest k none cut d c t = absurd (omega (arith, c.2))
  drain-Told n s r rest k (some (ok x)) cut d c t = t
  drain-Told n s r rest k (some (err x)) true d c t = tt
  drain-Told n s r rest k (some (err x)) false d c t = record {
    none_runs = t.none_runs;
    none_waits = t.none_waits;
    none_opened = t.none_opened;
    an_error_each = t.an_error_each;
    joined = t.joined;
  }

  -- The end of the loop: all have completed, so none is outstanding.
  pub loop_ends-Told :
      (n : ℕ) (s : Race Conn) (cut : Bool)
      → n ≤ s.completed
      → s.started + length s.waiting ≡ n
      → Counts s none
      → Told n s none cut
      → Told n
          (record s { outcome = some (err (join s.errs)); timer = off })
          (some (err (join s.errs)))
          cut
  loop_ends-Told n s true h all c t = tt
  loop_ends-Told n s false h all c t = record {
    none_runs = length-none s.running (omega (arith, c.0));
    none_waits = length-none s.waiting (omega (arith, c.0));
    none_opened = t.0 ∙ ap conns (length-none s.results (omega (arith, c.0)));
    an_error_each = omega (arith, c.0, t.1);
    joined = refl;
  }

-- ===== src/Guard/Watchdog/Alive.antt =====
-- A watchdog that is not done can always still cancel.
use jttp.Prelude.{
  ℕ, suc, ◌+◌, ◌-◌, ◌≡◌, ◌≢◌, ◌≤◌, refl, ap, ◌∙◌, Bool, true, false, none, some, ◌⊎◌, inl, inr,
  arith, leb, Bool-cases,
}
use jttp.Guard.Watchdog.{
  Watchdog, Fire, resting, begun, read_clock, idle, rearming, stopping, new_idle_watchdog, Step,
  passes, timer_due, fire_done, fire_reads, fire_idle, fire_early, fire_cancels, fire_loses,
  fire_rearms, reset_reads, reset_stores, stop_wins, stop_timer, Reach, here, next,
}
use jttp.Guard.Watchdog.Once.{Balanced, Step-Balanced, bit, wins}

-- It is done, or a call of `fire` is on its way, or the timer is set.
abbrev IsAlive : Watchdog → Type 0
IsAlive s = (s.done ≡ true) ⊎ ((s.fire ≢ resting) ⊎ ((d : ℕ) × (s.timer ≡ some d)))

stop-done : (s : Watchdog) (b : Bool) → s.cancels + wins stopping ≡ bit b → b ≡ true
stop-done s true h = refl
stop-done s false h = absurd (omega arith)

Step-IsAlive : {n : ℕ} {s u : Watchdog} → Step n s u → Balanced s → IsAlive s → IsAlive u
Step-IsAlive (passes s d) b a = a
Step-IsAlive (timer_due s d e l f) b a = inr (inl (λ e. cc))
Step-IsAlive (fire_done s f d) b a = inl d
Step-IsAlive (fire_reads s f d) b a = inr (inl (λ e. cc))
Step-IsAlive (fire_idle s now f l) b a = inr (inl (λ e. cc))
Step-IsAlive (fire_early s now f l) b a = inr (inl (λ e. cc))
Step-IsAlive (fire_cancels s f d) b a = inl refl
Step-IsAlive (fire_loses s f d) b a = inl d
Step-IsAlive (fire_rearms s r f) b a = inr (inr (s.clock + r, refl))
Step-IsAlive (reset_reads s p d) b a = a
Step-IsAlive (reset_stores s now p) b a = a
Step-IsAlive (stop_wins s d) b a = inl refl
Step-IsAlive (stop_timer s e) b a = inl (stop-done s s.done (omega (arith, b, ap wins e)))

Reach-IsAlive :
    {n : ℕ} {s u : Watchdog} → Balanced s → IsAlive s → Reach n s u → Balanced u × IsAlive u
Reach-IsAlive b a here = (b, a)
Reach-IsAlive b a (next r st) =
    let (balanced, alive) = Reach-IsAlive b a r in
    (Step-Balanced st balanced, Step-IsAlive st balanced alive)

Reach-trans : {n : ℕ} {s t : Watchdog} {u : Watchdog} → Reach n s t → Reach n t u → Reach n s u
Reach-trans p here = p
Reach-trans p (next r st) = next (Reach-trans p r) st

-- Steps lead to a cancellation, with no Reset that stores and no Stop that wins among them.
pub record CanCancel (n : ℕ) (s : Watchdog) : Type 0 where
  pub last : Watchdog
  pub reach : Reach n s last
  pub cancelled : last.cancels ≡ suc s.cancels
  pub same_ticks : last.ticks ≡ s.ticks
  pub same_stop : last.stop ≡ s.stop

CanCancel-Step :
    {n : ℕ} {s t : Watchdog}
    → Step n s t
    → t.cancels ≡ s.cancels
    → t.ticks ≡ s.ticks
    → t.stop ≡ s.stop
    → CanCancel n t
    → CanCancel n s
CanCancel-Step st c k p v = record {
  last = v.last;
  reach = Reach-trans (next here st) v.reach;
  cancelled = v.cancelled ∙ ap suc c;
  same_ticks = v.same_ticks ∙ k;
  same_stop = v.same_stop ∙ p;
}

module _ (n : ℕ) where
  idle-CanCancel : (s : Watchdog) → s.fire ≡ idle → s.done ≡ false → CanCancel n s
  idle-CanCancel s f d = record {
    last = record s { done = true; cancels = suc s.cancels; fire = resting };
    reach = next here (fire_cancels s f d);
    cancelled = refl;
    same_ticks = refl;
    same_stop = refl;
  }

  late-CanCancel :
      (s : Watchdog) (now : ℕ)
      → s.fire ≡ read_clock now
      → s.last_tick + n ≤ now
      → s.done ≡ false
      → CanCancel n s
  late-CanCancel s now f l d =
      CanCancel-Step (fire_idle s now f l) refl refl refl
        (idle-CanCancel (record s { fire = idle }) refl d)

  begun_late-CanCancel :
      (s : Watchdog) → s.fire ≡ begun → s.last_tick + n ≤ s.clock → s.done ≡ false → CanCancel n s
  begun_late-CanCancel s f l d =
      CanCancel-Step (fire_reads s f d) refl refl refl
        (late-CanCancel (record s { fire = read_clock s.clock }) s.clock refl l d)

  armed-CanCancel :
      (s : Watchdog) (due : ℕ)
      → s.timer ≡ some due
      → s.fire ≡ resting
      → s.done ≡ false
      → CanCancel n s
  armed-CanCancel s due t f d =
      let later : Watchdog = record s { clock = s.clock + (due + (s.last_tick + n)) } in
      CanCancel-Step (passes s (due + (s.last_tick + n))) refl refl refl (
        CanCancel-Step (timer_due later due t (omega arith) f) refl refl refl
          (begun_late-CanCancel (record later { timer = none; fire = begun }) refl (omega arith) d))

  rearming-CanCancel : (s : Watchdog) (r : ℕ) → s.fire ≡ rearming r → s.done ≡ false → CanCancel n s
  rearming-CanCancel s r f d = CanCancel-Step (fire_rearms s r f) refl refl refl (
      armed-CanCancel (record s { timer = some (s.clock + r); fire = resting }) (s.clock + r) refl
        refl d)

  read-CanCancel :
      (s : Watchdog) (now : ℕ) → s.fire ≡ read_clock now → s.done ≡ false → CanCancel n s
  read-CanCancel s now f d = elim (Bool-cases (leb (s.last_tick + n) now)) [
    | inl late ↦ late-CanCancel s now f (ground arith) d
    | inr early ↦
        let remaining = s.last_tick + n - now in
        CanCancel-Step (fire_early s now f (ground arith)) refl refl refl
          (rearming-CanCancel (record s { fire = rearming remaining }) remaining refl d)
  ]

  fire-CanCancel :
      (s : Watchdog) (f : Fire) → s.fire ≡ f → f ≢ resting → s.done ≡ false → CanCancel n s
  fire-CanCancel s resting e h d = absurd (h refl)
  fire-CanCancel s begun e h d =
      CanCancel-Step (fire_reads s e d) refl refl refl
        (read-CanCancel (record s { fire = read_clock s.clock }) s.clock refl d)
  fire-CanCancel s (read_clock now) e h d = read-CanCancel s now e d
  fire-CanCancel s idle e h d = idle-CanCancel s e d
  fire-CanCancel s (rearming r) e h d = rearming-CanCancel s r e d

  rest-CanCancel :
      (s : Watchdog) (f : Fire) (due : ℕ)
      → s.fire ≡ f
      → s.timer ≡ some due
      → s.done ≡ false
      → CanCancel n s
  rest-CanCancel s resting due e t d = armed-CanCancel s due t e d
  rest-CanCancel s begun due e t d = fire-CanCancel s begun e (λ p. cc) d
  rest-CanCancel s (read_clock now) due e t d = fire-CanCancel s (read_clock now) e (λ p. cc) d
  rest-CanCancel s idle due e t d = fire-CanCancel s idle e (λ p. cc) d
  rest-CanCancel s (rearming r) due e t d = fire-CanCancel s (rearming r) e (λ p. cc) d

-- The timer is never lost: from each state that a watchdog reaches without being done, steps of the
-- clock, the timer and `fire` alone lead to a cancellation, with no Reset that stores and no Stop that
-- wins among them.
pub Reach-CanCancel :
    {timeout now : ℕ} {s : Watchdog}
    → Reach timeout (new_idle_watchdog timeout now) s
    → s.done ≡ false
    → CanCancel timeout s
Reach-CanCancel {timeout} {now} {s} r d =
    elim (Reach-IsAlive refl (inr (inr (now + timeout, refl))) r).1 [
      | inl done ↦ absurd (cc)
      | inr (inl running) ↦ fire-CanCancel timeout s s.fire refl running d
      | inr (inr (due, armed)) ↦ rest-CanCancel timeout s s.fire due refl armed d
    ]

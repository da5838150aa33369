-- ===== src/Guard/Watchdog/Quiet.antt =====
-- A watchdog takes its body for idle only if it is.
use jttp.Prelude.{
  All-map, ℕ, suc, ◌+◌, ◌-◌, ◌≡◌, ◌≢◌, ◌≤◌, refl, true, Option, none, some, All, arith,
}
use jttp.Guard.Watchdog.{
  Watchdog, Fire, resting, begun, read_clock, idle, rearming, new_idle_watchdog, Step, passes,
  timer_due, fire_done, fire_reads, fire_idle, fire_early, stopping, stopped, fire_cancels,
  fire_loses, fire_rearms, reset_reads, reset_stores, stop_wins, stop_timer, Reach, here, next,
}

abbrev IsPast : ℕ → Option ℕ → Type 0
IsPast clock none = Unit
IsPast clock (some t) = t ≤ clock

-- A value that is about to be stored is not before the last.
abbrev IsLater : ℕ → Option ℕ → Type 0
IsLater last none = Unit
IsLater last (some t) = last ≤ t

abbrev IsRead : ℕ → Fire → Type 0
IsRead clock resting = Unit
IsRead clock begun = Unit
IsRead clock (read_clock now) = now ≤ clock
IsRead clock idle = Unit
IsRead clock (rearming r) = Unit

-- No tick is after the last, and none is in the future.
record Inv (s : Watchdog) : Type 0 where
  newest : All (λ t. t ≤ s.last_tick) s.ticks
  past : s.last_tick ≤ s.clock
  pending_past : IsPast s.clock s.pending
  pending_later : IsLater s.last_tick s.pending
  read_past : IsRead s.clock s.fire

IsPast-later : (a b : ℕ) (o : Option ℕ) → a ≤ b → IsPast a o → IsPast b o
IsPast-later a b none le h = tt
IsPast-later a b (some t) le h = omega arith

IsRead-later : (a b : ℕ) (f : Fire) → a ≤ b → IsRead a f → IsRead b f
IsRead-later a b resting le h = tt
IsRead-later a b begun le h = tt
IsRead-later a b (read_clock now) le h = omega arith
IsRead-later a b idle le h = tt
IsRead-later a b (rearming r) le h = tt

new_idle_watchdog-Inv : (timeout now : ℕ) → Inv (new_idle_watchdog timeout now)
new_idle_watchdog-Inv timeout now = record {
  newest = omega arith;
  past = omega arith;
  pending_past = tt;
  pending_later = tt;
  read_past = tt;
}

-- A step that changes neither ticks nor clock, and leaves `fire` as it is or where nothing was read.
Inv-fire : (s : Watchdog) (f : Fire) → IsRead s.clock f → Inv s → Inv (record s { fire = f })
Inv-fire s f r v = record {
  newest = v.newest;
  past = v.past;
  pending_past = v.pending_past;
  pending_later = v.pending_later;
  read_past = r;
}

Inv-rest :
    (s u : Watchdog)
    → u.clock ≡ s.clock
    → u.last_tick ≡ s.last_tick
    → u.ticks ≡ s.ticks
    → u.pending ≡ s.pending
    → IsRead s.clock u.fire
    → Inv s
    → Inv u
Inv-rest s u c l t p r v = record {
  newest = rw (t, l) v.newest;
  past = rw (c, l) v.past;
  pending_past = rw (c, p) v.pending_past;
  pending_later = rw (l, p) v.pending_later;
  read_past = rw c r;
}

Step-Inv : {n : ℕ} {s u : Watchdog} → Step n s u → Inv s → Inv u
Step-Inv (passes s d) v = record {
  newest = v.newest;
  past = omega (arith, v.past);
  pending_past = IsPast-later s.clock (s.clock + d) s.pending (omega arith) v.pending_past;
  pending_later = v.pending_later;
  read_past = IsRead-later s.clock (s.clock + d) s.fire (omega arith) v.read_past;
}
Step-Inv (timer_due s d e l f) v =
    Inv-rest s (record s { timer = none; fire = begun }) refl refl refl refl tt v
Step-Inv (fire_done s f d) v = Inv-fire s resting tt v
Step-Inv (fire_reads s f d) v = Inv-fire s (read_clock s.clock) (omega arith) v
Step-Inv (fire_idle s now f l) v = Inv-fire s idle tt v
Step-Inv {n} (fire_early s now f l) v = Inv-fire s (rearming (s.last_tick + n - now)) tt v
Step-Inv (fire_cancels s f d) v =
    Inv-rest s (record s { done = true; cancels = suc s.cancels; fire = resting }) refl refl refl
      refl tt v
Step-Inv (fire_loses s f d) v = Inv-fire s resting tt v
Step-Inv (fire_rearms s r f) v =
    Inv-rest s (record s { timer = some (s.clock + r); fire = resting }) refl refl refl refl tt v
Step-Inv (reset_reads s p d) v = record {
  newest = v.newest;
  past = v.past;
  pending_past = omega arith;
  pending_later = v.past;
  read_past = v.read_past;
}
Step-Inv (reset_stores s now p) v =
    let later : s.last_tick ≤ now = rw p at v.pending_later in
    let before : now ≤ s.clock = rw p at v.pending_past in
    record {
      newest = (
        omega arith,
        All-map (λ t. t ≤ s.last_tick) (λ t. t ≤ now) s.ticks (λ t h. omega (arith, h, later))
            v.newest,
      );
      past = before;
      pending_past = tt;
      pending_later = tt;
      read_past = v.read_past;
    }
Step-Inv (stop_wins s d) v =
    Inv-rest s (record s { done = true; stop = stopping }) refl refl refl refl v.read_past v
Step-Inv (stop_timer s e) v =
    Inv-rest s (record s { timer = none; stop = stopped }) refl refl refl refl v.read_past v

Reach-Inv : {n : ℕ} {s u : Watchdog} → Inv s → Reach n s u → Inv u
Reach-Inv v here = v
Reach-Inv v (next r st) = Step-Inv st (Reach-Inv v r)

-- What a step needs that takes the body for idle.
Step-idle :
    {n : ℕ} {s u : Watchdog}
    → Step n s u
    → s.fire ≢ idle
    → u.fire ≡ idle
    → (now : ℕ) × (s.fire ≡ read_clock now) × (s.last_tick + n ≤ now)
Step-idle (passes s d) h e = absurd (h e)
Step-idle (timer_due s d t l f) h e = absurd (cc)
Step-idle (fire_done s f d) h e = absurd (cc)
Step-idle (fire_reads s f d) h e = absurd (cc)
Step-idle (fire_idle s now f l) h e = (now, f, l)
Step-idle (fire_early s now f l) h e = absurd (cc)
Step-idle (fire_cancels s f d) h e = absurd (cc)
Step-idle (fire_loses s f d) h e = absurd (cc)
Step-idle (fire_rearms s r f) h e = absurd (cc)
Step-idle (reset_reads s p d) h e = absurd (h e)
Step-idle (reset_stores s now p) h e = absurd (h e)
Step-idle (stop_wins s d) h e = absurd (h e)
Step-idle (stop_timer s t) h e = absurd (h e)

-- Whatever the order of the steps, `fire` takes its body for idle only if every tick that was stored by
-- then, the first and those of all Resets, is at least a timeout old.
pub Reach-quiet :
    {timeout now : ℕ} {s u : Watchdog}
    → Reach timeout (new_idle_watchdog timeout now) s
    → Step timeout s u
    → s.fire ≢ idle
    → u.fire ≡ idle
    → All (λ t. t + timeout ≤ s.clock) s.ticks
Reach-quiet {timeout} {now} {s} r st h e =
    let v = Reach-Inv (new_idle_watchdog-Inv timeout now) r in
    let (read, at_read, quiet) = Step-idle st h e in
    let past : read ≤ s.clock = rw at_read at v.read_past in
    All-map (λ t. t ≤ s.last_tick) (λ t. t + timeout ≤ s.clock) s.ticks
      (λ t le. omega (arith, le, quiet, past)) v.newest

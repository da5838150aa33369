-- ===== src/Guard/Watchdog.antt =====
-- guard.go: `idleWatchdog`, with the steps in which its timer, its Resets and its Stop interleave.
pub mod Once
pub mod Quiet
pub mod Alive
use jttp.Prelude.{
  ℕ, suc, ◌+◌, ◌-◌, ◌<◌, ◌≤◌, ◌≡◌, Bool, true, false, Option, none, some, List, [], ◌∷◌,
}

-- Where a call of `fire` is: not running, at its first test, with the time that it read, past its
-- comparison with the verdict idle, or about to reset the timer to what remains.
pub data Fire : Type 0 where
  resting begun : Fire
  read_clock : ℕ → Fire
  idle : Fire
  rearming : ℕ → Fire

-- Where a call of Stop is: none has won its CompareAndSwap, one has and is to stop the timer, or it did.
pub data Stopping : Type 0 where
  not_stopped stopping stopped : Stopping

-- The fields, the time in nanoseconds, the calls of `fire` and Stop, and the value that a Reset is about
-- to store. `timer` is the time at which the timer is due. `ticks` has the values that were stored, and
-- `cancels` counts the calls of `cancel`.
pub record Watchdog : Type 0 where
  pub clock : ℕ
  pub last_tick : ℕ
  pub done : Bool
  pub timer : Option ℕ
  pub fire : Fire
  pub stop : Stopping
  pub pending : Option ℕ
  pub ticks : List ℕ
  pub cancels : ℕ

-- `newIdleWatchdog` at the time `now`, with a positive timeout.
abbrev pub new_idle_watchdog : ℕ → ℕ → Watchdog
new_idle_watchdog timeout now = record {
  clock = now;
  last_tick = now;
  done = false;
  timer = some (now + timeout);
  fire = resting;
  stop = not_stopped;
  pending = none;
  ticks = now ∷ [];
  cancels = 0;
}

-- One step. Time passes; the timer, when due, calls `fire`, which tests `done`, reads the clock, compares
-- it with the last tick and then either sets `done` and cancels, or resets the timer. A Reset tests
-- `done`, reads the clock and stores; the one reader of the body calls it, so one at a time. A Stop that
-- finds `done` unset sets it and stops the timer.
pub data Step (timeout : ℕ) : Watchdog → Watchdog → Type 0 where
  passes : (s : Watchdog) (d : ℕ) → Step timeout s (record s { clock = s.clock + d })
  timer_due :
      (s : Watchdog) (at_time : ℕ)
      → s.timer ≡ some at_time
      → at_time ≤ s.clock
      → s.fire ≡ resting
      → Step timeout s (record s { timer = none; fire = begun })
  fire_done :
      (s : Watchdog) → s.fire ≡ begun → s.done ≡ true → Step timeout s (record s { fire = resting })
  fire_reads :
      (s : Watchdog)
      → s.fire ≡ begun
      → s.done ≡ false
      → Step timeout s (record s { fire = read_clock s.clock })
  fire_idle :
      (s : Watchdog) (now : ℕ)
      → s.fire ≡ read_clock now
      → s.last_tick + timeout ≤ now
      → Step timeout s (record s { fire = idle })
  fire_early :
      (s : Watchdog) (now : ℕ)
      → s.fire ≡ read_clock now
      → now < s.last_tick + timeout
      → Step timeout s (record s { fire = rearming (s.last_tick + timeout - now) })
  fire_cancels :
      (s : Watchdog)
      → s.fire ≡ idle
      → s.done ≡ false
      → Step timeout s (record s { done = true; cancels = suc s.cancels; fire = resting })
  fire_loses :
      (s : Watchdog) → s.fire ≡ idle → s.done ≡ true → Step timeout s (record s { fire = resting })
  fire_rearms :
      (s : Watchdog) (remaining : ℕ)
      → s.fire ≡ rearming remaining
      → Step timeout s (record s { timer = some (s.clock + remaining); fire = resting })
  reset_reads :
      (s : Watchdog)
      → s.pending ≡ none
      → s.done ≡ false
      → Step timeout s (record s { pending = some s.clock })
  reset_stores :
      (s : Watchdog) (now : ℕ)
      → s.pending ≡ some now
      → Step timeout s (record s { last_tick = now; ticks = now ∷ s.ticks; pending = none })
  stop_wins :
      (s : Watchdog) → s.done ≡ false → Step timeout s (record s { done = true; stop = stopping })
  stop_timer :
      (s : Watchdog)
      → s.stop ≡ stopping
      → Step timeout s (record s { timer = none; stop = stopped })

pub data Reach (timeout : ℕ) (s : Watchdog) : Watchdog → Type 0 where
  here : Reach timeout s s
  next : {t u : Watchdog} → Reach timeout s t → Step timeout t u → Reach timeout s u

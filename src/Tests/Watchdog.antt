-- ===== src/Tests/Watchdog.antt =====
-- The theorems on the idle watchdog, applied.
use jttp.Prelude.{◌+◌, ◌≡◌, ◌≤◌, refl, true, none, some, [], ◌∷◌, All, arith}
use jttp.Guard.Watchdog.{
  Watchdog, resting, read_clock, new_idle_watchdog, passes, timer_due, fire_reads, fire_early,
  fire_idle, fire_cancels, fire_rearms, reset_reads, reset_stores, Reach, here, next,
}
use jttp.Guard.Watchdog.Once.{wins, bit, Reach-cancels}
use jttp.Guard.Watchdog.Quiet.{Reach-quiet}
use jttp.Guard.Watchdog.Alive.{CanCancel, Reach-CanCancel}

-- A timeout of 10 from time 0: a Reset at time 4, then `fire` finds it early at 10 and late at 14.
abbrev early : Watchdog
early = record (new_idle_watchdog 10 0) {
  clock = 10;
  last_tick = 4;
  ticks = 4 ∷ 0 ∷ [];
  timer = some 14;
}

Reach-early : Reach 10 (new_idle_watchdog 10 0) early
Reach-early =
    next
      (next
        (next
          (next
            (next
              (next (next (next here (passes (new_idle_watchdog 10 0) 4)) (reset_reads _ refl refl))
                (reset_stores _ 4 refl))
              (passes _ 6))
            (timer_due _ 10 refl (omega arith) refl))
          (fire_reads _ refl refl))
        (fire_early _ 10 refl (omega arith)))
      (fire_rearms _ 4 refl)

abbrev late : Watchdog
late = record early { clock = 14; timer = none; fire = read_clock 14 }

Reach-late : Reach 10 (new_idle_watchdog 10 0) late
Reach-late =
    next (next (next Reach-early (passes early 4)) (timer_due _ 14 refl (omega arith) refl))
      (fire_reads _ refl refl)

Reach-quiet_example : All (λ t. t + 10 ≤ 14) (4 ∷ 0 ∷ [])
Reach-quiet_example =
    Reach-quiet {timeout = 10} {now = 0} Reach-late (fire_idle late 14 refl (omega arith)) (λ e. cc)
      refl

abbrev cancelled : Watchdog
cancelled = record late { fire = resting; done = true; cancels = 1 }

Reach-cancelled : Reach 10 (new_idle_watchdog 10 0) cancelled
Reach-cancelled =
    next (next Reach-late (fire_idle late 14 refl (omega arith))) (fire_cancels _ refl refl)

Reach-cancels_example : cancelled.cancels + wins cancelled.stop ≡ bit cancelled.done
Reach-cancels_example = Reach-cancels {timeout = 10} {now = 0} Reach-cancelled

Reach-CanCancel_example : CanCancel 10 early
Reach-CanCancel_example = Reach-CanCancel {now = 0} Reach-early refl

-- ===== src/Guard/Watchdog/Once.antt =====
-- A watchdog cancels at most once, and not after it was stopped.
use jttp.Prelude.{ℕ, ◌+◌, ◌≡◌, refl, ap, Bool, true, false, arith}
use jttp.Guard.Watchdog.{
  Watchdog, Stopping, not_stopped, stopping, stopped, new_idle_watchdog, Step, passes, timer_due,
  fire_done, fire_reads, fire_idle, fire_early, fire_cancels, fire_loses, fire_rearms, reset_reads,
  reset_stores, stop_wins, stop_timer, Reach, here, next,
}

-- The Stops that won.
abbrev pub wins : Stopping → ℕ
wins not_stopped = 0
wins stopping = 1
wins stopped = 1

abbrev pub bit : Bool → ℕ
bit false = 0
bit true = 1

-- Exactly one of a cancellation and a winning Stop has set `done`.
abbrev pub Balanced : Watchdog → Type 0
Balanced s = s.cancels + wins s.stop ≡ bit s.done

win_first : (s : Watchdog) → Balanced s → s.done ≡ false → wins s.stop ≡ 0
win_first s b d = omega (arith, b, ap bit d)

pub Step-Balanced : {n : ℕ} {s u : Watchdog} → Step n s u → Balanced s → Balanced u
Step-Balanced (passes s d) b = b
Step-Balanced (timer_due s d e l f) b = b
Step-Balanced (fire_done s f d) b = b
Step-Balanced (fire_reads s f d) b = b
Step-Balanced (fire_idle s now f l) b = b
Step-Balanced (fire_early s now f l) b = b
Step-Balanced (fire_cancels s f d) b = omega (arith, b, ap bit d)
Step-Balanced (fire_loses s f d) b = b
Step-Balanced (fire_rearms s r f) b = b
Step-Balanced (reset_reads s p d) b = b
Step-Balanced (reset_stores s now p) b = b
Step-Balanced (stop_wins s d) b = omega (arith, b, ap bit d)
Step-Balanced (stop_timer s e) b = omega (arith, b, ap wins e)

Reach-Balanced : {n : ℕ} {s u : Watchdog} → Balanced s → Reach n s u → Balanced u
Reach-Balanced b here = b
Reach-Balanced b (next r st) = Step-Balanced st (Reach-Balanced b r)

-- Whatever the order of the steps, a watchdog cancels at most once; it does not cancel at all if a Stop
-- came first, and `done` is set exactly if one of the two happened.
pub Reach-cancels :
    {timeout now : ℕ} {s : Watchdog}
    → Reach timeout (new_idle_watchdog timeout now) s
    → s.cancels + wins s.stop ≡ bit s.done
Reach-cancels r = Reach-Balanced refl r
